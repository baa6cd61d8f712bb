-- ===== src/Balancing.antt =====
-- app/router/balancing.go, balancing_override.go, strategy_random.go: a balancer picks one of its outbounds.
-- A report of the observatory is what it tells of outbounds by tag; `none` is that there is no
-- observatory, no report or one of another type. Tags are bytes, and the empty tag is none.
pub mod Rotation
mod Tests
use dpi_warrior_native_xray.Base.{
  ℕ, ◌+◌, ◌%◌, Bool, true, Option, none, some, List, [], ◌∷◌, if◌then◌else◌, length, find, insert,
  bytes_eq, get_elem?, ◌>>=◌,
}
use dpi_warrior_native_xray.Base.Outcome.{Outcome, returns, fails, panics}

abbrev pub Tag : Type 0
Tag = List ℕ

-- `statusMap`: a later report on an outbound replaces an earlier one.
unfoldable pub status_map : List (Tag × Bool) → List (Tag × Bool) → List (Tag × Bool)
status_map m [] = m
status_map m ((tag, alive) ∷ status) = status_map (insert tag alive m) status

-- A candidate that is not found is considered alive.
unfoldable pub is_alive : List (Tag × Bool) → Tag → Bool
is_alive m tag = elim (find tag m) [ none ↦ true | some alive ↦ alive ]

unfoldable pub alive_tags : List (Tag × Bool) → List Tag → List Tag
alive_tags m [] = []
alive_tags m (tag ∷ tags) =
    let rest = alive_tags m tags in if is_alive m tag then tag ∷ rest else rest

unfoldable pub candidates : Option (List (Tag × Bool)) → List Tag → List Tag
candidates none tags = tags
candidates (some status) tags = alive_tags (status_map [] status) tags

-- `RoundRobinStrategy.PickOutbound` from an index: the next index and the tag; `none` is a panic.
unfoldable pub pick_at : ℕ → List Tag → Option (ℕ × Tag)
pick_at index [] = some (index, [])
pick_at index (tag ∷ tags) =
    let n = length (tag ∷ tags) in
    do picked ← get_elem? (tag ∷ tags) (index % n); some ((index + 1) % n, picked)

unfoldable pub pick_round_robin : Option (List (Tag × Bool)) → ℕ → List Tag → Option (ℕ × Tag)
pick_round_robin report index tags = pick_at index (candidates report tags)

-- `RandomStrategy.PickOutbound`; `roll` is that of package dice.
unfoldable pub pick_rolled : (ℕ → ℕ) → List Tag → Option Tag
pick_rolled roll [] = some []
pick_rolled roll (tag ∷ tags) = get_elem? (tag ∷ tags) (roll (length (tag ∷ tags)))

unfoldable pub pick_random : (ℕ → ℕ) → Option (List (Tag × Bool)) → List Tag → Option Tag
pick_random roll report tags = pick_rolled roll (candidates report tags)

-- The two strategies that are modelled; the index of the first is its state.
pub data Strategy : Type 0 where
  round_robin : ℕ → Strategy
  random : (ℕ → ℕ) → Strategy

unfoldable pub pick : Strategy → Option (List (Tag × Bool)) → List Tag → Option (Strategy × Tag)
pick (round_robin index) report tags = do
  (next, tag) ← pick_round_robin report index tags
  some (round_robin next, tag)
pick (random roll) report tags = do tag ← pick_random roll report tags; some (random roll, tag)

-- `override_target` is the target of `override`, empty if there is none.
pub record Balancer : Type 0 where
  pub strategy : Strategy
  pub fallback_tag : Tag
  pub override_target : Tag

-- The fallback, or an error if there is none.
unfoldable pub fall_back : Tag → Outcome Tag
fall_back [] = fails
fall_back (c ∷ tag) = returns (c ∷ tag)

-- The tag that was picked, unless it is empty.
unfoldable pub finish_pick : Tag → Tag → Outcome Tag
unfolding fall_back
finish_pick fallback [] = fall_back fallback
finish_pick fallback (c ∷ tag) = returns (c ∷ tag)

-- The strategy's turn.
unfoldable pub pick_strategy : Balancer → Option (Strategy × Tag) → Balancer × Outcome Tag
pick_strategy b none = (b, panics)
pick_strategy b (some (strategy, tag)) =
    (record b { strategy = strategy }, finish_pick b.fallback_tag tag)

unfoldable pub pick_target :
    Balancer → Option (List (Tag × Bool)) → List Tag → Tag → Balancer × Outcome Tag
pick_target b report tags [] = pick_strategy b (pick b.strategy report tags)
pick_target b report tags (c ∷ target) = (b, finish_pick b.fallback_tag (c ∷ target))

-- `Balancer.PickOutbound`, with what the outbound manager selects, or `none` if it cannot.
unfoldable pub pick_outbound :
    Balancer → Option (List (Tag × Bool)) → Option (List Tag) → Balancer × Outcome Tag
pick_outbound b report none = (b, fall_back b.fallback_tag)
pick_outbound b report (some tags) = pick_target b report tags b.override_target
