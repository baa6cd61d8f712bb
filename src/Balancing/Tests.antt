-- ===== src/Balancing/Tests.antt =====
-- A round robin over three outbounds, one of which is down, and the theorem at it.
use dpi_warrior_native_xray.Base.{
  ◌≡◌, ◌<◌, refl, Bool, true, false, Option, some, List, [], ◌∷◌, ◌++◌, length, take, drop, arith,
  find, insert, erase, same_bytes, get_elem?,
}
use dpi_warrior_native_xray.Base.Outcome.{returns}
use dpi_warrior_native_xray.Balancing.{
  Tag, candidates, alive_tags, is_alive, status_map, pick_at, pick_round_robin, round_robin, pick,
  Balancer, pick_outbound, pick_target, pick_strategy, finish_pick,
}
use dpi_warrior_native_xray.Balancing.Rotation.{picks, picks-rotation}

abbrev three_tags : List Tag
three_tags = (b'a' ∷ []) ∷ (b'b' ∷ []) ∷ (b'c' ∷ []) ∷ []

-- The later report on b holds: it is down.
abbrev some_report : Option (List (Tag × Bool))
some_report = some ((b'b' ∷ [], true) ∷ (b'a' ∷ [], true) ∷ (b'b' ∷ [], false) ∷ [])

live_tags : candidates some_report three_tags ≡ (b'a' ∷ []) ∷ (b'c' ∷ []) ∷ []
unfolding candidates alive_tags is_alive status_map find insert erase same_bytes
live_tags = refl

index_in_range : 1 < length (candidates some_report three_tags)
index_in_range = rw live_tags (omega arith)

picks-rotation_example :
    picks (length (candidates some_report three_tags)) some_report 1 three_tags
    ≡ some (
      1,
      drop 1 (candidates some_report three_tags) ++ take 1 (candidates some_report three_tags),
    )
picks-rotation_example = picks-rotation some_report 1 three_tags index_in_range

abbrev some_balancer : Balancer
some_balancer = record { strategy = round_robin 1; fallback_tag = []; override_target = [] }

picks_the_live_one :
    (pick_outbound some_balancer some_report (some three_tags)).1 ≡ returns (b'c' ∷ [])
unfolding pick_outbound pick_target pick_strategy finish_pick pick pick_round_robin pick_at
    candidates alive_tags is_alive status_map find insert erase same_bytes get_elem?
picks_the_live_one = refl
