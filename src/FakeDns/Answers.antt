-- ===== src/FakeDns/Answers.antt =====
-- The two calls of the fake DNS.
use dpi_warrior_native_xray.Base.{
  ℕ, ◌^◌, ◌<◌, ◌≡◌, refl, sym, ap, ◌∙◌, inl, inr, true, Option, none, some, List, Option-cases,
}
use mathlib.Core.Path.{subst}
use dpi_warrior_native_xray.Base.{bytes_eq, get_elem?, get_elem?-append_cases, find, some-injective}
use dpi_warrior_native_xray.Net.{Address, is_ip, family, address_eq}
use dpi_warrior_native_xray.Lru.{Lru, put, get, get_key_from_value, use_element}
use dpi_warrior_native_xray.Lru.Sound.{IsSound, use_element-IsSound}
use dpi_warrior_native_xray.Lru.Put.{put-IsSound, put-keeps}
use dpi_warrior_native_xray.Lru.Remembers.{put-remembers, get_key-found}
use dpi_warrior_native_xray.FakeDns.{
  IpRange, Holder, address_of, ip_of, contains, first_number, find_free, enough_rounds, keep_new,
  answer, get_fake_ip_for_domain, get_domain_from_fake_dns, is_ip_in_ip_pool,
}
use dpi_warrior_native_xray.FakeDns.Bytes.{address_of-some}
use dpi_warrior_native_xray.FakeDns.Pool.{InPool, IsPool, contains-InPool}
use dpi_warrior_native_xray.FakeDns.Free.{untaken-find, find_free-ends}

-- An address of the pool.
abbrev IsPooled : IpRange → Option Address → Type 0
IsPooled r v =
    (a : Address) × (v ≡ some a) × (is_ip (family a) ≡ true) × (contains r (ip_of a) ≡ true)

InPool-IsPooled : (r : IpRange) (n : ℕ) → IsPool r → InPool r n → IsPooled r (address_of n)
InPool-IsPooled r n p i =
    let (a, e, ip, len, is) = address_of-some r.width n (p n i) in
    (a, e, is, ap (contains r) ip ∙ contains-InPool r n p i)

-- A holder that `initialize` makes and its calls keep: the cache is sound, has room for one entry and
-- for fewer than the pool has addresses, and holds only addresses of the pool.
pub record IsReady (h : Holder) : Type 0 where
  pub pool : IsPool h.ip_range
  pub sound : IsSound h.domain_to_ip
  pub holds : 0 < h.domain_to_ip.capacity
  pub room : h.domain_to_ip.capacity < 2 ^ h.ip_range.rooms
  pub pooled :
      (i : ℕ) (d : List ℕ) (v : Option Address)
      → get_elem? h.domain_to_ip.elements i ≡ some (d, v)
      → IsPooled h.ip_range v

-- A pair of the cache is the answer of the second call.
get_domain-of_key :
    (h : Holder) (a : Address) (d : List ℕ)
    → is_ip (family a) ≡ true
    → contains h.ip_range (ip_of a) ≡ true
    → (get_key_from_value h.domain_to_ip (some a)).1 ≡ some d
    → (get_domain_from_fake_dns h a).1 ≡ d
unfolding get_domain_from_fake_dns
get_domain-of_key h a d is c k = rw (is, c, k) refl

-- What the first call does: it ends, with an address of the pool that the second call leads back to the
-- domain, and the holder stays ready.
abbrev pub Answered : Option (Holder × Option Address) → List ℕ → Type 0
Answered res domain =
    (h' : Holder) × (a : Address) × (res ≡ some (h', some a))
    × IsReady h'
    × (is_ip_in_ip_pool h' a ≡ true)
    × ((get_domain_from_fake_dns h' a).1 ≡ domain)

answered :
    (h' : Holder) (v : Option Address) (d : List ℕ)
    → IsReady h'
    → IsPooled h'.ip_range v
    → (get_key_from_value h'.domain_to_ip v).1 ≡ some d
    → Answered (some (h', v)) d
unfolding is_ip_in_ip_pool
answered h' v d ready (a, e, is, c) k = (
  h',
  a,
  ap (λ u. some (h', u)) e,
  ready,
  rw (is, c) refl,
  get_domain-of_key h' a d is c
      (subst (λ u. (get_key_from_value h'.domain_to_ip u).1 ≡ some d) e k),
)

-- The cache after a lookup that found an element.
abbrev used : Holder → ℕ → Holder
used h i = record h { domain_to_ip = (use_element h.domain_to_ip (some i)).0 }

used-IsReady : (h : Holder) (i : ℕ) → IsReady h → IsReady (used h i)
unfolding use_element
used-IsReady h i r = record {
  pool = r.pool;
  sound = use_element-IsSound h.domain_to_ip (some i) r.sound;
  holds = r.holds;
  room = r.room;
  pooled = r.pooled;
}

get-hit :
    (l : Lru (List ℕ) (Option Address)) (d : List ℕ) (i : ℕ) (v : Option Address)
    → find d l.key_to_element ≡ some i
    → get_elem? l.elements i ≡ some (d, v)
    → get l d ≡ ((use_element l (some i)).0, some v)
unfolding get use_element
get-hit l d i v f g = rw (f, g, get, use_element) refl

get-miss :
    (l : Lru (List ℕ) (Option Address)) (d : List ℕ)
    → find d l.key_to_element ≡ none
    → get l d ≡ (l, none)
unfolding get use_element
get-miss l d f = rw (f, get, use_element) refl

get_fake-hit :
    (h : Holder) (now : ℕ) (d : List ℕ) (i : ℕ) (v : Option Address)
    → find d h.domain_to_ip.key_to_element ≡ some i
    → get_elem? h.domain_to_ip.elements i ≡ some (d, v)
    → get_fake_ip_for_domain h now d ≡ some (used h i, v)
unfolding get_fake_ip_for_domain answer
get_fake-hit h now d i v f g = ap (answer h now d) (get-hit h.domain_to_ip d i v f g)

get_fake-miss :
    (h : Holder) (now : ℕ) (d : List ℕ)
    → find d h.domain_to_ip.key_to_element ≡ none
    → get_fake_ip_for_domain h now d
      ≡ keep_new h d (find_free (enough_rounds h) h (first_number h.ip_range now))
unfolding get_fake_ip_for_domain answer
get_fake-miss h now d f = ap (answer h now d) (get-miss h.domain_to_ip d f)

-- The new entry of a domain.
abbrev kept : Holder → List ℕ → Option Address → Holder
kept h d v = record h { domain_to_ip = put h.domain_to_ip d v }

kept-IsReady :
    (h : Holder) (d : List ℕ) (v : Option Address)
    → IsReady h
    → IsPooled h.ip_range v
    → find d h.domain_to_ip.key_to_element ≡ none
    → find v h.domain_to_ip.value_to_element ≡ none
    → IsReady (kept h d v)
kept-IsReady h d v r p nk nv =
    let l = h.domain_to_ip in
    let (cap, grown) = put-keeps l d v nk in
    record {
      pool = r.pool;
      sound = put-IsSound l d v r.sound nk nv;
      holds = rw cap r.holds;
      room = rw cap r.room;
      pooled = λ i x u g.
          elim (get_elem?-append_cases l.elements (d, v) i (x, u)
            (ap (λ xs. get_elem? xs i) (sym grown) ∙ g)) [
              | inl old ↦ r.pooled i x u old
              | inr same ↦ subst (IsPooled h.ip_range) (ap (λ q. q.1) same) p
            ];
    }

-- The first call always ends, with an address of the pool, which the second call leads back to the
-- domain, and leaves the holder ready for the next call. Assumed is a holder that is ready: its cache is
-- sound, has room for one entry and for fewer than the pool has addresses, and holds only addresses of
-- the pool, all of which have the width of the pool.
pub get_fake_ip_for_domain-answers :
    (h : Holder) (now : ℕ) (domain : List ℕ)
    → IsReady h
    → Answered (get_fake_ip_for_domain h now domain) domain
get_fake_ip_for_domain-answers h now d r =
    let l = h.domain_to_ip in
    let a = r.sound.agrees in
    elim (Option-cases (find d l.key_to_element)) [
      | inr (i, f) ↦
          let (m, (v, g)) = a.keyed d i f in
          let (d', v', g', fk, fv) = a.listed i m in
          let same : v' ≡ v = ap (λ p. p.1) (some-injective (sym g' ∙ g)) in
          let fv' : find v l.value_to_element ≡ some i =
            ap (λ u. find u l.value_to_element) (sym same) ∙ fv in
          rw (get_fake-hit h now d i v f g) (
            answered (used h i) v d (used-IsReady h i r) (r.pooled i d v g)
              (unfold use_element in get_key-found (used h i).domain_to_ip d i v fv' g))
      | inl f ↦
          let (n, i, e, free) = find_free-ends h now r.pool r.sound r.room in
          let v = address_of n in
          let nv = untaken-find h v r.sound free in
          let p = InPool-IsPooled h.ip_range n r.pool i in
          let by_value = (put-remembers l d v r.sound r.holds f nv).1 in
          rw (get_fake-miss h now d f ∙ ap (keep_new h d) e)
            (unfold keep_new in answered (kept h d v) v d (kept-IsReady h d v r p f nv) p by_value)
    ]
