-- ===== src/FakeDns/Tests.antt =====
-- The theorem on the fake DNS at a pool of four addresses.
use dpi_warrior_native_xray.Base.{ℕ, refl, inl, List, [], ◌∷◌, arith, get_elem?, bytes_eq}
use dpi_warrior_native_xray.Net.{address_eq}
use dpi_warrior_native_xray.Lru.{new_lru}
use dpi_warrior_native_xray.Lru.Sound.{new_lru-IsSound}
use dpi_warrior_native_xray.FakeDns.{IpRange, Holder, get_fake_ip_for_domain}
use dpi_warrior_native_xray.FakeDns.Answers.{IsReady, Answered, get_fake_ip_for_domain-answers}

-- 198.18.0.0/30
abbrev four_addresses : IpRange
four_addresses = record { base = 3323068416; width = 4; rooms = 2 }

abbrev small_holder : Holder
small_holder = record { domain_to_ip = new_lru 3; ip_range = four_addresses }

small_holder-IsReady : IsReady small_holder
unfolding new_lru get_elem?
small_holder-IsReady = record {
  pool = λ n p. inl (refl, omega (arith, p.0), omega (arith, p.1));
  sound = new_lru-IsSound 3;
  holds = omega arith;
  room = omega arith;
  pooled = λ i d v e. absurd (ground (arith, e));
}

abbrev asked_domain : List ℕ
asked_domain = 97 ∷ 46 ∷ 98 ∷ []

get_fake_ip_for_domain-answers_example :
    Answered (get_fake_ip_for_domain small_holder 1700000000003 asked_domain) asked_domain
get_fake_ip_for_domain-answers_example =
    get_fake_ip_for_domain-answers small_holder 1700000000003 asked_domain small_holder-IsReady
