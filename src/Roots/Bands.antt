-- ===== src/Roots/Bands.antt =====
-- The choice of a server: the smoothed round-trip time stays between the old one and the measured one,
-- and the two bands part the servers that answered.
use dns_server_cpp.Common.{
  All, Bool, Bool-cases, List, [], arith, false, inl, inr, is_empty, leb, ltb, max, min, not, refl,
  suc, true, ℕ, ◌&&◌, ◌*◌, ◌+◌, ◌<◌, ◌==◌, ◌^◌, ◌||◌, ◌↔◌, ◌∷◌, ◌≡◌, ◌≤◌,
}
use dns_server_cpp.Roots.Defs.{
  RootServer, any_of, fast_band, fast_limit, get_candidates, get_least_srtt, has_status,
  is_candidate, keep_if, least_from, lower_srtt, numbered, select_category, size_max, success,
  unknown, unknown_band, unknown_range, update_srtt,
}

-- Where a server has a time and the sum fits 64 bits, its smoothed time lies between the old time
-- and the measured one.
pub update_srtt-bounds :
    (rtt : ℕ) (s : RootServer)
    → 0 < s.srtt_ms
    → 7 * s.srtt_ms + rtt < 2 ^ 64
    → (min s.srtt_ms rtt ≤ (update_srtt rtt s).srtt_ms)
      × ((update_srtt rtt s).srtt_ms ≤ max s.srtt_ms rtt)
unfolding update_srtt
update_srtt-bounds rtt s h k =
    let old : (s.srtt_ms == 0) ≡ false = ground arith in rw old (omega arith, omega arith)

lower_srtt-le : (l : ℕ) (s : RootServer) → lower_srtt l s ≤ l
unfolding lower_srtt
lower_srtt-le l s = ground arith

least_from-le : (l : ℕ) (servers : List RootServer) → least_from l servers ≤ l
unfolding least_from
least_from-le l [] = omega arith
least_from-le l (s ∷ servers) =
    omega (arith, least_from-le (lower_srtt l s) servers, lower_srtt-le l s)

-- Where a server has answered and the times are below a bound, so is the least of them.
least_from-lt :
    (l m : ℕ) (servers : List RootServer)
    → any_of (has_status success) servers ≡ true
    → All (λ s. s.srtt_ms < m) servers
    → least_from l servers < m
unfolding least_from
least_from-lt l m [] h a = cc h
least_from-lt l m (s ∷ servers) h a = elim (Bool-cases (has_status success s)) [
  | inl t ↦
      let here : lower_srtt l s ≤ s.srtt_ms = unfold lower_srtt in rw t (omega arith) in
      omega (arith, here, least_from-le (lower_srtt l s) servers, a.0)
  | inr f ↦ least_from-lt (lower_srtt l s) m servers (simp f at h) a.1
]

-- The server with the least time is a candidate of the fast band.
least_from-candidate :
    (l limit : ℕ) (servers : List RootServer)
    → least_from l servers < l
    → least_from l servers ≤ limit
    → any_of (is_candidate fast_band limit) servers ≡ true
unfolding least_from
least_from-candidate l limit [] h k = absurd (omega arith)
least_from-candidate l limit (s ∷ servers) h k =
    elim (Bool-cases (ltb (least_from (lower_srtt l s) servers) (lower_srtt l s))) [
      | inl t ↦
          let later : any_of (is_candidate fast_band limit) servers ≡ true =
            least_from-candidate (lower_srtt l s) limit servers (ground arith) k in
          rw later (ground arith)
      | inr f ↦
          let least : least_from (lower_srtt l s) servers ≡ lower_srtt l s =
            ground (arith, least_from-le (lower_srtt l s) servers) in
          let here : is_candidate fast_band limit s ≡ true =
            unfold is_candidate lower_srtt in ground (arith, h, k, least) in
          rw here
    ]

pub keep_if-numbered :
    (p : RootServer → Bool) (i : ℕ) (servers : List RootServer)
    → is_empty (keep_if p (numbered i servers)) ≡ not (any_of p servers)
unfolding keep_if numbered
keep_if-numbered p i [] = refl
keep_if-numbered p i (s ∷ servers) = elim (Bool-cases (p s)) [
  | inl t ↦ rw t
  | inr f ↦ rw f (keep_if-numbered p (suc i) servers)
]

-- Where a server has answered, and all times are below 2^63 milliseconds, the fast band has a
-- candidate.
pub get_candidates-fast :
    (servers : List RootServer)
    → any_of (has_status success) servers ≡ true
    → All (λ s. s.srtt_ms < 2 ^ 63) servers
    → is_empty (get_candidates fast_band (get_least_srtt servers) servers) ≡ false
unfolding get_candidates get_least_srtt
get_candidates-fast servers h a =
    let least : least_from size_max servers < 2 ^ 63 =
      least_from-lt size_max (2 ^ 63) servers h a in
    let limit : least_from size_max servers ≤ fast_limit (least_from size_max servers) =
      unfold fast_limit in ground (arith, least) in
    let there =
      least_from-candidate size_max (fast_limit (least_from size_max servers)) servers
        (omega (arith, least)) limit in
    rw (
      keep_if-numbered (is_candidate fast_band (fast_limit (least_from size_max servers))) 0
          servers,
      there,
    )

-- The choice falls on the unknown servers exactly when there is one, and no server has answered or
-- the roll is at most ten.
pub select_category-unknown :
    (roll : ℕ) (servers : List RootServer)
    → (select_category roll servers ≡ unknown_band) ↔ (
        (any_of (has_status unknown) servers
          && (not (any_of (has_status success) servers) || leb roll unknown_range))
        ≡ true)
unfolding select_category
select_category-unknown roll servers = ground arith
