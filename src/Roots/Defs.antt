-- ===== src/Roots/Defs.antt =====
-- The table of root servers, their round-trip times and the choice among them
-- (src/RootServerManager.cxx). A pointer to a server is its index with the server found there; a
-- random draw is an argument.
use dns_server_cpp.Address.Defs.{IpAddress}
use dns_server_cpp.Common.{
  Bool, List, [], false, if◌then◌else◌, leb, ltb, min, not, suc, true, ℕ, ◌%◌, ◌&&◌, ◌*◌, ◌+◌, ◌-◌,
  ◌/◌, ◌==◌, ◌^◌, ◌||◌, ◌∷◌,
}

pub data ServerStatus : Type 0 where
  unknown success fail : ServerStatus

pub data SelectionCategory : Type 0 where
  unknown_band slow_band fast_band : SelectionCategory

pub record RootServer : Type 0 where
  pub address : IpAddress
  pub status : ServerStatus
  pub consecutive_failures : ℕ
  pub srtt_ms : ℕ

-- The constructor from an address.
abbrev pub new_server : IpAddress → RootServer
new_server a = record { address = a; status = unknown; consecutive_failures = 0; srtt_ms = 0 }

-- On a 64-bit `std::size_t`.
unfoldable pub update_srtt : ℕ → RootServer → RootServer
update_srtt measured_rtt_ms s =
    if s.srtt_ms == 0
    then record s { srtt_ms = measured_rtt_ms }
    else record s { srtt_ms = (7 * s.srtt_ms + measured_rtt_ms) % 2 ^ 64 / 8 }

abbrev pub has_status : ServerStatus → RootServer → Bool
has_status unknown s = elim s.status [ unknown ↦ true | success ↦ false | fail ↦ false ]
has_status success s = elim s.status [ unknown ↦ false | success ↦ true | fail ↦ false ]
has_status fail s = elim s.status [ unknown ↦ false | success ↦ false | fail ↦ true ]

-- `std::any_of`.
abbrev pub any_of {ℓ} : {A : Type ℓ} → (A → Bool) → List A → Bool
any_of p [] = false
any_of p (x ∷ xs) = p x || any_of p xs

abbrev pub unknown_range : ℕ
unknown_range = 10

abbrev pub slowband_range : ℕ
slowband_range = 20

-- `_select_category`, with the number that the distribution draws from 1 to 100.
unfoldable pub select_category : ℕ → List RootServer → SelectionCategory
select_category roll servers =
    let has_unknown = any_of (has_status unknown) servers in
    let has_success = any_of (has_status success) servers in
    if not has_success && has_unknown
    then unknown_band
    else if has_unknown && leb roll unknown_range
    then unknown_band
    else if leb roll slowband_range
    then slow_band
    else fast_band

-- `std::numeric_limits<std::size_t>::max()`.
abbrev pub size_max : ℕ
size_max = 2 ^ 64 - 1

-- A step of `GetLeastSRTT`.
unfoldable pub lower_srtt : ℕ → RootServer → ℕ
lower_srtt least_srtt s = if has_status success s then min least_srtt s.srtt_ms else least_srtt

-- Its loop.
unfoldable pub least_from : ℕ → List RootServer → ℕ
least_from least_srtt [] = least_srtt
least_from least_srtt (s ∷ servers) = least_from (lower_srtt least_srtt s) servers

unfoldable pub get_least_srtt : List RootServer → ℕ
get_least_srtt servers = least_from size_max servers

unfoldable pub fast_limit : ℕ → ℕ
fast_limit least_srtt = if least_srtt == size_max then 0 else (least_srtt + least_srtt / 4) % 2 ^ 64

-- The tests of the loop of `GetCandidates`.
unfoldable pub is_candidate : SelectionCategory → ℕ → RootServer → Bool
is_candidate unknown_band limit s = has_status unknown s
is_candidate fast_band limit s = has_status success s && leb s.srtt_ms limit
is_candidate slow_band limit s = has_status success s && ltb limit s.srtt_ms

-- The servers with their indices, from an index on.
unfoldable pub numbered : ℕ → List RootServer → List (ℕ × RootServer)
numbered i [] = []
numbered i (s ∷ servers) = (i, s) ∷ numbered (suc i) servers

-- The elements that pass a test, in order.
unfoldable pub keep_if : (RootServer → Bool) → List (ℕ × RootServer) → List (ℕ × RootServer)
keep_if p [] = []
keep_if p ((i, s) ∷ xs) = let rest = keep_if p xs in if p s then ((i, s) ∷ rest) else rest

unfoldable pub get_candidates : SelectionCategory → ℕ → List RootServer → List (ℕ × RootServer)
get_candidates category least_srtt servers =
    keep_if (is_candidate category (fast_limit least_srtt)) (numbered 0 servers)
