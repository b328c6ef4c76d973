-- ===== src/Header/Flags.antt =====
-- The tests on the flag word as one view, and the setters as updates of that view.
use dns_server_cpp.Common.{
  Bool, ap, arith, bit_and, false, if◌then◌else◌, refl, sym, true, ℕ, ◌%◌, ◌-◌, ◌<◌, ◌==◌, ◌^◌, ◌∙◌,
  ◌≡◌,
}
use dns_server_cpp.Common.Bits.{
  and_ones, bit, bit-and, bit-clear, bit-le-one, bit-or, bit-set, flag_bit, low_and, low_and_zero,
  low_or, low_or_right,
}
use dns_server_cpp.Header.Defs.{
  DnsHeader, ResultCode, code_number, formerr, get_result_code, is_authoritative, is_response,
  is_truncated, noerror, notimp, nxdomain, recursion_available, recursion_desired, refused,
  result_code_from_num, servfail, set_authoritative, set_flag, set_recursion_available,
  set_recursion_desired, set_response, set_result_code, unknown,
}

-- What the tests show of a header.
pub record FlagView : Type 0 where
  pub response : Bool
  pub authoritative : Bool
  pub truncated : Bool
  pub desired : Bool
  pub available : Bool
  pub code : ResultCode

unfoldable pub view_flags : DnsHeader → FlagView
view_flags h = record {
  response = is_response h;
  authoritative = is_authoritative h;
  truncated = is_truncated h;
  desired = recursion_desired h;
  available = recursion_available h;
  code = get_result_code h;
}

-- The view, by the bits of the flag word.
abbrev bit_view : (ℕ → ℕ) → ℕ → FlagView
bit_view f low = record {
  response = f 15 == 1;
  authoritative = f 10 == 1;
  truncated = f 9 == 1;
  desired = f 8 == 1;
  available = f 7 == 1;
  code = result_code_from_num low;
}

view_flags-bits : (h : DnsHeader) → view_flags h ≡ bit_view (λ i. bit i h.flags) (h.flags % 16)
unfolding view_flags is_response is_authoritative is_truncated recursion_desired recursion_available
    get_result_code
view_flags-bits h = rw (
  flag_bit 15 h.flags,
  flag_bit 10 h.flags,
  flag_bit 9 h.flags,
  flag_bit 8 h.flags,
  flag_bit 7 h.flags,
  and_ones 4 h.flags,
)

-- The bits after one of them is set or cleared.
abbrev set_bits : ℕ → Bool → ℕ → ℕ → ℕ
set_bits k v f i = if i == k then (if v then 1 else 0) else bit i f

bit-set_flag :
    (i k : ℕ) (v : Bool) (h : DnsHeader)
    → i < 16
    → k < 16
    → bit i (set_flag k v h).flags ≡ set_bits k v h.flags i
bit-set_flag i k true h hi hk = bit-set i k hi hk h.flags
bit-set_flag i k false h hi hk = bit-clear i k hi hk h.flags

set_flag_low :
    (k : ℕ) (v : Bool) (h : DnsHeader)
    → 2 ^ k % 16 ≡ 0
    → (0xFFFF - 2 ^ k) % 16 ≡ 15
    → (set_flag k v h).flags % 16 ≡ h.flags % 16
set_flag_low k true h p q = low_or h.flags (2 ^ k) p
set_flag_low k false h p q = low_and h.flags (0xFFFF - 2 ^ k) q

set_flag-view :
    (k : ℕ) (v : Bool) (h : DnsHeader)
    → k < 16
    → 2 ^ k % 16 ≡ 0
    → (0xFFFF - 2 ^ k) % 16 ≡ 15
    → view_flags (set_flag k v h) ≡ bit_view (set_bits k v h.flags) (h.flags % 16)
set_flag-view k v h hk p q = rw (
  view_flags-bits (set_flag k v h),
  bit-set_flag 15 k v h (omega arith) hk,
  bit-set_flag 10 k v h (omega arith) hk,
  bit-set_flag 9 k v h (omega arith) hk,
  bit-set_flag 8 k v h (omega arith) hk,
  bit-set_flag 7 k v h (omega arith) hk,
  set_flag_low k v h p q,
)

pub set_response-view :
    (v : Bool) (h : DnsHeader)
    → view_flags (set_response v h) ≡ record (view_flags h) { response = v }
unfolding set_response
set_response-view true h =
    set_flag-view 15 true h (omega arith) refl refl
    ∙ ap (λ (w : FlagView). record w { response = true }) (sym (view_flags-bits h))
set_response-view false h =
    set_flag-view 15 false h (omega arith) refl refl
    ∙ ap (λ (w : FlagView). record w { response = false }) (sym (view_flags-bits h))

pub set_authoritative-view :
    (v : Bool) (h : DnsHeader)
    → view_flags (set_authoritative v h) ≡ record (view_flags h) { authoritative = v }
unfolding set_authoritative
set_authoritative-view true h =
    set_flag-view 10 true h (omega arith) refl refl
    ∙ ap (λ (w : FlagView). record w { authoritative = true }) (sym (view_flags-bits h))
set_authoritative-view false h =
    set_flag-view 10 false h (omega arith) refl refl
    ∙ ap (λ (w : FlagView). record w { authoritative = false }) (sym (view_flags-bits h))

pub set_desired-view :
    (v : Bool) (h : DnsHeader)
    → view_flags (set_recursion_desired v h) ≡ record (view_flags h) { desired = v }
unfolding set_recursion_desired
set_desired-view true h =
    set_flag-view 8 true h (omega arith) refl refl
    ∙ ap (λ (w : FlagView). record w { desired = true }) (sym (view_flags-bits h))
set_desired-view false h =
    set_flag-view 8 false h (omega arith) refl refl
    ∙ ap (λ (w : FlagView). record w { desired = false }) (sym (view_flags-bits h))

pub set_available-view :
    (v : Bool) (h : DnsHeader)
    → view_flags (set_recursion_available v h) ≡ record (view_flags h) { available = v }
unfolding set_recursion_available
set_available-view true h =
    set_flag-view 7 true h (omega arith) refl refl
    ∙ ap (λ (w : FlagView). record w { available = true }) (sym (view_flags-bits h))
set_available-view false h =
    set_flag-view 7 false h (omega arith) refl refl
    ∙ ap (λ (w : FlagView). record w { available = false }) (sym (view_flags-bits h))

-- The code's number has four bits.
code_number-bits :
    (c : ResultCode)
    → (code_number c < 16)
      × (bit 15 (code_number c) ≡ 0)
      × (bit 10 (code_number c) ≡ 0)
      × (bit 9 (code_number c) ≡ 0)
      × (bit 8 (code_number c) ≡ 0)
      × (bit 7 (code_number c) ≡ 0)
unfolding bit
code_number-bits noerror = (omega arith, refl, refl, refl, refl, refl)
code_number-bits formerr = (omega arith, refl, refl, refl, refl, refl)
code_number-bits servfail = (omega arith, refl, refl, refl, refl, refl)
code_number-bits nxdomain = (omega arith, refl, refl, refl, refl, refl)
code_number-bits notimp = (omega arith, refl, refl, refl, refl, refl)
code_number-bits refused = (omega arith, refl, refl, refl, refl, refl)
code_number-bits unknown = (omega arith, refl, refl, refl, refl, refl)

from_num-code_number : (c : ResultCode) → result_code_from_num (code_number c) ≡ c
unfolding result_code_from_num
from_num-code_number noerror = refl
from_num-code_number formerr = refl
from_num-code_number servfail = refl
from_num-code_number nxdomain = refl
from_num-code_number notimp = refl
from_num-code_number refused = refl
from_num-code_number unknown = refl

module _ (c : ResultCode) (h : DnsHeader) where
  code_mask : bit_and (code_number c) 0x000F ≡ code_number c
  code_mask = let small = (code_number-bits c).0 in omega (arith, and_ones 4 (code_number c), small)

  -- A place above the code keeps its bit.
  code_bit :
      (i : ℕ)
      → bit i 0xFFF0 ≡ 1
      → bit i (code_number c) ≡ 0
      → bit i (set_result_code c h).flags ≡ bit i h.flags
  unfolding set_result_code
  code_bit i p q = rw code_mask (
      omega (
        arith,
        bit-or i (bit_and h.flags 0xFFF0) (code_number c),
        bit-and i h.flags 0xFFF0,
        bit-le-one i h.flags,
        p,
        q,
      ))

  code_low : (set_result_code c h).flags % 16 ≡ code_number c
  unfolding set_result_code
  code_low =
      let masked = low_and_zero h.flags 0xFFF0 refl in
      rw code_mask (
        omega (
          arith,
          low_or_right (bit_and h.flags 0xFFF0) (code_number c) masked,
          (code_number-bits c).0,
        ))

  pub set_code-view : view_flags (set_result_code c h) ≡ record (view_flags h) { code = c }
  set_code-view =
      let (_, b15, b10, b9, b8, b7) = code_number-bits c in
      rw
        (
          view_flags-bits (set_result_code c h),
          code_bit 15 (unfold bit in refl) b15,
          code_bit 10 (unfold bit in refl) b10,
          code_bit 9 (unfold bit in refl) b9,
          code_bit 8 (unfold bit in refl) b8,
          code_bit 7 (unfold bit in refl) b7,
          code_low,
          from_num-code_number c,
        )
        (ap (λ (w : FlagView). record w { code = c }) (sym (view_flags-bits h)))

-- Each setter of the flag word changes what its own test shows, to the value given, and leaves
-- every other test and the response code as they were; `set_result_code` changes the code alone.
pub setters-view :
    (v : Bool) (c : ResultCode) (h : DnsHeader)
    → (view_flags (set_response v h) ≡ record (view_flags h) { response = v })
      × (view_flags (set_authoritative v h) ≡ record (view_flags h) { authoritative = v })
      × (view_flags (set_recursion_desired v h) ≡ record (view_flags h) { desired = v })
      × (view_flags (set_recursion_available v h) ≡ record (view_flags h) { available = v })
      × (view_flags (set_result_code c h) ≡ record (view_flags h) { code = c })
setters-view v c h = (
  set_response-view v h,
  set_authoritative-view v h,
  set_desired-view v h,
  set_available-view v h,
  set_code-view c h,
)
