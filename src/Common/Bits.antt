-- ===== src/Common/Bits.antt =====
-- `&`, `|` and shifts of unsigned words as arithmetic: fields packed by a shift, low masks, single
-- bits.
use Prim.Native.Nat.{
  ℕ, zero, suc, ◌+◌, ◌-◌, ◌*◌, ◌/◌, ◌%◌, ◌^◌, ◌≤◌, ◌<◌, min, max, bit_and, bit_or, digits, bitwise,
  bit_and-bitwise, bit_or-bitwise,
}
use mathlib.Core.Path.{◌≡◌, refl, ap}
use mathlib.Core.Bool.{Bool, true, false, not}
use native.Mathlib.Nat.{pow-suc, mod-lt, div-add-mod}
use native.Mathlib.Omega.{arith}
use dns_server_cpp.Common.Tests.{◌==◌, leb, if◌then◌else◌}

-- The digit recursion gives the same result on any sufficient fuel.
module _ (z : ℕ → ℕ) (op : ℕ → ℕ → ℕ) where
  enough_fuel : (k l a b : ℕ) → a ≤ k → a ≤ l → digits z op k a b ≡ digits z op l a b
  enough_fuel zero zero a b ha hb = refl
  enough_fuel zero (suc l) zero b ha hb = refl
  enough_fuel zero (suc l) (suc a) b ha hb = elim ha [ ]
  enough_fuel (suc k) zero zero b ha hb = refl
  enough_fuel (suc k) zero (suc a) b ha hb = elim hb [ ]
  enough_fuel (suc k) (suc l) zero b ha hb = refl
  enough_fuel (suc k) (suc l) (suc a) b ha hb =
      rw (enough_fuel k l (suc a / 2) (b / 2) (omega arith) (omega arith))

  lowest_digit :
      (a b : ℕ)
      → bitwise z op (suc a) b ≡ bitwise z op (suc a / 2) (b / 2) * 2 + op (suc a % 2) (b % 2)
  lowest_digit a b =
      omega (arith, enough_fuel a (suc a / 2) (suc a / 2) (b / 2) (omega arith) (omega arith))

bit_and-halves : (a b : ℕ) → bit_and a b ≡ bit_and (a / 2) (b / 2) * 2 + min (a % 2) (b % 2)
bit_and-halves zero b = simp bit_and-bitwise (omega arith)
bit_and-halves (suc a) b = simp bit_and-bitwise (lowest_digit (λ y. 0) min a b)

bit_or-halves : (a b : ℕ) → bit_or a b ≡ bit_or (a / 2) (b / 2) * 2 + max (a % 2) (b % 2)
bit_or-halves zero b = simp bit_or-bitwise (omega arith)
bit_or-halves (suc a) b = simp bit_or-bitwise (lowest_digit (λ y. y) max a b)

or_zero_below : (n a : ℕ) → a ≤ n → bit_or a 0 ≡ a
or_zero_below n zero h = refl
or_zero_below zero (suc a) h = elim h [ ]
or_zero_below (suc n) (suc a) h =
    omega (arith, bit_or-halves (suc a) 0, or_zero_below n (suc a / 2) (omega arith))

and_zero_below : (n a : ℕ) → a ≤ n → bit_and a 0 ≡ 0
and_zero_below n zero h = refl
and_zero_below zero (suc a) h = elim h [ ]
and_zero_below (suc n) (suc a) h =
    omega (arith, bit_and-halves (suc a) 0, and_zero_below n (suc a / 2) (omega arith))

pow-pos : (k : ℕ) → 0 < 2 ^ k
pow-pos zero = omega arith
pow-pos (suc k) = omega (arith, pow-suc 2 k, pow-pos k)

double_shift : (q k : ℕ) → q * 2 ^ suc k ≡ 2 * (q * 2 ^ k)
double_shift q k = omega (arith, ap (λ (t : ℕ). q * t) (pow-suc 2 k))

-- `(q << k) | r` for `r` of at most `k` bits.
pub or_shift : (k q r : ℕ) → r < 2 ^ k → bit_or (q * 2 ^ k) r ≡ q * 2 ^ k + r
or_shift zero q r h = ground (arith, or_zero_below q q)
or_shift (suc k) q r h = ground (
  arith,
  bit_or-halves (q * 2 ^ suc k) r,
  double_shift q k,
  or_shift k q (r / 2) (omega (arith, pow-suc 2 k)),
)

-- `k` one bits.
abbrev pub ones : ℕ → ℕ
ones zero = 0
ones (suc k) = 2 * ones k + 1

low_field : (k q r : ℕ) → r < 2 ^ k → bit_and (q * 2 ^ k + r) (ones k) ≡ r
low_field zero q r h = omega (arith, and_zero_below (q * 1 + r) (q * 1 + r) (omega arith))
low_field (suc k) q r h =
    let odd : (2 * ones k + 1) / 2 ≡ ones k = omega arith in
    let half : (q * 2 ^ suc k + r) / 2 ≡ q * 2 ^ k + r / 2 = omega (arith, double_shift q k) in
    omega (
      arith,
      bit_and-halves (q * 2 ^ suc k + r) (2 * ones k + 1),
      double_shift q k,
      ap (λ (t : ℕ). bit_and t ((2 * ones k + 1) / 2)) half,
      ap (bit_and (q * 2 ^ k + r / 2)) odd,
      low_field k q (r / 2) (omega (arith, pow-suc 2 k)),
    )

-- A mask of low bits is a remainder.
pub and_ones : (k a : ℕ) → bit_and a (ones k) ≡ a % 2 ^ k
and_ones k a =
    let below : a % 2 ^ k < 2 ^ k = mod-lt a (pow-pos k) in
    let split : a / 2 ^ k * 2 ^ k + a % 2 ^ k ≡ a = omega (arith, div-add-mod a (2 ^ k)) in
    rw split at (low_field k (a / 2 ^ k) (a % 2 ^ k) below)

-- The bit at a place.
unfoldable pub bit : ℕ → ℕ → ℕ
bit zero a = a % 2
bit (suc i) a = bit i (a / 2)

pub bit-le-one : (i a : ℕ) → bit i a ≤ 1
unfolding bit
bit-le-one zero a = omega arith
bit-le-one (suc i) a = bit-le-one i (a / 2)

pub bit-and : (i a b : ℕ) → bit i (bit_and a b) ≡ min (bit i a) (bit i b)
unfolding bit
bit-and zero a b = omega (arith, bit_and-halves a b)
bit-and (suc i) a b =
    let e : bit_and a b / 2 ≡ bit_and (a / 2) (b / 2) = omega (arith, bit_and-halves a b) in
    rw e (bit-and i (a / 2) (b / 2))

pub bit-or : (i a b : ℕ) → bit i (bit_or a b) ≡ max (bit i a) (bit i b)
unfolding bit
bit-or zero a b = omega (arith, bit_or-halves a b)
bit-or (suc i) a b =
    let e : bit_or a b / 2 ≡ bit_or (a / 2) (b / 2) = omega (arith, bit_or-halves a b) in
    rw e (bit-or i (a / 2) (b / 2))

-- A mask of one bit.
pub and_power : (k a : ℕ) → bit_and a (2 ^ k) ≡ bit k a * 2 ^ k
unfolding bit
and_power zero a = omega (arith, bit_and-halves a 1, and_zero_below (a / 2) (a / 2) (omega arith))
and_power (suc k) a =
    let e : 2 ^ suc k / 2 ≡ 2 ^ k = omega (arith, pow-suc 2 k) in
    omega (
      arith,
      bit_and-halves a (2 ^ suc k),
      ap (bit_and (a / 2)) e,
      pow-suc 2 k,
      and_power k (a / 2),
      double_shift (bit k (a / 2)) k,
    )

-- Over a small range every value is checked by evaluation.
module _ (f g : ℕ → Bool) where
  agree_below : ℕ → Bool
  agree_below zero = true
  agree_below (suc n) = elim (f n) [
    | true ↦ elim (g n) [ true ↦ agree_below n | false ↦ false ]
    | false ↦ elim (g n) [ true ↦ false | false ↦ agree_below n ]
  ]

  agree_below→eq : (n : ℕ) → agree_below n ≡ true → (i : ℕ) → i < n → f i ≡ g i
  unfolding agree_below
  agree_below→eq zero e i h = elim h [ ]
  agree_below→eq (suc n) e i h = ground (arith, agree_below→eq n (ground arith) i)

-- A test of one bit.
pub flag_bit : (k a : ℕ) → not (bit_and a (2 ^ k) == 0) ≡ (bit k a == 1)
flag_bit k a = ground (arith, and_power k a, bit-le-one k a, pow-pos k)

-- The two tests on the top bits of a length byte.
pub is_pointer_lem : (x : ℕ) → x < 256 → (bit_and x 0xC0 == 0xC0) ≡ leb 192 x
unfolding agree_below
is_pointer_lem = agree_below→eq _ _ 256 refl

pub is_label_lem : (x : ℕ) → x < 256 → (bit_and x 0xC0 == 0) ≡ leb x 63
unfolding agree_below
is_label_lem = agree_below→eq _ _ 256 refl

-- The four low bits under `|` and `&`.
pub low_or : (a b : ℕ) → b % 16 ≡ 0 → bit_or a b % 16 ≡ a % 16
low_or a b h = omega (
  arith,
  bit_or-halves a b,
  bit_or-halves (a / 2) (b / 2),
  bit_or-halves (a / 2 / 2) (b / 2 / 2),
  bit_or-halves (a / 2 / 2 / 2) (b / 2 / 2 / 2),
)

pub low_or_right : (a b : ℕ) → a % 16 ≡ 0 → bit_or a b % 16 ≡ b % 16
low_or_right a b h = omega (
  arith,
  bit_or-halves a b,
  bit_or-halves (a / 2) (b / 2),
  bit_or-halves (a / 2 / 2) (b / 2 / 2),
  bit_or-halves (a / 2 / 2 / 2) (b / 2 / 2 / 2),
)

pub low_and : (a b : ℕ) → b % 16 ≡ 15 → bit_and a b % 16 ≡ a % 16
low_and a b h = omega (
  arith,
  bit_and-halves a b,
  bit_and-halves (a / 2) (b / 2),
  bit_and-halves (a / 2 / 2) (b / 2 / 2),
  bit_and-halves (a / 2 / 2 / 2) (b / 2 / 2 / 2),
)

pub low_and_zero : (a b : ℕ) → b % 16 ≡ 0 → bit_and a b % 16 ≡ 0
low_and_zero a b h = omega (
  arith,
  bit_and-halves a b,
  bit_and-halves (a / 2) (b / 2),
  bit_and-halves (a / 2 / 2) (b / 2 / 2),
  bit_and-halves (a / 2 / 2 / 2) (b / 2 / 2 / 2),
)

-- The bits of `1 << k` and of `~(1 << k)` in 16 bits, for the pair of places in `n`.
abbrev same_place : ℕ → Bool
same_place n = n / 16 == n % 16

one_bit_table : (n : ℕ) → n < 256 → (bit (n / 16) (2 ^ (n % 16)) == 1) ≡ same_place n
unfolding agree_below bit
one_bit_table = agree_below→eq (λ n. bit (n / 16) (2 ^ (n % 16)) == 1) same_place 256 refl

other_bits_table : (n : ℕ) → n < 256 → (bit (n / 16) (0xFFFF - 2 ^ (n % 16)) == 0) ≡ same_place n
unfolding agree_below bit
other_bits_table =
    agree_below→eq (λ n. bit (n / 16) (0xFFFF - 2 ^ (n % 16)) == 0) same_place 256 refl

module _ (i k : ℕ) (hi : i < 16) (hk : k < 16) where
  quotient : (i * 16 + k) / 16 ≡ i
  quotient = omega arith

  remainder : (i * 16 + k) % 16 ≡ k
  remainder = omega arith

  -- Setting and clearing one bit of a word.
  pub bit-set : (a : ℕ) → bit i (bit_or a (2 ^ k)) ≡ (if i == k then 1 else bit i a)
  bit-set a =
      let t = rw (quotient, remainder) at (one_bit_table (i * 16 + k) (omega arith)) in
      ground (arith, bit-or i a (2 ^ k), bit-le-one i a, bit-le-one i (2 ^ k), t)

  pub bit-clear : (a : ℕ) → bit i (bit_and a (0xFFFF - 2 ^ k)) ≡ (if i == k then 0 else bit i a)
  bit-clear a =
      let t = rw (quotient, remainder) at (other_bits_table (i * 16 + k) (omega arith)) in
      ground (arith, bit-and i a (0xFFFF - 2 ^ k), bit-le-one i a, bit-le-one i (0xFFFF - 2 ^ k), t)
