-- ===== src/Buffer/State.antt =====
-- The state of a BytePacketBuffer (include/BytePacketBuffer.hpp) and the outcomes of its methods.
-- A method takes the buffer and gives its result with the buffer as it is left, also where it
-- throws: what a method wrote before the throw stays written.
use dns_server_cpp.Common.{
  Bool, Bool-cases, arith, false, if◌then◌else◌, inl, inr, ltb, true, ℕ, ◌+◌, ◌-◌, ◌<◌, ◌==◌, ◌||◌,
  ◌≡◌, ◌≤◌, ◌⊎◌,
}

-- `buff` is the array: the byte at each index, zero at first.
pub record BytePacketBuffer : Type 0 where
  pub buff : ℕ → ℕ
  pub pos : ℕ
  pub len : ℕ
  pub max_capacity : ℕ

-- The exception classes that the code throws.
pub data Error : Type 0 where
  out_of_range length_error runtime_error invalid_argument : Error

-- `out_of_bounds` is an access outside the array, which C++ leaves undefined; `out_of_fuel` is no
-- outcome of the code: a loop of the model used up its fuel.
pub data Outcome {ℓ} (A : Type ℓ) : Type ℓ where
  ok : A → BytePacketBuffer → Outcome A
  throws : Error → BytePacketBuffer → Outcome A
  out_of_bounds : Outcome A
  out_of_fuel : Outcome A

abbrev pub Action {ℓ} : Type ℓ → Type ℓ
Action A = BytePacketBuffer → Outcome A

-- An exception or a fault ends the method that it arises in.
abbrev pub and_then {ℓ κ} : {A : Type ℓ} {B : Type κ} → Outcome A → (A → Action B) → Outcome B
and_then (ok a b) f = f a b
and_then (throws e b) f = throws e b
and_then out_of_bounds f = out_of_bounds
and_then out_of_fuel f = out_of_fuel

infixl 5 ◌>>=◌ ◌>>◌
abbrev pub ◌>>=◌ {ℓ κ} : {A : Type ℓ} {B : Type κ} → Action A → (A → Action B) → Action B
◌>>=◌ m f b = and_then (m b) f

abbrev pub ◌>>◌ {ℓ κ} : {A : Type ℓ} {B : Type κ} → Action A → Action B → Action B
m >> k = m >>= λ _. k

abbrev pub pure {ℓ} : {A : Type ℓ} → A → Action A
pure a b = ok a b

abbrev pub raise {ℓ} : {A : Type ℓ} → Error → Action A
raise e b = throws e b

abbrev pub raise_if : Bool → Error → Action (Unit {0})
raise_if true e b = throws e b
raise_if false e b = ok tt b

abbrev pub get_state : Action BytePacketBuffer
get_state b = ok b b

-- The buffer with its position at `p`.
abbrev pub at : BytePacketBuffer → ℕ → BytePacketBuffer
at b p = record b { pos = p }

abbrev pub set_pos : ℕ → Action (Unit {0})
set_pos p b = ok tt (at b p)

-- `static constexpr` sizes.
abbrev pub max_buffer_size : ℕ
max_buffer_size = 1232

abbrev pub default_buffer_size : ℕ
default_buffer_size = 512

-- `buff[i]`.
unfoldable pub load : ℕ → Action ℕ
load i b = elim (ltb i max_buffer_size) [ true ↦ ok (b.buff i) b | false ↦ out_of_bounds ]

-- The array with `v` at `i`.
abbrev pub update : (ℕ → ℕ) → ℕ → ℕ → ℕ → ℕ
update a i v j = if j == i then v else a j

-- `buff[i] = v`.
unfoldable pub store : ℕ → ℕ → Action (Unit {0})
store i v b = elim (ltb i max_buffer_size) [
  | true ↦ ok tt (record b { buff = update b.buff i v })
  | false ↦ out_of_bounds
]

-- The check before every read.
unfoldable pub require_available : ℕ → ℕ → ℕ → Action (Unit {0})
require_available p need l = raise_if (ltb l p || ltb (l - p) need) out_of_range

pub load_lem : (i : ℕ) (b : BytePacketBuffer) → i < max_buffer_size → load i b ≡ ok (b.buff i) b
unfolding load
load_lem i b h = ground arith

pub store_lem :
    (i v : ℕ) (b : BytePacketBuffer)
    → i < max_buffer_size
    → store i v b ≡ ok tt (record b { buff = update b.buff i v })
unfolding store
store_lem i v b h = ground arith

-- The check throws exactly where a byte is missing.
pub require_available_cases :
    (p need l : ℕ) (b : BytePacketBuffer)
    → ((l < p + need) × (require_available p need l b ≡ throws out_of_range b))
      ⊎ ((p + need ≤ l) × (require_available p need l b ≡ ok tt b))
unfolding require_available
require_available_cases p need l b = elim (Bool-cases (ltb l p || ltb (l - p) need)) [
  | inl short ↦ inl (ground arith, rw short)
  | inr room ↦ inr (ground arith, rw room)
]
