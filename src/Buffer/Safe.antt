-- ===== src/Buffer/Safe.antt =====
-- Memory safety of the buffer's methods: from a well-formed buffer no method touches the array
-- outside its bounds, and each leaves the buffer well-formed, also where it throws.
use dns_server_cpp.Buffer.Access.{
  get, load_range, read_bytes, read_u16, read_u32, read_u8, seek, set_length, set_max_capacity,
  step, with_capacity, write_all, write_u16, write_u32, write_u8,
}
use dns_server_cpp.Buffer.State.{
  Action, BytePacketBuffer, Error, Outcome, and_then, load_lem, max_buffer_size, ok, out_of_bounds,
  out_of_fuel, pure, raise, raise_if, require_available, store_lem, throws, ◌>>=◌, ◌>>◌,
}
use dns_server_cpp.Common.{
  All, Bool, Bool-cases, List, [], arith, false, if◌then◌else◌, inl, inr, leb, length, ltb, refl,
  suc, true, zero, ℕ, ◌%◌, ◌*◌, ◌+◌, ◌-◌, ◌<◌, ◌^◌, ◌||◌, ◌∷◌, ◌≡◌, ◌≤◌,
}
use dns_server_cpp.Common.Bits.{or_shift}

-- The invariant of a BytePacketBuffer.
pub record IsValid (b : BytePacketBuffer) : Type 0 where
  pub pos_le : b.pos ≤ b.len
  pub len_le : b.len ≤ max_buffer_size
  pub capacity_le : b.max_capacity ≤ max_buffer_size
  pub bytes : (i : ℕ) → b.buff i < 256

-- What holds after a method: the invariant, and `Q` of the result if it returns.
abbrev pub Ensures : {A : Type 0} → (A → Type 0) → Outcome A → Type 0
Ensures Q (ok a b) = Q a × IsValid b
Ensures Q (throws e b) = IsValid b
Ensures Q out_of_bounds = ⊥
Ensures Q out_of_fuel = ⊥

pub record IsSafe {A : Type 0} (Q : A → Type 0) (m : Action A) : Type 0 where
  pub run : (b : BytePacketBuffer) → IsValid b → Ensures Q (m b)

abbrev pub Any : {A : Type 0} → A → Type 0
Any _ = Unit

module _ {A B : Type 0} {Q : A → Type 0} {R : B → Type 0} where
  pub Ensures-bind :
      (o : Outcome A) (f : A → Action B)
      → Ensures Q o
      → ((a : A) → Q a → IsSafe R (f a))
      → Ensures R (and_then o f)
  Ensures-bind (ok a b) f h k = (k a h.0).run b h.1
  Ensures-bind (throws e b) f h k = h
  Ensures-bind out_of_bounds f h k = elim h [ ]
  Ensures-bind out_of_fuel f h k = elim h [ ]

  pub bind-IsSafe :
      {m : Action A} {f : A → Action B}
      → IsSafe Q m
      → ((a : A) → Q a → IsSafe R (f a))
      → IsSafe R (m >>= f)
  bind-IsSafe {m} {f} s k = record { run = λ b v. Ensures-bind (m b) f (s.run b v) k }

  pub then-IsSafe : {m : Action A} {k : Action B} → IsSafe Q m → IsSafe R k → IsSafe R (m >> k)
  then-IsSafe {m} s t = record { run = λ b v. Ensures-bind (m b) _ (s.run b v) (λ _ _. t) }

module _ {A : Type 0} {Q : A → Type 0} where
  pub pure-IsSafe : (a : A) → Q a → IsSafe Q (pure a)
  pure-IsSafe a q = record { run = λ b v. (q, v) }

  pub raise-IsSafe : (e : Error) → IsSafe Q (raise e)
  raise-IsSafe e = record { run = λ b v. v }

  pub if-IsSafe :
      (c : Bool) {m k : Action A} → IsSafe Q m → IsSafe Q k → IsSafe Q (if c then m else k)
  if-IsSafe true s t = s
  if-IsSafe false s t = t

-- The same, where each branch knows its test.
pub test-IsSafe :
    {A : Type 0} {Q : A → Type 0} (c : Bool) {m k : Action A}
    → (c ≡ true → IsSafe Q m)
    → (c ≡ false → IsSafe Q k)
    → IsSafe Q (if c then m else k)
test-IsSafe true s t = s refl
test-IsSafe false s t = t refl

pub raise_if-IsSafe : (c : Bool) (e : Error) → IsSafe (λ _. c ≡ false) (raise_if c e)
raise_if-IsSafe true e = record { run = λ b v. v }
raise_if-IsSafe false e = record { run = λ b v. (refl, v) }

read_u8-Ensures : (b : BytePacketBuffer) → IsValid b → Ensures (λ v. v < 256) (read_u8 b)
unfolding read_u8 require_available
read_u8-Ensures b v = elim (Bool-cases (ltb b.len b.pos || ltb (b.len - b.pos) 1)) [
  | inl short ↦ rw short v
  | inr room ↦ rw (room, load_lem b.pos b (ground arith)) (v.bytes b.pos, ground arith)
]

pub read_u8-IsSafe : IsSafe (λ v. v < 256) read_u8
read_u8-IsSafe = record { run = read_u8-Ensures }

get-IsSafe : IsSafe (λ v. v < 256) get
unfolding get require_available
get-IsSafe = record {
  run = λ b v. elim (Bool-cases (ltb b.len b.pos || ltb (b.len - b.pos) 1)) [
    | inl short ↦ rw short v
    | inr room ↦ rw (room, load_lem b.pos b (ground arith)) (v.bytes b.pos, v)
  ];
}

pub read_u16-IsSafe : IsSafe (λ v. v < 2 ^ 16) read_u16
unfolding read_u16
read_u16-IsSafe =
    bind-IsSafe read_u8-IsSafe
      λ high h. bind-IsSafe read_u8-IsSafe λ low l. pure-IsSafe _ (omega arith)

pub read_u32-IsSafe : IsSafe (λ v. v < 2 ^ 32) read_u32
unfolding read_u32
read_u32-IsSafe = bind-IsSafe read_u16-IsSafe λ high h. bind-IsSafe read_u16-IsSafe λ low l.
    pure-IsSafe _ (
      let e : high * 2 ^ 16 % 2 ^ 32 ≡ high * 2 ^ 16 = omega arith in
      rw (e, or_shift 16 high low l) (omega arith))

step-IsSafe : (n : ℕ) → IsSafe Any (step n)
unfolding step require_available
step-IsSafe n = record { run = λ b v. ground arith }

seek-IsSafe : (p : ℕ) → IsSafe Any (seek p)
unfolding seek
seek-IsSafe p = record { run = λ b v. ground arith }

pub set_length-IsSafe : (n : ℕ) → IsSafe Any (set_length n)
unfolding set_length
set_length-IsSafe n = record { run = λ b v. ground arith }

set_max_capacity-IsSafe : (n : ℕ) → IsSafe Any (set_max_capacity n)
unfolding set_max_capacity
set_max_capacity-IsSafe n = record { run = λ b v. ground arith }

pub with_capacity-IsValid : (n : ℕ) → IsValid (with_capacity n)
unfolding with_capacity
with_capacity-IsValid n = ground arith

-- A load of a range that lies in the array gives bytes and leaves the buffer alone.
pub load_range_lem :
    (n i : ℕ) (b : BytePacketBuffer)
    → IsValid b
    → i + n ≤ max_buffer_size
    → (xs : List ℕ) × (load_range n i b ≡ ok xs b) × (length xs ≡ n) × All (λ x. x < 256) xs
unfolding load_range
load_range_lem zero i b v h = ([], refl, refl, tt)
load_range_lem (suc n) i b v h =
    let (xs, e, l, a) = load_range_lem n (suc i) b v (omega arith) in
    (b.buff i ∷ xs, rw (load_lem i b (omega arith), e), ground arith, (v.bytes i, a))

pub read_bytes-IsSafe :
    (n : ℕ) → IsSafe (λ xs. (length xs ≡ n) × All (λ x. x < 256) xs) (read_bytes n)
unfolding read_bytes require_available
read_bytes-IsSafe n = record {
  run = λ b v. elim (Bool-cases (ltb b.len b.pos || ltb (b.len - b.pos) n)) [
    | inl short ↦ rw short v
    | inr room ↦
        let (xs, e, l, a) = load_range_lem n b.pos b v (ground arith) in
        rw (room, e) ((l, a), ground arith)
  ];
}

write_u8-Ensures : (x : ℕ) (b : BytePacketBuffer) → IsValid b → Ensures Any (write_u8 x b)
unfolding write_u8
write_u8-Ensures x b v = elim (Bool-cases (leb b.max_capacity b.pos)) [
  | inl full ↦ rw full v
  | inr room ↦
      rw (room, store_lem b.pos (x % 256) b (ground arith))
        (
          tt,
          record {
            pos_le = ground arith;
            len_le = ground arith;
            capacity_le = ground arith;
            bytes = λ i. ground (arith, v.bytes i);
          },
        )
]

pub write_u8-IsSafe : (x : ℕ) → IsSafe Any (write_u8 x)
write_u8-IsSafe x = record { run = write_u8-Ensures x }

pub write_u16-IsSafe : (x : ℕ) → IsSafe Any (write_u16 x)
unfolding write_u16
write_u16-IsSafe x = bind-IsSafe (write_u8-IsSafe _) λ _ _. write_u8-IsSafe _

pub write_u32-IsSafe : (x : ℕ) → IsSafe Any (write_u32 x)
unfolding write_u32
write_u32-IsSafe x = bind-IsSafe (write_u16-IsSafe _) λ _ _. write_u16-IsSafe _

pub write_all-IsSafe : (xs : List ℕ) → IsSafe Any (write_all xs)
unfolding write_all
write_all-IsSafe [] = pure-IsSafe tt tt
write_all-IsSafe (x ∷ xs) = bind-IsSafe (write_u8-IsSafe x) λ _ _. write_all-IsSafe xs
