-- ===== src/Buffer/NameBounds.antt =====
-- `read_qname` on any packet: its loop ends within the fuel given, no access leaves the array, and
-- a name that it returns is bounded.
use dns_server_cpp.Buffer.Names.{
  Cursor, Round, add_label, again, done, follow_pointer, next_round, read_qname, read_round,
  read_rounds, set_pos_unless, start_cursor, take_label,
}
use dns_server_cpp.Buffer.Safe.{Ensures, Ensures-bind, IsSafe, IsValid, load_range_lem, pure-IsSafe}
use dns_server_cpp.Buffer.State.{
  Action, BytePacketBuffer, Outcome, at, load_lem, ok, out_of_bounds, out_of_fuel, pure,
  require_available_cases, throws,
}
use dns_server_cpp.Common.{
  All, All-append, Bool, Bool-cases, List, [], arith, bit_and, false, if◌then◌else◌, inl, inr,
  is_empty, length, length-append, ltb, not, refl, subst, suc, sym, true, zero, ℕ, ◌+◌, ◌-◌, ◌<◌,
  ◌==◌, ◌∷◌, ◌≡◌, ◌≤◌,
}

-- The variables of the loop, on a buffer of length `l`.
pub record InRange (l : ℕ) (c : Cursor) : Type 0 where
  pub jumps_le : c.jumps ≤ l
  pub name_le : length c.name ≤ 254
  pub name_bytes : All (λ x. x < 256) c.name

-- The jumps and the bytes of the name that are left.
abbrev measure : ℕ → Cursor → ℕ
measure l c = (l - c.jumps) + (254 - length c.name)

-- A name as `read_qname` returns it: 1 to 254 bytes.
abbrev pub IsReadName : List ℕ → Type 0
IsReadName name = (1 ≤ length name) × (length name ≤ 254) × All (λ x. x < 256) name

-- The name as the loop leaves it.
abbrev IsBounded : List ℕ → Type 0
IsBounded name = (length name ≤ 254) × All (λ x. x < 256) name

-- What a round leaves: the same length, and a smaller measure if the loop goes on.
abbrev RoundEnsures : ℕ → Cursor → Outcome Round → Type 0
RoundEnsures l c (ok (done name) b) =
    IsValid b × (b.len ≡ l) × (length name ≤ 254) × All (λ x. x < 256) name
RoundEnsures l c (ok (again d) b) =
    IsValid b × (b.len ≡ l) × InRange l d × (measure l d < measure l c)
RoundEnsures l c (throws e b) = IsValid b
RoundEnsures l c out_of_bounds = ⊥
RoundEnsures l c out_of_fuel = ⊥

set_pos_unless_lem :
    (j : Bool) (p : ℕ) (b : BytePacketBuffer)
    → IsValid b
    → p ≤ b.len
    → (b' : BytePacketBuffer) × (set_pos_unless j p b ≡ ok tt b') × IsValid b' × (b'.len ≡ b.len)
set_pos_unless_lem true p b v h = (b, refl, v, refl)
set_pos_unless_lem false p b v h = (at b p, refl, ground arith, refl)

pub add_label_lem :
    (name text : List ℕ)
    → (length name + length text ≤ length (add_label name text))
      × (All (λ x. x < 256) name
          → All (λ x. x < 256) text
          → All (λ x. x < 256) (add_label name text))
add_label_lem [] text = (omega arith, λ _ a. a)
add_label_lem (x ∷ name) text = (
  omega (arith, length-append name (b'.' ∷ text)),
  λ a t. All-append _ (x ∷ name) (b'.' ∷ text) a (omega arith, t),
)

module _ (c : Cursor) (b : BytePacketBuffer) (v : IsValid b) (r : InRange b.len c) where
  follow_pointer_lem : (n : ℕ) → RoundEnsures b.len c (follow_pointer c n b)
  unfolding follow_pointer
  follow_pointer_lem n = elim (require_available_cases c.cursor 2 b.len b) [
    | inl (_, e) ↦ rw e v
    | inr (h, e) ↦
        let low = load_lem (c.cursor + 1) b (ground arith) in
        let (b', p, v', l) = set_pos_unless_lem c.jumped (c.cursor + 2) b v h in
        elim (Bool-cases (ltb b.len (c.jumps + 1))) [
          | inl s ↦ rw (e, low, p, s) v'
          | inr s ↦
              rw (e, low, p, s)
                (
                  v',
                  l,
                  record {
                    jumps_le = ground arith;
                    name_le = r.name_le;
                    name_bytes = r.name_bytes;
                  },
                  ground arith,
                )
        ]
  ]

  take_label_lem : (n : ℕ) → 1 ≤ n → RoundEnsures b.len c (take_label c n b)
  unfolding take_label
  take_label_lem n pos = elim (require_available_cases (c.cursor + 1) n b.len b) [
    | inl (_, e) ↦ rw e v
    | inr (h, e) ↦
        let (xs, e', l, a) = load_range_lem n (c.cursor + 1) b v (ground arith) in
        let (b', p, v', k) = set_pos_unless_lem c.jumped (c.cursor + 1 + n) b v h in
        let (grows, all) = add_label_lem c.name xs in
        elim (Bool-cases (ltb 255 (length (add_label c.name xs) + 1))) [
          | inl s ↦ rw (e, e', s) v
          | inr s ↦
              rw (e, e', s, p)
                (
                  v',
                  k,
                  record {
                    jumps_le = r.jumps_le;
                    name_le = ground arith;
                    name_bytes = all r.name_bytes a;
                  },
                  ground arith,
                )
        ]
  ]

  test-RoundEnsures :
      (t : Bool) (m k : Action Round)
      → (t ≡ true → RoundEnsures b.len c (m b))
      → (t ≡ false → RoundEnsures b.len c (k b))
      → RoundEnsures b.len c ((if t then m else k) b)
  test-RoundEnsures true m k f g = f refl
  test-RoundEnsures false m k f g = g refl

  read_round_lem : RoundEnsures b.len c (read_round c b)
  unfolding read_round
  read_round_lem = elim (require_available_cases c.cursor 1 b.len b) [
    | inl (_, e) ↦ rw e v
    | inr (h, e) ↦
        rw (e, load_lem c.cursor b (ground arith))
          (test-RoundEnsures (bit_and (b.buff c.cursor) 0xC0 == 0xC0) _ _
            (λ _. follow_pointer_lem _)
            (λ _.
              test-RoundEnsures (b.buff c.cursor == 0) _ _
                (λ _.
                  let (b', p, v', k) = set_pos_unless_lem c.jumped (c.cursor + 1) b v h in
                  rw p (v', k, r.name_le, r.name_bytes))
                (λ z.
                  test-RoundEnsures (not (bit_and (b.buff c.cursor) 0xC0 == 0)) _ _ (λ _. v)
                    (λ _. take_label_lem _ (ground arith)))))
  ]

next_round-Ensures :
    (l : ℕ) (c : Cursor) (next : Cursor → Action (List ℕ)) (o : Outcome Round)
    → RoundEnsures l c o
    → ((d : Cursor) (b : BytePacketBuffer)
        → IsValid b
        → b.len ≡ l
        → InRange l d
        → measure l d < measure l c
        → Ensures IsBounded (next d b))
    → Ensures IsBounded (next_round next o)
next_round-Ensures l c next (ok (done name) b) h k = ((h.2, h.3), h.0)
next_round-Ensures l c next (ok (again d) b) h k = k d b h.0 h.1 h.2 h.3
next_round-Ensures l c next (throws e b) h k = h
next_round-Ensures l c next out_of_bounds h k = h
next_round-Ensures l c next out_of_fuel h k = h

read_rounds-Ensures :
    (fuel l : ℕ) (c : Cursor) (b : BytePacketBuffer)
    → IsValid b
    → b.len ≡ l
    → InRange l c
    → measure l c < fuel
    → Ensures IsBounded (read_rounds fuel c b)
unfolding read_rounds
read_rounds-Ensures zero l c b v e r h = elim h [ ]
read_rounds-Ensures (suc fuel) l c b v e r h =
    next_round-Ensures l c (read_rounds fuel) (read_round c b)
      (subst (λ t. RoundEnsures t c (read_round c b)) e
        (read_round_lem c b v (subst (λ t. InRange t c) (sym e) r)))
      (λ d b' v' e' r' less. read_rounds-Ensures fuel l d b' v' e' r' (omega arith))

-- From a well-formed buffer `read_qname` ends within its fuel, loads only from inside the array,
-- keeps the buffer well-formed on every outcome, and returns only names of 1 to 254 bytes.
pub read_qname-IsSafe : IsSafe IsReadName read_qname
unfolding read_qname
read_qname-IsSafe = record {
  run = λ b v.
      Ensures-bind (read_rounds (b.len + 255) (start_cursor b.pos) b) _
        (read_rounds-Ensures (b.len + 255) b.len (start_cursor b.pos) b v refl
          (record { jumps_le = omega arith; name_le = omega arith; name_bytes = tt }) (omega arith))
        named;
}
  where
    named :
        (name : List ℕ)
        → IsBounded name
        → IsSafe IsReadName (pure (if is_empty name then b'.' ∷ [] else name))
    named [] h = pure-IsSafe _ (omega arith)
    named (x ∷ name) h = pure-IsSafe _ (omega arith, h.0, h.1)
