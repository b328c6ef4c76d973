-- ===== src/Buffer/Reading.antt =====
-- Reading back a known list of bytes: what a reading method returns where the buffer holds them at
-- its position, as one rule for each method and one for sequencing.
use native.Mathlib.Nat.{add-zero}
use dns_server_cpp.Buffer.Access.{load_range, read_bytes, read_u16, read_u32, read_u8}
use dns_server_cpp.Buffer.State.{
  Action, BytePacketBuffer, at, load_lem, max_buffer_size, ok, pure, require_available_cases, ◌>>=◌,
}
use dns_server_cpp.Buffer.Wire.{u16_bytes, u32_bytes}
use dns_server_cpp.Common.{
  List, [], ap, append-nil, arith, inl, inr, length, length-append, refl, subst, suc, sym, ℕ, ◌%◌,
  ◌*◌, ◌++◌, ◌+◌, ◌/◌, ◌<◌, ◌^◌, ◌↔◌, ◌∙◌, ◌∷◌, ◌≡◌, ◌≤◌,
}
use dns_server_cpp.Common.Bits.{or_shift}

-- The array has the bytes from an index on.
abbrev pub Agrees : (ℕ → ℕ) → ℕ → List ℕ → Type 0
Agrees a i [] = Unit
Agrees a i (x ∷ xs) = (a i ≡ x) × Agrees a (i + 1) xs

-- The bytes stand at the position, inside the length.
pub record Holds (xs : List ℕ) (b : BytePacketBuffer) : Type 0 where
  pub fits : b.pos + length xs ≤ b.len
  pub len_le : b.len ≤ max_buffer_size
  pub here : Agrees b.buff b.pos xs

-- Where the buffer holds the bytes, the method takes all of them, returns `a` and leaves the rest.
pub record Reads {A : Type 0} (m : Action A) (xs : List ℕ) (a : A) : Type 0 where
  pub run : (b : BytePacketBuffer) → Holds xs b → m b ≡ ok a (at b (b.pos + length xs))

pub Agrees-append :
    (a : ℕ → ℕ) (i : ℕ) (xs ys : List ℕ)
    → Agrees a i (xs ++ ys) ↔ (Agrees a i xs × Agrees a (i + length xs) ys)
Agrees-append a i [] ys = rw add-zero (λ h. (tt, h), λ h. h.1)
Agrees-append a i (x ∷ xs) ys =
    let e : i + 1 + length xs ≡ i + suc (length xs) = omega arith in
    let ih = rw e at (Agrees-append a (i + 1) xs ys) in
    (λ h. ((h.0, (ih.0 h.1).0), (ih.0 h.1).1), λ h. (h.0.0, ih.1 (h.0.1, h.1)))

module _ {A B : Type 0} where
  pub bind-Reads :
      {m : Action A} (f : A → Action B) {xs ys : List ℕ} {a : A} {c : B}
      → Reads m xs a
      → Reads (f a) ys c
      → Reads (m >>= f) (xs ++ ys) c
  bind-Reads f {xs} {ys} {a} {c} r s = record {
    run = λ b h.
        let (first, second) = (Agrees-append b.buff b.pos xs ys).0 h.here in
        let l : length (xs ++ ys) ≡ length xs + length ys = length-append xs ys in
        let h1 : Holds xs b = record {
          fits = omega (arith, h.fits, l);
          len_le = h.len_le;
          here = first;
        } in
        let h2 : Holds ys (at b (b.pos + length xs)) = record {
          fits = omega (arith, h.fits, l);
          len_le = h.len_le;
          here = second;
        } in
        let e : b.pos + length xs + length ys ≡ b.pos + length (xs ++ ys) = omega (arith, l) in
        rw (r.run b h1) (s.run (at b (b.pos + length xs)) h2 ∙ ap (λ p. ok c (at b p)) e);
  }

pub pure-Reads : {A : Type 0} (a : A) → Reads (pure a) [] a
pure-Reads a = record { run = λ b h. ap (λ p. ok a (at b p)) (sym (add-zero b.pos)) }

pub returns-Reads : {A : Type 0} (a : A) {c : A} → a ≡ c → Reads (pure a) [] c
returns-Reads a e = rw (← e) (pure-Reads a)

pub read_u8-Reads : (x : ℕ) → Reads read_u8 (x ∷ []) x
unfolding read_u8
read_u8-Reads x = record {
  run = λ b h. elim (require_available_cases b.pos 1 b.len b) [
    | inl (short, _) ↦ absurd (omega (arith, h.fits))
    | inr (_, e) ↦ rw (e, load_lem b.pos b (omega (arith, h.fits, h.len_le)), h.here.0)
  ];
}

pub read_u16-Reads : (v : ℕ) → v < 2 ^ 16 → Reads read_u16 (u16_bytes v) v
unfolding read_u16
read_u16-Reads v h = bind-Reads _ (read_u8-Reads (v / 2 ^ 8)) (
    bind-Reads _ (read_u8-Reads (v % 2 ^ 8))
      (returns-Reads _ (rw (or_shift 8 (v / 2 ^ 8) (v % 2 ^ 8) (omega arith)) (omega arith))))

pub read_u32-Reads : (v : ℕ) → v < 2 ^ 32 → Reads read_u32 (u32_bytes v) v
unfolding read_u32
read_u32-Reads v h =
    let fits : v / 2 ^ 16 * 2 ^ 16 % 2 ^ 32 ≡ v / 2 ^ 16 * 2 ^ 16 = omega arith in
    bind-Reads _ (read_u16-Reads (v / 2 ^ 16) (omega arith)) (
      bind-Reads _ (read_u16-Reads (v % 2 ^ 16) (omega arith)) (
        returns-Reads _
          (rw (fits, or_shift 16 (v / 2 ^ 16) (v % 2 ^ 16) (omega arith)) (omega arith))))

pub load_range-Agrees :
    (xs : List ℕ) (i : ℕ) (b : BytePacketBuffer)
    → Agrees b.buff i xs
    → i + length xs ≤ max_buffer_size
    → load_range (length xs) i b ≡ ok xs b
unfolding load_range
load_range-Agrees [] i b a h = refl
load_range-Agrees (x ∷ xs) i b a h =
    let e : i + 1 ≡ suc i = omega arith in
    rw (load_lem i b (omega arith), load_range-Agrees xs (suc i) b (rw e at a.1) (omega arith), a.0)

pub read_bytes-Reads : (xs : List ℕ) → Reads (read_bytes (length xs)) xs xs
unfolding read_bytes
read_bytes-Reads xs = record {
  run = λ b h. elim (require_available_cases b.pos (length xs) b.len b) [
    | inl (short, _) ↦ absurd (omega (arith, h.fits))
    | inr (_, e) ↦ rw (e, load_range-Agrees xs b.pos b h.here (omega (arith, h.fits, h.len_le)))
  ];
}

-- The last read of a method, whose value goes into the result.
pub last-Reads :
    {A B : Type 0} {m : Action A} (g : A → B) {xs : List ℕ} {a : A}
    → Reads m xs a
    → Reads (m >>= (λ x. pure (g x))) xs (g a)
last-Reads {m} g {xs} {a} r =
    subst (λ t. Reads (m >>= (λ x. pure (g x))) t (g a)) (append-nil xs)
      (bind-Reads _ r (pure-Reads (g a)))
