-- ===== src/Buffer/Wire.antt =====
-- What the writing methods write, as a list of bytes: each is the loop over that list, so that all
-- the facts about capacity, position and contents are proved for the loop alone.
use dns_server_cpp.Buffer.Access.{write_all, write_u16, write_u32, write_u8}
use dns_server_cpp.Buffer.State.{
  Action, BytePacketBuffer, Outcome, and_then, length_error, max_buffer_size, ok, out_of_bounds,
  out_of_fuel, pure, store_lem, throws, update, ◌>>◌,
}
use dns_server_cpp.Common.{
  Bool-cases, List, [], ap, arith, false, fun_ext, inl, inr, leb, length, max, refl, ℕ, ◌%◌, ◌++◌,
  ◌+◌, ◌/◌, ◌<◌, ◌^◌, ◌∷◌, ◌≡◌, ◌≤◌,
}
use dns_server_cpp.Common.Bits.{and_ones}

-- Where the bytes go: from `pos` on, each modulo 256.
abbrev pub put_bytes : List ℕ → BytePacketBuffer → BytePacketBuffer
put_bytes [] b = b
put_bytes (x ∷ xs) b = put_bytes xs (record b {
  buff = update b.buff b.pos (x % 256);
  pos = b.pos + 1;
  len = max b.len (b.pos + 1);
})

write_u8_fits :
    (x : ℕ) (b : BytePacketBuffer)
    → b.pos + 1 ≤ b.max_capacity
    → b.max_capacity ≤ max_buffer_size
    → write_u8 x b ≡ ok tt (put_bytes (x ∷ []) b)
unfolding write_u8
write_u8_fits x b h k =
    let room : leb b.max_capacity b.pos ≡ false = ground arith in
    rw (room, store_lem b.pos (x % 256) b (omega arith))

-- A list that fits the capacity is written whole.
pub write_all_fits :
    (xs : List ℕ) (b : BytePacketBuffer)
    → b.pos + length xs ≤ b.max_capacity
    → b.max_capacity ≤ max_buffer_size
    → write_all xs b ≡ ok tt (put_bytes xs b)
unfolding write_all
write_all_fits [] b h k = refl
write_all_fits (x ∷ xs) b h k =
    rw (write_u8_fits x b (omega arith) k) (write_all_fits xs _ (omega arith) k)

-- One that does not fit throws.
pub write_all_full :
    (xs : List ℕ) (b : BytePacketBuffer)
    → b.pos ≤ b.max_capacity
    → b.max_capacity < b.pos + length xs
    → b.max_capacity ≤ max_buffer_size
    → (b' : BytePacketBuffer) × (write_all xs b ≡ throws length_error b')
unfolding write_all
write_all_full [] b h k m = absurd (omega arith)
write_all_full (x ∷ xs) b h k m = elim (Bool-cases (leb b.max_capacity b.pos)) [
  | inl full ↦ (b, unfold write_u8 in rw full)
  | inr room ↦
      let (b', e) = write_all_full xs (put_bytes (x ∷ []) b) (ground arith) (omega arith) m in
      (b', rw (write_u8_fits x b (ground arith) m) e)
]

-- Writing one list after another is writing both.
pub write_all-append : (xs ys : List ℕ) → (write_all xs >> write_all ys) ≡ write_all (xs ++ ys)
unfolding write_all
write_all-append [] ys = refl
write_all-append (x ∷ xs) ys = fun_ext λ b. go (write_u8 x b) (write_all-append xs ys)
  where
    go :
        (o : Outcome (Unit {0}))
        → (write_all xs >> write_all ys) ≡ write_all (xs ++ ys)
        → and_then (and_then o (λ _. write_all xs)) (λ _. write_all ys)
          ≡ and_then o (λ _. write_all (xs ++ ys))
    go (ok a b') e = ap (λ (m : Action (Unit {0})). m b') e
    go (throws e' b') e = refl
    go out_of_bounds e = refl
    go out_of_fuel e = refl

pub write_all_one : (x : ℕ) → write_u8 x ≡ write_all (x ∷ [])
unfolding write_all
write_all_one x = fun_ext λ b. go (write_u8 x b)
  where
    go : (o : Outcome (Unit {0})) → o ≡ and_then o (λ _. pure tt)
    go (ok tt b') = refl
    go (throws e b') = refl
    go out_of_bounds = refl
    go out_of_fuel = refl

abbrev pub u16_bytes : ℕ → List ℕ
u16_bytes v = v / 2 ^ 8 ∷ v % 2 ^ 8 ∷ []

abbrev pub u32_bytes : ℕ → List ℕ
u32_bytes v = u16_bytes (v / 2 ^ 16) ++ u16_bytes (v % 2 ^ 16)

-- Big-endian order.
pub write_u16_wire : (v : ℕ) → write_u16 v ≡ write_all (u16_bytes v)
unfolding write_u16
write_u16_wire v =
    rw (and_ones 8 v, write_all_one (v / 2 ^ 8), write_all_one (v % 2 ^ 8))
      (write_all-append (v / 2 ^ 8 ∷ []) (v % 2 ^ 8 ∷ []))

pub write_u32_wire : (v : ℕ) → write_u32 v ≡ write_all (u32_bytes v)
unfolding write_u32
write_u32_wire v =
    rw (and_ones 16 v, write_u16_wire (v / 2 ^ 16), write_u16_wire (v % 2 ^ 16))
      (write_all-append (u16_bytes (v / 2 ^ 16)) (u16_bytes (v % 2 ^ 16)))
