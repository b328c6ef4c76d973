-- ===== src/Buffer/Contents.antt =====
-- What stands in the buffer after a list of bytes is written: the list at the old position, all
-- before it unchanged; so a method that reads the list returns what was written.
use dns_server_cpp.Buffer.Access.{seek, write_all}
use dns_server_cpp.Buffer.Reading.{Agrees, Holds, Reads}
use dns_server_cpp.Buffer.Safe.{IsValid}
use dns_server_cpp.Buffer.State.{Action, BytePacketBuffer, at, ok, ◌>>◌}
use dns_server_cpp.Buffer.Wire.{put_bytes, write_all_fits}
use dns_server_cpp.Common.{
  All, List, [], ap, arith, false, length, ltb, max, refl, sym, ℕ, ◌+◌, ◌<◌, ◌∙◌, ◌∷◌, ◌≡◌, ◌≤◌,
}

put_bytes-pos : (xs : List ℕ) (b : BytePacketBuffer) → (put_bytes xs b).pos ≡ b.pos + length xs
put_bytes-pos [] b = omega arith
put_bytes-pos (x ∷ xs) b = put_bytes-pos xs _ ∙ omega arith

put_bytes-len :
    (xs : List ℕ) (b : BytePacketBuffer)
    → b.pos ≤ b.len
    → (put_bytes xs b).len ≡ max b.len (b.pos + length xs)
put_bytes-len [] b h = omega arith
put_bytes-len (x ∷ xs) b h = put_bytes-len xs _ (omega arith) ∙ omega arith

put_bytes-max_capacity :
    (xs : List ℕ) (b : BytePacketBuffer) → (put_bytes xs b).max_capacity ≡ b.max_capacity
put_bytes-max_capacity [] b = refl
put_bytes-max_capacity (x ∷ xs) b = put_bytes-max_capacity xs _

put_bytes_before :
    (xs : List ℕ) (b : BytePacketBuffer) (j : ℕ) → j < b.pos → (put_bytes xs b).buff j ≡ b.buff j
put_bytes_before [] b j h = refl
put_bytes_before (x ∷ xs) b j h = put_bytes_before xs _ j (omega arith) ∙ ground arith

put_bytes-Agrees :
    (xs : List ℕ) (b : BytePacketBuffer)
    → All (λ x. x < 256) xs
    → Agrees (put_bytes xs b).buff b.pos xs
put_bytes-Agrees [] b h = tt
put_bytes-Agrees (x ∷ xs) b h = (
  put_bytes_before xs (put_bytes (x ∷ []) b) b.pos (omega arith) ∙ ground arith,
  put_bytes-Agrees xs (put_bytes (x ∷ []) b) h.1,
)

seek_back_lem :
    (xs : List ℕ) (b : BytePacketBuffer)
    → b.pos ≤ b.len
    → seek b.pos (put_bytes xs b) ≡ ok tt (at (put_bytes xs b) b.pos)
unfolding seek
seek_back_lem xs b h =
    let inside : ltb (put_bytes xs b).len b.pos ≡ false = ground (arith, put_bytes-len xs b h) in
    rw inside

pub put_bytes-Holds :
    (xs : List ℕ) (b : BytePacketBuffer)
    → All (λ x. x < 256) xs
    → IsValid b
    → b.pos + length xs ≤ b.max_capacity
    → Holds xs (at (put_bytes xs b) b.pos)
put_bytes-Holds xs b bytes v h =
    let l = put_bytes-len xs b v.pos_le in
    record {
      fits = omega (arith, l);
      len_le = omega (arith, l, v.len_le, v.capacity_le);
      here = put_bytes-Agrees xs b bytes;
    }

-- A writer of a list of bytes, and a reader of the same list.
module _ {A : Type 0} {write : Action (Unit {0})} {read : Action A} {xs : List ℕ} {a : A} where
  -- Writing, going back and reading gives the value and stops where the writing stopped.
  pub written-Reads :
      write ≡ write_all xs
      → Reads read xs a
      → All (λ x. x < 256) xs
      → (b : BytePacketBuffer) → IsValid b
      → b.pos + length xs ≤ b.max_capacity
      → (write >> (seek b.pos >> read)) b ≡ ok a (put_bytes xs b)
  written-Reads e r bytes b v h =
      let seek_back : seek b.pos (put_bytes xs b) ≡ ok tt (at (put_bytes xs b) b.pos) =
        seek_back_lem xs b v.pos_le in
      let back : read (at (put_bytes xs b) b.pos) ≡ ok a (put_bytes xs b) =
        r.run _ (put_bytes-Holds xs b bytes v h)
        ∙ ap (λ p. ok a (at (put_bytes xs b) p)) (sym (put_bytes-pos xs b)) in
      rw (e, write_all_fits xs b h v.capacity_le, seek_back) back
