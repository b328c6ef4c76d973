-- ===== src/Buffer/Owners.antt =====
-- Names that can be written, their bytes, and the owner names of records, which may be empty.
use dns_server_cpp.Buffer.NameReading.{IsName, labels_no_root, read_qname-Reads}
use dns_server_cpp.Buffer.NameWire.{
  IsLabel, IsWritable, label_bytes, qname_bytes, split_dots, split_dots_dot, split_dots_nil_ne,
  split_dots_nonempty, split_dots_other,
}
use dns_server_cpp.Buffer.Names.{is_root_name, read_qname}
use dns_server_cpp.Buffer.Reading.{Reads}
use dns_server_cpp.Common.{
  All, All-append, Bool-cases, List, [], arith, false, inl, inr, refl, subst, ℕ, ◌<◌, ◌==◌, ◌∷◌,
  ◌≡◌, ◌⊎◌,
}

pub IsName-IsWritable : (name : List ℕ) → IsName name → IsWritable name
IsName-IsWritable name (inl e) f = cc (subst (λ t. is_root_name t ≡ false) e f)
IsName-IsWritable name (inr (v, _, _)) f = v

piece_bytes : (s : List ℕ) → All (λ x. x < 256) s → All (All (λ x. x < 256)) (split_dots s)
piece_bytes [] h = unfold split_dots in (tt, tt)
piece_bytes (c ∷ s) h =
    let (m, ms, e) = split_dots_nonempty s in
    let ih = subst (All (All (λ x. x < 256))) e (piece_bytes s h.1) in
    elim (Bool-cases (c == b'.')) [
      | inl d ↦ rw (split_dots_dot c s d, e) (tt, ih)
      | inr d ↦ rw (split_dots_other c s m ms d e) ((h.0, ih.0), ih.1)
    ]

label_bytes-bytes :
    (ls : List (List ℕ))
    → All IsLabel ls
    → All (All (λ x. x < 256)) ls
    → All (λ x. x < 256) (label_bytes ls)
label_bytes-bytes [] v h = tt
label_bytes-bytes (l ∷ ls) v h =
    (omega (arith, v.0), All-append _ l (label_bytes ls) h.0 (label_bytes-bytes ls v.1 h.1))

-- The wire form of a name is made of bytes.
pub qname_bytes-bytes : (name : List ℕ) → IsName name → All (λ x. x < 256) (qname_bytes name)
unfolding qname_bytes
qname_bytes-bytes name (inl e) = rw e (omega arith)
qname_bytes-bytes name (inr (v, small, h)) = rw (labels_no_root name v) (
    All-append _ (label_bytes (split_dots name)) (0 ∷ [])
      (label_bytes-bytes (split_dots name) v (piece_bytes name h)) (omega arith))

-- A record may also have the empty name, which is written as the root and read back as such.
abbrev pub IsOwner : List ℕ → Type 0
IsOwner name = (name ≡ []) ⊎ IsName name

abbrev pub shown_name : List ℕ → List ℕ
shown_name [] = b'.' ∷ []
shown_name (c ∷ s) = c ∷ s

shown_name_lem : (name : List ℕ) → IsName name → shown_name name ≡ name
shown_name_lem [] (inl e) = cc
shown_name_lem [] (inr (v, _, _)) = absurd (split_dots_nil_ne v)
shown_name_lem (c ∷ s) n = refl

pub IsOwner-IsWritable : (name : List ℕ) → IsOwner name → IsWritable name
IsOwner-IsWritable name (inl e) f = cc (subst (λ t. is_root_name t ≡ false) e f)
IsOwner-IsWritable name (inr n) f = IsName-IsWritable name n f

pub owner_bytes : (name : List ℕ) → IsOwner name → All (λ x. x < 256) (qname_bytes name)
owner_bytes name (inl e) = rw e (unfold qname_bytes in omega arith)
owner_bytes name (inr n) = qname_bytes-bytes name n

pub read_owner-Reads :
    (name : List ℕ) → IsOwner name → Reads read_qname (qname_bytes name) (shown_name name)
read_owner-Reads name (inl e) = rw e (unfold qname_bytes in read_qname-Reads (b'.' ∷ []) (inl refl))
read_owner-Reads name (inr n) = rw (shown_name_lem name n) (read_qname-Reads name n)
