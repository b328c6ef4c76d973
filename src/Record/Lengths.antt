-- ===== src/Record/Lengths.antt =====
-- `qname_wire_length` against the bytes that `write_qname` writes.
use dns_server_cpp.Buffer.NameReading.{IsName, labels_no_root}
use dns_server_cpp.Buffer.NameWire.{
  IsLabel, label_bytes, qname_bytes, split_dots, split_dots_dot, split_dots_nil_ne,
  split_dots_nonempty, split_dots_other,
}
use dns_server_cpp.Buffer.State.{pure}
use dns_server_cpp.Common.{
  All, Bool-cases, List, [], arith, false, inl, inr, length, length-append, ltb, refl, subst, sym,
  ℕ, ◌+◌, ◌==◌, ◌∷◌, ◌≡◌,
}
use dns_server_cpp.Record.Write.{ends_with_dot, qname_wire_length, uint16_max}

length-label_bytes : (s : List ℕ) → length (label_bytes (split_dots s)) ≡ length s + 1
length-label_bytes [] = unfold split_dots in refl
length-label_bytes (c ∷ s) =
    let (m, ms, e) = split_dots_nonempty s in
    let ih : length (label_bytes (m ∷ ms)) ≡ length s + 1 =
      subst (λ t. length (label_bytes t) ≡ length s + 1) e (length-label_bytes s) in
    elim (Bool-cases (c == b'.')) [
      | inl d ↦ rw (split_dots_dot c s d, e) (omega (arith, ih))
      | inr d ↦ rw (split_dots_other c s m ms d e) (omega (arith, ih))
    ]

abbrev after_first : List (List ℕ) → List (List ℕ)
after_first [] = []
after_first (l ∷ ls) = ls

-- A dot at the end leaves an empty piece behind it.
last_piece : (s : List ℕ) → All IsLabel (after_first (split_dots s)) → ends_with_dot s ≡ false
unfolding ends_with_dot
last_piece [] h = refl
last_piece (c ∷ []) h = elim (Bool-cases (c == b'.')) [
  | inl d ↦
      absurd
        (split_dots_nil_ne (subst (λ t. All IsLabel (after_first t)) (split_dots_dot c [] d) h))
  | inr d ↦ d
]
last_piece (c ∷ d ∷ s) h =
    let (m, ms, e) = split_dots_nonempty (d ∷ s) in
    let back : All IsLabel ms → All IsLabel (after_first (split_dots (d ∷ s))) =
      λ a. subst (λ t. All IsLabel (after_first t)) (sym e) a in
    elim (Bool-cases (c == b'.')) [
      | inl t ↦
          let pieces = subst (λ u. All IsLabel (after_first u)) (split_dots_dot c (d ∷ s) t) h in
          last_piece (d ∷ s) (back (subst (All IsLabel) e pieces).1)
      | inr t ↦
          last_piece (d ∷ s) (
            back (subst (λ u. All IsLabel (after_first u)) (split_dots_other c (d ∷ s) m ms t e) h))
    ]

pub length-qname_bytes :
    (name : List ℕ) → All IsLabel (split_dots name) → length (qname_bytes name) ≡ length name + 2
unfolding qname_bytes
length-qname_bytes name v =
    rw (labels_no_root name v) (
      omega
        (arith, length-append (label_bytes (split_dots name)) (0 ∷ []), length-label_bytes name))

-- For a name the length written before it is the number of bytes that the name takes.
pub qname_wire_length_lem :
    (name : List ℕ) → IsName name → qname_wire_length name ≡ pure (length (qname_bytes name))
unfolding qname_wire_length
qname_wire_length_lem name (inl e) = rw e (unfold qname_bytes in refl)
qname_wire_length_lem name (inr (v, small, _)) =
    let (l, ls, e) = split_dots_nonempty name in
    let pieces : All IsLabel (after_first (split_dots name)) =
      subst (λ t. All IsLabel (after_first t)) (sym e) (subst (All IsLabel) e v).1 in
    let undotted = last_piece name pieces in
    let fits : ltb uint16_max (length name + 2) ≡ false = ground arith in
    rw (labels_no_root name v, undotted, fits, length-qname_bytes name v)
