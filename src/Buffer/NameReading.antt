-- ===== src/Buffer/NameReading.antt =====
-- `read_qname` on the wire form of a name, uncompressed: it returns the name.
use dns_server_cpp.Buffer.NameBounds.{add_label_lem}
use dns_server_cpp.Buffer.NameWire.{
  IsLabel, label_bytes, qname_bytes, split_dots, split_dots_dot, split_dots_nil_ne,
  split_dots_nonempty, split_dots_other,
}
use dns_server_cpp.Buffer.Names.{
  Cursor, add_label, again, done, is_root_name, read_qname, read_round, read_rounds, start_cursor,
  take_label,
}
use dns_server_cpp.Buffer.Reading.{Agrees, Agrees-append, Holds, Reads, load_range-Agrees}
use dns_server_cpp.Buffer.State.{
  BytePacketBuffer, at, load_lem, max_buffer_size, ok, require_available_cases,
}
use dns_server_cpp.Common.{
  ==_iff, All, Bool-cases, List, [], ap, append-nil, append_assoc, arith, bit_and, false, inl, inr,
  is_empty, length, length-append, ltb, refl, subst, suc, sym, true, zero, ℕ, ◌++◌, ◌+◌, ◌<◌, ◌==◌,
  ◌∙◌, ◌∷◌, ◌≡◌, ◌≤◌, ◌⊎◌,
}
use dns_server_cpp.Common.Bits.{is_label_lem, is_pointer_lem}

-- The cursor while no pointer was followed.
abbrev plain : List ℕ → ℕ → Cursor
plain name p = record { name = name; cursor = p; jumped = false; jumps = 0 }

module _ (b : BytePacketBuffer) (p : ℕ) where
  -- The zero byte ends the loop.
  zero_round :
      (name : List ℕ)
      → p < b.len
      → b.len ≤ max_buffer_size
      → b.buff p ≡ 0
      → read_round (plain name p) (at b p) ≡ ok (done name) (at b (p + 1))
  unfolding read_round
  zero_round name h k z = elim (require_available_cases p 1 b.len (at b p)) [
    | inl (short, _) ↦ absurd (omega arith)
    | inr (_, e) ↦ rw (e, load_lem p (at b p) (omega arith), z)
  ]

  -- A label is added to the name.
  label_round :
      (name l : List ℕ)
      → IsLabel l
      → p + 1 + length l ≤ b.len
      → b.len ≤ max_buffer_size
      → b.buff p ≡ length l
      → Agrees b.buff (p + 1) l
      → length (add_label name l) ≤ 254
      → read_round (plain name p) (at b p)
        ≡ ok (again (plain (add_label name l) (p + 1 + length l))) (at b (p + 1 + length l))
  unfolding read_round take_label
  label_round name l v h k z a small =
      let pointer : (bit_and (length l) 0xC0 == 0xC0) ≡ false =
        is_pointer_lem (length l) (omega arith) ∙ ground arith in
      let label : (bit_and (length l) 0xC0 == 0) ≡ true =
        is_label_lem (length l) (omega arith) ∙ ground arith in
      let nonzero : (length l == 0) ≡ false = ground arith in
      let short : ltb 255 (length (add_label name l) + 1) ≡ false = ground arith in
      elim (require_available_cases p 1 b.len (at b p)) [
        | inl (few, _) ↦ absurd (omega arith)
        | inr (_, e) ↦ elim (require_available_cases (p + 1) (length l) b.len (at b p)) [
          | inl (few, _) ↦ absurd (omega arith)
          | inr (_, e') ↦ rw (
            e,
            load_lem p (at b p) (omega arith),
            z,
            pointer,
            nonzero,
            label,
            e',
            load_range-Agrees l (p + 1) (at b p) a (omega arith),
            short,
          )
        ]
      ]

-- The name after all labels are added.
abbrev joined : List ℕ → List (List ℕ) → List ℕ
joined name [] = name
joined name (l ∷ ls) = joined (add_label name l) ls

joined_grows : (name : List ℕ) (ls : List (List ℕ)) → length name ≤ length (joined name ls)
joined_grows name [] = omega arith
joined_grows name (l ∷ ls) =
    omega (arith, joined_grows (add_label name l) ls, (add_label_lem name l).0)

abbrev tail_text : List (List ℕ) → List ℕ
tail_text [] = []
tail_text (l ∷ ls) = b'.' ∷ (l ++ tail_text ls)

joined-cons :
    (x : ℕ) (name : List ℕ) (ls : List (List ℕ)) → joined (x ∷ name) ls ≡ (x ∷ name) ++ tail_text ls
joined-cons x name [] = sym (append-nil (x ∷ name))
joined-cons x name (l ∷ ls) =
    joined-cons x (name ++ (b'.' ∷ l)) ls
    ∙ ap (λ t. x ∷ t) (append_assoc name (b'.' ∷ l) (tail_text ls))

abbrev text_of : List (List ℕ) → List ℕ
text_of [] = []
text_of (l ∷ ls) = l ++ tail_text ls

-- The pieces of a text, with the dots, are the text.
text_of-split_dots : (s : List ℕ) → text_of (split_dots s) ≡ s
text_of-split_dots [] = unfold split_dots in refl
text_of-split_dots (c ∷ s) =
    let (m, ms, e) = split_dots_nonempty s in
    let ih : m ++ tail_text ms ≡ s = subst (λ t. text_of t ≡ s) e (text_of-split_dots s) in
    elim (Bool-cases (c == b'.')) [
      | inl d ↦ rw (split_dots_dot c s d, e, ih, (==_iff c b'.').0 d)
      | inr d ↦ rw (split_dots_other c s m ms d e) (ap (λ t. c ∷ t) ih)
    ]

joined-split_dots : (s : List ℕ) → All IsLabel (split_dots s) → joined [] (split_dots s) ≡ s
joined-split_dots s v =
    let (l, ls, e) = split_dots_nonempty s in
    rw e (go l ls (subst (All IsLabel) e v).0 (subst (λ t. text_of t ≡ s) e (text_of-split_dots s)))
  where
    go : (l : List ℕ) (ls : List (List ℕ)) → IsLabel l → l ++ tail_text ls ≡ s → joined l ls ≡ s
    go [] ls h e = absurd (omega arith)
    go (x ∷ l) ls h e = joined-cons x l ls ∙ e

-- From the first label on the loop takes every label and the zero byte.
read_rounds-labels :
    (ls : List (List ℕ)) (fuel p : ℕ) (name : List ℕ) (b : BytePacketBuffer)
    → length ls < fuel
    → All IsLabel ls
    → p + length (label_bytes ls ++ (0 ∷ [])) ≤ b.len
    → b.len ≤ max_buffer_size
    → Agrees b.buff p (label_bytes ls ++ (0 ∷ []))
    → length (joined name ls) ≤ 254
    → read_rounds fuel (plain name p) (at b p)
      ≡ ok (joined name ls) (at b (p + length (label_bytes ls ++ (0 ∷ []))))
unfolding read_rounds
read_rounds-labels ls zero p name b f v h k a small = elim f [ ]
read_rounds-labels [] (suc fuel) p name b f v h k a small =
    rw (zero_round b p name (omega arith) k a.0)
read_rounds-labels (l ∷ ls) (suc fuel) p name b f v h k a small =
    let rest : List ℕ = label_bytes ls ++ (0 ∷ []) in
    let size : length (l ++ rest) ≡ length l + length rest = length-append l rest in
    let assoc : (l ++ label_bytes ls) ++ (0 ∷ []) ≡ l ++ rest =
      append_assoc l (label_bytes ls) (0 ∷ []) in
    let room : p + suc (length (l ++ rest)) ≤ b.len =
      subst (λ t. p + suc (length t) ≤ b.len) assoc h in
    let both = (Agrees-append b.buff (p + 1) l rest).0 (subst (Agrees b.buff (p + 1)) assoc a.1) in
    let first =
      label_round b p name l v.0 (omega arith) k a.0 both.0
        (omega (arith, joined_grows (add_label name l) ls)) in
    let next =
      read_rounds-labels ls fuel (p + 1 + length l) (add_label name l) b (omega arith) v.1
        (omega arith) k both.1 small in
    let e : p + 1 + length l + length rest ≡ p + suc (length ((l ++ label_bytes ls) ++ (0 ∷ []))) =
      omega (arith, ap length assoc) in
    rw first (next ∙ ap (λ q. ok (joined name (l ∷ ls)) (at b q)) e)

-- A name that comes back as it was written: the root, or labels of 1 to 63 bytes without a dot at
-- the end, 254 bytes with the dots at most.
abbrev pub IsName : List ℕ → Type 0
IsName name =
    (name ≡ b'.' ∷ [])
    ⊎ (All IsLabel (split_dots name) × (length name ≤ 254) × All (λ x. x < 256) name)

length-split_dots : (s : List ℕ) → length (split_dots s) ≤ length s + 1
length-split_dots [] = unfold split_dots in omega arith
length-split_dots (c ∷ s) =
    let (m, ms, e) = split_dots_nonempty s in
    elim (Bool-cases (c == b'.')) [
      | inl d ↦ omega (arith, ap length (split_dots_dot c s d), length-split_dots s)
      | inr d ↦
          omega (arith, ap length (split_dots_other c s m ms d e), ap length e, length-split_dots s)
    ]

-- Labels are no root.
pub labels_no_root : (s : List ℕ) → All IsLabel (split_dots s) → is_root_name s ≡ false
labels_no_root [] h = absurd (split_dots_nil_ne h)
labels_no_root (c ∷ []) h = elim (Bool-cases (c == b'.')) [
  | inl d ↦ absurd (omega (arith, subst (All IsLabel) (split_dots_dot c [] d) h))
  | inr d ↦ d
]
labels_no_root (c ∷ d ∷ s) h = refl

labels_no_nil : (s : List ℕ) → All IsLabel (split_dots s) → is_empty s ≡ false
labels_no_nil [] h = absurd (split_dots_nil_ne h)
labels_no_nil (c ∷ s) h = refl

-- The whole method, on the pieces of a name.
read_pieces :
    (ls : List (List ℕ)) (b : BytePacketBuffer)
    → All IsLabel ls
    → length (joined [] ls) ≤ 254
    → length ls ≤ 255
    → Holds (label_bytes ls ++ (0 ∷ [])) b
    → read_rounds (b.len + 255) (start_cursor b.pos) b
      ≡ ok (joined [] ls) (at b (b.pos + length (label_bytes ls ++ (0 ∷ []))))
read_pieces ls b v small few h =
    read_rounds-labels ls (b.len + 255) b.pos [] b
      (omega (arith, h.fits, length-append (label_bytes ls) (0 ∷ []))) v h.fits h.len_le h.here
      small

-- `read_qname` reads the wire form of a name back, and stops behind it.
pub read_qname-Reads : (name : List ℕ) → IsName name → Reads read_qname (qname_bytes name) name
unfolding read_qname qname_bytes
read_qname-Reads name (inl e) =
    rw e (record { run = λ b h. rw (read_pieces [] b tt (omega arith) (omega arith) h) })
read_qname-Reads name (inr (v, small, _)) =
    let whole : joined [] (split_dots name) ≡ name = joined-split_dots name v in
    let fits : length (joined [] (split_dots name)) ≤ 254 = omega (arith, ap length whole) in
    let few : length (split_dots name) ≤ 255 = omega (arith, length-split_dots name) in
    rw (labels_no_root name v) (record {
      run = λ b h. rw (read_pieces (split_dots name) b v fits few h, whole, labels_no_nil name v);
    })
