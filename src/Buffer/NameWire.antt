-- ===== src/Buffer/NameWire.antt =====
-- `write_qname` on any domain: it ends within its fuel, and on a domain of labels of 1 to 63 bytes
-- it writes each label behind its length, and a zero byte.
use dns_server_cpp.Buffer.Access.{write_all}
use dns_server_cpp.Buffer.Names.{
  is_root_name, split_label, write_label, write_labels, write_qname, write_rest,
}
use dns_server_cpp.Buffer.Safe.{
  Any, IsSafe, if-IsSafe, pure-IsSafe, raise_if-IsSafe, then-IsSafe, write_all-IsSafe,
  write_u8-IsSafe,
}
use dns_server_cpp.Buffer.State.{Action, invalid_argument, ◌>>◌}
use dns_server_cpp.Buffer.Wire.{write_all-append, write_all_one}
use dns_server_cpp.Common.{
  All, Bool-cases, List, Option, [], ap, arith, false, if◌then◌else◌, inl, inr, length, ltb, none,
  refl, some, subst, suc, true, zero, ℕ, ◌%◌, ◌++◌, ◌+◌, ◌<◌, ◌==◌, ◌||◌, ◌∷◌, ◌≡◌, ◌≢◌, ◌≤◌,
}

-- The pieces of a text between its dots.
unfoldable pub split_dots : List ℕ → List (List ℕ)
split_dots [] = [] ∷ []
split_dots (c ∷ s) = elim (split_dots s) [
  | [] ↦ []
  | l ∷ ls ↦ if c == b'.' then [] ∷ l ∷ ls else (c ∷ l) ∷ ls
]

abbrev pub IsLabel : List ℕ → Type 0
IsLabel l = (1 ≤ length l) × (length l ≤ 63)

-- Each label behind its length.
abbrev pub label_bytes : List (List ℕ) → List ℕ
label_bytes [] = []
label_bytes (l ∷ ls) = length l ∷ (l ++ label_bytes ls)

-- The wire form of a name.
unfoldable pub qname_bytes : List ℕ → List ℕ
qname_bytes name = if is_root_name name then 0 ∷ [] else label_bytes (split_dots name) ++ (0 ∷ [])

-- What `split_label` gives is the first piece, and the rest has the other pieces.
abbrev SplitsTo : List ℕ → List ℕ × Option (List ℕ) → Type 0
SplitsTo s (l, none) = (split_dots s ≡ l ∷ []) × (l ≡ s)
SplitsTo s (l, some r) = (split_dots s ≡ l ∷ split_dots r) × (length r < length s)

pub split_dots_nonempty :
    (s : List ℕ) → (l : List ℕ) × (ls : List (List ℕ)) × (split_dots s ≡ l ∷ ls)
unfolding split_dots
split_dots_nonempty [] = ([], [], refl)
split_dots_nonempty (c ∷ s) =
    let (l, ls, e) = split_dots_nonempty s in
    elim (Bool-cases (c == b'.')) [
      | inl d ↦ ([], l ∷ ls, rw (e, d))
      | inr d ↦ (c ∷ l, ls, rw (e, d))
    ]

pub split_dots_dot :
    (c : ℕ) (s : List ℕ) → (c == b'.') ≡ true → split_dots (c ∷ s) ≡ [] ∷ split_dots s
unfolding split_dots
split_dots_dot c s d = let (l, ls, e) = split_dots_nonempty s in rw (e, d)

pub split_dots_other :
    (c : ℕ) (s l : List ℕ) (ls : List (List ℕ))
    → (c == b'.') ≡ false
    → split_dots s ≡ l ∷ ls
    → split_dots (c ∷ s) ≡ (c ∷ l) ∷ ls
unfolding split_dots
split_dots_other c s l ls d e = rw (e, d)

SplitsTo-cons :
    (c : ℕ) (s : List ℕ) (p : List ℕ × Option (List ℕ))
    → (c == b'.') ≡ false
    → SplitsTo s p
    → SplitsTo (c ∷ s) (c ∷ p.0, p.1)
SplitsTo-cons c s (l, none) d h = (split_dots_other c s l [] d h.0, ap (λ t. c ∷ t) h.1)
SplitsTo-cons c s (l, some r) d h = (split_dots_other c s l (split_dots r) d h.0, omega arith)

split_label_lem : (s : List ℕ) → SplitsTo s (split_label s)
unfolding split_label
split_label_lem [] = (unfold split_dots in refl, refl)
split_label_lem (c ∷ s) = elim (Bool-cases (c == b'.')) [
  | inl d ↦ rw d (split_dots_dot c s d, omega arith)
  | inr d ↦ rw d (SplitsTo-cons c s (split_label s) d (split_label_lem s))
]

write_label-IsSafe : (l : List ℕ) → IsSafe Any (write_label l)
unfolding write_label
write_label-IsSafe l =
    then-IsSafe (raise_if-IsSafe (length l == 0 || ltb 63 (length l)) invalid_argument)
      (then-IsSafe (write_u8-IsSafe (length l % 256)) (write_all-IsSafe l))

write_rest-IsSafe :
    (next : List ℕ → Action (Unit {0})) (s : List ℕ) (p : List ℕ × Option (List ℕ))
    → SplitsTo s p
    → ((r : List ℕ) → length r < length s → IsSafe Any (next r))
    → IsSafe Any (write_rest next p.1)
write_rest-IsSafe next s (l, none) h k = pure-IsSafe tt tt
write_rest-IsSafe next s (l, some r) h k = k r h.1

write_labels-IsSafe : (fuel : ℕ) (s : List ℕ) → length s < fuel → IsSafe Any (write_labels fuel s)
unfolding write_labels
write_labels-IsSafe zero s h = elim h [ ]
write_labels-IsSafe (suc fuel) [] h = pure-IsSafe tt tt
write_labels-IsSafe (suc fuel) (c ∷ s) h =
    then-IsSafe (write_label-IsSafe (split_label (c ∷ s)).0) (
      write_rest-IsSafe (write_labels fuel) (c ∷ s) (split_label (c ∷ s)) (split_label_lem (c ∷ s))
        (λ r less. write_labels-IsSafe fuel r (omega arith)))

-- `write_qname` ends within its fuel on every domain and never writes outside the array.
pub write_qname-IsSafe : (domain : List ℕ) → IsSafe Any (write_qname domain)
unfolding write_qname
write_qname-IsSafe domain =
    if-IsSafe (is_root_name domain) (write_u8-IsSafe 0) (
      then-IsSafe (write_labels-IsSafe (length domain + 1) domain (omega arith))
        (write_u8-IsSafe 0))

-- On labels of 1 to 63 bytes the loop writes the wire form of each.
write_label_wire : (l : List ℕ) → IsLabel l → write_label l ≡ write_all (length l ∷ l)
unfolding write_label
write_label_wire l h =
    let good : (length l == 0 || ltb 63 (length l)) ≡ false = ground arith in
    let small : length l % 256 ≡ length l = omega arith in
    rw (good, small, write_all_one (length l)) (write_all-append (length l ∷ []) l)

write_rest_wire :
    (next : List ℕ → Action (Unit {0})) (s : List ℕ) (p : List ℕ × Option (List ℕ))
    → SplitsTo s p
    → All IsLabel (split_dots s)
    → ((r : List ℕ)
        → length r < length s
        → All IsLabel (split_dots r)
        → next r ≡ write_all (label_bytes (split_dots r)))
    → (write_label p.0 >> write_rest next p.1) ≡ write_all (label_bytes (split_dots s))
write_rest_wire next s (l, none) h v k =
    rw (h.0, write_label_wire l (subst (All IsLabel) h.0 v).0)
      (unfold write_all in write_all-append (length l ∷ l) [])
write_rest_wire next s (l, some r) h v k =
    let v' = subst (All IsLabel) h.0 v in
    rw (h.0, write_label_wire l v'.0, k r h.1 v'.1)
      (write_all-append (length l ∷ l) (label_bytes (split_dots r)))

pub split_dots_nil_ne : ¬ All IsLabel (split_dots [])
unfolding split_dots
split_dots_nil_ne h = omega arith

write_labels_wire :
    (fuel : ℕ) (s : List ℕ)
    → s ≢ []
    → length s < fuel
    → All IsLabel (split_dots s)
    → write_labels fuel s ≡ write_all (label_bytes (split_dots s))
unfolding write_labels
write_labels_wire zero s ne h v = elim h [ ]
write_labels_wire (suc fuel) [] ne h v = absurd (ne refl)
write_labels_wire (suc fuel) (c ∷ s) ne h v =
    write_rest_wire (write_labels fuel) (c ∷ s) (split_label (c ∷ s)) (split_label_lem (c ∷ s)) v
      (λ r less v'.
        write_labels_wire fuel r
          (λ e. split_dots_nil_ne (subst (λ t. All IsLabel (split_dots t)) e v')) (omega arith) v')

-- Where `write_qname` has labels of 1 to 63 bytes to write.
abbrev pub IsWritable : List ℕ → Type 0
IsWritable name = (is_root_name name ≡ false) → All IsLabel (split_dots name)

-- On a writable name `write_qname` writes exactly the wire form.
pub write_qname_wire :
    (name : List ℕ) → IsWritable name → write_qname name ≡ write_all (qname_bytes name)
unfolding write_qname qname_bytes
write_qname_wire name h = elim (Bool-cases (is_root_name name)) [
  | inl e ↦ rw e (write_all_one 0)
  | inr e ↦
      rw
        (
          e,
          write_labels_wire (length name + 1) name
              (λ n. cc (subst (λ t. is_root_name t ≡ false) n e)) (omega arith) (h e),
          write_all_one 0,
        )
        (write_all-append (label_bytes (split_dots name)) (0 ∷ []))
]
