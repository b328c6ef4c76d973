-- ===== src/Config/Pieces.antt =====
-- What `std::getline` in a loop makes of a text: its pieces, but for an empty one at the end.
use dns_server_cpp.Common.{
  ==_iff, All, Bool-cases, List, [], ap, append_assoc, arith, false, inl, inr, length,
  length-append, refl, some, suc, zero, ℕ, ◌++◌, ◌<◌, ◌==◌, ◌∙◌, ◌∷◌, ◌≡◌,
}
use dns_server_cpp.Config.Csv.{getline, pieces, pieces_within, until}

-- The delimiter does not stand in a piece.
abbrev pub Lacks : ℕ → List ℕ → Type 0
Lacks delim s = All (λ c. (c == delim) ≡ false) s

-- Each piece with the delimiter behind it.
abbrev pub terminated : ℕ → List (List ℕ) → List ℕ
terminated delim [] = []
terminated delim (p ∷ ps) = p ++ (delim ∷ terminated delim ps)

-- A last piece without a delimiter behind it; an empty one is none.
abbrev pub last_piece : List ℕ → List (List ℕ)
last_piece [] = []
last_piece (c ∷ s) = (c ∷ s) ∷ []

until-piece :
    (delim : ℕ) (p rest : List ℕ) → Lacks delim p → until delim (p ++ (delim ∷ rest)) ≡ (p, rest)
unfolding until
until-piece delim [] rest h = ground arith
until-piece delim (c ∷ p) rest h = rw (h.0, until-piece delim p rest h.1)

until-last : (delim : ℕ) (p : List ℕ) → Lacks delim p → until delim p ≡ (p, [])
unfolding until
until-last delim [] h = refl
until-last delim (c ∷ p) h = rw (h.0, until-last delim p h.1)

pub getline-piece :
    (delim : ℕ) (p rest : List ℕ)
    → Lacks delim p
    → getline delim (p ++ (delim ∷ rest)) ≡ some (p, rest)
unfolding getline
getline-piece delim [] rest h = ap some (until-piece delim [] rest h)
getline-piece delim (c ∷ p) rest h = ap some (until-piece delim (c ∷ p) rest h)

pieces_within-last :
    (fuel delim : ℕ) (p : List ℕ)
    → Lacks delim p
    → length p < fuel
    → pieces_within fuel delim p ≡ last_piece p
unfolding pieces_within getline
pieces_within-last zero delim p h l = elim l [ ]
pieces_within-last (suc fuel) delim [] h l = refl
pieces_within-last (suc zero) delim (c ∷ p) h l = absurd (omega (arith, l))
pieces_within-last (suc (suc fuel)) delim (c ∷ p) h l = rw (until-last delim (c ∷ p) h)

pieces_within-terminated :
    (fuel delim : ℕ) (ps : List (List ℕ)) (last : List ℕ)
    → All (Lacks delim) ps
    → Lacks delim last
    → length (terminated delim ps ++ last) < fuel
    → pieces_within fuel delim (terminated delim ps ++ last) ≡ ps ++ last_piece last
unfolding pieces_within
pieces_within-terminated fuel delim [] last h k l = pieces_within-last fuel delim last k l
pieces_within-terminated zero delim (p ∷ ps) last h k l = elim l [ ]
pieces_within-terminated (suc fuel) delim (p ∷ ps) last h k l =
    let e : (p ++ (delim ∷ terminated delim ps)) ++ last
        ≡ p ++ (delim ∷ (terminated delim ps ++ last)) =
      append_assoc p (delim ∷ terminated delim ps) last in
    let short : length (terminated delim ps ++ last) < fuel =
      omega (arith, l, ap length e, length-append p (delim ∷ (terminated delim ps ++ last))) in
    rw e
      (one (terminated delim ps ++ last) (pieces_within-terminated fuel delim ps last h.1 k short))
  where
    one :
        (rest : List ℕ)
        → pieces_within fuel delim rest ≡ ps ++ last_piece last
        → pieces_within (suc fuel) delim (p ++ (delim ∷ rest)) ≡ p ∷ (ps ++ last_piece last)
    one rest ih = rw (pieces_within, getline-piece delim p rest h.0) (ap (λ ps. p ∷ ps) ih)

pub pieces-terminated :
    (delim : ℕ) (ps : List (List ℕ)) (last : List ℕ)
    → All (Lacks delim) ps
    → Lacks delim last
    → pieces delim (terminated delim ps ++ last) ≡ ps ++ last_piece last
unfolding pieces
pieces-terminated delim ps last h k =
    pieces_within-terminated (suc (length (terminated delim ps ++ last))) delim ps last h k
      (omega arith)

-- A text as pieces with a delimiter behind each and a last piece, none with the delimiter in it.
pub record Cut (delim : ℕ) (s : List ℕ) : Type 0 where
  pub whole : List (List ℕ)
  pub last : List ℕ
  pub whole-Lacks : All (Lacks delim) whole
  pub last-Lacks : Lacks delim last
  pub spelled : s ≡ terminated delim whole ++ last

split_off : (delim : ℕ) (s : List ℕ) → Cut delim s → Cut delim (delim ∷ s)
split_off delim s k = record {
  whole = [] ∷ k.whole;
  last = k.last;
  whole-Lacks = (tt, k.whole-Lacks);
  last-Lacks = k.last-Lacks;
  spelled = ap (λ t. delim ∷ t) k.spelled;
}

longer :
    (delim c : ℕ) (whole : List (List ℕ)) (last s : List ℕ)
    → (c == delim) ≡ false
    → All (Lacks delim) whole
    → Lacks delim last
    → s ≡ terminated delim whole ++ last
    → Cut delim (c ∷ s)
longer delim c [] last s h w l e = record {
  whole = [];
  last = c ∷ last;
  whole-Lacks = tt;
  last-Lacks = (h, l);
  spelled = ap (λ t. c ∷ t) e;
}
longer delim c (p ∷ ps) last s h w l e = record {
  whole = (c ∷ p) ∷ ps;
  last = last;
  whole-Lacks = ((h, w.0), w.1);
  last-Lacks = l;
  spelled = ap (λ t. c ∷ t) e;
}

cut : (delim : ℕ) (s : List ℕ) → Cut delim s
cut delim [] = record { whole = []; last = []; whole-Lacks = tt; last-Lacks = tt; spelled = refl }
cut delim (c ∷ s) = elim (Bool-cases (c == delim)) [
  | inl e ↦ rw ((==_iff c delim).0 e) (split_off delim s (cut delim s))
  | inr n ↦
      let k = cut delim s in longer delim c k.whole k.last s n k.whole-Lacks k.last-Lacks k.spelled
]

-- Every text consists of pieces with a delimiter behind each and of a last piece, none with the
-- delimiter in it, and these are the pieces that `std::getline` in a loop reads, but for a last one
-- that is empty.
pub pieces_lem :
    (delim : ℕ) (s : List ℕ) → (k : Cut delim s) × (pieces delim s ≡ k.whole ++ last_piece k.last)
pieces_lem delim s =
    let k = cut delim s in
    (
      k,
      ap (pieces delim) k.spelled
          ∙ pieces-terminated delim k.whole k.last k.whole-Lacks k.last-Lacks,
    )
