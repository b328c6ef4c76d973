-- ===== src/Address/TextForm.antt =====
-- The text form of an IPv4 address tells its octets.
use dns_server_cpp.Address.Defs.{Ipv4Address}
use dns_server_cpp.Address.Text.{decimal, dot, to_string}
use dns_server_cpp.Common.{
  Bool-cases, List, [], ap, append_assoc, arith, inl, inr, ltb, map, ℕ, ◌*◌, ◌++◌, ◌+◌, ◌-◌, ◌<◌,
  ◌∙◌, ◌∷◌, ◌≡◌,
}
use dns_server_cpp.Config.Csv.{pieces}
use dns_server_cpp.Config.Pieces.{Lacks, last_piece, pieces-terminated, terminated}

-- The number that decimal digits stand for.
abbrev pub value_from : ℕ → List ℕ → ℕ
value_from n [] = n
value_from n (c ∷ s) = value_from (10 * n + (c - b'0')) s

value_from-decimal : (n : ℕ) → n < 1000 → value_from 0 (decimal n) ≡ n
unfolding decimal
value_from-decimal n h = ground arith

decimal-Lacks : (n : ℕ) → n < 1000 → Lacks dot (decimal n)
unfolding decimal
decimal-Lacks n h = elim (Bool-cases (ltb n 10)) [
  | inl one ↦ rw one (ground arith, tt)
  | inr more ↦ elim (Bool-cases (ltb n 100)) [
    | inl two ↦ rw (more, two) (ground arith, (ground arith, tt))
    | inr three ↦ rw (more, three) (ground arith, (ground arith, (ground arith, tt)))
  ]
]

last_piece-decimal : (n : ℕ) → last_piece (decimal n) ≡ decimal n ∷ []
unfolding decimal
last_piece-decimal n = elim (Bool-cases (ltb n 10)) [
  | inl one ↦ rw one
  | inr more ↦ elim (Bool-cases (ltb n 100)) [
    | inl two ↦ rw (more, two)
    | inr three ↦ rw (more, three)
  ]
]

-- The octets of an address with octets below 256 are what the pieces of its text between the dots
-- stand for, as decimal numbers.
pub to_string-octets :
    (a : Ipv4Address)
    → a.octet0 < 256
    → a.octet1 < 256
    → a.octet2 < 256
    → a.octet3 < 256
    → map (value_from 0) (pieces dot (to_string a)) ≡ a.octet0 ∷ a.octet1 ∷ a.octet2 ∷ a.octet3 ∷ []
unfolding to_string
to_string-octets a h i j k =
    let whole : List (List ℕ) = decimal a.octet0 ∷ decimal a.octet1 ∷ decimal a.octet2 ∷ [] in
    let spelled : to_string a ≡ terminated dot whole ++ decimal a.octet3 = simp append_assoc in
    let e : pieces dot (terminated dot whole ++ decimal a.octet3)
        ≡ whole ++ last_piece (decimal a.octet3) =
      pieces-terminated dot whole (decimal a.octet3)
        (
          decimal-Lacks a.octet0 (omega arith),
          (decimal-Lacks a.octet1 (omega arith), (decimal-Lacks a.octet2 (omega arith), tt)),
        )
        (decimal-Lacks a.octet3 (omega arith)) in
    ap (λ t. map (value_from 0) (pieces dot t)) spelled
    ∙ ap (map (value_from 0)) e
    ∙ rw (
      last_piece-decimal a.octet3,
      value_from-decimal a.octet0 (omega arith),
      value_from-decimal a.octet1 (omega arith),
      value_from-decimal a.octet2 (omega arith),
      value_from-decimal a.octet3 (omega arith),
    )
