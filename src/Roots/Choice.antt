-- ===== src/Roots/Choice.antt =====
-- The candidates of an attempt: each is untried, and there is one as long as a server is untried.
use dns_server_cpp.Address.Defs.{IpAddress}
use dns_server_cpp.Common.{
  Bool, Bool-cases, List, [], arith, false, inl, inr, is_empty, not, some, some-injective, subst,
  suc, true, zero, ℕ, ◌&&◌, ◌∷◌, ◌≡◌, ◌⊎◌,
}
use dns_server_cpp.Roots.Ask.{element, is_tried, untried_candidates}
use dns_server_cpp.Roots.Bands.{keep_if-numbered}
use dns_server_cpp.Roots.Defs.{
  RootServer, SelectionCategory, any_of, fail, get_candidates, has_status, keep_if, numbered,
}

first_element :
    {A : Type 0} (y : A) (ys : List A) (n : ℕ) (x : A)
    → element (y ∷ ys) n ≡ some x
    → (y ≡ x) ⊎ ((m : ℕ) × (element ys m ≡ some x))
first_element y ys zero x e = inl (some-injective e)
first_element y ys (suc m) x e = inr (m, e)

-- What `keep_if` keeps passes its test.
keep_if-element :
    (p : RootServer → Bool) (xs : List (ℕ × RootServer)) (n i : ℕ) (s : RootServer)
    → element (keep_if p xs) n ≡ some (i, s)
    → p s ≡ true
unfolding keep_if
keep_if-element p [] n i s e = cc e
keep_if-element p ((j, t) ∷ xs) n i s e = elim (Bool-cases (p t)) [
  | inl h ↦ elim (first_element (j, t) (keep_if p xs) n (i, s) (simp h at e)) [
    | inl same ↦ subst (λ x. p x.1 ≡ true) same h
    | inr (m, later) ↦ keep_if-element p xs m i s later
  ]
  | inr f ↦ keep_if-element p xs n i s (simp f at e)
]

-- A candidate was not tried before.
pub untried_candidates-untried :
    (category : SelectionCategory) (least : ℕ) (tried : List IpAddress) (servers : List RootServer)
    (n i : ℕ) (s : RootServer)
    → element (untried_candidates category least tried servers) n ≡ some (i, s)
    → is_tried tried s.address ≡ false
unfolding untried_candidates
untried_candidates-untried category least tried servers n i s e =
    let untried : RootServer → Bool = λ s'. not (is_tried tried s'.address) in
    let first : List (ℕ × RootServer) = keep_if untried (get_candidates category least servers) in
    let second : List (ℕ × RootServer) =
      keep_if (λ s'. not (has_status fail s') && untried s') (numbered 0 servers) in
    elim (Bool-cases (is_empty first)) [
      | inr f ↦ let kept = keep_if-element untried _ n i s (simp f at e) in ground (arith, kept)
      | inl t ↦ elim (Bool-cases (is_empty second)) [
        | inr f ↦
            let kept = keep_if-element _ (numbered 0 servers) n i s (simp (t, f) at e) in
            ground (arith, kept)
        | inl t' ↦
            let kept = keep_if-element untried (numbered 0 servers) n i s (simp (t, t') at e) in
            ground (arith, kept)
      ]
    ]

-- As long as the table has an untried server an attempt has candidates, whatever the category: also
-- where the category has none left, or where every untried server has failed.
pub untried_candidates-found :
    (category : SelectionCategory) (least : ℕ) (tried : List IpAddress) (servers : List RootServer)
    → any_of (λ s. not (is_tried tried s.address)) servers ≡ true
    → is_empty (untried_candidates category least tried servers) ≡ false
unfolding untried_candidates
untried_candidates-found category least tried servers h =
    let untried : RootServer → Bool = λ s'. not (is_tried tried s'.address) in
    let first : List (ℕ × RootServer) = keep_if untried (get_candidates category least servers) in
    let second : List (ℕ × RootServer) =
      keep_if (λ s'. not (has_status fail s') && untried s') (numbered 0 servers) in
    elim (Bool-cases (is_empty first)) [
      | inr f ↦ rw f f
      | inl t ↦ elim (Bool-cases (is_empty second)) [
        | inr f ↦ rw (t, f) f
        | inl t' ↦ rw (t, t') (rw (keep_if-numbered untried 0 servers, h))
      ]
    ]
