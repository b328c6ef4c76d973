-- ===== src/Cache/Entries.antt =====
-- The entries of the cache as a map: look-up after assignment and erasure, and distinct keys.
use dns_server_cpp.Cache.Defs.{DnsCacheEntry, DnsCacheKey, assign, erase, find, key_eq}
use dns_server_cpp.Cache.Keys.{key_eq_iff, key_eq_refl, key_eq_sym}
use dns_server_cpp.Common.{
  Bool-cases, List, [], ap, false, if◌then◌else◌, inl, inr, none, refl, some, subst, ◌∙◌, ◌∷◌, ◌≡◌,
  ◌⊎◌,
}

abbrev pub Entries : Type 0
Entries = List (DnsCacheKey × DnsCacheEntry)

-- No key stands twice.
abbrev pub IsUnique : Entries → Type 0
IsUnique [] = Unit
IsUnique ((k, e) ∷ c) = (find k c ≡ none) × IsUnique c

find_here : (k : DnsCacheKey) (e : DnsCacheEntry) (c : Entries) → find k ((k, e) ∷ c) ≡ some e
unfolding find
find_here k e c = rw (key_eq_refl k)

find_miss :
    (k k' : DnsCacheKey) (e : DnsCacheEntry) (c : Entries)
    → key_eq k k' ≡ false
    → find k ((k', e) ∷ c) ≡ find k c
unfolding find
find_miss k k' e c h = rw h

-- The key of the first pair is the one looked for, or another.
pub first_cases : (k k' : DnsCacheKey) → (k ≡ k') ⊎ (key_eq k k' ≡ false)
first_cases k k' = elim (Bool-cases (key_eq k k')) [
  | inl t ↦ inl ((key_eq_iff k k').0 t)
  | inr f ↦ inr f
]

module _ (k : DnsCacheKey) (e : DnsCacheEntry) where
  pub find-assign-same : (c : Entries) → find k (assign k e c) ≡ some e
  unfolding assign
  find-assign-same [] = find_here k e []
  find-assign-same ((k', e') ∷ c) = elim (Bool-cases (key_eq k k')) [
    | inl t ↦ rw t (unfold find in rw t)
    | inr f ↦ rw f (find_miss k k' e' (assign k e c) f ∙ find-assign-same c)
  ]

  pub find-assign-other :
      (k' : DnsCacheKey) (c : Entries) → key_eq k' k ≡ false → find k' (assign k e c) ≡ find k' c
  unfolding assign find
  find-assign-other k' [] h = find_miss k' k e [] h
  find-assign-other k' ((k2, e2) ∷ c) h = elim (first_cases k k2) [
    | inl same ↦
        let missed : key_eq k' k2 ≡ false = subst (λ x. key_eq k' x ≡ false) same h in
        rw ((key_eq_iff k k2).1 same, missed)
    | inr f ↦ rw f (ap (λ x. if key_eq k' k2 then some e2 else x) (find-assign-other k' c h))
  ]

  pub assign-IsUnique : (c : Entries) → IsUnique c → IsUnique (assign k e c)
  unfolding assign
  assign-IsUnique [] u = (unfold find in refl, tt)
  assign-IsUnique ((k2, e2) ∷ c) u = elim (Bool-cases (key_eq k k2)) [
    | inl t ↦ rw t u
    | inr f ↦ rw f (find-assign-other k2 c (key_eq_sym k k2 f) ∙ u.0, assign-IsUnique c u.1)
  ]

module _ (k : DnsCacheKey) where
  pub find-erase-other :
      (k' : DnsCacheKey) (c : Entries) → key_eq k' k ≡ false → find k' (erase k c) ≡ find k' c
  unfolding erase find
  find-erase-other k' [] h = refl
  find-erase-other k' ((k2, e2) ∷ c) h = elim (first_cases k k2) [
    | inl same ↦
        let missed : key_eq k' k2 ≡ false = subst (λ x. key_eq k' x ≡ false) same h in
        rw ((key_eq_iff k k2).1 same, missed)
    | inr f ↦ rw f (ap (λ x. if key_eq k' k2 then some e2 else x) (find-erase-other k' c h))
  ]

  pub find-erase-same : (c : Entries) → IsUnique c → find k (erase k c) ≡ none
  unfolding erase
  find-erase-same [] u = unfold find in refl
  find-erase-same ((k2, e2) ∷ c) u = elim (first_cases k k2) [
    | inl same ↦ rw ((key_eq_iff k k2).1 same) (ap (λ x. find x c) same ∙ u.0)
    | inr f ↦ rw f (find_miss k k2 e2 (erase k c) f ∙ find-erase-same c u.1)
  ]

  pub erase-IsUnique : (c : Entries) → IsUnique c → IsUnique (erase k c)
  unfolding erase
  erase-IsUnique [] u = tt
  erase-IsUnique ((k2, e2) ∷ c) u = elim (Bool-cases (key_eq k k2)) [
    | inl t ↦ rw t (u.1)
    | inr f ↦ rw f (find-erase-other k2 c (key_eq_sym k k2 f) ∙ u.0, erase-IsUnique c u.1)
  ]
