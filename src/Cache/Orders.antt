-- ===== src/Cache/Orders.antt =====
-- The order of the entries: `std::unordered_map` keeps them in any order, and may change it.
use mathlib.Core.List.{Permᴰ}
use dns_server_cpp.Cache.Defs.{DnsCache, DnsCacheEntry, DnsCacheKey, find, key_eq}
use dns_server_cpp.Cache.Entries.{Entries, IsUnique, first_cases}
use dns_server_cpp.Cache.Keys.{key_eq_sym}
use dns_server_cpp.Cache.Machine.{Operation, as_map, call, call-refines, map_calls}
use dns_server_cpp.Cache.Runs.{IsCache, call-IsCache}
use dns_server_cpp.Common.{
  Bool-cases, List, Option, [], ap, false, fun_ext, if◌then◌else◌, inl, inr, none, refl, some,
  subst, sym, ◌∙◌, ◌∷◌, ◌≡◌,
}

-- Distinct keys, and the entries of another table.
abbrev IsSameTable : Entries → Entries → Type 0
IsSameTable xs ys = IsUnique ys × ((k : DnsCacheKey) → find k ys ≡ find k xs)

module _ (x : DnsCacheKey × DnsCacheEntry) where
  IsSameTable-cons :
      (xs ys : Entries) → find x.0 xs ≡ none → IsSameTable xs ys → IsSameTable (x ∷ xs) (x ∷ ys)
  unfolding find
  IsSameTable-cons xs ys absent (v, there) =
      ((there x.0 ∙ absent, v), λ k. ap (λ o. if key_eq k x.0 then some x.1 else o) (there k))

  IsSameTable-swap :
      (y : DnsCacheKey × DnsCacheEntry) (xs : Entries)
      → IsUnique (x ∷ y ∷ xs)
      → IsSameTable (x ∷ y ∷ xs) (y ∷ x ∷ xs)
  unfolding find
  IsSameTable-swap y xs u = elim (Bool-cases (key_eq x.0 y.0)) [
    | inl t ↦ cc (simp t at u.0)
    | inr f ↦
        let absent : find x.0 xs ≡ none = simp f at u.0 in
        (
          (rw (key_eq_sym x.0 y.0 f) u.1.0, (absent, u.1.1)),
          λ k. elim (first_cases k x.0) [
            | inl same ↦
                let apart : key_eq k y.0 ≡ false = subst (λ a. key_eq a y.0 ≡ false) (sym same) f in
                rw apart refl
            | inr g ↦ rw g refl
          ],
        )
  ]

-- A table in another order has the same entries.
Permᴰ-find : {xs ys : Entries} → Permᴰ xs ys → IsUnique xs → IsSameTable xs ys
Permᴰ-find Permᴰ.nil u = (tt, λ k. refl)
Permᴰ-find (Permᴰ.cons {a = x} {l₁ = xs} {l₂ = ys} same p) u =
    subst (λ y. IsSameTable (x ∷ xs) (y ∷ ys)) same
      (IsSameTable-cons x xs ys u.0 (Permᴰ-find p u.1))
Permᴰ-find (Permᴰ.swap {a = x} {b = y} {b' = x'} {l = l} same other) u =
    subst (λ z. IsSameTable (x ∷ y ∷ l) (z ∷ x' ∷ l)) other
      (subst (λ z. IsSameTable (x ∷ y ∷ l) (y ∷ z ∷ l)) same (IsSameTable-swap x y l u))
Permᴰ-find (Permᴰ.trans p q) u =
    let (v, there) = Permᴰ-find p u in
    let (v', there') = Permᴰ-find q v in (v', λ k. there' k ∙ there k)

-- Runs of calls on a table that may be put in another order before any of them, with their answers.
pub data Served : List Operation → DnsCache → List (Option DnsCacheEntry) → DnsCache → Type 0 where
  done : {c : DnsCache} → Served [] c [] c
  next_call :
      {ops : List Operation} {answers : List (Option DnsCacheEntry)} {c c' : DnsCache}
      (op : Operation)
      → Served ops (call op c).1 answers c'
      → Served (op ∷ ops) c ((call op c).0 ∷ answers) c'
  reordered :
      {ops : List Operation} {answers : List (Option DnsCacheEntry)} {c c' : DnsCache}
      (entries : Entries)
      → Permᴰ c.cache entries
      → Served ops (record c { cache = entries }) answers c'
      → Served ops c answers c'

-- Another order keeps the invariant and the map.
reordered-IsCache :
    (c : DnsCache) (entries : Entries)
    → Permᴰ c.cache entries
    → IsCache c
    → IsCache (record c { cache = entries }) × (as_map (record c { cache = entries }) ≡ as_map c)
reordered-IsCache c entries p v =
    let (unique, there) = Permᴰ-find p v.unique in
    (
      record { unique = unique; filled = λ k e f. v.filled k e (sym (there k) ∙ f) },
      ap (λ f. record (as_map c) { entry = f }) (fun_ext there),
    )

-- A run of calls from a cache with the invariant gives the answers of the map with expiry, ends in a
-- cache that represents its last state, and keeps the invariant, in whatever order the table keeps its
-- entries and however often that changes between the calls.
pub Served-refines :
    {ops : List Operation} {answers : List (Option DnsCacheEntry)} {c c' : DnsCache}
    → Served ops c answers c'
    → IsCache c
    → ((answers, as_map c') ≡ map_calls ops (as_map c)) × IsCache c'
unfolding map_calls
Served-refines done v = (refl, v)
Served-refines {c = c} (next_call {ops = ops} op s) v =
    let (after, kept) = Served-refines s (call-IsCache op c v) in
    (
      ap (λ r. ((call op c).0 ∷ r.0, r.1)) after
          ∙ ap (λ r. (r.0 ∷ (map_calls ops r.1).0, (map_calls ops r.1).1))
              (call-refines op c v.unique),
      kept,
    )
Served-refines {ops = ops} {c = c} (reordered entries p s) v =
    let (v', same) = reordered-IsCache c entries p v in
    let (after, kept) = Served-refines s v' in (after ∙ ap (map_calls ops) same, kept)
