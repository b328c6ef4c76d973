-- ===== src/Cache/Keys.antt =====
-- Cache keys: `operator==` decides equality, and the case of a name makes no difference to its key.
use dns_server_cpp.Address.Words.{bytes_eq_iff}
use dns_server_cpp.Cache.Defs.{DnsCacheKey, key_eq, normalize, to_lower}
use dns_server_cpp.Common.{
  Bool-cases, List, [], arith, false, inl, inr, refl, sym, true, ℕ, ◌↔◌, ◌∷◌, ◌≡◌,
}

-- The comparison of keys decides equality.
pub key_eq_iff : (a b : DnsCacheKey) → (key_eq a b ≡ true) ↔ (a ≡ b)
unfolding key_eq
key_eq_iff a b = ground (arith, bytes_eq_iff a.domain b.domain)

pub key_eq_refl : (k : DnsCacheKey) → key_eq k k ≡ true
key_eq_refl k = (key_eq_iff k k).1 refl

pub key_eq_sym : (a b : DnsCacheKey) → key_eq a b ≡ false → key_eq b a ≡ false
key_eq_sym a b h = elim (Bool-cases (key_eq b a)) [
  | inl t ↦ cc (h, (key_eq_iff a b).1 (sym ((key_eq_iff b a).0 t)))
  | inr f ↦ f
]

to_lower_idem : (c : ℕ) → to_lower (to_lower c) ≡ to_lower c
unfolding to_lower
to_lower_idem c = ground arith

normalize_idem : (s : List ℕ) → normalize (normalize s) ≡ normalize s
unfolding normalize
normalize_idem [] = refl
normalize_idem (c ∷ s) = simp (to_lower_idem c, normalize_idem s)
