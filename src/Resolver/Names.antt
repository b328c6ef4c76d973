-- ===== src/Resolver/Names.antt =====
-- Names and their case: the comparison of the resolver agrees with the keys of the cache.
use dns_server_cpp.Cache.Defs.{make_key, normalize}
use dns_server_cpp.Common.{List, [], ap, arith, refl, true, ℕ, ◌↔◌, ◌∷◌, ◌≡◌}
use dns_server_cpp.Question.Defs.{QuestionType}
use dns_server_cpp.Resolver.Defs.{equals_ignore_case}

equals_ignore_case_iff :
    (a b : List ℕ) → (equals_ignore_case a b ≡ true) ↔ (normalize a ≡ normalize b)
unfolding equals_ignore_case normalize
equals_ignore_case_iff [] [] = (λ _. refl, λ _. refl)
equals_ignore_case_iff [] (d ∷ b) = (λ e. cc e, λ e. cc e)
equals_ignore_case_iff (c ∷ a) [] = (λ e. cc e, λ e. cc e)
equals_ignore_case_iff (c ∷ a) (d ∷ b) = ground (arith, equals_ignore_case_iff a b)

-- Two names have the same key in the cache, for a type, exactly when the resolver takes them for equal
-- in its comparison without regard to case.
pub make_key-equals_ignore_case :
    (a b : List ℕ) (t : QuestionType)
    → (equals_ignore_case a b ≡ true) ↔ (make_key a t ≡ make_key b t)
unfolding make_key
make_key-equals_ignore_case a b t = (
  λ e. ap (λ d. record { domain = d; type = t }) ((equals_ignore_case_iff a b).0 e),
  λ e. (equals_ignore_case_iff a b).1 (ap (λ k. k.domain) e),
)
