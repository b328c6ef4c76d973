-- ===== src/Server/Accounts.antt =====
-- What is open between two system calls, and the socket that listens (src/DnsServer.cxx).
use dns_server_cpp.Address.Text.{inet6_family}
use dns_server_cpp.Common.{
  Bool-cases, List, Option, Option-cases, [], ap, append_assoc, arith, if◌then◌else◌, inl, inr,
  none, refl, some, subst, sym, ℕ, ◌++◌, ◌+◌, ◌==◌, ◌∙◌, ◌∷◌, ◌≡◌,
}
use dns_server_cpp.Net.Endpoints.{Endpoint, any_endpoint, any_endpoint-family, family_of}
use dns_server_cpp.Server.Sockets.{
  Kernel, Opening, SystemCall, after_open, bind_or_close, bind_socket, close_socket, cut_off, done,
  limit_socket, make_listening_socket, open_socket, raised,
}

-- How often a descriptor is opened and closed.
abbrev pub times_opened : ℕ → List SystemCall → ℕ
times_opened fd [] = 0
times_opened fd (open_socket family n ∷ log) = (if n == fd then 1 else 0) + times_opened fd log
times_opened fd (limit_socket n ∷ log) = times_opened fd log
times_opened fd (bind_socket n address ∷ log) = times_opened fd log
times_opened fd (close_socket n ∷ log) = times_opened fd log

abbrev pub times_closed : ℕ → List SystemCall → ℕ
times_closed fd [] = 0
times_closed fd (open_socket family n ∷ log) = times_closed fd log
times_closed fd (limit_socket n ∷ log) = times_closed fd log
times_closed fd (bind_socket n address ∷ log) = times_closed fd log
times_closed fd (close_socket n ∷ log) = (if n == fd then 1 else 0) + times_closed fd log

-- Every descriptor is closed as often as it is opened.
abbrev pub IsBalanced : List SystemCall → Type 0
IsBalanced log = (fd : ℕ) → times_opened fd log ≡ times_closed fd log

pub times_opened-append :
    (fd : ℕ) (xs ys : List SystemCall)
    → times_opened fd (xs ++ ys) ≡ times_opened fd xs + times_opened fd ys
times_opened-append fd [] ys = omega arith
times_opened-append fd (open_socket family n ∷ xs) ys = omega (arith, times_opened-append fd xs ys)
times_opened-append fd (limit_socket n ∷ xs) ys = times_opened-append fd xs ys
times_opened-append fd (bind_socket n address ∷ xs) ys = times_opened-append fd xs ys
times_opened-append fd (close_socket n ∷ xs) ys = times_opened-append fd xs ys

pub times_closed-append :
    (fd : ℕ) (xs ys : List SystemCall)
    → times_closed fd (xs ++ ys) ≡ times_closed fd xs + times_closed fd ys
times_closed-append fd [] ys = omega arith
times_closed-append fd (open_socket family n ∷ xs) ys = times_closed-append fd xs ys
times_closed-append fd (limit_socket n ∷ xs) ys = times_closed-append fd xs ys
times_closed-append fd (bind_socket n address ∷ xs) ys = times_closed-append fd xs ys
times_closed-append fd (close_socket n ∷ xs) ys = omega (arith, times_closed-append fd xs ys)

-- Between two logs as many descriptors are opened as are closed.
abbrev KeepsOpen : List SystemCall → List SystemCall → Type 0
KeepsOpen log log' =
    (fd : ℕ)
    → times_opened fd log' + times_closed fd log ≡ times_closed fd log' + times_opened fd log

KeepsOpen-append : (log more : List SystemCall) → IsBalanced more → KeepsOpen log (log ++ more)
KeepsOpen-append log more h fd =
    omega (arith, h fd, times_opened-append fd log more, times_closed-append fd log more)

-- The calls of a socket that listens: for IPv6 with the limit to it.
abbrev pub listening_calls : ℕ → ℕ → Endpoint → List SystemCall
listening_calls family fd address =
    if family == inet6_family
    then open_socket family fd ∷ limit_socket fd ∷ bind_socket fd address ∷ []
    else open_socket family fd ∷ bind_socket fd address ∷ []

-- A socket that could not be made leaves nothing open; one that is made is bound.
abbrev pub IsMade : ℕ → ℕ → List SystemCall → Opening ℕ → Type 0
IsMade family port log (done log' fd) =
    (address : Endpoint) × (any_endpoint family port ≡ some address)
    × (log' ≡ log ++ listening_calls family fd address)
IsMade family port log (raised log' e) = KeepsOpen log log'
IsMade family port log cut_off = ⊥

module _ (k : Kernel) where
  bind_or_close-IsMade :
      (family port fd : ℕ) (address : Endpoint) (log more : List SystemCall)
      → any_endpoint family port ≡ some address
      → IsBalanced (more ++ (close_socket fd ∷ []))
      → more ++ (bind_socket fd address ∷ []) ≡ listening_calls family fd address
      → IsMade family port log (bind_or_close k fd address (log ++ more))
  bind_or_close-IsMade family port fd address log more e h s =
      elim (Bool-cases (k.bound fd address)) [
        | inl t ↦
            rw t (
              address,
              e,
              append_assoc log more (bind_socket fd address ∷ []) ∙ ap (λ l. log ++ l) s,
            )
        | inr f ↦ rw f (λ n. omega (
          arith,
          h n,
          times_opened-append n log more,
          times_closed-append n log more,
          times_opened-append n more (close_socket fd ∷ []),
          times_closed-append n more (close_socket fd ∷ []),
          times_opened-append n (log ++ more) (bind_socket fd address ∷ close_socket fd ∷ []),
          times_closed-append n (log ++ more) (bind_socket fd address ∷ close_socket fd ∷ []),
        ))
      ]

  after_open-IsMade :
      (family port : ℕ) (address : Endpoint) (log : List SystemCall) (o : Option ℕ)
      → any_endpoint family port ≡ some address
      → IsMade family port log (after_open k family address log o)
  after_open-IsMade family port address log none e = λ n. omega arith
  after_open-IsMade family port address log (some fd) e =
      rw (any_endpoint-family family port address e) (elim (Bool-cases (family == inet6_family)) [
        | inl six ↦ elim (Bool-cases (k.limited fd)) [
          | inl t ↦
              rw (six, t)
                (subst (λ l. IsMade family port log (bind_or_close k fd address l))
                  (sym (append_assoc log (open_socket family fd ∷ []) (limit_socket fd ∷ [])))
                  (bind_or_close-IsMade family port fd address log
                    (open_socket family fd ∷ limit_socket fd ∷ []) e (λ n. refl) (rw six)))
          | inr f ↦
              rw (six, f, append_assoc)
                (KeepsOpen-append log
                  (open_socket family fd ∷ limit_socket fd ∷ close_socket fd ∷ []) (λ n. refl))
        ]
        | inr four ↦ rw four (
            bind_or_close-IsMade family port fd address log (open_socket family fd ∷ []) e
              (λ n. refl) (rw four))
      ])

  pub make_listening_socket-IsMade :
      (family port : ℕ) (log : List SystemCall)
      → IsMade family port log (make_listening_socket k family port log)
  unfolding make_listening_socket
  make_listening_socket-IsMade family port log = elim (Option-cases (any_endpoint family port)) [
    | inl e ↦ rw e (λ n. omega arith)
    | inr (address, e) ↦
        rw e (after_open-IsMade family port address log (k.opened (family_of address.storage)) e)
  ]
