-- ===== src/Config/Loaded.antt =====
-- What the constructor of RootServerManager makes of a configuration file.
use dns_server_cpp.Address.Defs.{Ipv4Address, Ipv6Address, v4, v6}
use dns_server_cpp.Address.Text.{InetPton}
use dns_server_cpp.Buffer.State.{invalid_argument, runtime_error}
use dns_server_cpp.Common.{
  All, All-append, Bool, List, Option, Option-cases, [], arith, false, if◌then◌else◌, inl, inr,
  is_empty, leb, length, none, not, refl, some, suc, true, zero, ℕ, ◌&&◌, ◌<◌, ◌∷◌, ◌≡◌, ◌≤◌, ◌⊎◌,
}
use dns_server_cpp.Config.Csv.{fields_and_rest, getline, newline, read_row, until}
use dns_server_cpp.Config.Load.{
  Loading, add_row, add_rows, check_servers, field, lacks_address, load_servers, loaded, push4,
  push6, refused, unfinished, ◌>>=◌,
}
use dns_server_cpp.Roots.Defs.{RootServer, new_server}

-- A server as its constructor makes it.
abbrev pub IsNew : RootServer → Type 0
IsNew s = s ≡ new_server s.address

-- A table of new servers that is not empty, or one of the two exceptions.
abbrev pub IsLoaded : Loading (List RootServer) → Type 0
IsLoaded (loaded servers) = (is_empty servers ≡ false) × All IsNew servers
IsLoaded (refused e) = (e ≡ runtime_error) ⊎ (e ≡ invalid_argument)
IsLoaded unfinished = ⊥

-- The same of the table while it is built, when it may be empty still.
abbrev IsTable : Loading (List RootServer) → Type 0
IsTable (loaded servers) = All IsNew servers
IsTable (refused e) = (e ≡ runtime_error) ⊎ (e ≡ invalid_argument)
IsTable unfinished = ⊥

bind-IsTable :
    (m : Loading (List RootServer)) (f : List RootServer → Loading (List RootServer))
    → IsTable m
    → ((servers : List RootServer) → All IsNew servers → IsTable (f servers))
    → IsTable (m >>= f)
bind-IsTable (loaded servers) f h k = k servers h
bind-IsTable (refused e) f h k = h
bind-IsTable unfinished f h k = elim h [ ]

push4-IsTable :
    (o : Option Ipv4Address) (servers : List RootServer)
    → All IsNew servers
    → IsTable (push4 o servers)
push4-IsTable none servers h = inr refl
push4-IsTable (some a) servers h = All-append IsNew servers (new_server (v4 a) ∷ []) h (refl, tt)

push6-IsTable :
    (o : Option Ipv6Address) (servers : List RootServer)
    → All IsNew servers
    → IsTable (push6 o servers)
push6-IsTable none servers h = inr refl
push6-IsTable (some a) servers h = All-append IsNew servers (new_server (v6 a) ∷ []) h (refl, tt)

if-IsTable :
    (c : Bool) (m k : Loading (List RootServer))
    → IsTable m
    → IsTable k
    → IsTable (if c then m else k)
if-IsTable true m k h j = h
if-IsTable false m k h j = j

check_servers-IsLoaded :
    (m : Loading (List RootServer)) → IsTable m → IsLoaded (m >>= check_servers)
check_servers-IsLoaded (loaded []) h = inl refl
check_servers-IsLoaded (loaded (s ∷ servers)) h = (refl, h)
check_servers-IsLoaded (refused e) h = h
check_servers-IsLoaded unfinished h = elim h [ ]

until-shorter : (delim : ℕ) (s : List ℕ) → length (until delim s).1 ≤ length s
unfolding until
until-shorter delim [] = omega arith
until-shorter delim (c ∷ s) = ground (arith, until-shorter delim s)

-- A line that is read takes a byte at least.
getline-shorter :
    (delim : ℕ) (s piece rest : List ℕ)
    → getline delim s ≡ some (piece, rest)
    → length rest < length s
unfolding getline until
getline-shorter delim [] piece rest e = cc e
getline-shorter delim (c ∷ s) piece rest e = ground (arith, until-shorter delim s, e)

fields_and_rest-rest :
    (o : Option (List ℕ × List ℕ)) (row : List (List ℕ)) (rest : List ℕ)
    → fields_and_rest o ≡ some (row, rest)
    → (line : List ℕ) × (o ≡ some (line, rest))
fields_and_rest-rest none row rest e = cc e
fields_and_rest-rest (some (line, rest')) row rest e = (line, cc e)

read_row-shorter :
    (file : List ℕ) (row : List (List ℕ)) (rest : List ℕ)
    → read_row file ≡ some (row, rest)
    → length rest < length file
unfolding read_row
read_row-shorter file row rest e =
    let (line, g) = fields_and_rest-rest (getline newline file) row rest e in
    getline-shorter newline file line rest g

module _ (inet : InetPton) where
  add_row-IsTable :
      (row : List (List ℕ)) (servers : List RootServer)
      → All IsNew servers
      → IsTable (add_row inet row servers)
  unfolding add_row
  add_row-IsTable row servers h = if-IsTable (lacks_address row) _ _ (inl refl) (
      bind-IsTable _ _ (if-IsTable (not (is_empty (field row 1))) _ _ (push4-IsTable _ servers h) h)
        (λ with4 k.
          if-IsTable (leb 3 (length row) && not (is_empty (field row 2))) _ _
            (push6-IsTable _ with4 k) k))

  add_rows-IsTable :
      (fuel : ℕ) (file : List ℕ) (servers : List RootServer)
      → length file < fuel
      → All IsNew servers
      → IsTable (add_rows inet fuel file servers)
  unfolding add_rows
  add_rows-IsTable zero file servers l h = elim l [ ]
  add_rows-IsTable (suc fuel) file servers l h = elim (Option-cases (read_row file)) [
    | inl e ↦ rw e h
    | inr ((row, rest), e) ↦
        let shorter : length rest < fuel = omega (arith, l, read_row-shorter file row rest e) in
        rw e (
          bind-IsTable (add_row inet row servers) (add_rows inet fuel rest)
            (add_row-IsTable row servers h)
            (λ servers' k. add_rows-IsTable fuel rest servers' shorter k))
  ]

  -- Whatever the file holds, the constructor ends: with a table that has a server, and only servers
  -- of which nothing is known yet, or with one of the two exceptions `runtime_error` and
  -- `invalid_argument`.
  pub load_servers-IsLoaded : (file : Option (List ℕ)) → IsLoaded (load_servers inet file)
  unfolding load_servers
  load_servers-IsLoaded none = inl refl
  load_servers-IsLoaded (some file) = elim (Option-cases (read_row file)) [
    | inl e ↦ rw e (inl refl)
    | inr ((row, rest), e) ↦ rw e (
        check_servers-IsLoaded (add_rows inet (suc (length rest)) rest [])
          (add_rows-IsTable (suc (length rest)) rest [] (omega arith) tt))
  ]
