-- ===== src/Config/Load.antt =====
-- The constructor of RootServerManager (src/RootServerManager.cxx): it reads the table of root
-- servers from the configuration file.
use dns_server_cpp.Address.Defs.{Ipv4Address, Ipv6Address, v4, v6}
use dns_server_cpp.Address.Text.{InetPton, ipv4_of_text, ipv6_of_text}
use dns_server_cpp.Buffer.State.{Error, invalid_argument, runtime_error}
use dns_server_cpp.Common.{
  Bool, List, Option, [], get_or, if◌then◌else◌, is_empty, leb, length, ltb, none, not, some, suc,
  zero, ℕ, ◌&&◌, ◌++◌, ◌||◌, ◌∷◌,
}
use dns_server_cpp.Config.Csv.{read_row}
use dns_server_cpp.Roots.Ask.{element}
use dns_server_cpp.Roots.Defs.{RootServer, new_server}

-- How the reading ends: with a result, with an exception, or, in the model only, out of fuel.
pub data Loading (A : Type 0) : Type 0 where
  loaded : A → Loading A
  refused : Error → Loading A
  unfinished : Loading A

infixl 5 ◌>>=◌
abbrev pub ◌>>=◌ : {A B : Type 0} → Loading A → (A → Loading B) → Loading B
loaded a >>= f = f a
refused e >>= f = refused e
unfinished >>= f = unfinished

-- `row[i]`, where the row has it.
abbrev pub field : List (List ℕ) → ℕ → List ℕ
field row i = get_or [] (element row i)

-- `servers.emplace_back` of what the constructor of the address makes of the text.
abbrev pub push4 : Option Ipv4Address → List RootServer → Loading (List RootServer)
push4 none servers = refused invalid_argument
push4 (some a) servers = loaded (servers ++ (new_server (v4 a) ∷ []))

abbrev pub push6 : Option Ipv6Address → List RootServer → Loading (List RootServer)
push6 none servers = refused invalid_argument
push6 (some a) servers = loaded (servers ++ (new_server (v6 a) ∷ []))

-- A row that has neither address.
abbrev pub lacks_address : List (List ℕ) → Bool
lacks_address row =
    ltb (length row) 2 || (is_empty (field row 1) && (ltb (length row) 3 || is_empty (field row 2)))

abbrev pub check_servers : List RootServer → Loading (List RootServer)
check_servers servers = if is_empty servers then refused runtime_error else loaded servers

module _ (inet : InetPton) where
  -- What a row adds to the table.
  unfoldable pub add_row : List (List ℕ) → List RootServer → Loading (List RootServer)
  add_row row servers = if lacks_address row then refused runtime_error else do
    with4 ←
        (if not (is_empty (field row 1))
          then push4 (ipv4_of_text inet (field row 1)) servers
          else loaded servers)
    (if leb 3 (length row) && not (is_empty (field row 2))
        then push6 (ipv6_of_text inet (field row 2)) with4
        else loaded with4)

  abbrev pub after_read :
      Option (List (List ℕ) × List ℕ)
      → List RootServer
      → (List ℕ → List RootServer → Loading (List RootServer))
      → Loading (List RootServer)
  after_read none servers next = loaded servers
  after_read (some (row, rest)) servers next = add_row row servers >>= next rest

  -- The loop over the rows, on fuel: each takes a byte of the file at least.
  unfoldable pub add_rows : ℕ → List ℕ → List RootServer → Loading (List RootServer)
  add_rows zero file servers = unfinished
  add_rows (suc fuel) file servers =
      let next : List ℕ → List RootServer → Loading (List RootServer) = add_rows fuel in
      after_read (read_row file) servers next

  -- The first row, the headings, is skipped.
  abbrev pub after_headings : Option (List (List ℕ) × List ℕ) → Loading (List RootServer)
  after_headings none = refused runtime_error
  after_headings (some (row, rest)) = add_rows (suc (length rest)) rest [] >>= check_servers

  -- A file that does not open makes the reader's constructor throw.
  unfoldable pub load_servers : Option (List ℕ) → Loading (List RootServer)
  load_servers none = refused runtime_error
  load_servers (some file) = after_headings (read_row file)
