-- ===== src/Config/Entries.antt =====
-- A configuration file that lists root servers is read as the table of them.
use dns_server_cpp.Address.Defs.{IpAddress, Ipv4Address, Ipv6Address, v4, v6}
use dns_server_cpp.Address.Text.{InetPton, ipv4_of_text, ipv6_of_text}
use dns_server_cpp.Common.{
  All, All-append, List, Option, [], ap, append-nil, append_assoc, arith, false, has_value,
  is_empty, length, length-append, map, none, refl, some, suc, true, zero, ℕ, ◌++◌, ◌<◌, ◌||◌, ◌∷◌,
  ◌≡◌,
}
use dns_server_cpp.Config.Csv.{comma, fields_and_rest, getline, newline, pieces, read_row}
use dns_server_cpp.Config.Load.{add_row, add_rows, check_servers, load_servers, loaded}
use dns_server_cpp.Config.Pieces.{Lacks, getline-piece, last_piece, pieces-terminated, terminated}
use dns_server_cpp.Roots.Defs.{RootServer, new_server}

-- A root server as the file lists it: a name, and a text with what `inet_pton` makes of it for each
-- address that it has.
pub record Entry : Type 0 where
  pub name : List ℕ
  pub ipv4 : Option (List ℕ × Ipv4Address)
  pub ipv6 : Option (List ℕ × Ipv6Address)

abbrev pub text_of : {A : Type 0} → Option (List ℕ × A) → List ℕ
text_of none = []
text_of (some (text, a)) = text

-- The line of an entry: its fields with a comma between them.
abbrev pub entry_line : Entry → List ℕ
entry_line e = terminated comma (e.name ∷ text_of e.ipv4 ∷ []) ++ text_of e.ipv6

abbrev pub config_file : List ℕ → List Entry → List ℕ
config_file headings entries = terminated newline (headings ∷ map entry_line entries)

abbrev pub new_of : {A : Type 0} → (A → IpAddress) → Option (List ℕ × A) → List RootServer
new_of v none = []
new_of v (some (text, a)) = new_server (v a) ∷ []

-- The servers of an entry, its IPv4 address first.
abbrev pub entry_servers : Entry → List RootServer
entry_servers e = new_of v4 e.ipv4 ++ new_of v6 e.ipv6

abbrev pub all_servers : List Entry → List RootServer
all_servers [] = []
all_servers (e ∷ entries) = entry_servers e ++ all_servers entries

-- A text that stands in one field.
abbrev pub IsField : List ℕ → Type 0
IsField s = Lacks comma s × Lacks newline s

-- An address is written by a text that is not empty and that is read as it.
abbrev pub IsWritten : {A : Type 0} → (List ℕ → Option A) → Option (List ℕ × A) → Type 0
IsWritten read none = Unit
IsWritten read (some (text, a)) = (is_empty text ≡ false) × (read text ≡ some a)

-- An entry whose texts stand in one field each and that has an address.
pub record IsEntry (inet : InetPton) (e : Entry) : Type 0 where
  pub name_is : IsField e.name
  pub text4_is : IsField (text_of e.ipv4)
  pub text6_is : IsField (text_of e.ipv6)
  pub ipv4_is : IsWritten (ipv4_of_text inet) e.ipv4
  pub ipv6_is : IsWritten (ipv6_of_text inet) e.ipv6
  pub address_is : (has_value e.ipv4 || has_value e.ipv6) ≡ true

-- The fields of the line of an entry.
abbrev entry_row : Entry → List (List ℕ)
entry_row e = (e.name ∷ text_of e.ipv4 ∷ []) ++ last_piece (text_of e.ipv6)

pieces-entry :
    (inet : InetPton) (e : Entry) → IsEntry inet e → pieces comma (entry_line e) ≡ entry_row e
pieces-entry inet e v =
    pieces-terminated comma (e.name ∷ text_of e.ipv4 ∷ []) (text_of e.ipv6)
      (v.name_is.0, (v.text4_is.0, tt)) v.text6_is.0

entry_line-Lacks : (inet : InetPton) (e : Entry) → IsEntry inet e → Lacks newline (entry_line e)
entry_line-Lacks inet e v =
    All-append _ (terminated comma (e.name ∷ text_of e.ipv4 ∷ [])) (text_of e.ipv6)
      (All-append _ e.name _ v.name_is.1
        (refl, All-append _ (text_of e.ipv4) (comma ∷ []) v.text4_is.1 (refl, tt)))
      v.text6_is.1

-- The row of an entry adds its servers to the table.
add_row-entry :
    (inet : InetPton) (name : List ℕ) (ipv4 : Option (List ℕ × Ipv4Address))
    (ipv6 : Option (List ℕ × Ipv6Address)) (servers : List RootServer)
    → IsWritten (ipv4_of_text inet) ipv4
    → IsWritten (ipv6_of_text inet) ipv6
    → (has_value ipv4 || has_value ipv6) ≡ true
    → add_row inet ((name ∷ text_of ipv4 ∷ []) ++ last_piece (text_of ipv6)) servers
      ≡ loaded (servers ++ (new_of v4 ipv4 ++ new_of v6 ipv6))
unfolding add_row
add_row-entry inet name none none servers h k a = cc a
add_row-entry inet name none (some ([], b)) servers h k a = cc (k.0)
add_row-entry inet name none (some (c ∷ t, b)) servers h k a = rw (k.1) refl
add_row-entry inet name (some ([], b)) ipv6 servers h k a = cc (h.0)
add_row-entry inet name (some (c ∷ t, b)) none servers h k a = rw (h.1) refl
add_row-entry inet name (some (c ∷ t, b)) (some ([], d)) servers h k a = cc (k.0)
add_row-entry inet name (some (c ∷ t, b)) (some (f ∷ u, d)) servers h k a =
    rw (h.1, k.1)
      (ap loaded (append_assoc servers (new_server (v4 b) ∷ []) (new_server (v6 d) ∷ [])))

read_row-line :
    (line rest : List ℕ)
    → Lacks newline line
    → read_row (line ++ (newline ∷ rest)) ≡ some (pieces comma line, rest)
unfolding read_row
read_row-line line rest h = ap fields_and_rest (getline-piece newline line rest h)

read_row_end : read_row [] ≡ none
unfolding read_row getline
read_row_end = refl

module _ (inet : InetPton) where
  add_rows-entries :
      (fuel : ℕ) (entries : List Entry) (servers : List RootServer)
      → All (IsEntry inet) entries
      → length (terminated newline (map entry_line entries)) < fuel
      → add_rows inet fuel (terminated newline (map entry_line entries)) servers
        ≡ loaded (servers ++ all_servers entries)
  unfolding add_rows
  add_rows-entries zero entries servers h l = elim l [ ]
  add_rows-entries (suc fuel) [] servers h l = rw (read_row_end, append-nil)
  add_rows-entries (suc fuel) (e ∷ entries) servers h l =
      let rest : List ℕ = terminated newline (map entry_line entries) in
      let shorter : length rest < fuel =
        omega (arith, l, length-append (entry_line e) (newline ∷ rest)) in
      rw (
        read_row-line (entry_line e) rest (entry_line-Lacks inet e h.0),
        pieces-entry inet e h.0,
        add_row-entry inet e.name e.ipv4 e.ipv6 servers h.0.ipv4_is h.0.ipv6_is h.0.address_is,
        add_rows-entries fuel entries (servers ++ entry_servers e) h.1 shorter,
        append_assoc servers (entry_servers e) (all_servers entries),
      )

  -- A file of a line of headings and a line for each entry, at least one, is read as the table of the
  -- entries' servers in the order of the file, an entry's IPv4 address before its IPv6 address,
  -- provided that each entry has an address, that no text of it has a comma or the end of a line in
  -- it, and that the text of an address is not empty and is what `inet_pton` reads as that address.
  pub load_servers-entries :
      (headings : List ℕ) (e : Entry) (entries : List Entry)
      → Lacks newline headings
      → All (IsEntry inet) (e ∷ entries)
      → load_servers inet (some (config_file headings (e ∷ entries)))
        ≡ loaded (all_servers (e ∷ entries))
  unfolding load_servers
  load_servers-entries headings e entries h k =
      let rest : List ℕ = terminated newline (map entry_line (e ∷ entries)) in
      rw
        (
          read_row-line headings rest h,
          add_rows-entries (suc (length rest)) (e ∷ entries) [] k (omega arith),
        )
        (some_server e.ipv4 e.ipv6 (all_servers entries) k.0.address_is)
    where
      some_server :
          (ipv4 : Option (List ℕ × Ipv4Address)) (ipv6 : Option (List ℕ × Ipv6Address))
          (others : List RootServer)
          → (has_value ipv4 || has_value ipv6) ≡ true
          → check_servers ((new_of v4 ipv4 ++ new_of v6 ipv6) ++ others)
            ≡ loaded ((new_of v4 ipv4 ++ new_of v6 ipv6) ++ others)
      some_server none none others a = cc a
      some_server none (some (t, b)) others a = refl
      some_server (some (t, b)) ipv6 others a = refl
