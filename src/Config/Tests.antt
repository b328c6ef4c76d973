-- ===== src/Config/Tests.antt =====
-- Runs of the constructor on small configuration files.
use dns_server_cpp.Address.Defs.{Ipv4Address, v4}
use dns_server_cpp.Address.Text.{InetPton, ipv4_of_text}
use dns_server_cpp.Buffer.State.{runtime_error}
use dns_server_cpp.Common.{[], none, refl, some, ◌++◌, ◌∷◌, ◌≡◌}
use dns_server_cpp.Config.Csv.{comma, newline, pieces, read_row}
use dns_server_cpp.Config.Entries.{Entry, IsEntry, config_file, load_servers-entries}
use dns_server_cpp.Config.Load.{add_row, add_rows, load_servers, loaded, refused}
use dns_server_cpp.Config.Loaded.{IsLoaded, load_servers-IsLoaded}
use dns_server_cpp.Config.Pieces.{Cut, last_piece, pieces_lem}
use dns_server_cpp.Roots.Defs.{new_server}

-- Every text is read as one IPv4 address, and none as an IPv6 address.
abbrev one_address : Ipv4Address
one_address = record { octet0 = 1; octet1 = 2; octet2 = 3; octet3 = 4 }

abbrev one_reader : InetPton
one_reader = record { parse4 = λ text. some one_address; parse6 = λ text. none }

abbrev one_entry : Entry
one_entry = record { name = b'a' ∷ []; ipv4 = some (b'1' ∷ [], one_address); ipv6 = none }

one_entry-IsEntry : IsEntry one_reader one_entry
unfolding ipv4_of_text
one_entry-IsEntry = record {
  name_is = ((refl, tt), (refl, tt));
  text4_is = ((refl, tt), (refl, tt));
  text6_is = (tt, tt);
  ipv4_is = (refl, refl);
  ipv6_is = tt;
  address_is = refl;
}

load_servers-entries_example :
    load_servers one_reader (some (config_file (b'n' ∷ []) (one_entry ∷ [])))
    ≡ loaded (new_server (v4 one_address) ∷ [])
load_servers-entries_example =
    load_servers-entries one_reader (b'n' ∷ []) one_entry [] (refl, tt) (one_entry-IsEntry, tt)

load_servers-IsLoaded_example :
    IsLoaded (load_servers one_reader (some (b'n' ∷ newline ∷ b'a' ∷ [])))
load_servers-IsLoaded_example = load_servers-IsLoaded one_reader (some (b'n' ∷ newline ∷ b'a' ∷ []))

pieces_lem_example :
    (k : Cut comma (b'a' ∷ comma ∷ [])) × (pieces comma (b'a' ∷ comma ∷ [])
      ≡ k.whole ++ last_piece k.last)
pieces_lem_example = pieces_lem comma (b'a' ∷ comma ∷ [])

-- A row without an address is refused.
no_address :
    load_servers one_reader (some (b'n' ∷ newline ∷ b'a' ∷ comma ∷ [])) ≡ refused runtime_error
unfolding load_servers add_rows add_row read_row
no_address = refl

-- A comma behind the last field adds none.
trailing_comma : pieces comma (b'a' ∷ comma ∷ []) ≡ (b'a' ∷ []) ∷ []
unfolding pieces
trailing_comma = refl
