-- ===== src/Config/Csv.antt =====
-- CSVReader (include/CSVReader.hpp): lines of a file, and the fields of a line. A stream is the bytes
-- that are left of it.
use dns_server_cpp.Common.{
  List, Option, [], if◌then◌else◌, length, none, some, suc, zero, ℕ, ◌==◌, ◌∷◌,
}

-- The piece up to a delimiter, which is taken out and not kept, and what is left.
unfoldable pub until : ℕ → List ℕ → List ℕ × List ℕ
until delim [] = ([], [])
until delim (c ∷ s) =
    let later = until delim s in if c == delim then ([], s) else (c ∷ later.0, later.1)

-- `std::getline`; nothing where the stream has come to its end.
unfoldable pub getline : ℕ → List ℕ → Option (List ℕ × List ℕ)
unfolding until
getline delim [] = none
getline delim (c ∷ s) = some (until delim (c ∷ s))

-- `while (std::getline(stream, piece, delim))`, on fuel: each round takes a byte at least.
unfoldable pub pieces_within : ℕ → ℕ → List ℕ → List (List ℕ)
unfolding getline
pieces_within zero delim s = []
pieces_within (suc fuel) delim s = elim (getline delim s) [
  | none ↦ []
  | some (piece, rest) ↦ piece ∷ pieces_within fuel delim rest
]

unfoldable pub pieces : ℕ → List ℕ → List (List ℕ)
unfolding pieces_within
pieces delim s = pieces_within (suc (length s)) delim s

abbrev pub newline : ℕ
newline = 10

abbrev pub comma : ℕ
comma = b','

abbrev pub fields_and_rest : Option (List ℕ × List ℕ) → Option (List (List ℕ) × List ℕ)
fields_and_rest none = none
fields_and_rest (some (line, rest)) = some (pieces comma line, rest)

-- `readRow`: the fields of the next line, with what is left of the file.
unfoldable pub read_row : List ℕ → Option (List (List ℕ) × List ℕ)
unfolding getline pieces
read_row file = fields_and_rest (getline newline file)
