-- ===== src/Buffer/Names.antt =====
-- `read_qname` and `write_qname` (src/BytePacketBuffer.cxx). A std::string is the list of its bytes.
use dns_server_cpp.Buffer.Access.{load_range, write_all, write_u8}
use dns_server_cpp.Buffer.State.{
  Action, Outcome, get_state, invalid_argument, load, ok, out_of_bounds, out_of_fuel, pure, raise,
  raise_if, require_available, runtime_error, set_pos, throws, ◌>>=◌, ◌>>◌,
}
use dns_server_cpp.Common.{
  Bool, List, Option, [], bit_and, bit_or, false, if◌then◌else◌, is_empty, length, ltb, none, not,
  some, suc, true, zero, ℕ, ◌%◌, ◌*◌, ◌++◌, ◌+◌, ◌==◌, ◌^◌, ◌||◌, ◌∷◌,
}

-- The local variables of `read_qname`.
pub record Cursor : Type 0 where
  pub name : List ℕ
  pub cursor : ℕ
  pub jumped : Bool
  pub jumps : ℕ

-- How one round of the `while (true)` loop ends: `break`, or the next round.
pub data Round : Type 0 where
  done : List ℕ → Round
  again : Cursor → Round

-- `if (!jumped) pos = p;`
abbrev pub set_pos_unless : Bool → ℕ → Action (Unit {0})
set_pos_unless jumped p = if jumped then pure tt else set_pos p

-- The branch of a compression pointer.
unfoldable pub follow_pointer : Cursor → ℕ → Action Round
follow_pointer c length = do
  b ← get_state
  require_available c.cursor 2 b.len
  low ← load (c.cursor + 1)
  let offset = bit_or (bit_and length 0x3F * 2 ^ 8) low % 2 ^ 16
  set_pos_unless c.jumped (c.cursor + 2)
  raise_if (ltb b.len (c.jumps + 1)) runtime_error
  pure (again (record c { cursor = offset; jumped = true; jumps = c.jumps + 1 }))

-- `if (!name.empty()) name += '.';`, then the label's bytes.
abbrev pub add_label : List ℕ → List ℕ → List ℕ
add_label name text = if is_empty name then text else name ++ (b'.' ∷ text)

-- The branch of a label of `length` bytes.
unfoldable pub take_label : Cursor → ℕ → Action Round
take_label c n = do
  b ← get_state
  require_available (c.cursor + 1) n b.len
  text ← load_range n (c.cursor + 1)
  let name = add_label c.name text
  raise_if (ltb 255 (length name + 1)) runtime_error
  set_pos_unless c.jumped (c.cursor + 1 + n)
  pure (again (record c { name = name; cursor = c.cursor + 1 + n }))

-- The branch of the zero byte at a name's end.
abbrev pub end_name : Cursor → Action Round
end_name c = do set_pos_unless c.jumped (c.cursor + 1); pure (done c.name)

unfoldable pub read_round : Cursor → Action Round
read_round c = do
  b ← get_state
  require_available c.cursor 1 b.len
  length ← load c.cursor
  if bit_and length 0xC0 == 0xC0
      then follow_pointer c length
      else if length == 0
      then end_name c
      else if not (bit_and length 0xC0 == 0)
      then raise runtime_error
      else take_label c length

-- How the loop goes on after a round, by `next` or not at all.
abbrev pub next_round : (Cursor → Action (List ℕ)) → Outcome Round → Outcome (List ℕ)
next_round next (ok (done name) b) = ok name b
next_round next (ok (again c) b) = next c b
next_round next (throws e b) = throws e b
next_round next out_of_bounds = out_of_bounds
next_round next out_of_fuel = out_of_fuel

-- The `while (true)` loop.
unfoldable pub read_rounds : ℕ → Cursor → Action (List ℕ)
read_rounds zero c b = out_of_fuel
read_rounds (suc fuel) c b = next_round (read_rounds fuel) (read_round c b)

abbrev pub start_cursor : ℕ → Cursor
start_cursor p = record { name = []; cursor = p; jumped = false; jumps = 0 }

-- A round makes a jump, of which `len` are allowed, or adds to the name, of which 254 bytes are.
unfoldable pub read_qname : Action (List ℕ)
read_qname = do
  b ← get_state
  name ← read_rounds (b.len + 255) (start_cursor b.pos)
  pure (if is_empty name then b'.' ∷ [] else name)

-- `domain.find('.', label_start)`: the label before the dot, and what follows it, if there is one.
unfoldable pub split_label : List ℕ → List ℕ × Option (List ℕ)
split_label [] = ([], none)
split_label (c ∷ s) = if c == b'.' then ([], some s) else (c ∷ (split_label s).0, (split_label s).1)

-- A label behind its length.
unfoldable pub write_label : List ℕ → Action (Unit {0})
write_label label = do
  raise_if (length label == 0 || ltb 63 (length label)) invalid_argument
  write_u8 (length label % 256)
  write_all label

-- What follows a label: the end of the loop, or the text after the dot.
abbrev pub write_rest : (List ℕ → Action (Unit {0})) → Option (List ℕ) → Action (Unit {0})
write_rest next none = pure tt
write_rest next (some s) = next s

-- The `while` loop of `write_qname` on the part of the domain from `label_start` on.
unfoldable pub write_labels : ℕ → List ℕ → Action (Unit {0})
write_labels zero s b = out_of_fuel
write_labels (suc fuel) [] b = ok tt b
write_labels (suc fuel) (c ∷ s) b =
    let (label, rest) = split_label (c ∷ s) in
    (write_label label >> write_rest (write_labels fuel) rest) b

-- `domain.empty() || domain == "."`
abbrev pub is_root_name : List ℕ → Bool
is_root_name [] = true
is_root_name (c ∷ []) = c == b'.'
is_root_name (c ∷ d ∷ s) = false

unfoldable pub write_qname : List ℕ → Action (Unit {0})
write_qname domain =
    if is_root_name domain
    then write_u8 0
    else (write_labels (length domain + 1) domain >> write_u8 0)
