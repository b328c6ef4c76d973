-- ===== src/Buffer/Access.antt =====
-- The methods of BytePacketBuffer on bytes, words and positions (src/BytePacketBuffer.cxx). A
-- parameter of type uint8_t is taken modulo 256, as its conversion does.
use dns_server_cpp.Buffer.State.{
  Action, BytePacketBuffer, Outcome, get_state, length_error, load, max_buffer_size, ok,
  out_of_range, pure, raise_if, require_available, set_pos, store, throws, update, ◌>>=◌, ◌>>◌,
}
use dns_server_cpp.Common.{
  List, [], bit_and, bit_or, if◌then◌else◌, leb, length, ltb, max, min, suc, zero, ℕ, ◌%◌, ◌*◌, ◌+◌,
  ◌-◌, ◌/◌, ◌^◌, ◌∷◌,
}

-- The constructor from a capacity.
unfoldable pub with_capacity : ℕ → BytePacketBuffer
with_capacity capacity = record {
  buff = λ _. 0;
  pos = 0;
  len = 0;
  max_capacity = min capacity max_buffer_size;
}

-- `copy_n` into the array from an index on.
abbrev pub copy_bytes : List ℕ → ℕ → (ℕ → ℕ) → ℕ → ℕ
copy_bytes [] i a = a
copy_bytes (x ∷ xs) i a = copy_bytes xs (suc i) (update a i (x % 256))

-- The constructors from bytes (an initializer list or a vector) and a capacity.
unfoldable pub of_bytes : List ℕ → ℕ → Outcome (Unit {0})
of_bytes bytes capacity =
    let fresh = with_capacity capacity in
    if ltb fresh.max_capacity (length bytes)
    then throws length_error fresh
    else ok tt (record fresh { buff = copy_bytes bytes 0 fresh.buff; len = length bytes })

unfoldable pub set_max_capacity : ℕ → Action (Unit {0})
set_max_capacity capacity b = ok tt (record b { max_capacity = min capacity max_buffer_size })

unfoldable pub read_u8 : Action ℕ
read_u8 = do
  b ← get_state
  require_available b.pos 1 b.len
  v ← load b.pos
  set_pos (b.pos + 1)
  pure v

unfoldable pub get : Action ℕ
get = do b ← get_state; require_available b.pos 1 b.len; load b.pos

unfoldable pub read_u16 : Action ℕ
read_u16 = do high ← read_u8; low ← read_u8; pure (bit_or (high * 2 ^ 8) low % 2 ^ 16)

unfoldable pub read_u32 : Action ℕ
read_u32 = do high ← read_u16; low ← read_u16; pure (bit_or (high * 2 ^ 16 % 2 ^ 32) low)

unfoldable pub step : ℕ → Action (Unit {0})
step steps = do b ← get_state; require_available b.pos steps b.len; set_pos (b.pos + steps)

unfoldable pub seek : ℕ → Action (Unit {0})
seek next_pos = do b ← get_state; raise_if (ltb b.len next_pos) out_of_range; set_pos next_pos

-- The bytes at `i`, `i + 1`, …, as many as the first argument says.
unfoldable pub load_range : ℕ → ℕ → Action (List ℕ)
load_range zero i = pure []
load_range (suc n) i = do x ← load i; xs ← load_range n (suc i); pure (x ∷ xs)

unfoldable pub read_bytes : ℕ → Action (List ℕ)
read_bytes count = do
  b ← get_state
  require_available b.pos count b.len
  bytes ← load_range count b.pos
  set_pos (b.pos + count)
  pure bytes

unfoldable pub position : BytePacketBuffer → ℕ
position b = b.pos

-- `len - pos` on std::size_t.
unfoldable pub remaining : BytePacketBuffer → ℕ
remaining b = (b.len + 2 ^ 64 - b.pos) % 2 ^ 64

unfoldable pub write_u8 : ℕ → Action (Unit {0})
write_u8 byte = do
  b ← get_state
  raise_if (leb b.max_capacity b.pos) length_error
  store b.pos (byte % 256)
  b' ← get_state
  λ _. ok tt (record b' { pos = b.pos + 1; len = max b.len (b.pos + 1) })

unfoldable pub write_u16 : ℕ → Action (Unit {0})
write_u16 value = do write_u8 (value / 2 ^ 8); write_u8 (bit_and value 0xFF)

unfoldable pub write_u32 : ℕ → Action (Unit {0})
write_u32 value = do write_u16 (value / 2 ^ 16); write_u16 (bit_and value 0xFFFF)

-- The loops `for (uint8_t c : bytes) buffer.write_u8(c)`.
unfoldable pub write_all : List ℕ → Action (Unit {0})
write_all [] = pure tt
write_all (x ∷ xs) = do write_u8 x; write_all xs

unfoldable pub set_length : ℕ → Action (Unit {0})
set_length length b =
    if ltb max_buffer_size length
    then throws length_error b
    else ok tt (record b { len = length; pos = 0 })
