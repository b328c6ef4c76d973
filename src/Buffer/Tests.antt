-- ===== src/Buffer/Tests.antt =====
-- Runs of the buffer's methods on small packets.
use dns_server_cpp.Buffer.Access.{load_range, seek, with_capacity, write_all, write_u16, write_u8}
use dns_server_cpp.Buffer.Names.{
  follow_pointer, read_qname, read_round, read_rounds, split_label, take_label, write_label,
  write_labels, write_qname,
}
use dns_server_cpp.Buffer.State.{
  Action, Outcome, load, ok, out_of_bounds, out_of_fuel, require_available, store, throws, ◌>>◌,
}
use dns_server_cpp.Common.{List, [], refl, ℕ, ◌∷◌, ◌≡◌}

-- What a run gave, without the buffer.
abbrev result_of {ℓ} : {A : Type ℓ} → A → Outcome A → A
result_of d (ok a b) = a
result_of d (throws e b) = d
result_of d out_of_bounds = d
result_of d out_of_fuel = d

abbrev two_names : Action (List ℕ)
two_names = do write_qname (97 ∷ 98 ∷ 46 ∷ 99 ∷ []); write_u16 0xC003; seek 6; read_qname

two_names_run : result_of [] (two_names (with_capacity 20)) ≡ 99 ∷ []
unfolding with_capacity write_qname write_labels write_label split_label write_all write_u8
    write_u16 seek read_qname read_rounds read_round take_label follow_pointer load_range load store
    require_available
two_names_run = refl

-- The name a.b.
abbrev dotted_name : List ℕ
dotted_name = 97 ∷ b'.' ∷ 98 ∷ []
