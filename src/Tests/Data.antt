-- ===== src/Tests/Data.antt =====
-- The tables, strings and nodes of the concrete runs.
use distributed_hash_table.Prelude.{
  ℕ, zero, suc, ◌≡◌, List, [], ◌∷◌, refl, arith, length, none, some, ok, read,
}
use distributed_hash_table.HashTable.{
  Htable, hash_function, get_htable_value, get_value_from_bucket, get_htable_size, size_loop,
  get_bucket_size,
}
use distributed_hash_table.Text.{str_eq}
use distributed_hash_table.HashTable.Tables.{
  IsValid, IsPlaced, table_of, chain_of, hash_function-lt,
}
use distributed_hash_table.HashTable.Chains.{Chain, count, repr}
use distributed_hash_table.Args.{Args}
use distributed_hash_table.Node.{Node}

abbrev pub city : List ℕ
city = b'c' ∷ b'i' ∷ b't' ∷ b'y' ∷ []

abbrev pub zip : List ℕ
zip = b'z' ∷ b'i' ∷ b'p' ∷ []

abbrev pub bern : List ℕ
bern = b'b' ∷ b'e' ∷ b'r' ∷ b'n' ∷ []

abbrev pub basel : List ℕ
basel = b'b' ∷ b'a' ∷ b's' ∷ b'e' ∷ b'l' ∷ []

-- A table with one bucket, and one pair in it.
abbrev pub one_chain : List Chain
one_chain = ((city, bern) ∷ []) ∷ []

abbrev pub one_pair : Htable
one_pair = table_of one_chain

pub one_chain-IsPlaced : IsPlaced one_chain
unfolding count
one_chain-IsPlaced q zero =
    (ground arith, λ h. absurd (ground (arith, hash_function-lt q 1 (omega arith))))
one_chain-IsPlaced q (suc i) = (omega arith, λ h. refl)

abbrev pub one_pair_valid : IsValid one_pair
one_pair_valid = record {
  chains = one_chain;
  models = refl;
  nonempty = omega arith;
  placed = one_chain-IsPlaced;
}

pub zip_absent : get_htable_value one_pair (some zip) ≡ ok none
unfolding get_htable_value hash_function get_value_from_bucket repr str_eq
zip_absent = refl

pub zip_chain : length (chain_of one_chain zip) ≡ 1
unfolding hash_function
zip_chain = refl

pub one_pair_size : get_htable_size one_pair ≡ ok 1
unfolding get_htable_size read size_loop get_bucket_size repr
one_pair_size = refl

abbrev pub node_at : ℕ → List ℕ → Node
node_at port sha = record { addr = record { s_addr = 1; sin_port = port }; id = 0; sha = sha }

-- Digests of two bytes, of a key's first two.
abbrev pub digest : List ℕ → List ℕ
digest [] = 0 ∷ []
digest (b ∷ []) = b ∷ 0 ∷ []
digest (b ∷ c ∷ key) = b ∷ c ∷ []

abbrev pub first_node : Node
first_node = node_at 1 (b'b' ∷ 0 ∷ [])

abbrev pub other_nodes : List Node
other_nodes = node_at 2 (b'm' ∷ 0 ∷ []) ∷ node_at 1 (b'p' ∷ 0 ∷ []) ∷ []

abbrev pub two_of_two : Args
two_of_two = record { n = 2; r = 2; w = 2 }
