-- ===== src/Tests/Programs.antt =====
-- The programs of the command line on a small ring.
use distributed_hash_table.Prelude.{
  ℕ, ◌-◌, ◌^◌, List, [], ◌∷◌, true, some, ok, length, arith, ◌≡◌, refl, ◌≢◌, inr,
}
use distributed_hash_table.Text.{str_eq}
use distributed_hash_table.Numbers.{strtol}
use distributed_hash_table.Errors.{err_none}
use distributed_hash_table.HashTable.{size_max}
use distributed_hash_table.Args.{parse_opt_args, check_bounds}
use distributed_hash_table.NodeList.{NodeList}
use distributed_hash_table.Network.{Client}
use distributed_hash_table.Client.{client_init, with_ring}
use distributed_hash_table.Client.Start.{IsStarted, client_init-IsStarted}
use distributed_hash_table.Client.Substrings.{substring_of}
use distributed_hash_table.Client.Slices.{slice_of, substring_of-slice_of}
use distributed_hash_table.Tests.Data.{city, bern, basel, first_node, other_nodes}

-- `name -n 5 -w 2 city`, on three nodes.
abbrev arguments : List (List ℕ)
arguments = (b'-' ∷ b'n' ∷ []) ∷ (b'5' ∷ []) ∷ (b'-' ∷ b'w' ∷ []) ∷ (b'2' ∷ []) ∷ city ∷ []

abbrev nodes : NodeList
nodes = record { allocated_size = 32; nodes = first_node ∷ other_nodes }

abbrev client : Client
client = record { server = nodes; args = record { n = 3; r = 2; w = 2 } }

client_started :
    client_init (λ l. l) (some nodes) true 1 5 (bern ∷ arguments)
    ≡ ok (err_none, some client, city ∷ [])
unfolding client_init parse_opt_args str_eq strtol check_bounds with_ring
client_started = refl

client_init-IsStarted_example : IsStarted client × (1 ≢ size_max → length (city ∷ []) ≡ 1)
client_init-IsStarted_example =
    client_init-IsStarted (λ l. l) (some nodes) true 1 5 arguments (omega arith) (omega arith) bern
      client (city ∷ []) client_started

abbrev stack : ℕ → ℕ
stack i = i

-- The last three bytes of `basel`: position -3.
substring_of-slice_of_example : substring_of stack basel (2 ^ 32 - 3) 3 ≡ slice_of stack basel 2 3
substring_of-slice_of_example =
    substring_of-slice_of stack basel (2 ^ 32 - 3) 2 3 (omega arith) (omega arith) (omega arith)
      (inr (omega arith, refl))
