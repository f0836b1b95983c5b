-- ===== src/Tests/Lifetimes.antt =====
-- A list of two copied nodes, turned around and freed.
use mathlib.Core.List
use mathlib.Core.List.Permᴰ
use mathlib.Core.List.{Permᴰ}
use distributed_hash_table.Prelude.{
  ℕ, List, [], ◌∷◌, map, none, some, ok, length, arith, ◌≡◌, refl, Returns,
}
use distributed_hash_table.Node.{Node}
use distributed_hash_table.NodeList.{copy_node}
use distributed_hash_table.NodeList.Lifetimes.{
  StoredNode, Memory, stored_list_new, add_each, node_list_sort, node_list_free, load_nodes,
  digest_at,
}
use distributed_hash_table.NodeList.Ownership.{node_list_free-add_each}
use distributed_hash_table.Tests.Data.{node_at}

abbrev memory : Memory
memory = record { digests = (5, b'm' ∷ b'n' ∷ 0 ∷ []) ∷ (3, b'b' ∷ []) ∷ []; next = 6; arrays = 1 }

abbrev stored_at : ℕ → ℕ → StoredNode
stored_at port p = record { addr = record { s_addr = 1; sin_port = port }; id = 0; sha = some p }

abbrev stored_nodes : List StoredNode
stored_nodes = stored_at 1 3 ∷ stored_at 2 5 ∷ []

abbrev copied_nodes : List Node
copied_nodes = node_at 1 (b'b' ∷ []) ∷ node_at 2 (b'm' ∷ b'n' ∷ 0 ∷ []) ∷ []

copied_nodes-loaded : load_nodes memory.digests stored_nodes ≡ ok copied_nodes
unfolding load_nodes digest_at
copied_nodes-loaded = refl

node_list_free-add_each_example :
    Returns (add_each (stored_list_new memory).0 (stored_list_new memory).1 stored_nodes) λ made.
      (stored : List StoredNode) × (made.1.nodes ≡ some stored)
      × (made.1.size ≡ length stored)
      × (load_nodes made.0.digests stored ≡ ok (map copy_node copied_nodes))
      × Returns (node_list_free made.0 (node_list_sort List.reverse made.1)) λ freed.
        (freed.0.digests ≡ memory.digests) × (freed.0.arrays ≡ 2) × (freed.1.nodes ≡ none)
node_list_free-add_each_example =
    node_list_free-add_each memory List.reverse stored_nodes copied_nodes
      (λ ns. Permᴰ.symm (Permᴰ.reverse ns)) (omega arith, (omega arith, tt)) copied_nodes-loaded
