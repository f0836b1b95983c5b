-- ===== src/Tests/Successor.antt =====
-- A ring of three nodes that the file of servers names in another order.
use Prim.Native.Nat.{Ordering}
use mathlib.Core.List.{Permᴰ}
use distributed_hash_table.Prelude.{List, [], ◌∷◌, true, some, arith, ◌≡◌, refl, Returns}
use distributed_hash_table.Text.{strcmp, c_str}
use distributed_hash_table.Node.{Node, node_cmp_sha}
use distributed_hash_table.NodeList.{NodeList}
use distributed_hash_table.Ring.{ring_get_nodes_for_key}
use distributed_hash_table.Client.{ring_init}
use distributed_hash_table.Client.Successor.{IsSorted, Found, ring_init-Found}
use distributed_hash_table.Tests.Data.{city, digest, node_at}

insert : Node → List Node → List Node
insert n [] = n ∷ []
insert n (m ∷ ns) = elim (node_cmp_sha n m) [ Ordering.gt ↦ m ∷ insert n ns | _ ↦ n ∷ m ∷ ns ]

insertion_sort : List Node → List Node
insertion_sort [] = []
insertion_sort (n ∷ ns) = insert n (insertion_sort ns)

abbrev listed : NodeList
listed = record {
  allocated_size = 32;
  nodes = node_at 2 (b'm' ∷ []) ∷ node_at 1 (b'b' ∷ []) ∷ node_at 3 (b'p' ∷ []) ∷ [];
}

listed-Permᴰ : Permᴰ listed.nodes (insertion_sort listed.nodes)
unfolding insert insertion_sort node_cmp_sha strcmp c_str
listed-Permᴰ = Permᴰ.swap refl refl

listed-IsSorted : IsSorted (insertion_sort listed.nodes)
unfolding insert insertion_sort node_cmp_sha strcmp c_str
listed-IsSorted = ((λ e. cc e, (λ e. cc e, tt)), ((λ e. cc e, tt), (tt, tt)))

ring_init-Found_example :
    Returns
      (ring_get_nodes_for_key digest true (ring_init insertion_sort (some listed) listed).1 2 city)
      λ o. (l : NodeList) × (o ≡ some l) × Found digest city listed.nodes l.nodes
ring_init-Found_example =
    ring_init-Found digest insertion_sort listed listed 1 city (omega arith) listed-Permᴰ
      listed-IsSorted
