-- ===== src/Ring/Servers.antt =====
-- The second loop of `ring_get_nodes_for_key` and what it collects, where memory is not short.
use distributed_hash_table.Prelude.{
  ℕ, ◌+◌, ◌<◌, ◌≤◌, List, [], ◌∷◌, ◌++◌, true, false, ◌||◌, if◌then◌else◌, some, length, arith, ◌≡◌,
  refl, get_or, leb,
}
use distributed_hash_table.Node.{Node, same_server}
use distributed_hash_table.NodeList.{NodeList, copy_node, node_list_add, contains}
use distributed_hash_table.Ring.{added}

same_server_comm : (n m : Node) → same_server n m ≡ same_server m n
unfolding same_server
same_server_comm n m = ground arith

same_server-copy : (n m : Node) → same_server (copy_node n) m ≡ same_server n m
unfolding same_server
same_server-copy n m = refl

same_server_refl : (n : Node) → same_server n n ≡ true
unfolding same_server
same_server_refl n = ground arith

pub contains-append :
    (ns ms : List Node) (n : Node) → contains (ns ++ ms) n ≡ (contains ns n || contains ms n)
unfolding contains
contains-append [] ms n = refl
contains-append (x ∷ ns) ms n = ground (arith, contains-append ns ms n)

pub contains-last : (ns : List Node) (n : Node) → contains (ns ++ copy_node n ∷ []) n ≡ true
unfolding contains
contains-last [] n = rw (same_server-copy, same_server_refl)
contains-last (x ∷ ns) n = ground (arith, contains-last ns n)

-- No two nodes have one server's address and port.
abbrev pub Distinct : List Node → Type 0
Distinct [] = Unit
Distinct (n ∷ ns) = (contains ns n ≡ false) × Distinct ns

pub Distinct-append :
    (ns : List Node) (n : Node)
    → Distinct ns
    → contains ns n ≡ false
    → Distinct (ns ++ copy_node n ∷ [])
unfolding contains
Distinct-append [] n d h = (refl, tt)
Distinct-append (x ∷ ns) n d h = (
  ground (
    arith,
    contains-append ns (copy_node n ∷ []) x,
    same_server-copy n x,
    same_server_comm x n,
    d.0,
  ),
  Distinct-append ns n d.1 (ground arith),
)

-- Every node is the copy of one of the ring.
abbrev pub AllOf : List Node → Node → List Node → Type 0
AllOf ring d [] = Unit
AllOf ring d (n ∷ ns) =
    ((j : ℕ) × (j < length ring) × (n ≡ copy_node (get_or ring j d))) × AllOf ring d ns

pub AllOf-append :
    (ring : List Node) (d : Node) (ns : List Node) (j : ℕ)
    → AllOf ring d ns
    → j < length ring
    → AllOf ring d (ns ++ copy_node (get_or ring j d) ∷ [])
AllOf-append ring d [] j a h = ((j, h, refl), tt)
AllOf-append ring d (n ∷ ns) j a h = (a.0, AllOf-append ring d ns j a.1 h)

-- What holds of the list while `left` of `wanted` nodes are still to be added.
pub record Progress (ring : List Node) (d : Node) (wanted : ℕ) (nodes : NodeList) (left : ℕ)
    : Type 0 where
  pub distinct : Distinct nodes.nodes
  pub capacity : length nodes.nodes ≤ nodes.allocated_size
  pub total : length nodes.nodes + left ≡ wanted
  pub of_ring : AllOf ring d nodes.nodes

-- `b` is `a` with nodes added at the end.
abbrev pub Extends : NodeList → NodeList → Type 0
Extends a b = (ns : List Node) × (b.nodes ≡ a.nodes ++ ns)

abbrev pub with_copy : NodeList → Node → NodeList
with_copy l n = record {
  allocated_size =
      if leb (length l.nodes + 1) l.allocated_size then l.allocated_size else l.allocated_size + 32;
  nodes = l.nodes ++ copy_node n ∷ [];
}

pub node_list_add-with_copy :
    (l : NodeList) (n : Node) → added (node_list_add true (some l) n) ≡ some (with_copy l n)
unfolding node_list_add added
node_list_add-with_copy l n = ground arith
