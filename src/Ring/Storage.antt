-- ===== src/Ring/Storage.antt =====
-- The nodes that `ring_get_nodes_for_key` returns.
use distributed_hash_table.Prelude.{
  ℕ, suc, ◌+◌, ◌*◌, ◌<◌, ◌≤◌, List, [], ◌∷◌, true, false, some, ◌>>=◌, length, arith, ◌≡◌, refl,
  ◌⊎◌, Returns, get_or, get_elem?-get_or,
}
use distributed_hash_table.Node.{Node}
use distributed_hash_table.NodeList.{NodeList, copy_node, contains, node_list_new, node_list_add}
use distributed_hash_table.Ring.{added, ring_get_nodes_for_key}
use distributed_hash_table.Ring.Places.{IsPlace, place_loop-IsPlace}
use distributed_hash_table.Ring.Servers.{
  Progress, Distinct, AllOf, with_copy, node_list_add-with_copy,
}
use distributed_hash_table.Ring.Collect.{collect_loop-Ends}

-- A list of nodes for a digest: it begins with the node at the digest's place, has at most `wanted`
-- nodes, all copies of nodes of the ring on distinct servers, and has fewer only if every server of
-- the ring is in it.
pub record IsStorage (sha : List ℕ) (ring : List Node) (d : Node) (wanted : ℕ) (l : NodeList)
    : Type 0 where
  pub place : ℕ
  pub is_place : IsPlace sha d ring place
  pub rest : List Node
  pub first : l.nodes ≡ copy_node (get_or ring place d) ∷ rest
  pub distinct : Distinct l.nodes
  pub capacity : length l.nodes ≤ l.allocated_size
  pub of_ring : AllOf ring d l.nodes
  pub at_most : length l.nodes ≤ wanted
  pub enough :
      (length l.nodes ≡ wanted)
      ⊎ ((j : ℕ) → j < length ring → contains l.nodes (get_or ring j d) ≡ true)

module _ (ring : List Node) (d : Node) where
  one_node : ℕ → NodeList
  one_node place = with_copy (record { allocated_size = 32; nodes = [] }) (get_or ring place d)

  added-one_node :
      (place : ℕ)
      → added (node_list_add true (node_list_new true) (get_or ring place d))
        ≡ some (one_node place)
  unfolding one_node node_list_new
  added-one_node place =
      node_list_add-with_copy (record { allocated_size = 32; nodes = [] }) (get_or ring place d)

  one_node-Progress :
      (place left : ℕ) → place < length ring → Progress ring d (suc left) (one_node place) left
  unfolding one_node contains
  one_node-Progress place left h = record {
    distinct = (refl, tt);
    capacity = omega arith;
    total = omega arith;
    of_ring = ((place, h, refl), tt);
  }

-- On a ring that is not empty, when memory is not short, the search for one node or more ends, and
-- returns a list of nodes for the key's digest.
pub ring_get_nodes_for_key-IsStorage :
    (sha1 : List ℕ → List ℕ) (allocated : ℕ) (n : Node) (ring : List Node) (left : ℕ) (key : List ℕ)
    → Returns
        (ring_get_nodes_for_key sha1 true
          (record { allocated_size = allocated; nodes = n ∷ ring })
          (suc left)
          key)
        λ o. (l : NodeList) × (o ≡ some l) × IsStorage (sha1 key) (n ∷ ring) n (suc left) l
unfolding ring_get_nodes_for_key
ring_get_nodes_for_key-IsStorage sha1 allocated n ring left key =
    let (place, run, p) = place_loop-IsPlace (sha1 key) n n ring in
    let first = one_node (n ∷ ring) n place in
    let (o, run', (l, some_l, c)) =
      collect_loop-Ends (n ∷ ring) n (suc left) (2 * length (n ∷ ring) + 1) place place false left
        first (omega arith) p.in_range (one_node-Progress (n ∷ ring) n place left p.in_range)
        (λ j h s. absurd (omega arith)) in
    (
      o,
      rw
          (
            run,
            ◌>>=◌,
            get_elem?-get_or (n ∷ ring) place n p.in_range,
            ◌>>=◌,
            added-one_node (n ∷ ring) n place,
          )
          run',
      (
        l,
        some_l,
        record {
          place = place;
          is_place = p;
          rest = c.extends.0;
          first = unfold one_node in c.extends.1;
          distinct = c.distinct;
          capacity = c.capacity;
          of_ring = c.of_ring;
          at_most = c.at_most;
          enough = c.enough;
        },
      ),
    )
