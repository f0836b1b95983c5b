-- ===== src/NodeList/Ownership.antt =====
-- The digests of a list of nodes are its own: what its copies add to memory, freeing it removes.
use distributed_hash_table.Prelude.{
  ℕ, ◌+◌, List, [], ◌∷◌, ◌++◌, map, some, none, ok, length, arith, ◌≡◌, refl, Returns, ap, sym, ◌∙◌,
}
use mathlib.Core.Option
use mathlib.Core.List.{Permᴰ, append-nil}
use distributed_hash_table.NodeList.Growing.{Owned, Grown, add_each-Grown}
use distributed_hash_table.NodeList.Sorted.{free_loop-Permᴰ}
use distributed_hash_table.Node.{Node}
use distributed_hash_table.NodeList.{copy_node}
use distributed_hash_table.NodeList.Lifetimes.{
  StoredNode, Memory, StoredList, free_digest, node_end, stored_list_new, free_loop, node_list_free,
  node_list_sort, load_nodes, add_each,
}
use distributed_hash_table.NodeList.Loading.{Below, Below-le, without-append}

free_loop-Owned :
    (m : Memory) (xs own : List (ℕ × List ℕ)) (first : ℕ) (nodes : List StoredNode)
    → Below first xs
    → Owned first nodes own
    → free_loop (record m { digests = xs ++ own }) nodes ≡ ok (record m { digests = xs })
unfolding free_loop node_end free_digest
free_loop-Owned m xs [] first [] below w = rw append-nil refl
free_loop-Owned m xs (d ∷ own) first [] below w = absurd w
free_loop-Owned m xs [] first (node ∷ nodes) below w = absurd w
free_loop-Owned m xs (d ∷ own) first (node ∷ nodes) below w =
    rw (w.0, without-append d.0 xs own d.1 (Below-le xs first d.0 w.1 below))
      (free_loop-Owned m xs own first nodes below w.2)

free-nodes :
    (m m' : Memory) (l : StoredList) (nodes : List StoredNode)
    → l.nodes ≡ some nodes
    → free_loop m nodes ≡ ok m'
    → node_list_free m l ≡ ok (m', record l { nodes = none })
unfolding node_list_free
free-nodes m m' l nodes e run = rw (node_list_free, e, run) refl

free-sort-Grown :
    (base m : Memory) (l : StoredList) (values : List Node)
    (sort : List StoredNode → List StoredNode)
    → ((nodes : List StoredNode) → Permᴰ nodes (sort nodes))
    → Below base.next base.digests
    → Grown base m l values
    → node_list_free m (node_list_sort sort l)
      ≡ ok (record m { digests = base.digests }, record l { nodes = none })
unfolding node_list_sort
free-sort-Grown base m l values sort sorts below g =
    let start : m ≡ record m { digests = base.digests ++ g.own } =
      ap (λ ds. record m { digests = ds }) g.digests_are in
    let freed = record m { digests = base.digests } in
    free-nodes m freed (node_list_sort sort l) (sort g.nodes) (ap (Option.map sort) g.nodes_are) (
      free_loop-Permᴰ m freed (sorts g.nodes) (
        ap (λ m. free_loop m g.nodes) start
        ∙ free_loop-Owned m base.digests g.own base.next g.nodes below g.owned))

-- Where memory is not short, nodes with allocated digests are added to a new list. Every address in
-- use is below the one from which on addresses are given out. The list then has copies of these
-- nodes, in their order. When it is sorted, which only changes the order, and freed, the digests
-- that are left are just those from before, and one array more is allocated than before; the list
-- has no array any more.
pub node_list_free-add_each :
    (base : Memory) (sort : List StoredNode → List StoredNode) (nodes : List StoredNode)
    (copied : List Node)
    → ((nodes : List StoredNode) → Permᴰ nodes (sort nodes))
    → Below base.next base.digests
    → load_nodes base.digests nodes ≡ ok copied
    → Returns (add_each (stored_list_new base).0 (stored_list_new base).1 nodes) λ made.
      (stored : List StoredNode) × (made.1.nodes ≡ some stored)
      × (made.1.size ≡ length stored)
      × (load_nodes made.0.digests stored ≡ ok (map copy_node copied))
      × Returns (node_list_free made.0 (node_list_sort sort made.1)) λ freed.
        (freed.0.digests ≡ base.digests)
        × (freed.0.arrays ≡ base.arrays + 1)
        × (freed.1.nodes ≡ none)
unfolding stored_list_new load_nodes
node_list_free-add_each base sort nodes copied sorts below e =
    let (made, run, g) =
      add_each-Grown base (stored_list_new base).0 (stored_list_new base).1 [] nodes copied
        (record {
          nodes = [];
          own = [];
          nodes_are = refl;
          counted = refl;
          digests_are = sym (append-nil base.digests);
          fresh = below;
          later = omega arith;
          owned = tt;
          loads = refl;
          arrays_are = refl;
        })
        e in
    (
      made,
      run,
      (
        g.nodes,
        g.nodes_are,
        g.counted,
        g.loads,
        (
          (record made.0 { digests = base.digests }, record made.1 { nodes = none }),
          free-sort-Grown base made.0 made.1 (map copy_node copied) sort sorts below g,
          (refl, g.arrays_are, refl),
        ),
      ),
    )
