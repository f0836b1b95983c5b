-- ===== src/NodeList/Growing.antt =====
-- Lists of nodes grow by copies, each with a digest of its own.
use distributed_hash_table.Prelude.{
  ℕ, ◌+◌, ◌≤◌, List, [], ◌∷◌, ◌++◌, map, some, ok, length, length-append, arith, ◌≡◌, refl, Returns,
  ap, sym, ◌∙◌, ltb, if◌then◌else◌,
}
use mathlib.Core.List.{append_assoc, append-nil}
use distributed_hash_table.Text.{c_str}
use distributed_hash_table.Node.{Node}
use distributed_hash_table.NodeList.{allocated_memory_list, copy_node}
use distributed_hash_table.NodeList.Lifetimes.{
  StoredNode, Memory, StoredList, store_copy, stored_list_add, load_node, load_nodes, add_each,
}
use distributed_hash_table.NodeList.Loading.{
  Below, Below-le, Below-append, digest_at-fresh, load_node-Loads, Loads-load_node,
  load_node-append, load_nodes-cons, load_nodes-append, load_nodes-snoc,
}

-- The memory with one more digest.
abbrev with_digest : Memory → List ℕ → Memory
with_digest m sha = record m { digests = m.digests ++ (m.next, sha) ∷ []; next = m.next + 1 }

store_copy-load_node :
    (m : Memory) (node : StoredNode) (n : Node)
    → load_node m.digests node ≡ ok n
    → store_copy m node ≡ ok (with_digest m (c_str n.sha), record node { sha = some m.next })
unfolding store_copy
store_copy-load_node m node n e =
    let w = load_node-Loads m.digests node n e in rw (w.points, w.found) refl

copy-load_node :
    (m : Memory) (node : StoredNode) (n : Node)
    → load_node m.digests node ≡ ok n
    → Below m.next m.digests
    → load_node (with_digest m (c_str n.sha)).digests (record node { sha = some m.next })
      ≡ ok (copy_node n)
copy-load_node m node n e fresh =
    let w = load_node-Loads m.digests node n e in
    Loads-load_node (with_digest m (c_str n.sha)).digests (record node { sha = some m.next })
      (copy_node n)
      (record {
        pointer = m.next;
        points = refl;
        found = digest_at-fresh m.next m.digests (c_str n.sha) fresh;
        value = ap copy_node w.value;
      })

-- Each node points to a digest of `own`, in this order, at an address that is not below `first`.
abbrev pub Owned : ℕ → List StoredNode → List (ℕ × List ℕ) → Type 0
Owned first [] [] = Unit
Owned first [] (d ∷ own) = ⊥
Owned first (node ∷ nodes) [] = ⊥
Owned first (node ∷ nodes) (d ∷ own) = (node.sha ≡ some d.0) × (first ≤ d.0) × Owned first nodes own

Owned-snoc :
    (first : ℕ) (nodes : List StoredNode) (own : List (ℕ × List ℕ)) (node : StoredNode) (p : ℕ)
    (sha : List ℕ)
    → Owned first nodes own
    → node.sha ≡ some p
    → first ≤ p
    → Owned first (nodes ++ node ∷ []) (own ++ (p, sha) ∷ [])
Owned-snoc first [] [] node p sha w e h = (e, h, tt)
Owned-snoc first [] (d ∷ own) node p sha w e h = absurd w
Owned-snoc first (m ∷ nodes) [] node p sha w e h = absurd w
Owned-snoc first (m ∷ nodes) (d ∷ own) node p sha w e h =
    (w.0, w.1, Owned-snoc first nodes own node p sha w.2 e h)

-- A list that has grown from nothing in the memory `base`, and the values of its nodes.
pub record Grown (base m : Memory) (l : StoredList) (values : List Node) : Type 0 where
  pub nodes : List StoredNode
  pub own : List (ℕ × List ℕ)
  pub nodes_are : l.nodes ≡ some nodes
  pub counted : l.size ≡ length nodes
  pub digests_are : m.digests ≡ base.digests ++ own
  pub fresh : Below m.next m.digests
  pub later : base.next ≤ m.next
  pub owned : Owned base.next nodes own
  pub loads : load_nodes m.digests nodes ≡ ok values
  pub arrays_are : m.arrays ≡ base.arrays + 1

add-Grown :
    (base m : Memory) (l : StoredList) (values : List Node) (node : StoredNode) (n : Node)
    → Grown base m l values
    → load_node base.digests node ≡ ok n
    → Returns (stored_list_add m l node) λ r. Grown base r.0 r.1 (values ++ copy_node n ∷ [])
unfolding stored_list_add
add-Grown base m l values node n g e =
    let copy = record node { sha = some m.next } in
    let m' = with_digest m (c_str n.sha) in
    let e' : load_node m.digests node ≡ ok n =
      rw g.digests_are (load_node-append base.digests g.own node n e) in
    let size =
      if ltb l.allocated_size (l.size + 1)
      then l.allocated_size + allocated_memory_list
      else l.allocated_size in
    (
      (
        m',
        record { size = l.size + 1; allocated_size = size; nodes = some (g.nodes ++ copy ∷ []) },
      ),
      rw (g.nodes_are, store_copy-load_node m node n e') refl,
      record {
        nodes = g.nodes ++ copy ∷ [];
        own = g.own ++ (m.next, c_str n.sha) ∷ [];
        nodes_are = refl;
        counted = omega (arith, g.counted, length-append g.nodes (copy ∷ []));
        digests_are =
            ap (λ ds. ds ++ (m.next, c_str n.sha) ∷ []) g.digests_are
            ∙ append_assoc base.digests g.own ((m.next, c_str n.sha) ∷ []);
        fresh =
            Below-append (m.next + 1) m.digests ((m.next, c_str n.sha) ∷ [])
              (Below-le m.digests m.next (m.next + 1) (omega arith) g.fresh) (omega arith, tt);
        later = omega (arith, g.later);
        owned = Owned-snoc base.next g.nodes g.own copy m.next (c_str n.sha) g.owned refl g.later;
        loads =
            load_nodes-snoc m'.digests g.nodes values copy (copy_node n)
              (load_nodes-append m.digests ((m.next, c_str n.sha) ∷ []) g.nodes values g.loads)
              (copy-load_node m node n e' g.fresh);
        arrays_are = g.arrays_are;
      },
    )

pub add_each-Grown :
    (base m : Memory) (l : StoredList) (values : List Node) (nodes : List StoredNode)
    (copied : List Node)
    → Grown base m l values
    → load_nodes base.digests nodes ≡ ok copied
    → Returns (add_each m l nodes) λ r. Grown base r.0 r.1 (values ++ map copy_node copied)
unfolding add_each load_nodes
add_each-Grown base m l values [] copied g e =
    let none' : copied ≡ [] = cc e in ((m, l), refl, rw (none', append-nil values) g)
add_each-Grown base m l values (node ∷ nodes) copied g e =
    let (n, ns, here, behind, same) = load_nodes-cons base.digests node nodes copied e in
    let (r, run, g') = add-Grown base m l values node n g here in
    let (r', run', g'') =
      add_each-Grown base r.0 r.1 (values ++ copy_node n ∷ []) nodes ns g' behind in
    (
      r',
      rw run run',
      rw (same, sym (append_assoc values (copy_node n ∷ []) (map copy_node ns))) g'',
    )
