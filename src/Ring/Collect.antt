-- ===== src/Ring/Collect.antt =====
-- The second loop of `ring_get_nodes_for_key`, round by round.
use distributed_hash_table.Prelude.{
  ℕ, zero, suc, ◌+◌, ◌-◌, ◌*◌, ◌<◌, ◌≤◌, List, [], ◌∷◌, ◌++◌, Bool, true, false, Option, some, Run,
  ok, ◌>>=◌, length, arith, ◌≡◌, refl, ◌⊎◌, inl, inr, Returns, get_or, Bool-cases, leb, ◌==◌,
  length-append, get_elem?-get_or, sym,
}
use mathlib.Core.List.{append_assoc, append-nil}
use distributed_hash_table.Node.{Node}
use distributed_hash_table.NodeList.{NodeList, copy_node, contains, node_list_contains}
use distributed_hash_table.Ring.{visit, collect_loop}
use distributed_hash_table.Ring.Servers.{
  Progress, Extends, Distinct, AllOf, with_copy, node_list_add-with_copy, contains-append,
  contains-last, Distinct-append, AllOf-append,
}

Extends-refl : (a : NodeList) → Extends a a
Extends-refl a = ([], sym (append-nil a.nodes))

Extends-trans : (a b c : NodeList) → Extends a b → Extends b c → Extends a c
Extends-trans a b c (ns, p) (ms, q) = (ns ++ ms, rw (q, p, append_assoc))

Extends-contains :
    (a b : NodeList) (n : Node)
    → Extends a b
    → contains a.nodes n ≡ true
    → contains b.nodes n ≡ true
Extends-contains a b n (ns, p) h = rw (p, contains-append, h)

module _ (ring : List Node) (d : Node) (wanted : ℕ) where
  -- One round: the node at `j` is in the list afterwards.
  record Visited (nodes : NodeList) (j : ℕ) (p : NodeList × ℕ) : Type 0 where
    progress : Progress ring d wanted p.0 p.1
    extends : Extends nodes p.0
    seen : contains p.0.nodes (get_or ring j d) ≡ true

  visit-Visited :
      (nodes : NodeList) (left j : ℕ)
      → Progress ring d wanted nodes (suc left)
      → j < length ring
      → (p : NodeList × ℕ) × (visit true nodes (get_or ring j d) (suc left) ≡ some p)
        × Visited nodes j p
  unfolding visit node_list_contains
  visit-Visited nodes left j g h = elim (Bool-cases (contains nodes.nodes (get_or ring j d))) [
    | inl old ↦ (
      (nodes, suc left),
      rw old,
      record { progress = g; extends = Extends-refl nodes; seen = old },
    )
    | inr new ↦ (
      (with_copy nodes (get_or ring j d), suc left - 1),
      rw (new, node_list_add-with_copy),
      record {
        progress = record {
          distinct = Distinct-append nodes.nodes (get_or ring j d) g.distinct new;
          capacity =
              ground
                (arith, g.capacity, length-append nodes.nodes (copy_node (get_or ring j d) ∷ []));
          total =
              omega (arith, g.total, length-append nodes.nodes (copy_node (get_or ring j d) ∷ []));
          of_ring = AllOf-append ring d nodes.nodes j g.of_ring h;
        };
        extends = (copy_node (get_or ring j d) ∷ [], refl);
        seen = contains-last nodes.nodes (get_or ring j d);
      },
    )
  ]

  -- The indices that the loop has been at.
  abbrev Seen : ℕ → ℕ → Bool → ℕ → Type 0
  Seen start iterator true j = (start ≤ j) ⊎ (j < iterator)
  Seen start iterator false j = (start ≤ j) × (j < iterator)

  abbrev Covers : NodeList → ℕ → ℕ → Bool → Type 0
  Covers nodes start iterator looped =
      (j : ℕ)
      → j < length ring
      → Seen start iterator looped j
      → contains nodes.nodes (get_or ring j d) ≡ true

  Seen-next :
      (start iterator : ℕ) (looped : Bool) (j : ℕ)
      → Seen start (iterator + 1) looped j
      → Seen start iterator looped j ⊎ (j ≡ iterator)
  Seen-next start iterator true j (inl a) = inl (inl a)
  Seen-next start iterator true j (inr a) = elim (Bool-cases (j == iterator)) [
    | inl e ↦ inr (ground arith)
    | inr n ↦ inl (inr (ground arith))
  ]
  Seen-next start iterator false j a = elim (Bool-cases (j == iterator)) [
    | inl e ↦ inr (ground arith)
    | inr n ↦ inl (ground arith)
  ]

  Covers-next :
      (start iterator : ℕ) (looped : Bool) (nodes : NodeList) (p : NodeList × ℕ)
      → Visited nodes iterator p
      → Covers nodes start iterator looped
      → Covers p.0 start (iterator + 1) looped
  Covers-next start iterator looped nodes p v c j h s = elim (Seen-next start iterator looped j s) [
    | inl old ↦ Extends-contains nodes p.0 (get_or ring j d) v.extends (c j h old)
    | inr e ↦ rw e v.seen
  ]

  -- What the loop has collected when it ends.
  pub record Collected (nodes l : NodeList) : Type 0 where
    pub extends : Extends nodes l
    pub distinct : Distinct l.nodes
    pub capacity : length l.nodes ≤ l.allocated_size
    pub of_ring : AllOf ring d l.nodes
    pub at_most : length l.nodes ≤ wanted
    pub enough :
        (length l.nodes ≡ wanted)
        ⊎ ((j : ℕ) → j < length ring → contains l.nodes (get_or ring j d) ≡ true)

  abbrev Ends : NodeList → Run (Option NodeList) → Type 0
  Ends nodes r = Returns r λ o. (l : NodeList) × (o ≡ some l) × Collected nodes l

  Ends-Extends : (a b : NodeList) (r : Run (Option NodeList)) → Extends a b → Ends b r → Ends a r
  Ends-Extends a b r e (o, run, (l, some_l, c)) = (
    o,
    run,
    (
      l,
      some_l,
      record {
        extends = Extends-trans a b l e c.extends;
        distinct = c.distinct;
        capacity = c.capacity;
        of_ring = c.of_ring;
        at_most = c.at_most;
        enough = c.enough;
      },
    ),
  )

  -- The list as it stands is a result when nothing is left to add, or when it covers the ring.
  Progress-Collected :
      (nodes : NodeList) (left : ℕ)
      → Progress ring d wanted nodes left
      → (left ≡ 0) ⊎ ((j : ℕ) → j < length ring → contains nodes.nodes (get_or ring j d) ≡ true)
      → Collected nodes nodes
  Progress-Collected nodes left g e = record {
    extends = Extends-refl nodes;
    distinct = g.distinct;
    capacity = g.capacity;
    of_ring = g.of_ring;
    at_most = omega (arith, g.total);
    enough = elim e [ inl z ↦ inl (omega (arith, g.total)) | inr all ↦ inr all ];
  }

  -- How many rounds there are at most.
  abbrev rounds : Bool → ℕ
  rounds true = length ring
  rounds false = 2 * length ring

  pub collect_loop-Ends :
      (fuel start iterator : ℕ) (looped : Bool) (left : ℕ) (nodes : NodeList)
      → rounds looped < fuel + iterator
      → iterator < length ring
      → Progress ring d wanted nodes left
      → Covers nodes start iterator looped
      → Ends nodes (collect_loop true fuel ring iterator looped left nodes)
  unfolding collect_loop
  collect_loop-Ends zero start iterator true left nodes m h g c = absurd (omega arith)
  collect_loop-Ends zero start iterator false left nodes m h g c = absurd (omega arith)
  collect_loop-Ends (suc fuel) start iterator looped zero nodes m h g c =
      (some nodes, refl, (nodes, refl, Progress-Collected nodes zero g (inl refl)))
  collect_loop-Ends (suc fuel) start iterator true (suc left) nodes m h g c =
      let (p, run, v) = visit-Visited nodes left iterator g h in
      let covers = Covers-next start iterator true nodes p v c in
      elim (Bool-cases (leb (length ring) (iterator + 1))) [
        | inl end ↦
            rw (get_elem?-get_or ring iterator d h, ◌>>=◌, run, end)
              (Ends-Extends nodes p.0 (ok (some p.0)) v.extends (
                some p.0,
                refl,
                (
                  p.0,
                  refl,
                  Progress-Collected p.0 p.1 v.progress
                      (inr (λ j k. covers j k (inr (ground arith)))),
                ),
              ))
        | inr more ↦
            rw (get_elem?-get_or ring iterator d h, ◌>>=◌, run, more)
              (Ends-Extends nodes p.0 _ v.extends (
                collect_loop-Ends fuel start (iterator + 1) true p.1 p.0 (omega arith)
                  (ground arith) v.progress covers))
      ]
  collect_loop-Ends (suc fuel) start iterator false (suc left) nodes m h g c =
      let (p, run, v) = visit-Visited nodes left iterator g h in
      let covers = Covers-next start iterator false nodes p v c in
      elim (Bool-cases (leb (length ring) (iterator + 1))) [
        | inl end ↦
            rw (get_elem?-get_or ring iterator d h, ◌>>=◌, run, end)
              (Ends-Extends nodes p.0 _ v.extends (
                collect_loop-Ends fuel start 0 true p.1 p.0 (ground arith) (omega arith) v.progress
                  (λ j k s.
                    covers j k
                      (elim s [ inl a ↦ (a, ground arith) | inr b ↦ absurd (omega arith) ]))))
        | inr more ↦
            rw (get_elem?-get_or ring iterator d h, ◌>>=◌, run, more)
              (Ends-Extends nodes p.0 _ v.extends (
                collect_loop-Ends fuel start (iterator + 1) false p.1 p.0 (omega arith)
                  (ground arith) v.progress covers))
      ]
