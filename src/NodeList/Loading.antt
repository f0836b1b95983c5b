-- ===== src/NodeList/Loading.antt =====
-- The values of stored nodes, while digests are added to memory.
use distributed_hash_table.Prelude.{
  ok_before, ℕ, ◌<◌, ◌≤◌, List, [], ◌∷◌, ◌++◌, true, false, ◌==◌, Option, some, none, ok, ◌>>=◌,
  non_null, arith, ◌≡◌, refl, ap, sym, ◌∙◌, Bool-cases, inl, inr,
}
use distributed_hash_table.Node.{Node}
use distributed_hash_table.NodeList.Lifetimes.{
  StoredNode, digest_at, without, load_node, load_nodes,
}

non_null-ok : {A : Type 0} (a? : Option A) (a : A) → non_null a? ≡ ok a → a? ≡ some a
non_null-ok none a e = absurd (cc e)
non_null-ok (some x) a e = ap some (cc e)

-- Every address is below `n`.
abbrev pub Below : ℕ → List (ℕ × List ℕ) → Type 0
Below n [] = Unit
Below n (d ∷ digests) = (d.0 < n) × Below n digests

pub Below-le : (digests : List (ℕ × List ℕ)) (m n : ℕ) → m ≤ n → Below m digests → Below n digests
Below-le [] m n h b = tt
Below-le (d ∷ digests) m n h b = (omega (arith, b.0), Below-le digests m n h b.1)

pub Below-append :
    (n : ℕ) (xs ys : List (ℕ × List ℕ)) → Below n xs → Below n ys → Below n (xs ++ ys)
Below-append n [] ys b b' = b'
Below-append n (x ∷ xs) ys b b' = (b.0, Below-append n xs ys b.1 b')

digest_at-append :
    (p : ℕ) (xs ys : List (ℕ × List ℕ)) (s : List ℕ)
    → digest_at p xs ≡ ok s
    → digest_at p (xs ++ ys) ≡ ok s
unfolding digest_at
digest_at-append p [] ys s e = absurd (cc e)
digest_at-append p (x ∷ xs) ys s e = elim (Bool-cases (p == x.0)) [
  | inl same ↦ rw same (rw same at e)
  | inr other ↦ rw other (digest_at-append p xs ys s (rw other at e))
]

pub digest_at-fresh :
    (n : ℕ) (xs : List (ℕ × List ℕ)) (s : List ℕ)
    → Below n xs
    → digest_at n (xs ++ (n, s) ∷ []) ≡ ok s
unfolding digest_at
digest_at-fresh n [] s b = let same : n == n ≡ true = ground arith in rw same refl
digest_at-fresh n (x ∷ xs) s b =
    let other : n == x.0 ≡ false = ground (arith, b.0) in rw other (digest_at-fresh n xs s b.1)

pub without-append :
    (p : ℕ) (xs ys : List (ℕ × List ℕ)) (s : List ℕ)
    → Below p xs
    → without p (xs ++ (p, s) ∷ ys) ≡ ok (xs ++ ys)
unfolding without
without-append p [] ys s b = let same : p == p ≡ true = ground arith in rw same refl
without-append p (x ∷ xs) ys s b =
    let other : p == x.0 ≡ false = ground (arith, b.0) in
    rw (other, without-append p xs ys s b.1) refl

-- A stored node with an allocated digest, and its value.
pub record Loads (digests : List (ℕ × List ℕ)) (node : StoredNode) (n : Node) : Type 0 where
  pub pointer : ℕ
  pub points : node.sha ≡ some pointer
  pub found : digest_at pointer digests ≡ ok n.sha
  pub value : n ≡ record { addr = node.addr; id = node.id; sha = n.sha }

pub load_node-Loads :
    (digests : List (ℕ × List ℕ)) (node : StoredNode) (n : Node)
    → load_node digests node ≡ ok n
    → Loads digests node n
unfolding load_node
load_node-Loads digests node n e =
    let shown : List ℕ → Node = λ sha. record { addr = node.addr; id = node.id; sha = sha } in
    let (p, points, e') =
      ok_before (non_null node.sha) (λ p. digest_at p digests >>= λ sha. ok (shown sha)) n e in
    let (sha, found, value) = ok_before (digest_at p digests) (λ sha. ok (shown sha)) n e' in
    let same : shown sha ≡ n = cc value in
    record {
      pointer = p;
      points = non_null-ok node.sha p points;
      found = found ∙ ap (λ (n : Node). ok n.sha) same;
      value = sym same ∙ ap (λ (n : Node). shown n.sha) same;
    }

pub Loads-load_node :
    (digests : List (ℕ × List ℕ)) (node : StoredNode) (n : Node)
    → Loads digests node n
    → load_node digests node ≡ ok n
unfolding load_node
Loads-load_node digests node n w = rw (w.points, w.found) (ap ok (sym w.value))

pub load_node-append :
    (xs ys : List (ℕ × List ℕ)) (node : StoredNode) (n : Node)
    → load_node xs node ≡ ok n
    → load_node (xs ++ ys) node ≡ ok n
load_node-append xs ys node n e =
    let w = load_node-Loads xs node n e in
    Loads-load_node (xs ++ ys) node n (record {
      pointer = w.pointer;
      points = w.points;
      found = digest_at-append w.pointer xs ys n.sha w.found;
      value = w.value;
    })

pub load_nodes-cons :
    (digests : List (ℕ × List ℕ)) (node : StoredNode) (nodes : List StoredNode) (values : List Node)
    → load_nodes digests (node ∷ nodes) ≡ ok values
    → (n : Node) × (ns : List Node) × (load_node digests node ≡ ok n)
      × (load_nodes digests nodes ≡ ok ns)
      × (values ≡ n ∷ ns)
unfolding load_nodes
load_nodes-cons digests node nodes values e =
    let (n, here, e') =
      ok_before (load_node digests node) (λ n. load_nodes digests nodes >>= λ ns. ok (n ∷ ns))
        values e in
    let (ns, behind, same) = ok_before (load_nodes digests nodes) (λ ns. ok (n ∷ ns)) values e' in
    (n, ns, here, behind, cc same)

pub load_nodes-append :
    (xs ys : List (ℕ × List ℕ)) (nodes : List StoredNode) (values : List Node)
    → load_nodes xs nodes ≡ ok values
    → load_nodes (xs ++ ys) nodes ≡ ok values
unfolding load_nodes
load_nodes-append xs ys [] values e = e
load_nodes-append xs ys (node ∷ nodes) values e =
    let (n, ns, here, behind, same) = load_nodes-cons xs node nodes values e in
    rw (load_node-append xs ys node n here, load_nodes-append xs ys nodes ns behind)
      (ap ok (sym same))

pub load_nodes-snoc :
    (digests : List (ℕ × List ℕ)) (nodes : List StoredNode) (values : List Node) (node : StoredNode)
    (n : Node)
    → load_nodes digests nodes ≡ ok values
    → load_node digests node ≡ ok n
    → load_nodes digests (nodes ++ node ∷ []) ≡ ok (values ++ n ∷ [])
unfolding load_nodes
load_nodes-snoc digests [] values node n e here =
    let none' : values ≡ [] = cc e in rw (here, none') refl
load_nodes-snoc digests (m ∷ nodes) values node n e here =
    let (v, vs, first, behind, same) = load_nodes-cons digests m nodes values e in
    rw (first, load_nodes-snoc digests nodes vs node n behind here, same) refl
