-- ===== src/Client/Successor.antt =====
-- Where a key is stored on the ring of a client: from the node whose digest follows the key's on.
use Prim.Native.Nat.{Ordering}
use mathlib.Core.List.Permᴰ
use mathlib.Core.List.{Mem, Permᴰ, mem-cons_of_mem, mem-cons_self}
use distributed_hash_table.Prelude.{
  length-Permᴰ, ℕ, zero, suc, ◌<◌, ◌≤◌, ◌==◌, ltb, List, [], ◌∷◌, true, some, length, arith, ◌≡◌,
  refl, ◌≢◌, ◌⊎◌, ◌↔◌, inl, inr, Returns, get_or, Bool-cases, subst,
}
use distributed_hash_table.Text.{strcmp, c_str}
use distributed_hash_table.Node.{Node, node_cmp_sha}
use distributed_hash_table.NodeList.{NodeList, copy_node}
use distributed_hash_table.Ring.{is_beyond, ring_get_nodes_for_key}
use distributed_hash_table.Ring.Places.{IsPlace}
use distributed_hash_table.Ring.Storage.{ring_get_nodes_for_key-IsStorage}
use distributed_hash_table.Client.{ring_init}

abbrev pub Every : (Node → Type 0) → List Node → Type 0
Every P [] = Unit
Every P (n ∷ ns) = P n × Every P ns

-- The first node's digest does not come behind the second one's.
abbrev pub Precedes : Node → Node → Type 0
Precedes n m = node_cmp_sha n m ≢ Ordering.gt

-- Every node precedes all that are behind it.
abbrev pub IsSorted : List Node → Type 0
IsSorted [] = Unit
IsSorted (n ∷ ns) = Every (Precedes n) ns × IsSorted ns

-- The digest comes behind the node's.
abbrev pub IsBehind : List ℕ → Node → Type 0
IsBehind sha n = strcmp (c_str sha) (c_str n.sha) ≡ Ordering.gt

is_beyond-IsBehind : (sha : List ℕ) (n : Node) → (is_beyond sha n ≡ true) ↔ IsBehind sha n
unfolding is_beyond
is_beyond-IsBehind sha n = (λ e. ground arith, λ e. ground arith)

-- The key's digest does not come behind the node's, which precedes all such nodes. When the digest
-- comes behind all nodes, the node precedes them all.
abbrev pub IsSuccessor : List ℕ → Node → List Node → Type 0
IsSuccessor sha first nodes =
    ((¬ IsBehind sha first) × Every (λ m. (¬ IsBehind sha m) → Precedes first m) nodes)
    ⊎ (Every (IsBehind sha) nodes × Every (Precedes first) nodes)

Every-Permᴰ : (P : Node → Type 0) {ns ms : List Node} → Permᴰ ns ms → Every P ns → Every P ms
Every-Permᴰ P Permᴰ.nil h = tt
Every-Permᴰ P (Permᴰ.cons e p) h = (subst P e h.0, Every-Permᴰ P p h.1)
Every-Permᴰ P (Permᴰ.swap e e') h = (subst P e' h.1.0, (subst P e h.0, h.1.1))
Every-Permᴰ P (Permᴰ.trans p q) h = Every-Permᴰ P q (Every-Permᴰ P p h)

Every-get :
    (P : Node → Type 0) (d : Node) (ns : List Node)
    → ((j : ℕ) → j < length ns → P (get_or ns j d))
    → Every P ns
Every-get P d [] h = tt
Every-get P d (n ∷ ns) h = (h 0 (omega arith), Every-get P d ns (λ j k. h (suc j) (omega arith)))

get-Every :
    (P : Node → Type 0) (d : Node) (ns : List Node) (j : ℕ)
    → Every P ns
    → j < length ns
    → P (get_or ns j d)
get-Every P d [] j h k = absurd (omega arith)
get-Every P d (n ∷ ns) zero h k = h.0
get-Every P d (n ∷ ns) (suc j) h k = get-Every P d ns j h.1 (omega arith)

Precedes-get :
    (d : Node) (ns : List Node) (i j : ℕ)
    → IsSorted ns
    → i < j
    → j < length ns
    → Precedes (get_or ns i d) (get_or ns j d)
Precedes-get d [] i j h ij k = absurd (omega arith)
Precedes-get d (n ∷ ns) i zero h ij k = absurd (omega arith)
Precedes-get d (n ∷ ns) zero (suc j) h ij k = get-Every (Precedes n) d ns j h.0 (omega arith)
Precedes-get d (n ∷ ns) (suc i) (suc j) h ij k =
    Precedes-get d ns i j h.1 (omega arith) (omega arith)

strcmp_refl : (s : List ℕ) → strcmp s s ≡ Ordering.eq
unfolding strcmp
strcmp_refl [] = refl
strcmp_refl (a ∷ s) = ground (arith, strcmp_refl s)

Precedes-self : (n : Node) → Precedes n n
unfolding node_cmp_sha
Precedes-self n e = cc (strcmp_refl (c_str n.sha), e)

Mem-get : (d : Node) (ns : List Node) (j : ℕ) → j < length ns → Mem (get_or ns j d) ns
Mem-get d [] j h = absurd (omega arith)
Mem-get d (n ∷ ns) zero h = mem-cons_self
Mem-get d (n ∷ ns) (suc j) h = mem-cons_of_mem n (Mem-get d ns j (omega arith))

Precedes-from :
    (d : Node) (ns : List Node) (i j : ℕ)
    → IsSorted ns
    → i ≤ j
    → j < length ns
    → Precedes (get_or ns i d) (get_or ns j d)
Precedes-from d ns i j h ij k = elim (Bool-cases (i == j)) [
  | inl e ↦ let same : i ≡ j = ground arith in rw same (Precedes-self (get_or ns j d))
  | inr ne ↦ Precedes-get d ns i j h (ground arith) k
]

IsPlace-IsSuccessor :
    (sha : List ℕ) (d : Node) (ring : List Node) (place : ℕ)
    → IsSorted ring
    → IsPlace sha d ring place
    → IsSuccessor sha (get_or ring place d) ring
IsPlace-IsSuccessor sha d ring place sorted p =
    let first = get_or ring place d in
    elim p.stops [
      | inl stop ↦ inl (
        λ b. cc (stop, (is_beyond-IsBehind sha first).1 b),
        Every-get (λ m. (¬ IsBehind sha m) → Precedes first m) d ring
            λ j h before. elim (Bool-cases (ltb j place)) [
              | inl less ↦ absurd (
                  before ((is_beyond-IsBehind sha (get_or ring j d)).0 (p.before j (ground arith))))
              | inr more ↦ Precedes-from d ring place j sorted (ground arith) h
            ],
      )
      | inr (e, all) ↦ inr (
        Every-get (IsBehind sha) d ring
            λ j h. (is_beyond-IsBehind sha (get_or ring j d)).0 (all j h),
        Every-get (Precedes first) d ring
            λ j h. Precedes-from d ring place j sorted (omega arith) h,
      )
    ]

IsSuccessor-Permᴰ :
    (sha : List ℕ) (first : Node) {ns ms : List Node}
    → Permᴰ ns ms
    → IsSuccessor sha first ns
    → IsSuccessor sha first ms
IsSuccessor-Permᴰ sha first p (inl (stop, all)) = inl (stop, Every-Permᴰ _ p all)
IsSuccessor-Permᴰ sha first p (inr (beyond, all)) =
    inr (Every-Permᴰ _ p beyond, Every-Permᴰ _ p all)

-- What the client finds for a key, on the ring that stands for the list of nodes.
abbrev pub Found : (List ℕ → List ℕ) → List ℕ → List Node → List Node → Type 0
Found sha1 key nodes found =
    (first : Node) × (rest : List Node) × (found ≡ copy_node first ∷ rest)
    × Mem first nodes
    × IsSuccessor (sha1 key) first nodes

ring_get_nodes_for_key-Found :
    (sha1 : List ℕ → List ℕ) (nodes ring : List Node) (allocated left : ℕ) (key : List ℕ)
    → 0 < length ring
    → Permᴰ nodes ring
    → IsSorted ring
    → Returns
        (ring_get_nodes_for_key sha1 true
          (record { allocated_size = allocated; nodes = ring })
          (suc left)
          key)
        λ o. (l : NodeList) × (o ≡ some l) × Found sha1 key nodes l.nodes
ring_get_nodes_for_key-Found sha1 nodes [] allocated left key pos p sorted = absurd (omega arith)
ring_get_nodes_for_key-Found sha1 nodes (n ∷ ring) allocated left key pos p sorted =
    let (o, run, (l, some_l, storage)) =
      ring_get_nodes_for_key-IsStorage sha1 allocated n ring left key in
    let first = get_or (n ∷ ring) storage.place n in
    (
      o,
      run,
      (
        l,
        some_l,
        (
          first,
          storage.rest,
          storage.first,
          Permᴰ.mem (Permᴰ.symm p) (Mem-get n (n ∷ ring) storage.place storage.is_place.in_range),
          IsSuccessor-Permᴰ (sha1 key) first (Permᴰ.symm p)
              (IsPlace-IsSuccessor (sha1 key) n (n ∷ ring) storage.place sorted storage.is_place),
        ),
      ),
    )

-- For the ring that `ring_init` makes of a list of nodes that is not empty, where `sort` gives the
-- same nodes in the order of their digests, and when memory is not short: the first node of the list
-- for a key is a copy of a node of the list whose digest is the first one that the key's does not
-- come behind, or the first one of all where the key's digest comes behind all of them.
pub ring_init-Found :
    (sha1 : List ℕ → List ℕ) (sort : List Node → List Node) (list old : NodeList) (left : ℕ)
    (key : List ℕ)
    → 0 < length list.nodes
    → Permᴰ list.nodes (sort list.nodes)
    → IsSorted (sort list.nodes)
    → Returns
        (ring_get_nodes_for_key sha1 true (ring_init sort (some list) old).1 (suc left) key)
        λ o. (l : NodeList) × (o ≡ some l) × Found sha1 key list.nodes l.nodes
unfolding ring_init
ring_init-Found sha1 sort list old left key pos p sorted =
    ring_get_nodes_for_key-Found sha1 list.nodes (sort list.nodes) list.allocated_size left key
      (omega (arith, length-Permᴰ p)) p sorted
