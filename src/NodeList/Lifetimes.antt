-- ===== src/NodeList/Lifetimes.antt =====
-- The memory of node.c and node_list.c: which digests are allocated, copied and freed. A node in
-- memory points to its digest; lists that are copied by assignment share their digests. The NUL
-- behind the copy of a digest, which has no room, is taken to do no harm.
use mathlib.Core.Option
use distributed_hash_table.Prelude.{
  ℕ, ◌+◌, List, [], ◌∷◌, ◌++◌, if◌then◌else◌, ◌==◌, ltb, Option, none, some, Run, ok, fault, ◌>>=◌,
  non_null,
}
use distributed_hash_table.Text.{c_str}
use distributed_hash_table.Node.{Address, Node}
use distributed_hash_table.NodeList.{allocated_memory_list}

-- `node_t` as it is stored.
pub record StoredNode : Type 0 where
  pub addr : Address
  pub id : ℕ
  pub sha : Option ℕ

-- The digests that are not freed, by their addresses, an address that is not in use, and the number
-- of arrays of nodes that are not freed.
pub record Memory : Type 0 where
  pub digests : List (ℕ × List ℕ)
  pub next : ℕ
  pub arrays : ℕ

-- `node_list_t` as it is stored: `nodes` may be NULL, whatever `size` is.
pub record StoredList : Type 0 where
  pub size : ℕ
  pub allocated_size : ℕ
  pub nodes : Option (List StoredNode)

unfoldable pub digest_at : ℕ → List (ℕ × List ℕ) → Run (List ℕ)
digest_at p [] = fault
digest_at p (d ∷ digests) = if p == d.0 then ok d.1 else digest_at p digests

unfoldable pub without : ℕ → List (ℕ × List ℕ) → Run (List (ℕ × List ℕ))
without p [] = fault
without p (d ∷ digests) =
    let rest = without p digests in
    if p == d.0 then ok digests else (rest >>= λ digests'. ok (d ∷ digests'))

-- `free` of a digest; to free it again is undefined.
unfoldable pub free_digest : Memory → Option ℕ → Run Memory
unfolding without
free_digest memory none = ok memory
free_digest memory (some p) =
    without p memory.digests >>= λ digests. ok (record memory { digests = digests })

-- The pointer that is passed may be NULL. The node's own pointer becomes NULL.
unfoldable pub node_end : Memory → Option StoredNode → Run (Memory × Option StoredNode)
unfolding free_digest
node_end memory none = ok (memory, none)
node_end memory (some node) =
    free_digest memory node.sha >>= λ memory'. ok (memory', some (record node { sha = none }))

-- Lists are made when memory is not short.
unfoldable pub stored_list_new : Memory → Memory × StoredList
stored_list_new memory = (
  record memory { arrays = memory.arrays + 1 },
  record { size = 0; allocated_size = allocated_memory_list; nodes = some [] },
)

-- The copy has a digest of its own.
unfoldable pub store_copy : Memory → StoredNode → Run (Memory × StoredNode)
unfolding digest_at
store_copy memory node = do
  p ← non_null node.sha
  sha ← digest_at p memory.digests
  ok (
    record memory {
      digests = memory.digests ++ (memory.next, c_str sha) ∷ [];
      next = memory.next + 1;
    },
    record node { sha = some memory.next },
  )

unfoldable pub stored_list_add : Memory → StoredList → StoredNode → Run (Memory × StoredList)
unfolding store_copy
stored_list_add memory list node =
    let allocated_size =
      if ltb list.allocated_size (list.size + 1)
      then list.allocated_size + allocated_memory_list
      else list.allocated_size in
    do
      nodes ← non_null list.nodes
      (memory', copy) ← store_copy memory node
      ok (
        memory',
        record {
          size = list.size + 1;
          allocated_size = allocated_size;
          nodes = some (nodes ++ copy ∷ []);
        },
      )

unfoldable pub free_loop : Memory → List StoredNode → Run Memory
unfolding node_end
free_loop memory [] = ok memory
free_loop memory (node ∷ nodes) = node_end memory (some node) >>= λ r. free_loop r.0 nodes

-- The array is not freed, only its address is dropped. `&list->nodes[0]` is NULL where `nodes` is.
unfoldable pub node_list_free : Memory → StoredList → Run (Memory × StoredList)
unfolding node_end free_loop
node_list_free memory list = elim list.nodes [
  | none ↦ if ltb 1 list.size then fault else (node_end memory none >>= λ r. ok (r.0, list))
  | some nodes ↦ free_loop memory nodes >>= λ memory'. ok (memory', record list { nodes = none })
]

-- `sort` is `qsort` with the comparator.
unfoldable pub node_list_sort : (List StoredNode → List StoredNode) → StoredList → StoredList
node_list_sort sort list = record list { nodes = Option.map sort list.nodes }

-- `ring_t` is `node_list_t`.
unfoldable pub ring_free : Memory → StoredList → Run (Memory × StoredList)
unfolding node_list_free
ring_free memory ring = node_list_free memory ring

-- The value of stored nodes, with the digests that are allocated.
unfoldable pub load_node : List (ℕ × List ℕ) → StoredNode → Run Node
unfolding digest_at
load_node digests node = do
  p ← non_null node.sha
  sha ← digest_at p digests
  ok (record { addr = node.addr; id = node.id; sha = sha })

unfoldable pub load_nodes : List (ℕ × List ℕ) → List StoredNode → Run (List Node)
unfolding load_node
load_nodes digests [] = ok []
load_nodes digests (node ∷ nodes) = do
  n ← load_node digests node
  ns ← load_nodes digests nodes
  ok (n ∷ ns)

-- `stored_list_add` on each of some nodes.
unfoldable pub add_each : Memory → StoredList → List StoredNode → Run (Memory × StoredList)
unfolding stored_list_add
add_each memory list [] = ok (memory, list)
add_each memory list (node ∷ nodes) =
    stored_list_add memory list node >>= λ r. add_each r.0 r.1 nodes
