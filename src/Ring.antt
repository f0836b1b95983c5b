-- ===== src/Ring.antt =====
-- ring.h and ring.c: the nodes that store a key. `sha1` is SHA1 of openssl.
pub mod Places
pub mod Servers
pub mod Collect
pub mod Storage
use Prim.Native.Nat.{Ordering}
use distributed_hash_table.Prelude.{
  ℕ, zero, suc, ◌+◌, ◌-◌, ◌*◌, List, [], ◌∷◌, Bool, true, false, if◌then◌else◌, leb, Option, none,
  some, Run, ok, fault, no_fuel, ◌>>=◌, length, at,
}
use distributed_hash_table.Text.{strcmp, c_str}
use distributed_hash_table.Errors.{ErrorCode, err_none}
use distributed_hash_table.Node.{Node}
use distributed_hash_table.NodeList.{NodeList, node_list_new, node_list_add, node_list_contains}

-- `strcmp(sha, node.sha) > 0`
unfoldable pub is_beyond : List ℕ → Node → Bool
is_beyond sha node = elim (strcmp (c_str sha) (c_str node.sha)) [ Ordering.gt ↦ true | _ ↦ false ]

-- The first loop, from `iterator` on; the list is the ring from there.
unfoldable pub place_loop : List ℕ → ℕ → List Node → Run ℕ
place_loop sha iterator [] = fault
place_loop sha iterator (n ∷ []) = ok (if is_beyond sha n then 0 else iterator)
place_loop sha iterator (n ∷ m ∷ ring) =
    let next = place_loop sha (suc iterator) (m ∷ ring) in
    if is_beyond sha n then next else ok iterator

-- `if (node_list_add(…) != ERR_NONE) return NULL;`
unfoldable pub added : ErrorCode × Option NodeList → Option NodeList
added (err_none, nodes) = nodes
added (_, nodes) = none

-- `if (!contains) { add; left--; }`: the list and `left`, or `none` where the function returns NULL.
unfoldable pub visit : Bool → NodeList → Node → ℕ → Option (NodeList × ℕ)
visit room nodes node left =
    if node_list_contains nodes node
    then some (nodes, left)
    else elim (added (node_list_add room (some nodes) node)) [
      | none ↦ none
      | some nodes' ↦ some (nodes', left - 1)
    ]

-- The second loop, a round for each unit of fuel.
unfoldable pub collect_loop : Bool → ℕ → List Node → ℕ → Bool → ℕ → NodeList → Run (Option NodeList)
collect_loop room zero ring iterator looped left nodes = no_fuel
collect_loop room (suc fuel) ring iterator looped zero nodes = ok (some nodes)
collect_loop room (suc fuel) ring iterator looped (suc left) nodes = do
  node ← at ring iterator
  elim (visit room nodes node (suc left)) [
    | none ↦ ok none
    | some (nodes', left') ↦
        let wrapped = collect_loop room fuel ring 0 true left' nodes' in
        let next = collect_loop room fuel ring (iterator + 1) looped left' nodes' in
        if leb (length ring) (iterator + 1)
        then (if looped then ok (some nodes') else wrapped)
        else next
  ]

-- `none` is NULL.
unfoldable pub ring_get_nodes_for_key :
    (List ℕ → List ℕ) → Bool → NodeList → ℕ → List ℕ → Run (Option NodeList)
ring_get_nodes_for_key sha1 room ring zero key = ok none
ring_get_nodes_for_key sha1 room ring (suc left) key = do
  iterator ← place_loop (sha1 key) 0 ring.nodes
  node ← at ring.nodes iterator
  elim (added (node_list_add room (node_list_new room) node)) [
    | none ↦ ok none
    | some nodes ↦
        collect_loop room (2 * length ring.nodes + 1) ring.nodes iterator false left nodes
  ]
