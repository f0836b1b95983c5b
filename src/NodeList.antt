-- ===== src/NodeList.antt =====
-- node_list.h and node_list.c: an array of nodes that grows by 32. `size` of the source is the
-- length of `nodes`. `room` says whether the array can be allocated; the other allocations are
-- taken to succeed where the code does not test them. The NUL that `strcpy` writes behind the copy
-- of a digest is taken to do no harm.
pub mod Reader
pub mod Lines
pub mod Rounds
pub mod RoundTrip
pub mod Scans
pub mod Ending
pub mod Lifetimes
pub mod Loading
pub mod Growing
pub mod Sorted
pub mod Ownership
use distributed_hash_table.Prelude.{
  ℕ, ◌+◌, List, [], ◌∷◌, ◌++◌, Bool, true, false, ◌||◌, if◌then◌else◌, ltb, Option, none, some,
  length,
}
use distributed_hash_table.Text.{c_str}
use distributed_hash_table.Errors.{ErrorCode, err_none, err_nomem, err_bad_parameter}
use distributed_hash_table.Node.{Node, same_server}

-- `node_list_t`
pub record NodeList : Type 0 where
  pub allocated_size : ℕ
  pub nodes : List Node

abbrev pub allocated_memory_list : ℕ
allocated_memory_list = 32

unfoldable pub node_list_new : Bool → Option NodeList
node_list_new false = none
node_list_new true = some (record { allocated_size = allocated_memory_list; nodes = [] })

-- The copy keeps the digest up to its first NUL, as `strcpy` does.
abbrev pub copy_node : Node → Node
copy_node node = record node { sha = c_str node.sha }

unfoldable pub node_list_add : Bool → Option NodeList → Node → ErrorCode × Option NodeList
node_list_add room none node = (err_bad_parameter, none)
node_list_add room (some list) node =
    let nodes = list.nodes ++ copy_node node ∷ [] in
    if ltb list.allocated_size (length list.nodes + 1)
    then (if room
        then (
          err_none,
          some (record {
            allocated_size = list.allocated_size + allocated_memory_list;
            nodes = nodes;
          }),
        )
        else (err_nomem, some list))
    else (err_none, some (record list { nodes = nodes }))

-- The loop of `node_list_contains`.
unfoldable pub contains : List Node → Node → Bool
contains [] node = false
contains (n ∷ nodes) node = same_server n node || contains nodes node

unfoldable pub node_list_contains : NodeList → Node → Bool
unfolding contains
node_list_contains list node = contains list.nodes node
