-- ===== src/Client.antt =====
-- client.h, client.c, and `ring_init` of ring.c: the start of a client. `get_nodes` is the list that
-- `get_nodes` of node_list.c returns (`none` is NULL), `sort` is `qsort` with `node_cmp_sha`, and
-- `socket` says whether a socket can be opened.
pub mod Start
pub mod Ending
pub mod Successor
pub mod Substrings
pub mod Slices
pub mod Commands
pub mod Search
pub mod Scenario
pub mod Programs
pub mod Concatenation
pub mod Listing
pub mod Dumps
use distributed_hash_table.Prelude.{
  ℕ, zero, suc, ◌-◌, List, [], ◌∷◌, Bool, true, false, ◌&&◌, not, if◌then◌else◌, ◌==◌, ltb, Option,
  none, some, Run, ok, fault, ◌>>=◌, length, ◌++◌, read, read-append, length-append, arith, ◌≡◌,
  refl, sym,
}
use mathlib.Core.List.{append_assoc}
use distributed_hash_table.Text.{IsText, strlen, strlen-append}
use distributed_hash_table.Errors.{ErrorCode, err_none, err_bad_parameter, err_network}
use distributed_hash_table.HashTable.{size_max}
use distributed_hash_table.Args.{Args, parse_opt_args}
use distributed_hash_table.Node.{Node}
use distributed_hash_table.NodeList.{NodeList}
use distributed_hash_table.NetworkUtils.{sub_size}
use distributed_hash_table.Network.{Client}

-- `argv_size` of util.c.
unfoldable pub argv_size : List (List ℕ) → ℕ
argv_size [] = 0
argv_size (s ∷ argv) = suc (argv_size argv)

-- `strdup` of util.c. `room` says whether the copy can be allocated.
unfoldable pub strdup : Bool → Option (List ℕ) → Run (Option (List ℕ))
strdup room none = ok none
strdup room (some str) = do
  n ← strlen str
  if room then (read (suc n) str >>= λ ret. ok (some ret)) else ok none

strdup-append :
    (s behind : List ℕ) → IsText s → strdup true (some (s ++ 0 ∷ behind)) ≡ ok (some (s ++ 0 ∷ []))
unfolding strdup
strdup-append s behind h =
    let size : suc (length s) ≡ length (s ++ 0 ∷ []) = omega (arith, length-append s (0 ∷ [])) in
    let bytes : (s ++ 0 ∷ []) ++ behind ≡ s ++ 0 ∷ behind = append_assoc s (0 ∷ []) behind in
    let copied : read (suc (length s)) (s ++ 0 ∷ behind) ≡ ok (s ++ 0 ∷ []) =
      rw (size, sym bytes) (read-append (s ++ 0 ∷ []) behind) in
    rw (strlen-append s behind h, copied) refl

unfoldable pub ring_init :
    (List Node → List Node) → Option NodeList → NodeList → ErrorCode × NodeList
ring_init sort none ring = (err_bad_parameter, ring)
ring_init sort (some node_list) ring = (err_none, record node_list { nodes = sort node_list.nodes })

-- `ring_alloc`, `ring_init`, whose error is dropped, and the bound on N.
unfoldable pub with_ring : (List Node → List Node) → Option NodeList → Args → Client
unfolding ring_init
with_ring sort get_nodes args =
    let (error, ring) = ring_init sort get_nodes (record { allocated_size = 32; nodes = [] }) in
    let size = length ring.nodes in
    record { server = ring; args = if ltb size args.n then record args { n = size } else args }

-- The tests on the number of arguments: `required` may be SIZE_MAX.
unfoldable pub too_few : ℕ → ℕ → Bool
too_few required size_args = not (required == size_max) && ltb size_args required

unfoldable pub not_exact : ℕ → ℕ → ℕ → Bool
not_exact required size_args nb_parsed =
    not (required == size_max) && not (sub_size size_args nb_parsed == required)

-- The error code, the client, and the arguments that are left. `argv` has the program's name first.
unfoldable pub client_init :
    (List Node → List Node)
    → Option NodeList
    → Bool
    → ℕ
    → ℕ
    → List (List ℕ)
    → Run (ErrorCode × Option Client × List (List ℕ))
unfolding argv_size too_few not_exact
client_init sort get_nodes socket required optionnal [] = fault
client_init sort get_nodes socket required optionnal (name ∷ argv) =
    let size_args = length argv in
    let parse = (do
      (parsed, rest) ← parse_opt_args optionnal argv
      elim parsed [
        | none ↦ ok (err_bad_parameter, none, rest)
        | some args ↦
            if not_exact required size_args (sub_size (argv_size argv) (argv_size rest))
            then ok (err_bad_parameter, none, rest)
            else if socket
            then ok (err_none, some (with_ring sort get_nodes args), rest)
            else ok (err_network, none, rest)
      ]) in
    if too_few required size_args then ok (err_bad_parameter, none, argv) else parse
