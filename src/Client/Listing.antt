-- ===== src/Client/Listing.antt =====
-- pps-list-nodes.c: the servers that answer a ping. `inet_ntoa` writes an IPv4 address, `sort` is
-- `qsort` with `node_cmp_server_addr`, and the answers before the timeout are a list of addresses.
-- The NUL behind a port of five digits, which has no room in `port_str`, is taken to do no harm.
pub mod Addresses
pub mod Statuses
use distributed_hash_table.Prelude.{
  ℕ, zero, suc, ◌+◌, List, [], ◌∷◌, ◌++◌, map, Bool, true, false, if◌then◌else◌, leb, Option, none,
  some, Run, ok, fault, ◌>>=◌, non_null, length,
}
use distributed_hash_table.Numbers.{decimal}
use distributed_hash_table.HashTable.{
  Htable, KvPair, construct_htable, add_htable_value, get_htable_value, delete_htable_and_content,
}
use distributed_hash_table.Node.{Address, Node, htons}
use distributed_hash_table.NodeList.{NodeList}
use distributed_hash_table.Network.{Sent}
use distributed_hash_table.Client.Commands.{World, started}

abbrev pub ok_text : List ℕ
ok_text = b'O' ∷ b'K' ∷ []

abbrev pub fail_text : List ℕ
fail_text = b'F' ∷ b'A' ∷ b'I' ∷ b'L' ∷ []

-- The text of an address; `ntohs` is `htons`.
abbrev pub address_text : (ℕ → List ℕ) → Address → List ℕ
address_text inet_ntoa address = inet_ntoa address.s_addr ++ 32 ∷ decimal (htons address.sin_port)

-- The buffer for the text and its NUL has 20 bytes.
unfoldable pub create_key_from_sockaddr : (ℕ → List ℕ) → Address → Run (List ℕ)
create_key_from_sockaddr inet_ntoa address =
    let text = address_text inet_ntoa address in if leb 20 (length text) then fault else ok text

-- The `while` loop: `nbr_response` answers are counted.
unfoldable pub ping_loop : (ℕ → List ℕ) → ℕ → ℕ → Htable → List Address → Run Htable
ping_loop inet_ntoa size nbr_response htable_nodes [] = ok htable_nodes
ping_loop inet_ntoa size nbr_response htable_nodes (source ∷ answers) = do
  key ← create_key_from_sockaddr inet_ntoa source
  (_, htable_nodes') ← add_htable_value true htable_nodes (some key) (some ok_text)
  let rest = ping_loop inet_ntoa size (nbr_response + 1) htable_nodes' answers
  if leb size (nbr_response + 1) then ok htable_nodes' else rest

unfoldable pub status_of : Option (List ℕ) → List ℕ
status_of none = fail_text
status_of (some status) = status

-- The last loop: each node with the status that is printed.
unfoldable pub status_loop : (ℕ → List ℕ) → Htable → List Node → Run (List (Node × List ℕ))
unfolding status_of
status_loop inet_ntoa htable_nodes [] = ok []
status_loop inet_ntoa htable_nodes (node ∷ nodes) = do
  key ← create_key_from_sockaddr inet_ntoa node.addr
  status ← get_htable_value htable_nodes (some key)
  rest ← status_loop inet_ntoa htable_nodes nodes
  ok ((node, status_of status) ∷ rest)

-- From the table on; the table is deleted in the end.
unfoldable pub statuses : (ℕ → List ℕ) → List Address → List Node → Run (List (Node × List ℕ))
unfolding ping_loop status_loop
statuses inet_ntoa answers nodes = do
  new ← non_null (construct_htable true 10)
  htable_nodes ← ping_loop inet_ntoa (length nodes) 0 new answers
  lines ← status_loop inet_ntoa htable_nodes nodes
  _ ← delete_htable_and_content htable_nodes
  ok lines

-- The pings and the lines; `none` where the program says FAIL.
unfoldable pub pps_list_nodes :
    World
    → (List Node → List Node)
    → (ℕ → List ℕ)
    → List Address
    → List (List ℕ)
    → Run (Option (Sent × List (Node × List ℕ)))
unfolding started statuses
pps_list_nodes world sort inet_ntoa answers argv = started world 0 0 argv >>= λ s. elim s [
  | none ↦ ok none
  | some p ↦
      let nodes = sort p.0.server.nodes in
      statuses inet_ntoa answers nodes >>= λ lines.
      ok (some (map (λ node. ([], node)) nodes, lines))
]
