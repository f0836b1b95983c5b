-- ===== src/Tests/Rings.antt =====
-- A ring of three nodes on two servers: the nodes of a key, and the requests to them.
use distributed_hash_table.Prelude.{
  ◌<◌, List, [], ◌∷◌, ◌++◌, map, true, none, some, ok, fault, length, arith, ◌≡◌, refl, Returns,
}
use distributed_hash_table.HashTable.{htable_size, construct_htable}
use distributed_hash_table.NodeList.{NodeList}
use distributed_hash_table.Ring.{ring_get_nodes_for_key}
use distributed_hash_table.Ring.Storage.{IsStorage, ring_get_nodes_for_key-IsStorage}
use distributed_hash_table.Network.{Client, get_replies, network_get, network_put}
use distributed_hash_table.Network.Quorum.{IsAnswer, failure, get_replies-quorum, get_replies-large}
use distributed_hash_table.Network.Requests.{acknowledged, network_put-sends, network_get-answers}
use distributed_hash_table.Server.Dump.{Datagram}
use distributed_hash_table.Tests.Data.{
  city, bern, basel, digest, first_node, other_nodes, two_of_two,
}

abbrev ring : NodeList
ring = record { allocated_size = 32; nodes = first_node ∷ other_nodes }

abbrev pub client : Client
client = record { server = ring; args = two_of_two }

abbrev pub replies : List Datagram
replies = (bern ++ 0 ∷ []) ∷ (0 ∷ []) ∷ (bern ++ 0 ∷ []) ∷ []

ring_get_nodes_for_key-IsStorage_example :
    Returns (ring_get_nodes_for_key digest true ring 2 city) λ o.
      (l : NodeList) × (o ≡ some l)
      × IsStorage (digest city) (first_node ∷ other_nodes) first_node 2 l
ring_get_nodes_for_key-IsStorage_example =
    ring_get_nodes_for_key-IsStorage digest 32 first_node other_nodes 1 city

get_replies-quorum_example :
    Returns (get_replies true 2 (construct_htable true htable_size) replies) (IsAnswer 2 replies)
get_replies-quorum_example = get_replies-quorum 2 replies (omega arith) (omega arith)

get_replies-large_example :
    get_replies true 128 (construct_htable true htable_size) replies ≡ ok (failure 0 replies, none)
get_replies-large_example = get_replies-large 128 replies (omega arith) (omega arith)

network_put-sends_example :
    (l : NodeList) × IsStorage (digest city) (first_node ∷ other_nodes) first_node 2 l
    × (length l.nodes ≡ 2
        → network_put digest true client (some city) (some basel) replies
          ≡ ok (acknowledged 2 3, map (λ node. (city ++ 0 ∷ basel, node)) l.nodes))
    × (length l.nodes < 2 → network_put digest true client (some city) (some basel) replies ≡ fault)
network_put-sends_example =
    network_put-sends digest 32 1 first_node other_nodes two_of_two city basel replies refl
      (omega arith) (omega arith) (omega arith) (omega arith) (omega arith)

network_get-answers_example :
    (l : NodeList) × IsStorage (digest city) (first_node ∷ other_nodes) first_node 2 l
    × (length l.nodes ≡ 2
        → Returns
            (network_get digest true client city replies)
            λ o. IsAnswer 2 replies o.0 × (o.1 ≡ map (λ node. (city, node)) l.nodes))
    × (length l.nodes < 2 → network_get digest true client city replies ≡ fault)
network_get-answers_example =
    network_get-answers digest 32 1 first_node other_nodes two_of_two city replies refl
      (omega arith) (omega arith) (omega arith)
