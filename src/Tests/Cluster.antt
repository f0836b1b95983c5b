-- ===== src/Tests/Cluster.antt =====
-- A put and a get over two servers.
use distributed_hash_table.Prelude.{
  ℕ, ◌++◌, ◌⊎◌, inr, Returns, ◌≤◌, List, [], ◌∷◌, true, none, some, ok, length, arith, ◌≡◌, refl,
  replicate, length-replicate,
}
use distributed_hash_table.HashTable.Tables.{table_of, blank, blank-IsValid, get-blank}
use distributed_hash_table.Server.Dump.{max_msg_elem_size}
use mathlib.Core.List.{Memᴰ}
use distributed_hash_table.Errors.{err_none}
use distributed_hash_table.Server.Refinement.{put, after, IsFit}
use distributed_hash_table.Server.Service.{Service, pps_server}
use distributed_hash_table.Cluster.{Cluster, update, Puts, Gets}
use distributed_hash_table.Cluster.Arrivals.{PutsOnly, update-Stored, put-Stored}
use distributed_hash_table.Cluster.Replicas.{Copies, nil, copy}
use distributed_hash_table.Cluster.ReadYourWrites.{AllHold, Gets-eq-Puts}
use distributed_hash_table.Cluster.NoLoss.{Gets-all, put_and_get, Puts-Gets}
use distributed_hash_table.Cluster.Regular.{IsWritten, Gets-IsWritten}
use distributed_hash_table.Cluster.Provenance.{
  History, started, served, History-AllKnown, Gets-WasPut,
}
use distributed_hash_table.Ring.{
  place_loop, is_beyond, added, visit, collect_loop, ring_get_nodes_for_key,
}
use distributed_hash_table.Tests.Data.{
  city, bern, digest, first_node, other_nodes, two_of_two, node_at,
}
use distributed_hash_table.Tests.Rings.{client}
use distributed_hash_table.Node.{Node, same_server, node_cmp_sha}
use distributed_hash_table.Text.{strcmp, c_str}
use distributed_hash_table.NodeList.{
  NodeList, contains, node_list_add, node_list_new, node_list_contains,
}

abbrev pub stores : NodeList
stores = record { allocated_size = 32; nodes = node_at 2 (b'm' ∷ []) ∷ node_at 1 (b'p' ∷ []) ∷ [] }

pub stores-found : ring_get_nodes_for_key digest true client.server 2 city ≡ ok (some stores)
unfolding strcmp c_str place_loop is_beyond added visit collect_loop ring_get_nodes_for_key
    same_server node_cmp_sha contains node_list_new node_list_add node_list_contains
stores-found = refl

-- The memory behind a value.
abbrev pub behind : List ℕ
behind = replicate max_msg_elem_size 0

pub far : max_msg_elem_size ≤ length behind
far = omega (arith, length-replicate {A = ℕ} max_msg_elem_size 0)

abbrev pub service : Service
service = pps_server 5 [] behind far

abbrev pub empty_servers : Cluster service
empty_servers = λ a. table_of (blank 3)

pub blank_Has : service.Has (table_of (blank 3)) (λ q. none)
blank_Has = record {
  valid = blank-IsValid 3 (omega arith);
  reads = get-blank 3 (omega arith);
  sendable = λ q. tt;
}

no_values : AllHold service empty_servers
no_values a = ((λ q. none), (blank_Has, λ q v e. tt))

pub bern-IsFit : IsFit (put city bern)
bern-IsFit = (omega arith, omega arith, omega arith, omega arith, omega arith)

Puts-Gets_example :
    (c' : Cluster service) × Puts service
      (PutsOnly city bern)
      digest
      client
      empty_servers
      city
      bern
      err_none
      c'
    × ((c'' : Cluster service) × Gets service
          (PutsOnly city bern)
          digest
          client
          c'
          city
          (err_none, some bern)
          c'')
Puts-Gets_example =
    Puts-Gets 5 [] behind far digest 32 1 first_node other_nodes two_of_two city bern stores
      empty_servers refl stores-found refl bern-IsFit (omega arith) (omega arith) (omega arith)
      (omega arith) (omega arith) (omega arith) no_values

no_loss :
    (c' : Cluster service) × Puts service
      (PutsOnly city bern)
      digest
      client
      empty_servers
      city
      bern
      err_none
      c'
    × ((c'' : Cluster service) × Gets service
          (PutsOnly city bern)
          digest
          client
          c'
          city
          (err_none, some bern)
          c'')
no_loss =
    Puts-Gets 5 [] behind far digest 32 1 first_node other_nodes two_of_two city bern stores
      empty_servers refl stores-found refl bern-IsFit (omega arith) (omega arith) (omega arith)
      (omega arith) (omega arith) (omega arith) no_values

Gets-eq-Puts_example : bern ≡ bern
Gets-eq-Puts_example =
    Gets-eq-Puts 5 [] behind far digest 32 1 first_node other_nodes two_of_two city bern bern
      empty_servers no_loss.0 no_loss.2.0 refl (omega arith) (omega arith) (omega arith)
      (omega arith) bern-IsFit no_values no_loss.1 no_loss.2.1

abbrev first_store : Node
first_store = node_at 2 (b'm' ∷ [])

abbrev second_store : Node
second_store = node_at 1 (b'p' ∷ [])

-- What a put leaves at a server without a value.
first_put :
    Returns
      (service.handle (table_of (blank 3)) (city ++ 0 ∷ bern))
      λ r. (r.1 ≡ [] ∷ []) × service.Has r.0 (after (λ q. none) (put city bern))
first_put = service.put_law (table_of (blank 3)) (λ q. none) city bern bern-IsFit blank_Has

abbrev one_put : Cluster service
one_put = update service empty_servers first_store first_put.0.0

abbrev two_puts : Cluster service
two_puts = update service one_put second_store first_put.0.0

puts_history : History service (put city bern ∷ put city bern ∷ []) two_puts
puts_history =
    served (put city bern) second_store first_put.0.0
      (served (put city bern) first_store first_put.0.0 (started λ a. blank_Has) bern-IsFit
        first_put.1)
      bern-IsFit first_put.1

two-Copies : Copies service two_puts city (λ w. w ≡ bern) stores.nodes 2
two-Copies =
    copy
      (update-Stored service one_put second_store (put city bern) first_put.0.0 first_put.0.1
        bern-IsFit first_put.1 city (λ w. w ≡ bern) first_store (inr refl)
        (put-Stored service empty_servers first_store city bern (λ w. w ≡ bern) (λ q. none)
          first_put.0.0 first_put.0.1 bern-IsFit refl first_put.1 blank_Has))
      (copy
        (put-Stored service one_put second_store city bern (λ w. w ≡ bern) (λ q. none) first_put.0.0
          first_put.0.1 bern-IsFit refl first_put.1 blank_Has)
        nil)

got :
    (c' : Cluster service) × Gets service
      (λ r. Memᴰ r [])
      digest
      client
      two_puts
      city
      (err_none, some bern)
      c'
got =
    Gets-all service (λ r. Memᴰ r []) digest 32 1 first_node other_nodes two_of_two city bern stores
      refl stores-found refl bern-IsFit (omega arith) (λ r m. elim m [ ]) two_puts (omega arith)
      (omega arith) (omega arith)
      (History-AllKnown service (λ k v. Unit) (λ k v m. tt) puts_history) two-Copies

Gets-WasPut_example :
    Memᴰ (put city bern) [] ⊎ Memᴰ (put city bern) (put city bern ∷ put city bern ∷ [])
Gets-WasPut_example =
    Gets-WasPut 5 [] behind far digest 32 1 first_node other_nodes two_of_two
      (put city bern ∷ put city bern ∷ []) [] two_puts got.0 city bern refl (omega arith)
      (omega arith) (omega arith, omega arith, omega arith) puts_history got.1

undisturbed :
    (c' : Cluster service) × Puts service
      (λ r. Memᴰ r [])
      digest
      client
      two_puts
      city
      bern
      err_none
      c'
    × ((c'' : Cluster service) × Gets service
          (λ r. Memᴰ r [])
          digest
          client
          c'
          city
          (err_none, some bern)
          c'')
undisturbed =
    put_and_get service (λ r. Memᴰ r []) digest 32 1 first_node other_nodes two_of_two city bern
      stores refl stores-found refl bern-IsFit (omega arith) (λ r m. elim m [ ]) two_puts
      (omega arith) (omega arith) (omega arith) (omega arith) (omega arith)
      (History-AllKnown service (λ k v. Unit) (λ k v m. tt) puts_history)

Gets-IsWritten_example : IsWritten city bern [] bern
Gets-IsWritten_example =
    Gets-IsWritten 5 [] behind far digest 32 1 first_node other_nodes two_of_two
      (put city bern ∷ put city bern ∷ []) [] city bern bern two_puts undisturbed.0 undisturbed.2.0
      refl (omega arith) (omega arith) (omega arith) (omega arith) bern-IsFit puts_history
      undisturbed.1 undisturbed.2.1
