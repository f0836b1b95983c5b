-- ===== src/Tests/Commands.antt =====
-- pps-client-put and pps-client-cat, then pps-client-get, with one server and no loss.
use mathlib.Core.List.{Memᴰ}
use distributed_hash_table.Prelude.{
  ℕ, ◌+◌, ◌==◌, if◌then◌else◌, List, [], ◌∷◌, ◌++◌, true, some, ok, arith, ◌≡◌, refl, ◌∙◌, read,
}
use distributed_hash_table.Text.{str_eq, strcmp, c_str}
use distributed_hash_table.Errors.{err_none}
use distributed_hash_table.HashTable.{
  size_max, hash_function, get_htable_value, get_value_from_bucket, add_htable_value,
  add_value_to_bucket, construct_htable,
}
use distributed_hash_table.Numbers.{strtol}
use distributed_hash_table.Args.{
  parse_opt_args, check_bounds, total_servers, put_needed, get_needed,
}
use distributed_hash_table.Node.{same_server, node_cmp_sha}
use distributed_hash_table.NodeList.{
  NodeList, contains, node_list_add, node_list_new, node_list_contains,
}
use distributed_hash_table.Ring.{
  place_loop, is_beyond, added, visit, collect_loop, ring_get_nodes_for_key,
}
use distributed_hash_table.Network.{
  Sent, network_put, network_get, get_replies, get_loop, is_not_found, reaches, count_text,
  destinations,
}
use distributed_hash_table.Server.Dump.{Datagram}
use distributed_hash_table.Server.Refinement.{Request, put, IsFit}
use distributed_hash_table.Client.{client_init, with_ring}
use distributed_hash_table.Client.Commands.{
  World, done, value, started, get_value, put_value, pps_client_put, pps_client_get, pps_client_cat,
}
use distributed_hash_table.Network.{Client}
use distributed_hash_table.Client.Concatenation.{
  Reads, all_read, one_read, concatenation, pps_client_cat-Reads,
}
use distributed_hash_table.Cluster.{Cluster, Puts, put_exchange, Gets, get_exchange}
use distributed_hash_table.Cluster.NoLoss.{put_and_get}
use distributed_hash_table.Cluster.Provenance.{History, History-AllKnown}
use distributed_hash_table.Cluster.Regular.{IsWritten}
use distributed_hash_table.Cluster.Programs.{Ends, ends}
use distributed_hash_table.Cluster.Commands.{
  pps_client_get-pps_client_put, pps_client_get-pps_client_cat,
}
use distributed_hash_table.Tests.Data.{zip, city, bern, digest, first_node, node_at}
use distributed_hash_table.Tests.Cat.{one_node}
use distributed_hash_table.Tests.Cluster.{
  service, behind, far, empty_servers, blank_Has, bern-IsFit,
}

-- `name -n 1 -w 1 city bern`
abbrev put_arguments : List (List ℕ)
put_arguments =
    bern ∷ (b'-' ∷ b'n' ∷ []) ∷ (b'1' ∷ []) ∷ (b'-' ∷ b'w' ∷ []) ∷ (b'1' ∷ []) ∷ city ∷ bern ∷ []

-- `name -n 1 -r 1 key`
abbrev get_arguments : List ℕ → List (List ℕ)
get_arguments key =
    bern ∷ (b'-' ∷ b'n' ∷ []) ∷ (b'1' ∷ []) ∷ (b'-' ∷ b'r' ∷ []) ∷ (b'1' ∷ []) ∷ key ∷ []

-- `name -n 1 -r 1 -w 1 city zip`
abbrev cat_arguments : List (List ℕ)
cat_arguments =
    bern
    ∷ (b'-' ∷ b'n' ∷ [])
    ∷ (b'1' ∷ [])
    ∷ (b'-' ∷ b'r' ∷ [])
    ∷ (b'1' ∷ [])
    ∷ (b'-' ∷ b'w' ∷ [])
    ∷ (b'1' ∷ [])
    ∷ city
    ∷ zip
    ∷ []

abbrev world : (ℕ → List Datagram) → World
world replies = record {
  sha1 = digest;
  sort = λ l. l;
  get_nodes = some one_node;
  socket = true;
  room = true;
  replies = replies;
  strtod_end = λ s. [];
  stack = λ i. 0;
}

abbrev with_options : ℕ → ℕ → Client
with_options r w = record { server = one_node; args = record { n = 1; r = r; w = w } }

put_started :
    (replies : ℕ → List Datagram)
    → started (world replies) 2 (total_servers + put_needed) put_arguments
      ≡ ok (some (with_options 2 1, city ∷ bern ∷ []))
unfolding started client_init parse_opt_args str_eq strtol check_bounds with_ring
put_started replies = refl

city_accepted :
    (replies : ℕ → List Datagram)
    → started (world replies) 1 (total_servers + get_needed) (get_arguments city)
      ≡ ok (some (with_options 1 2, city ∷ []))
unfolding started client_init parse_opt_args str_eq strtol check_bounds with_ring
city_accepted replies = refl

zip_accepted :
    (replies : ℕ → List Datagram)
    → started (world replies) 1 (total_servers + get_needed) (get_arguments zip)
      ≡ ok (some (with_options 1 2, zip ∷ []))
unfolding started client_init parse_opt_args str_eq strtol check_bounds with_ring
zip_accepted replies = refl

cat_started :
    (replies : ℕ → List Datagram)
    → started (world replies) size_max (total_servers + put_needed + get_needed) cat_arguments
      ≡ ok (some (with_options 1 1, city ∷ zip ∷ []))
unfolding started client_init parse_opt_args str_eq strtol check_bounds with_ring
cat_started replies = refl

abbrev Other : Request → Type 0
Other r = Memᴰ r []

abbrev store : NodeList
store = record { allocated_size = 32; nodes = node_at 1 (b'b' ∷ []) ∷ [] }

city_placed : ring_get_nodes_for_key digest true one_node 1 city ≡ ok (some store)
unfolding strcmp c_str place_loop is_beyond added visit collect_loop ring_get_nodes_for_key
    same_server node_cmp_sha contains node_list_new node_list_add node_list_contains
city_placed = refl

zip_placed : ring_get_nodes_for_key digest true one_node 1 zip ≡ ok (some store)
unfolding strcmp c_str place_loop is_beyond added visit collect_loop ring_get_nodes_for_key
    same_server node_cmp_sha contains node_list_new node_list_add node_list_contains
zip_placed = refl

zip-IsFit : IsFit (put zip bern)
zip-IsFit = (omega arith, omega arith, omega arith, omega arith, omega arith)

empty_history : History service [] empty_servers
empty_history = History.started (λ a. blank_Has)

-- A put of the key and a get of it, of which nothing gets lost.
stored_and_read :
    (key : List ℕ)
    → ring_get_nodes_for_key digest true one_node 1 key ≡ ok (some store)
    → IsFit (put key bern)
    → (c' : Cluster service) × Puts service Other digest
        (with_options 1 1)
        empty_servers
        key
        bern
        err_none
        c'
      × ((c'' : Cluster service) × Gets service Other digest
            (with_options 1 1)
            c'
            key
            (err_none, some bern)
            c'')
stored_and_read key found fit =
    put_and_get service Other digest 32 0 first_node [] (record { n = 1; r = 1; w = 1 }) key bern
      store refl found refl fit (omega arith) (λ r m. elim m [ ]) empty_servers (omega arith)
      (omega arith) (omega arith) (omega arith) (omega arith)
      (History-AllKnown service (λ k v. Unit) (λ k v m. tt) empty_history)

put-Ends :
    {c c' : Cluster service}
    → Puts service Other digest (with_options 1 1) c city bern err_none c'
    → (replies : ℕ → List Datagram) × Ends service Other
        (pps_client_put (world replies) put_arguments)
        done
        []
        (replies 0)
        c
        c'
unfolding pps_client_put put_value
put-Ends (put_exchange {sent} {replies} run exchange arrived) =
    let run' : network_put digest true (with_options 2 1) (some city) (some bern) replies
        ≡ ok (err_none, sent) =
      unfold network_put in run in
    ((λ request. replies), ends (rw (put_started (λ request. replies), run') refl) exchange arrived)

get-Ends :
    (key : List ℕ) {c c' : Cluster service}
    → ((replies : ℕ → List Datagram)
        → started (world replies) 1 (total_servers + get_needed) (get_arguments key)
          ≡ ok (some (with_options 1 2, key ∷ [])))
    → Gets service Other digest (with_options 1 1) c key (err_none, some bern) c'
    → (replies : ℕ → List Datagram) × Ends service Other
        (pps_client_get (world replies) (get_arguments key))
        (value bern)
        []
        (replies 0)
        c
        c'
unfolding pps_client_get get_value
get-Ends key run (get_exchange {sent} {replies} got exchange arrived) =
    let got' : network_get digest true (with_options 1 2) key replies
        ≡ ok ((err_none, some bern), sent) =
      unfold network_get in got in
    ((λ request. replies), ends (rw (run (λ request. replies), got') refl) exchange arrived)

city_placedd :
    (c' : Cluster service) × Puts service Other digest
      (with_options 1 1)
      empty_servers
      city
      bern
      err_none
      c'
    × ((c'' : Cluster service) × Gets service Other digest
          (with_options 1 1)
          c'
          city
          (err_none, some bern)
          c'')
city_placedd = stored_and_read city city_placed bern-IsFit

pps_client_get-pps_client_put_example : IsWritten city bern [] bern
pps_client_get-pps_client_put_example =
    pps_client_get-pps_client_put 5 [] behind far (world (put-Ends city_placedd.1).0)
      (world (get-Ends city city_accepted city_placedd.2.1).0) put_arguments (get_arguments city) 32
      0 first_node [] (record { n = 1; r = 2; w = 1 }) (record { n = 1; r = 1; w = 2 }) [] []
      empty_servers city_placedd.0 city_placedd.2.0 refl refl refl refl refl (omega arith)
      (omega arith) (omega arith) (omega arith) empty_history city bern bern bern-IsFit
      (put_started (put-Ends city_placedd.1).0)
      (city_accepted (get-Ends city city_accepted city_placedd.2.1).0) (put-Ends city_placedd.1).1
      (get-Ends city city_accepted city_placedd.2.1).1

-- The first request is answered by `bern`, the next ones by the replies.
abbrev after_bern : List Datagram → ℕ → List Datagram
after_bern replies request = if request == 0 then (bern ++ 0 ∷ []) ∷ [] else replies

abbrev asked_city : Sent
asked_city = (city, node_at 1 (b'b' ∷ [])) ∷ []

city_read :
    (replies : List Datagram)
    → get_value (world (after_bern replies)) (with_options 1 1) 0 city ≡ ok (some bern, asked_city)
unfolding get_value network_get get_replies get_loop is_not_found reaches count_text destinations
    read place_loop is_beyond added visit collect_loop ring_get_nodes_for_key same_server contains
    node_list_new node_list_add node_list_contains strcmp c_str str_eq hash_function
    get_htable_value get_value_from_bucket add_htable_value add_value_to_bucket construct_htable
city_read replies = refl

city-Reads :
    (replies : List Datagram)
    → Reads
        (world (after_bern replies))
        (with_options 1 1)
        0
        (city ∷ [])
        (bern ∷ [])
        (asked_city ++ [])
city-Reads replies = one_read (city_read replies) all_read

cat-Ends :
    {c c' : Cluster service}
    → Puts service Other digest (with_options 1 1) c zip bern err_none c'
    → (replies : List Datagram) × Ends service Other
        (pps_client_cat (world (after_bern replies)) cat_arguments)
        done
        (asked_city ++ [])
        replies
        c
        c'
unfolding put_value concatenation
cat-Ends (put_exchange {sent} {replies} run exchange arrived) =
    let last =
      pps_client_cat-Reads (world (after_bern replies)) cat_arguments (with_options 1 1) city [] zip
        (cat_started (after_bern replies)) (omega arith) (bern ∷ []) (asked_city ++ [])
        (city-Reads replies) in
    (replies, ends (last ∙ rw run refl) exchange arrived)

zip_placedd :
    (c' : Cluster service) × Puts service Other digest
      (with_options 1 1)
      empty_servers
      zip
      bern
      err_none
      c'
    × ((c'' : Cluster service) × Gets service Other digest
          (with_options 1 1)
          c'
          zip
          (err_none, some bern)
          c'')
zip_placedd = stored_and_read zip zip_placed zip-IsFit

pps_client_get-pps_client_cat_example : IsWritten zip bern [] bern
unfolding concatenation
pps_client_get-pps_client_cat_example =
    pps_client_get-pps_client_cat 5 [] behind far (world (after_bern (cat-Ends zip_placedd.1).0))
      (world (get-Ends zip zip_accepted zip_placedd.2.1).0) cat_arguments (get_arguments zip) 32 0
      first_node [] (record { n = 1; r = 1; w = 1 }) (record { n = 1; r = 1; w = 2 }) [] []
      empty_servers zip_placedd.0 zip_placedd.2.0 refl refl refl refl refl (omega arith)
      (omega arith) (omega arith) (omega arith) empty_history city [] zip (bern ∷ [])
      (asked_city ++ []) bern zip-IsFit (omega arith)
      (cat_started (after_bern (cat-Ends zip_placedd.1).0)) (city-Reads (cat-Ends zip_placedd.1).0)
      (zip_accepted (get-Ends zip zip_accepted zip_placedd.2.1).0) (cat-Ends zip_placedd.1).1
      (get-Ends zip zip_accepted zip_placedd.2.1).1
