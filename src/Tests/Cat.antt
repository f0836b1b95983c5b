-- ===== src/Tests/Cat.antt =====
-- pps-client-cat with two keys on one node.
use distributed_hash_table.Prelude.{
  ℕ, ◌+◌, ◌==◌, if◌then◌else◌, List, [], ◌∷◌, ◌++◌, true, none, some, ok, arith, ◌≡◌, refl, read,
}
use distributed_hash_table.Text.{str_eq, strcmp, c_str}
use distributed_hash_table.HashTable.{
  size_max, hash_function, get_htable_value, get_value_from_bucket, add_htable_value,
  add_value_to_bucket, construct_htable,
}
use distributed_hash_table.Numbers.{strtol}
use distributed_hash_table.Args.{
  parse_opt_args, check_bounds, total_servers, put_needed, get_needed,
}
use distributed_hash_table.Node.{same_server}
use distributed_hash_table.NodeList.{
  NodeList, contains, node_list_add, node_list_new, node_list_contains,
}
use distributed_hash_table.Ring.{
  place_loop, is_beyond, added, visit, collect_loop, ring_get_nodes_for_key,
}
use distributed_hash_table.Network.{
  Client, Sent, network_get, get_replies, get_loop, is_not_found, reaches, count_text, destinations,
}
use distributed_hash_table.Server.Dump.{Datagram}
use distributed_hash_table.Client.{client_init, with_ring}
use distributed_hash_table.Client.Commands.{
  World, started, get_value, put_value, pps_client_cat, failed,
}
use distributed_hash_table.Client.Concatenation.{
  all_read, one_read, first_missed, later_missed, concatenation, pps_client_cat-Reads,
  pps_client_cat-Misses,
}
use distributed_hash_table.Tests.Data.{zip, city, bern, basel, digest, first_node, node_at}

-- `name -n 1 -r 1 -w 1 city zip city`
abbrev arguments : List (List ℕ)
arguments =
    bern
    ∷ (b'-' ∷ b'n' ∷ [])
    ∷ (b'1' ∷ [])
    ∷ (b'-' ∷ b'r' ∷ [])
    ∷ (b'1' ∷ [])
    ∷ (b'-' ∷ b'w' ∷ [])
    ∷ (b'1' ∷ [])
    ∷ city
    ∷ zip
    ∷ city
    ∷ []

abbrev pub one_node : NodeList
one_node = record { allocated_size = 32; nodes = first_node ∷ [] }

-- The first get finds a text; the second one finds `second`.
abbrev world : List Datagram → World
world second = record {
  sha1 = digest;
  sort = λ l. l;
  get_nodes = some one_node;
  socket = true;
  room = true;
  replies = λ request. if request == 0 then (bern ++ 0 ∷ []) ∷ [] else second;
  strtod_end = λ s. [];
  stack = λ i. 0;
}

abbrev pub client : Client
client = record { server = one_node; args = record { n = 1; r = 1; w = 1 } }

abbrev asked : List ℕ → Sent
asked key = (key, node_at 1 (b'b' ∷ [])) ∷ []

cat_started :
    (second : List Datagram)
    → started (world second) size_max (total_servers + put_needed + get_needed) arguments
      ≡ ok (some (client, city ∷ zip ∷ city ∷ []))
unfolding started client_init parse_opt_args str_eq strtol check_bounds with_ring
cat_started second = refl

city_read :
    (second : List Datagram) → get_value (world second) client 0 city ≡ ok (some bern, asked city)
unfolding get_value network_get get_replies get_loop is_not_found reaches count_text destinations
    read place_loop is_beyond added visit collect_loop ring_get_nodes_for_key same_server contains
    node_list_new node_list_add node_list_contains strcmp c_str str_eq hash_function
    get_htable_value get_value_from_bucket add_htable_value add_value_to_bucket construct_htable
city_read second = refl

abbrev found : List Datagram
found = (basel ++ 0 ∷ []) ∷ []

zip_read : get_value (world found) client 1 zip ≡ ok (some basel, asked zip)
unfolding get_value network_get get_replies get_loop is_not_found reaches count_text destinations
    read place_loop is_beyond added visit collect_loop ring_get_nodes_for_key same_server contains
    node_list_new node_list_add node_list_contains strcmp c_str str_eq hash_function
    get_htable_value get_value_from_bucket add_htable_value add_value_to_bucket construct_htable
zip_read = refl

zip_missed : get_value (world []) client 1 zip ≡ ok (none, asked zip)
unfolding get_value network_get get_replies get_loop is_not_found reaches count_text destinations
    read place_loop is_beyond added visit collect_loop ring_get_nodes_for_key same_server contains
    node_list_new node_list_add node_list_contains strcmp c_str str_eq hash_function
    get_htable_value get_value_from_bucket add_htable_value add_value_to_bucket construct_htable
zip_missed = refl

pps_client_cat-Reads_example :
    pps_client_cat (world found) arguments
    ≡ put_value
        (world found)
        client
        2
        city
        (concatenation (bern ∷ basel ∷ []))
        (asked city ++ asked zip ++ [])
pps_client_cat-Reads_example =
    pps_client_cat-Reads (world found) arguments client city (zip ∷ []) city (cat_started found)
      (omega arith) (bern ∷ basel ∷ []) (asked city ++ asked zip ++ [])
      (one_read (city_read found) (one_read zip_read all_read))

pps_client_cat-Misses_example :
    pps_client_cat (world []) arguments ≡ ok (failed (asked city ++ asked zip))
pps_client_cat-Misses_example =
    pps_client_cat-Misses (world []) arguments client city (zip ∷ []) city (cat_started [])
      (omega arith) (asked city ++ asked zip)
      (later_missed (city_read []) (first_missed zip_missed))
