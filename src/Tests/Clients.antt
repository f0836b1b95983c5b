-- ===== src/Tests/Clients.antt =====
-- pps-client-put and pps-client-get on a ring of three nodes.
use distributed_hash_table.Prelude.{
  ℕ, ◌<◌, ◌≤◌, ◌+◌, leb, if◌then◌else◌, List, [], ◌∷◌, ◌++◌, map, true, some, ok, arith, ◌≡◌, refl,
  ◌⊎◌, Returns,
}
use distributed_hash_table.Text.{str_eq}
use distributed_hash_table.Numbers.{strtol}
use distributed_hash_table.Args.{
  total_servers, get_needed, put_needed, parse_opt_args, check_bounds,
}
use distributed_hash_table.Network.{Sent}
use distributed_hash_table.Network.Quorum.{agree}
use distributed_hash_table.Client.{client_init, with_ring}
use distributed_hash_table.Client.Commands.{
  World, started, failed, succeeded, done, value, pps_client_get, pps_client_put,
}
use distributed_hash_table.Client.Programs.{pps_client_put-acknowledged, pps_client_get-quorum}
use distributed_hash_table.Tests.Data.{city, bern, basel, digest, two_of_two}
use distributed_hash_table.Tests.Rings.{client, replies}
use distributed_hash_table.Tests.Cluster.{stores, stores-found}

abbrev world : World
world = record {
  sha1 = digest;
  sort = λ l. l;
  get_nodes = some client.server;
  socket = true;
  room = true;
  replies = λ _. replies;
  strtod_end = λ s. [];
  stack = λ i. 0;
}

-- `name -n 2 …`
abbrev arguments : List (List ℕ) → List (List ℕ)
arguments mandatory = bern ∷ (b'-' ∷ b'n' ∷ []) ∷ (b'2' ∷ []) ∷ mandatory

put_started :
    started world 2 (total_servers + put_needed) (arguments (city ∷ basel ∷ []))
    ≡ ok (some (client, city ∷ basel ∷ []))
unfolding started client_init parse_opt_args str_eq strtol check_bounds with_ring
put_started = refl

get_started :
    started world 1 (total_servers + get_needed) (arguments (city ∷ []))
    ≡ ok (some (client, city ∷ []))
unfolding started client_init parse_opt_args str_eq strtol check_bounds with_ring
get_started = refl

pps_client_put-acknowledged_example : pps_client_put world (arguments (city ∷ basel ∷ [])) ≡ (
    let sent : Sent = map (λ node. (city ++ 0 ∷ basel, node)) stores.nodes in
    ok (if leb 2 3 then succeeded done sent else failed sent))
pps_client_put-acknowledged_example =
    pps_client_put-acknowledged world (arguments (city ∷ basel ∷ [])) client.server two_of_two 1
      city stores refl refl stores-found refl (omega arith) basel put_started (omega arith)
      (omega arith) (omega arith) (omega arith)

pps_client_get-quorum_example : Returns (pps_client_get world (arguments (city ∷ []))) λ o.
    let sent : Sent = map (λ node. (city, node)) stores.nodes in
    ((v : List ℕ) × (o ≡ succeeded (value v) sent) × (2 ≤ agree v replies))
    ⊎ ((o ≡ failed sent) × ((v : List ℕ) → agree v replies < 2))
pps_client_get-quorum_example =
    pps_client_get-quorum world (arguments (city ∷ [])) client.server two_of_two 1 city stores refl
      refl stores-found refl (omega arith) get_started (omega arith) (omega arith)
