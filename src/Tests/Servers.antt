-- ===== src/Tests/Servers.antt =====
-- A server's loop over a few requests, and the file of servers.
use distributed_hash_table.Prelude.{
  ◌≢◌, no_fuel, ℕ, ◌≤◌, List, [], ◌∷◌, map, true, none, some, Option, length, arith, ◌≡◌, refl,
  ◌>>=◌, Returns, replicate, length-replicate,
}
use distributed_hash_table.HashTable.Tables.{IsValid, table_of, blank, blank-IsValid, get-blank}
use distributed_hash_table.NodeList.{NodeList}
use distributed_hash_table.NodeList.Ending.{get_nodes-ne-no_fuel}
use distributed_hash_table.NodeList.Reader.{get_nodes}
use distributed_hash_table.NodeList.RoundTrip.{get_nodes-file_of}
use distributed_hash_table.NodeList.Lines.{Line, IsLine, file_of, all_nodes}
use distributed_hash_table.Numbers.{isspace}
use distributed_hash_table.Server.{Received, serve_loop}
use distributed_hash_table.Server.Dump.{Datagram, max_msg_elem_size, dump_node}
use distributed_hash_table.Text.{str_eq}
use distributed_hash_table.Client.Dumps.Sessions.{IsDumpOf, AllShort, put_keys, serve_loop-IsDumpOf}
use distributed_hash_table.Server.Availability.{AllOrdinary, serve_loop-answers}
use distributed_hash_table.Server.Refinement.{
  Request, put, get, bytes_of, Map, after, after_all, Answered, AllCarry, Holds, serve_loop-Holds,
}
use distributed_hash_table.Tests.Data.{city, zip, basel, digest}

-- A server that starts with an empty table.
-- The memory behind a value.
abbrev behind : List ℕ
behind = replicate max_msg_elem_size 0

abbrev request_list : List Request
request_list = get city ∷ put zip basel ∷ put city basel ∷ get city ∷ []

abbrev received_list : List Received
received_list =
    map (λ r. record { room = true; msg = bytes_of r; junk = 0 ∷ []; beyond = behind }) request_list

abbrev empty_map : Map
empty_map = λ q. none

empty-Holds : Holds (table_of (blank 3)) empty_map
empty-Holds = record {
  valid = blank-IsValid 3 (omega arith);
  reads = get-blank 3 (omega arith);
  sendable = λ q. tt;
}

far : max_msg_elem_size ≤ length behind
far = omega (arith, length-replicate {A = ℕ} max_msg_elem_size 0)

all_carried : AllCarry request_list received_list
all_carried = (
  (omega arith, omega arith, omega arith),
  (refl, ([], refl), refl, far),
  (
    (omega arith, omega arith, omega arith, omega arith, omega arith),
    (refl, ([], refl), refl, far),
    (
      (omega arith, omega arith, omega arith, omega arith, omega arith),
      (refl, ([], refl), refl, far),
      ((omega arith, omega arith, omega arith), (refl, ([], refl), refl, far), tt),
    ),
  ),
)

all_short : AllShort 8 request_list
all_short = (omega arith, omega arith, (omega arith, omega arith, tt))

serve_loop-Holds_example :
    Returns
      (serve_loop 3 (table_of (blank 3)) received_list)
      λ r. Holds r.0 (after_all empty_map request_list) × Answered empty_map request_list r.1
serve_loop-Holds_example =
    serve_loop-Holds 3 (table_of (blank 3)) empty_map request_list received_list empty-Holds
      all_carried

-- Two servers, with two nodes and one.
abbrev two_lines : List Line
two_lines =
    record { ip = b'a' ∷ []; s_addr = 1; port = 8000; count = 2 }
    ∷ record { ip = b'b' ∷ b'c' ∷ []; s_addr = 2; port = 31; count = 1 }
    ∷ []

abbrev address_of : List ℕ → Option ℕ
address_of ip = some (length ip)

first-IsLine : IsLine address_of (record { ip = b'a' ∷ []; s_addr = 1; port = 8000; count = 2 })
unfolding isspace
first-IsLine = record {
  visible = (omega arith, refl, tt);
  some_bytes = omega arith;
  fits = omega arith;
  known = refl;
  port_small = omega arith;
  count_pos = omega arith;
  count_small = omega arith;
}

second-IsLine :
    IsLine address_of (record { ip = b'b' ∷ b'c' ∷ []; s_addr = 2; port = 31; count = 1 })
unfolding isspace
second-IsLine = record {
  visible = (omega arith, refl, (omega arith, refl, tt));
  some_bytes = omega arith;
  fits = omega arith;
  known = refl;
  port_small = omega arith;
  count_pos = omega arith;
  count_small = omega arith;
}

get_nodes-file_of_example :
    Returns
      (get_nodes digest address_of true (some (file_of two_lines)))
      λ o. (l : NodeList) × (o ≡ some l) × (l.nodes ≡ all_nodes digest two_lines)
get_nodes-file_of_example =
    get_nodes-file_of digest address_of two_lines (first-IsLine, (second-IsLine, tt))

-- `a 1 2` and a newline.
abbrev one_text : List ℕ
one_text = b'a' ∷ 32 ∷ b'1' ∷ 32 ∷ b'2' ∷ b'\n' ∷ []

get_nodes-ne-no_fuel_example : get_nodes digest address_of true (some one_text) ≢ no_fuel
get_nodes-ne-no_fuel_example = get_nodes-ne-no_fuel digest address_of one_text refl

serve_loop-IsDumpOf_example :
    Returns
      (serve_loop 3 (table_of (blank 3)) received_list >>= λ r. dump_node 3 r.0)
      (IsDumpOf (after_all empty_map request_list))
unfolding after_all after put_keys str_eq
serve_loop-IsDumpOf_example =
    serve_loop-IsDumpOf (table_of (blank 3)) empty_map 8 [] request_list received_list city basel 3
      empty-Holds (λ q v found. absurd (cc found)) all_carried all_short refl (omega arith)
      (omega arith)

-- Messages that no client sends: two NULs, a NUL before a byte, and a byte that older ones follow.
abbrev odd : List ℕ → List ℕ → Received
odd msg junk = record { room = true; msg = msg; junk = junk; beyond = behind }

abbrev odd_list : List Received
odd_list =
    odd (0 ∷ 0 ∷ []) (7 ∷ 0 ∷ []) ∷ odd (0 ∷ 255 ∷ []) (0 ∷ []) ∷ odd (9 ∷ []) (9 ∷ 0 ∷ []) ∷ []

odd_ordinary : AllOrdinary odd_list
odd_ordinary = (
  (omega arith, cc, (7 ∷ [], [], refl, (omega arith, tt)), refl, far),
  (
    (omega arith, cc, ([], [], refl, tt), refl, far),
    ((omega arith, cc, (9 ∷ [], [], refl, (omega arith, tt)), refl, far), tt),
  ),
)

serve_loop-answers_example :
    Returns
      (serve_loop 3 (table_of (blank 3)) odd_list)
      λ r. IsValid r.0 × (map (length {A = Datagram}) r.1 ≡ 1 ∷ 1 ∷ 1 ∷ [])
serve_loop-answers_example =
    serve_loop-answers 3 odd_list (table_of (blank 3)) empty-Holds.valid odd_ordinary
