-- ===== src/Network.antt =====
-- network.h and network.c: a get and a put over the nodes that store a key. What the socket
-- receives before its timeout is the list of the replies; `recv` returns -1 at its end. `room` says
-- whether memory can be allocated, and `sha1` is SHA1 of openssl.
-- A read of the list of nodes behind the last one that was added, which finds zeroed or
-- uninitialised memory, counts as a fault. The NUL that the code writes behind a reply that fills
-- the buffer is taken to do no harm.
pub mod Quorum
pub mod Requests
use distributed_hash_table.Prelude.{
  ℕ, zero, suc, ◌+◌, ◌%◌, ◌^◌, List, [], ◌∷◌, ◌++◌, map, Bool, true, false, ◌&&◌, if◌then◌else◌,
  ◌==◌, ltb, leb, Option, none, some, Run, ok, fault, ◌>>=◌, length, take, read, non_null,
}
use distributed_hash_table.Text.{c_str}
use distributed_hash_table.Errors.{
  ErrorCode, err_none, err_nomem, err_bad_parameter, err_network, err_not_found,
}
use distributed_hash_table.HashTable.{
  Htable, htable_size, construct_htable, add_htable_value, get_htable_value,
}
use distributed_hash_table.Args.{Args}
use distributed_hash_table.Node.{Node}
use distributed_hash_table.NodeList.{NodeList}
use distributed_hash_table.Ring.{ring_get_nodes_for_key}
use distributed_hash_table.NetworkUtils.{format_put_request}
use distributed_hash_table.Server.Dump.{Datagram, max_msg_elem_size}

-- `client_t`, as far as the network functions read it.
pub record Client : Type 0 where
  pub server : NodeList
  pub args : Args

-- `count[0] >= (int) R`, where `char` is signed and has 8 bits, and `int` 32.
unfoldable pub reaches : ℕ → ℕ → Bool
reaches count r =
    let r' = r % 2 ^ 32 in
    if ltb r' (2 ^ 31)
    then ltb count 128 && leb r' count
    else if ltb count 128
    then true
    else leb (r' + 256) (count + 2 ^ 32)

-- `count[0]` after `strcpy(count, count_val)`, or in fresh memory.
unfoldable pub first_byte : Option (List ℕ) → ℕ
first_byte none = 0
first_byte (some []) = 0
first_byte (some (b ∷ _)) = b

-- The string that starts at `count`.
unfoldable pub count_text : ℕ → List ℕ
count_text zero = []
count_text (suc n) = suc n ∷ []

-- A reply of one NUL.
unfoldable pub is_not_found : Datagram → Bool
is_not_found [] = false
is_not_found (b ∷ []) = b == 0
is_not_found (b ∷ c ∷ m) = false

-- What `network_get` returns and writes to `*value`.
abbrev pub Answer : Type 0
Answer = ErrorCode × Option (List ℕ)

-- The `while` loop and what follows it. `votes` is the local table.
unfoldable pub get_loop : Bool → ℕ → Htable → ℕ → List Datagram → Run Answer
unfolding first_byte
get_loop room r votes error_not_found [] =
    ok (if error_not_found == 0 then err_network else err_not_found, none)
get_loop room r votes error_not_found (m ∷ replies) =
    let in_msg = take max_msg_elem_size m in
    let skip = get_loop room r votes (error_not_found + 1) replies in
    let count_vote = (do
      count_val ← get_htable_value votes (some (c_str in_msg))
      let count = (first_byte count_val + 1) % 256
      let go_on = (do
        (_, votes') ← add_htable_value room votes (some (c_str in_msg)) (some (count_text count))
        get_loop room r votes' error_not_found replies)
      if reaches count r then ok (err_none, some (c_str in_msg)) else go_on) in
    if is_not_found in_msg then skip else count_vote

-- What was sent, and to whom.
abbrev pub Sent : Type 0
Sent = List (Datagram × Node)

-- The nodes that the sending loop reads. No node is read where N is 0.
unfoldable pub destinations : ℕ → Option NodeList → Run (List Node)
destinations zero nodes = ok []
destinations (suc n) nodes = do l ← non_null nodes; read (suc n) l.nodes

-- The buffer of the replies is allocated; the local table is read only when a reply came.
unfoldable pub get_replies : Bool → ℕ → Option Htable → List Datagram → Run Answer
get_replies false r votes replies = ok (err_nomem, none)
get_replies true r votes [] = ok (err_network, none)
get_replies true r votes (m ∷ replies) = do t ← non_null votes; get_loop true r t 0 (m ∷ replies)

-- The end of `network_get`: where no value is returned, and the buffer was allocated, `node_list_free`
-- reads through the pointer to the list, which is NULL where N is 0.
abbrev pub freed : Option NodeList → Answer → Run Answer
freed (some nodes) answer = ok answer
freed none answer = elim answer.0 [ err_none ↦ ok answer | err_nomem ↦ ok answer | _ ↦ fault ]

unfoldable pub network_get :
    (List ℕ → List ℕ) → Bool → Client → List ℕ → List Datagram → Run (Answer × Sent)
unfolding destinations
network_get sha1 room client key replies =
    if ltb max_msg_elem_size (length key) then ok ((err_bad_parameter, none), []) else (do
      nodes ← ring_get_nodes_for_key sha1 room client.server client.args.n key
      to ← destinations client.args.n nodes
      answer ← get_replies room client.args.r (construct_htable room htable_size) replies
      answer' ← freed nodes answer
      ok (answer', map (λ node. (key, node)) to))

-- The second loop of `network_put`, on the replies that are still to come.
unfoldable pub put_loop : ℕ → ℕ → List Datagram → ErrorCode
put_loop w success [] = err_network
put_loop w success (m ∷ replies) =
    let rest = put_loop w (success + 1) replies in if leb w (success + 1) then err_none else rest

-- `strlen(key)` comes before the test for NULL. The list of nodes is freed in the end, which reads
-- through NULL where N is 0.
unfoldable pub network_put :
    (List ℕ → List ℕ)
    → Bool
    → Client
    → Option (List ℕ)
    → Option (List ℕ)
    → List Datagram
    → Run (ErrorCode × Sent)
unfolding destinations
network_put sha1 room client key value replies = do
  k ← non_null key
  if ltb max_msg_elem_size (length k) then ok (err_bad_parameter, []) else (do
    v ← non_null value
    if ltb max_msg_elem_size (length v) then ok (err_bad_parameter, []) else (do
      nodes ← ring_get_nodes_for_key sha1 room client.server client.args.n k
      to ← destinations client.args.n nodes
      _ ← non_null nodes
      request ← format_put_request (k ++ 0 ∷ []) (v ++ 0 ∷ []) none none
      ok (put_loop client.args.w 0 replies, map (λ node. (request, node)) to)))
