-- ===== src/Server.antt =====
-- pps-launch-server.c: one round of the server's loop, from a received datagram to the datagrams
-- that it sends back. The buffer of the datagram is allocated anew for each and not cleared: `junk` is
-- its memory behind the datagram. The NUL that `parse_put_request` writes behind the memory of the
-- value is taken to do no harm.
pub mod Dump
pub mod Session
pub mod Rounds
pub mod Refinement
pub mod Start
pub mod Service
pub mod Availability
use distributed_hash_table.Prelude.{
  ℕ, List, [], ◌∷◌, ◌++◌, Bool, true, if◌then◌else◌, Option, none, some, Run, ok, ◌>>=◌, length,
  ◌==◌, ltb, read, not, non_null,
}
use distributed_hash_table.Text.{strlen, c_str}
use distributed_hash_table.Errors.{ErrorCode, err_none}
use distributed_hash_table.HashTable.{Htable, add_htable_value, get_htable_value}
use distributed_hash_table.NetworkUtils.{find_nul, parse_put_request}
use Dump.{Datagram, max_msg_size, max_msg_elem_size, dump_node}

-- What one round leaves: the table, and what was sent to the client.
abbrev pub Round : Type 0
Round = Htable × List Datagram

-- The branch of a message with a NUL and another byte. `room`: see `add_htable_value`.
unfoldable pub handle_put : Bool → Htable → List ℕ → ℕ → Run Round
handle_put room h_table in_msg in_msg_len = do
  (error, key, value) ← parse_put_request in_msg in_msg_len
  (error', h_table') ← add_htable_value room h_table (some (c_str key)) (some (c_str value))
  ok (h_table', elim error' [ err_none ↦ [] ∷ [] | _ ↦ [] ])

-- The branch of a message without a NUL. `beyond` is the memory behind the stored value: the
-- answer is `MAX_MSG_ELEM_SIZE` bytes from the value's first on.
unfoldable pub handle_get : Htable → List ℕ → List ℕ → Run Round
handle_get h_table in_msg beyond = do
  size ← strlen in_msg
  request ← read size in_msg
  get ← get_htable_value h_table (some request)
  elim get [
    | some value ↦
        read max_msg_elem_size (value ++ 0 ∷ beyond) >>= λ answer. ok (h_table, answer ∷ [])
    | none ↦ ok (h_table, (0 ∷ []) ∷ [])
  ]

-- The branches on the message's length and on its first NUL.
unfoldable pub handle_message : ℕ → Bool → Htable → List ℕ → List ℕ → List ℕ → Run Round
handle_message fuel room h_table msg junk beyond =
    if ltb max_msg_size (length msg)
    then ok (h_table, [])
    else if length msg == 0
    then ok (h_table, [] ∷ [])
    else (find_nul (length msg) (msg ++ junk) >>= λ nul. elim nul [
      | none ↦ handle_get h_table (msg ++ junk) beyond
      | some _ ↦
          if length msg == 1
          then (dump_node fuel h_table >>= λ sent. ok (h_table, sent))
          else handle_put room h_table (msg ++ junk) (length msg)
    ])

-- What a round of the loop meets: a message, what is behind it in the buffer and behind the value
-- that is sent, and whether there is memory for a bucket.
pub record Received : Type 0 where
  pub room : Bool
  pub msg : List ℕ
  pub junk : List ℕ
  pub beyond : List ℕ

-- The loop over the messages: the table in the end, and what was sent for each message.
unfoldable pub serve_loop : ℕ → Htable → List Received → Run (Htable × List (List Datagram))
serve_loop fuel h_table [] = ok (h_table, [])
serve_loop fuel h_table (m ∷ messages) = do
  (h_table', sent) ← handle_message fuel m.room h_table m.msg m.junk m.beyond
  (h_table'', answers) ← serve_loop fuel h_table' messages
  ok (h_table'', sent ∷ answers)
