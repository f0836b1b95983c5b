-- ===== src/Server/Dump.antt =====
-- pps-launch-server.c: the answer to a message that is one NUL, the content of the table cut into
-- packets. The loop does not end when a pair alone is too large, so it takes fuel.
use distributed_hash_table.Prelude.{
  ℕ, zero, suc, ◌+◌, ◌*◌, ◌/◌, ◌%◌, ◌^◌, List, [], ◌∷◌, ◌++◌, true, false, none, some, Run, ok,
  fault, no_fuel, ◌>>=◌, length, ltb, read, replicate, non_null,
}
use distributed_hash_table.HashTable.{Htable, KvPair, get_htable_content}
use distributed_hash_table.NetworkUtils.{format_put_request}

abbrev pub Datagram : Type 0
Datagram = List ℕ

-- config.h
abbrev pub max_msg_elem_size : ℕ
max_msg_elem_size = 32753

abbrev pub max_msg_size : ℕ
max_msg_size = max_msg_elem_size * 2 + 1

-- `htonl` of a 32-bit number, as four bytes of memory.
unfoldable pub header_of : ℕ → List ℕ
header_of n = (n / 2 ^ 24 % 256) ∷ (n / 2 ^ 16 % 256) ∷ (n / 2 ^ 8 % 256) ∷ (n % 256) ∷ []

-- `packet[i] = bytes[i]` for each byte.
unfoldable pub overwrite : List ℕ → List ℕ → Run (List ℕ)
overwrite [] packet = ok packet
overwrite (b ∷ bytes) [] = fault
overwrite (b ∷ bytes) (_ ∷ packet) = overwrite bytes packet >>= λ m. ok (b ∷ m)

-- The packet and its size with one more pair. The first pair stands behind the header.
unfoldable pub add_pair : List ℕ → ℕ → List ℕ → List ℕ → List ℕ → ℕ → Run (List ℕ × ℕ)
unfolding overwrite
add_pair header zero key value packet size_packet = do
  kv_request ← format_put_request (header ++ key) (value ++ 0 ∷ []) (some (4 + length key)) none
  packet' ← overwrite kv_request packet
  ok (packet', size_packet + (5 + length key + length value))
add_pair header (suc counter) key value packet size_packet = do
  kv_request ← format_put_request (key ++ 0 ∷ []) (value ++ 0 ∷ []) none none
  packet' ←
      format_put_request packet kv_request (some size_packet) (some (length key + 1 + length value))
  ok (packet', size_packet + (length key + 1 + length value + 1))

-- The `while` loop and the last `sendto`.
unfoldable pub dump_loop : ℕ → List ℕ → ℕ → List KvPair → List ℕ → ℕ → Run (List Datagram)
unfolding add_pair
dump_loop zero header counter list packet size_packet = no_fuel
dump_loop (suc fuel) header counter [] packet size_packet = do
  sent ← read size_packet packet
  ok (sent ∷ [])
dump_loop (suc fuel) header counter (kv ∷ list) packet size_packet = do
  key ← non_null kv.key
  value ← non_null kv.value
  elim (ltb (size_packet + (length key + 1 + length value)) max_msg_size) [
    | true ↦ add_pair header counter key value packet size_packet >>= λ p.
        dump_loop fuel header (suc counter) list p.0 p.1
    | false ↦ do
      sent ← read size_packet packet
      rest ← dump_loop fuel header counter (kv ∷ list) packet 0
      ok (sent ∷ rest)
  ]

unfoldable pub dump_node : ℕ → Htable → Run (List Datagram)
unfolding dump_loop header_of
dump_node fuel h_table = do
  content ← get_htable_content true h_table
  node_dump ← non_null content
  list ← read node_dump.size node_dump.list
  dump_loop fuel (header_of (node_dump.size % 2 ^ 32)) 0 list (replicate max_msg_size 0) 0
