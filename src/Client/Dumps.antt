-- ===== src/Client/Dumps.antt =====
-- pps-dump-node.c: the content of a server, from the datagrams that it sends. The arrays for a key
-- and a value are not initialised; their bytes are taken to be zero.
pub mod Packets
pub mod RoundTrip
pub mod Packed
pub mod Filled
pub mod Content
pub mod Shifted
pub mod TwoPackets
pub mod Sessions
pub mod Endings
use distributed_hash_table.Prelude.{
  ℕ, zero, suc, ◌+◌, ◌*◌, ◌-◌, ◌%◌, ◌^◌, List, [], ◌∷◌, ◌++◌, Bool, true, false, if◌then◌else◌,
  ◌==◌, ltb, leb, not, Option, none, some, Run, ok, fault, ◌>>=◌, at, read, store, drop, replicate,
}
use distributed_hash_table.Text.{c_str}
use distributed_hash_table.Numbers.{strtol}
use distributed_hash_table.HashTable.{KvPair, KvList, size_max, null_pair, create_kv_pair}
use distributed_hash_table.Node.{Address, Node, node_init}
use distributed_hash_table.Server.Dump.{Datagram, max_msg_size}
use distributed_hash_table.Network.{Sent}
use distributed_hash_table.Client.Commands.{World, started}
use distributed_hash_table.Client.Substrings.{int_of}

-- The first four bytes.
unfoldable pub parse_nbr_kv_pair : List ℕ → Run ℕ
parse_nbr_kv_pair in_msg = do
  a ← at in_msg 0
  b ← at in_msg 1
  c ← at in_msg 2
  d ← at in_msg 3
  ok (a * 2 ^ 24 + b * 2 ^ 16 + c * 2 ^ 8 + d)

-- The variables of `parse_kv_pairs`.
pub record Parser : Type 0 where
  pub parsing_key : Bool
  pub key : List ℕ
  pub key_index : ℕ
  pub value : List ℕ
  pub value_index : ℕ
  pub list : List KvPair
  pub list_index : ℕ

-- A value is complete: the pair is stored.
unfoldable pub store_pair : Parser → Run Parser
store_pair p = do
  value ← store p.value p.value_index 0
  list ← store p.list p.list_index (create_kv_pair (c_str p.key) (c_str value))
  ok (record p { value = value; list = list })

-- One byte; true where the function gives up.
unfoldable pub parse_byte : ℕ → Parser → ℕ → Run (Bool × Parser)
unfolding store_pair
parse_byte size p byte =
    let key_byte =
      (store p.key p.key_index byte >>= λ key.
      ok (false, record p { key = key; key_index = p.key_index + 1 })) in
    let key_end =
      (store p.key p.key_index 0 >>= λ key.
      ok (false, record p { parsing_key = false; key = key; key_index = 0 })) in
    let value_byte =
      (store p.value p.value_index byte >>= λ value.
      ok (false, record p { value = value; value_index = p.value_index + 1 })) in
    let value_end =
      (store_pair p >>= λ p'.
      if leb size (p.list_index + 1)
      then ok (true, record p' { list_index = p.list_index + 1 })
      else ok (
        false,
        record p' { parsing_key = true; value_index = 0; list_index = p.list_index + 1 },
      )) in
    if p.parsing_key
    then (if byte == 0 then key_end else key_byte)
    else (if byte == 0 then value_end else value_byte)

unfoldable pub parse_bytes : ℕ → Parser → List ℕ → Run (Bool × Parser)
unfolding parse_byte
parse_bytes size p [] = ok (false, p)
parse_bytes size p (byte ∷ in_msg) =
    parse_byte size p byte >>= λ r. if r.0 then ok r else parse_bytes size r.1 in_msg

-- The number that is returned, where SIZE_MAX is -1, and the list.
unfoldable pub parse_kv_pairs : List ℕ → ℕ → KvList → Run (ℕ × KvList)
unfolding parse_bytes
parse_kv_pairs in_msg starting_index kv_list =
    let buffer : List ℕ = replicate max_msg_size 0 in
    parse_bytes kv_list.size
      (record {
        parsing_key = true;
        key = buffer;
        key_index = 0;
        value = buffer;
        value_index = 0;
        list = kv_list.list;
        list_index = starting_index;
      })
      in_msg
    >>= λ r.
        if r.0
        then ok (size_max, record kv_list { list = r.1.list })
        else (store_pair r.1 >>= λ p. ok (r.1.list_index + 1, record kv_list { list = p.list }))

-- The loop over further packets, and what follows it: the pairs that are printed, `none` for FAIL.
-- At the end of the packets `recv` returns -1, and the round parses no byte.
unfoldable pub more_packets : ℕ → KvList → List Datagram → Run (Option (List KvPair))
unfolding parse_kv_pairs
more_packets parsed kv_list [] =
    let last_round =
      (parse_kv_pairs [] parsed kv_list >>= λ r.
      if r.0 == size_max
      then ok none
      else if (parsed + r.0) % 2 ^ 64 == kv_list.size
      then (read kv_list.size r.1.list >>= λ pairs. ok (some pairs))
      else ok none) in
    let end =
      (if parsed == kv_list.size
        then (read kv_list.size kv_list.list >>= λ pairs. ok (some pairs))
        else ok none) in
    if ltb parsed kv_list.size then last_round else end
more_packets parsed kv_list (in_msg ∷ packets) =
    let round =
      (parse_kv_pairs in_msg parsed kv_list >>= λ r.
      if r.0 == size_max then ok none else more_packets ((parsed + r.0) % 2 ^ 64) r.1 packets) in
    let end =
      (if parsed == kv_list.size
        then (read kv_list.size kv_list.list >>= λ pairs. ok (some pairs))
        else ok none) in
    if ltb parsed kv_list.size then round else end

-- From the first packet on; `none` for FAIL. A result of -1 is tested as an `int`.
unfoldable pub read_dump : List Datagram → Run (Option (List KvPair))
unfolding parse_nbr_kv_pair more_packets
read_dump [] = ok none
read_dump (in_msg ∷ packets) = do
  size ← parse_nbr_kv_pair in_msg
  (parsed, kv_list) ←
      parse_kv_pairs (drop 4 in_msg) 0
        (record { size = size; list = replicate max_msg_size null_pair })
  if parsed % 2 ^ 32 == 2 ^ 32 - 1 then ok none else more_packets parsed kv_list packets

-- `node` is the memory of the node before; `sent_ok` says whether the request is sent.
unfoldable pub pps_dump_node :
    World
    → (List ℕ → Option ℕ)
    → Node
    → Bool
    → List Datagram
    → List (List ℕ)
    → Run (Option (List KvPair) × Sent)
unfolding started read_dump
pps_dump_node world inet_pton node sent_ok packets argv = started world 2 0 argv >>= λ s. elim s [
  | none ↦ ok (none, [])
  | some p ↦ do
    ip ← at p.1 0
    port ← at p.1 1
    let r = node_init world.sha1 inet_pton node ip (int_of (strtol port) % 2 ^ 16) 0
    if sent_ok
        then (read_dump packets >>= λ pairs. ok (pairs, ((0 ∷ []), r.1) ∷ []))
        else ok (none, [])
]
