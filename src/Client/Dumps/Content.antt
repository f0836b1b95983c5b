-- ===== src/Client/Dumps/Content.antt =====
-- What a client reads from the packet in which a server sends the content of its table.
use distributed_hash_table.Prelude.{
  ℕ, ◌+◌, ◌*◌, ◌%◌, ◌^◌, ◌-◌, ◌<◌, ◌≤◌, List, [], ◌∷◌, ◌++◌, map, true, false, ◌==◌, ltb,
  if◌then◌else◌, some, none, ok, non_null, ◌>>=◌, length, replicate, drop, read, read-append,
  read-length, length-append, length-replicate, length-map, arith, ◌≡◌, refl, Returns, ap, sym, ◌∙◌,
}
use distributed_hash_table.HashTable.{Htable, KvPair, KvList, get_htable_content, null_pair}
use distributed_hash_table.HashTable.Chains.{Chain, full}
use distributed_hash_table.Server.Dump.{max_msg_size, header_of, dump_node}
use distributed_hash_table.Client.Dumps.{parse_nbr_kv_pair, more_packets, read_dump}
use distributed_hash_table.Client.Dumps.Packets.{joined}
use distributed_hash_table.Client.Dumps.RoundTrip.{AllFit, parse_kv_pairs-joined}
use distributed_hash_table.Client.Dumps.Filled.{dump_loop-joined}

pub length-joined : (es : Chain) → length es * 2 ≤ length (joined es) + 1
unfolding joined
length-joined [] = omega arith
length-joined (e ∷ []) = omega (arith, length-append e.0 (0 ∷ e.1))
length-joined (e ∷ d ∷ es) = omega (
  arith,
  length-joined (d ∷ es),
  length-append e.0 (0 ∷ (e.1 ++ 0 ∷ joined (d ∷ es))),
  length-append e.1 (0 ∷ joined (d ∷ es)),
)

pub parse_nbr_kv_pair-header :
    (n : ℕ) (m : List ℕ) → n < 2 ^ 32 → parse_nbr_kv_pair (header_of n ++ m) ≡ ok n
unfolding parse_nbr_kv_pair header_of
parse_nbr_kv_pair-header n m h = ap ok (omega arith)

more_packets-end :
    (size : ℕ) (pairs rest : List KvPair)
    → length pairs ≡ size
    → more_packets size (record { size = size; list = pairs ++ rest }) [] ≡ ok (some pairs)
unfolding more_packets
more_packets-end size pairs rest e =
    let at_end : ltb size size ≡ false = ground arith in
    let same : size == size ≡ true = ground arith in
    let all : read size (pairs ++ rest) ≡ ok pairs =
      ap (λ n. read n (pairs ++ rest)) (sym e) ∙ read-append pairs rest in
    rw (at_end, same, all) refl

first_packet-end :
    (n : ℕ) (pairs rest : List KvPair) (r : ℕ × KvList)
    → r.0 ≡ n
    → r.1.size ≡ n
    → r.1.list ≡ pairs ++ rest
    → length pairs ≡ n
    → n < 2 ^ 32 - 1
    → (if r.0 % 2 ^ 32 == 2 ^ 32 - 1 then ok none else more_packets r.0 r.1 []) ≡ ok (some pairs)
first_packet-end n pairs rest r count size list e small =
    let valid : r.0 % 2 ^ 32 == 2 ^ 32 - 1 ≡ false = ground arith in
    let l : r.1 ≡ record { size = n; list = pairs ++ rest } = cc (size, list) in
    rw (valid, count, l) (more_packets-end n pairs rest e)

read_dump-joined :
    (e : List ℕ × List ℕ) (es : Chain)
    → AllFit max_msg_size (e ∷ es)
    → length (header_of (length (e ∷ es)) ++ joined (e ∷ es)) ≤ max_msg_size
    → read_dump ((header_of (length (e ∷ es)) ++ joined (e ∷ es)) ∷ [])
      ≡ ok (some (map full (e ∷ es)))
unfolding read_dump
read_dump-joined e es fit size =
    let n = length (e ∷ es) in
    let slots : List KvPair = replicate max_msg_size null_pair in
    let places : length slots ≡ max_msg_size =
      length-replicate {A = KvPair} max_msg_size null_pair in
    let few : n ≤ max_msg_size =
      omega (arith, length-joined (e ∷ es), length-append (header_of n) (joined (e ∷ es))) in
    let (r, run, (count, size', rest, list, _)) =
      parse_kv_pairs-joined e es n slots fit (omega arith) (omega arith) in
    let content : drop 4 (header_of n ++ joined (e ∷ es)) ≡ joined (e ∷ es) =
      unfold header_of in refl in
    rw (parse_nbr_kv_pair-header n (joined (e ∷ es)) (omega arith), content, run)
      (first_packet-end n (map full (e ∷ es)) rest r count size' list (length-map (e ∷ es) full)
        (omega arith))

-- A server whose table has a content of one pair or more, all strings, that fits in a packet with
-- its header, answers a client's request for it with that one packet, when there is more fuel than
-- there are pairs; the client reads just these pairs from it.
pub dump_node-read_dump :
    (t : Htable) (e : List ℕ × List ℕ) (es : Chain) (fuel : ℕ)
    → get_htable_content true t
      ≡ ok (some (record { size = length (e ∷ es); list = map full (e ∷ es) }))
    → AllFit max_msg_size (e ∷ es)
    → length (header_of (length (e ∷ es)) ++ joined (e ∷ es)) ≤ max_msg_size
    → length (e ∷ es) < fuel
    → Returns
        (dump_node fuel t)
        λ packets. (length packets ≡ 1) × (read_dump packets ≡ ok (some (map full (e ∷ es))))
unfolding dump_node
dump_node-read_dump t e es fuel content fit size enough =
    let n = length (e ∷ es) in
    let few : n ≤ max_msg_size =
      omega (arith, length-joined (e ∷ es), length-append (header_of n) (joined (e ∷ es))) in
    let small : n % 2 ^ 32 ≡ n = omega arith in
    let all : read n (map full (e ∷ es)) ≡ ok (map full (e ∷ es)) =
      ap (λ n. read n (map full (e ∷ es))) (sym (length-map (e ∷ es) full))
      ∙ read-length (map full (e ∷ es)) in
    (
      (header_of n ++ joined (e ∷ es)) ∷ [],
      rw (content, ◌>>=◌, non_null, all, small) (dump_loop-joined n fuel e es fit size enough),
      (refl, read_dump-joined e es fit size),
    )
