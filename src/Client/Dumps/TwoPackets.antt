-- ===== src/Client/Dumps/TwoPackets.antt =====
-- What a client reads from a content that takes two packets.
use distributed_hash_table.Prelude.{
  ℕ, ◌+◌, ◌*◌, ◌%◌, ◌^◌, ◌-◌, ◌<◌, ◌≤◌, List, [], ◌∷◌, ◌++◌, map, true, false, ◌==◌, ltb,
  if◌then◌else◌, none, some, ok, non_null, ◌>>=◌, length, replicate, drop, read, read-length,
  length-append, length-replicate, length-map, arith, ◌≡◌, refl, Returns, ap, sym, ◌∙◌,
}
use distributed_hash_table.HashTable.{
  Htable, KvPair, KvList, get_htable_content, null_pair, size_max,
}
use distributed_hash_table.HashTable.Chains.{Chain, full}
use distributed_hash_table.Server.Dump.{max_msg_size, header_of, dump_node}
use distributed_hash_table.Client.Dumps.{more_packets, read_dump}
use distributed_hash_table.Client.Dumps.Packets.{joined}
use distributed_hash_table.Client.Dumps.RoundTrip.{AllFit, parse_kv_pairs-joined}
use distributed_hash_table.Client.Dumps.Filled.{dump_loop-joined-joined}
use distributed_hash_table.Client.Dumps.Content.{length-joined, parse_nbr_kv_pair-header}
use distributed_hash_table.Client.Dumps.Shifted.{parse_kv_pairs-shifted}

more_packets-shifted :
    (e : List ℕ × List ℕ) (es : Chain) (before slots : List KvPair) (size : ℕ)
    → AllFit max_msg_size (e ∷ es)
    → length (e ∷ es) ≤ length slots
    → size ≡ length before + length (e ∷ es)
    → more_packets
        (length before)
        (record { size = size; list = before ++ slots })
        ((0 ∷ joined (e ∷ es)) ∷ [])
      ≡ ok none
unfolding more_packets
more_packets-shifted e es before slots size fit places n =
    let (r, run, refused) = parse_kv_pairs-shifted e es before slots size fit places n in
    let more : ltb (length before) size ≡ true = ground arith in
    let gives_up : r.0 == size_max ≡ true = ground (arith, refused) in
    rw (more, run, ◌>>=◌, gives_up) refl

first_packet-shifted :
    (d : List ℕ × List ℕ) (ds : Chain) (pairs rest : List KvPair) (n n1 : ℕ) (r : ℕ × KvList)
    → AllFit max_msg_size (d ∷ ds)
    → r.0 ≡ n1
    → r.1.size ≡ n
    → r.1.list ≡ pairs ++ rest
    → length pairs ≡ n1
    → length (d ∷ ds) ≤ length rest
    → n ≡ n1 + length (d ∷ ds)
    → n1 < 2 ^ 32 - 1
    → (if r.0 % 2 ^ 32 == 2 ^ 32 - 1
        then ok none
        else more_packets r.0 r.1 ((0 ∷ joined (d ∷ ds)) ∷ []))
      ≡ ok none
first_packet-shifted d ds pairs rest n n1 r fit count size list e places sum small =
    let valid : r.0 % 2 ^ 32 == 2 ^ 32 - 1 ≡ false = ground arith in
    let count' : r.0 ≡ length pairs = count ∙ sym e in
    let l : r.1 ≡ record { size = n; list = pairs ++ rest } = cc (size, list) in
    rw (valid, count', l) (more_packets-shifted d ds pairs rest n fit places (omega arith))

read_dump-joined-joined :
    (e d : List ℕ × List ℕ) (es ds : Chain) (n : ℕ)
    → AllFit max_msg_size (e ∷ es)
    → AllFit max_msg_size (d ∷ ds)
    → length (header_of n ++ joined (e ∷ es)) ≤ max_msg_size
    → length (0 ∷ joined (d ∷ ds)) ≤ max_msg_size
    → n ≡ length (e ∷ es) + length (d ∷ ds)
    → read_dump ((header_of n ++ joined (e ∷ es)) ∷ (0 ∷ joined (d ∷ ds)) ∷ []) ≡ ok none
unfolding read_dump
read_dump-joined-joined e d es ds n fit fit' size size' sum =
    let slots : List KvPair = replicate max_msg_size null_pair in
    let places : length slots ≡ max_msg_size =
      length-replicate {A = KvPair} max_msg_size null_pair in
    let few : length (e ∷ es) * 2 ≤ max_msg_size + 1 =
      omega (arith, length-joined (e ∷ es), length-append (header_of n) (joined (e ∷ es))) in
    let few' : length (d ∷ ds) * 2 ≤ max_msg_size = omega (arith, length-joined (d ∷ ds)) in
    let (r, run, (count, total, rest, list, left)) =
      parse_kv_pairs-joined e es n slots fit (omega arith) (omega arith) in
    let content : drop 4 (header_of n ++ joined (e ∷ es)) ≡ joined (e ∷ es) =
      unfold header_of in refl in
    rw (parse_nbr_kv_pair-header n (joined (e ∷ es)) (omega arith), content, run)
      (first_packet-shifted d ds (map full (e ∷ es)) rest n (length (e ∷ es)) r fit' count total
        list (length-map (e ∷ es) full) (omega arith) sum (omega arith))

-- A server whose table has a content of strings that takes two packets, of one pair or more each,
-- where the next pair does not fit in the first, answers a client's request for it with these two
-- packets, when there is more fuel than there are pairs and packets; the client reports a failure.
pub dump_node-read_dump-none :
    (t : Htable) (e d : List ℕ × List ℕ) (es ds : Chain) (n fuel : ℕ)
    → n ≡ length (e ∷ es) + length (d ∷ ds)
    → get_htable_content true t
      ≡ ok (some (record { size = n; list = map full (e ∷ es) ++ map full (d ∷ ds) }))
    → AllFit max_msg_size (e ∷ es)
    → AllFit max_msg_size (d ∷ ds)
    → length (header_of n ++ joined (e ∷ es)) ≤ max_msg_size
    → max_msg_size ≤ length (header_of n ++ joined (e ∷ es)) + (length d.0 + 1 + length d.1)
    → length (0 ∷ joined (d ∷ ds)) ≤ max_msg_size
    → n + 1 < fuel
    → Returns (dump_node fuel t) λ packets. (length packets ≡ 2) × (read_dump packets ≡ ok none)
unfolding dump_node
dump_node-read_dump-none t e d es ds n fuel sum content fit fit' size over size' enough =
    let few : length (e ∷ es) * 2 ≤ max_msg_size + 1 =
      omega (arith, length-joined (e ∷ es), length-append (header_of n) (joined (e ∷ es))) in
    let few' : length (d ∷ ds) * 2 ≤ max_msg_size = omega (arith, length-joined (d ∷ ds)) in
    let small : n % 2 ^ 32 ≡ n = omega arith in
    let pairs = map full (e ∷ es) ++ map full (d ∷ ds) in
    let total : length pairs ≡ n = omega (
      arith,
      length-append (map full (e ∷ es)) (map full (d ∷ ds)),
      length-map (e ∷ es) full,
      length-map (d ∷ ds) full,
    ) in
    let all : read n pairs ≡ ok pairs = ap (λ n. read n pairs) (sym total) ∙ read-length pairs in
    (
      (header_of n ++ joined (e ∷ es)) ∷ (0 ∷ joined (d ∷ ds)) ∷ [],
      rw (content, ◌>>=◌, non_null, all, small)
          (dump_loop-joined-joined n fuel e d es ds fit fit' size over size' (omega arith)),
      (refl, read_dump-joined-joined e d es ds n fit fit' size size' sum),
    )
