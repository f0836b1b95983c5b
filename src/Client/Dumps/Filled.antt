-- ===== src/Client/Dumps/Filled.antt =====
-- The packets in which a server sends the content of its table.
use distributed_hash_table.Prelude.{
  ℕ, zero, suc, ◌+◌, ◌-◌, false, ◌<◌, ◌≤◌, List, [], ◌∷◌, ◌++◌, map, ltb, ok, non_null, ◌>>=◌,
  length, replicate, drop, read-append, length-append, length-replicate, arith, ◌≡◌, refl, ap, sym,
  ◌∙◌,
}
use mathlib.Core.List.{append_assoc, append-nil}
use distributed_hash_table.HashTable.{KvPair}
use distributed_hash_table.HashTable.Chains.{Chain, full}
use distributed_hash_table.Server.Dump.{max_msg_size, header_of, dump_loop}
use distributed_hash_table.Client.Dumps.Packets.{joined}
use distributed_hash_table.Client.Dumps.RoundTrip.{AllFit}
use distributed_hash_table.Client.Dumps.Packed.{
  behind, joined-behind, add_pair-next, dump_loop-step, header-length, add_pair-first,
}

-- More pairs in a packet that is not empty: the packet and its size when `left` fuel is left.
dump_loop-behind :
    (es : Chain) (header done junk : List ℕ) (fuel left counter : ℕ) (more : List KvPair)
    → AllFit max_msg_size es
    → length (done ++ behind es) ≤ max_msg_size
    → fuel ≡ length es + left
    → (counter' : ℕ) × (junk' : List ℕ) × (dump_loop fuel header
          (suc counter)
          (map full es ++ more)
          (done ++ junk)
          (length done)
        ≡ dump_loop left header
            (suc counter')
            more
            ((done ++ behind es) ++ junk')
            (length (done ++ behind es)))
unfolding behind
dump_loop-behind [] header done junk fuel left counter more fit size enough =
    let same : done ++ [] ≡ done = append-nil done in
    let e : fuel ≡ left = omega arith in (counter, junk, rw (same, e) refl)
dump_loop-behind (e ∷ es) header done junk zero left counter more fit size enough =
    absurd (omega arith)
dump_loop-behind (e ∷ es) header done junk (suc fuel) left counter more fit size enough =
    let kv = e.0 ++ 0 ∷ e.1 in
    let done' = done ++ 0 ∷ kv in
    let same : done' ++ behind es ≡ done ++ 0 ∷ (kv ++ behind es) =
      append_assoc done (0 ∷ kv) (behind es) in
    let room : length done + (length e.0 + 1 + length e.1) < max_msg_size = omega (
      arith,
      length-append done (0 ∷ (kv ++ behind es)),
      length-append kv (behind es),
      length-append e.0 (0 ∷ e.1),
    ) in
    let (counter', junk', run) =
      dump_loop-behind es header done' [] fuel left (suc counter) more fit.4
        (omega (arith, ap length same)) (omega arith) in
    (
      counter',
      junk',
      dump_loop-step fuel (suc counter) header (done ++ junk) (length done) e (map full es ++ more)
            (done', length done') room (add_pair-next header done junk counter e fit.0 fit.1)
          ∙ ap
              (λ m.
                dump_loop fuel header (suc (suc counter)) (map full es ++ more) m (length done'))
              (sym (append-nil done'))
          ∙ run
          ∙ ap (λ m. dump_loop left header (suc counter') more (m ++ junk') (length m)) same,
    )

-- The first packet, which begins with the number of all pairs.
dump_loop-first :
    (n fuel left : ℕ) (e : List ℕ × List ℕ) (es : Chain) (more : List KvPair)
    → AllFit max_msg_size (e ∷ es)
    → length (header_of n ++ joined (e ∷ es)) ≤ max_msg_size
    → fuel ≡ length (e ∷ es) + left
    → (counter' : ℕ) × (junk' : List ℕ) × (dump_loop fuel
          (header_of n)
          0
          (map full (e ∷ es) ++ more)
          (replicate max_msg_size 0)
          0
        ≡ dump_loop left
            (header_of n)
            (suc counter')
            more
            ((header_of n ++ joined (e ∷ es)) ++ junk')
            (length (header_of n ++ joined (e ∷ es))))
dump_loop-first n zero left e es more fit size enough = absurd (omega arith)
dump_loop-first n (suc fuel) left e es more fit size enough =
    let kv = e.0 ++ 0 ∷ e.1 in
    let done = header_of n ++ kv in
    let same : header_of n ++ joined (e ∷ es) ≡ done ++ behind es =
      ap (λ m. header_of n ++ m) (joined-behind e es)
      ∙ sym (append_assoc (header_of n) kv (behind es)) in
    let total : length done + length (behind es) ≤ max_msg_size =
      omega (arith, ap length same, length-append done (behind es)) in
    let buffer : List ℕ = replicate max_msg_size 0 in
    let size' : length buffer ≡ max_msg_size = length-replicate {A = ℕ} max_msg_size 0 in
    let (counter', junk', run) =
      dump_loop-behind es (header_of n) done (drop (length done) buffer) fuel left 0 more fit.4
        (omega (arith, length-append done (behind es))) (omega arith) in
    (
      counter',
      junk',
      dump_loop-step fuel 0 (header_of n) buffer 0 e (map full es ++ more)
            (done ++ drop (length done) buffer, length done)
            (omega
              (arith, length-append (header_of n) kv, length-append e.0 (0 ∷ e.1), header-length n))
            (add_pair-first n e buffer fit.1 (omega arith))
          ∙ run
          ∙ ap (λ m. dump_loop left (header_of n) (suc counter') more (m ++ junk') (length m))
              (sym same),
    )

pub dump_loop-nil :
    (fuel counter : ℕ) (header done junk : List ℕ)
    → dump_loop (suc fuel) header counter [] (done ++ junk) (length done) ≡ ok (done ∷ [])
unfolding dump_loop
dump_loop-nil fuel counter header done junk = rw (read-append done junk) refl

-- The only packet of a content of one pair or more that fits in one.
pub dump_loop-joined :
    (n fuel : ℕ) (e : List ℕ × List ℕ) (es : Chain)
    → AllFit max_msg_size (e ∷ es)
    → length (header_of n ++ joined (e ∷ es)) ≤ max_msg_size
    → length (e ∷ es) < fuel
    → dump_loop fuel (header_of n) 0 (map full (e ∷ es)) (replicate max_msg_size 0) 0
      ≡ ok ((header_of n ++ joined (e ∷ es)) ∷ [])
dump_loop-joined n fuel e es fit size enough =
    let left = fuel - length (e ∷ es) - 1 in
    let (counter', junk', run) = dump_loop-first n fuel (suc left) e es [] fit size (omega arith) in
    ap (λ l. dump_loop fuel (header_of n) 0 l (replicate max_msg_size 0) 0)
      (sym (append-nil (map full (e ∷ es))))
    ∙ run
    ∙ dump_loop-nil left (suc counter') (header_of n) (header_of n ++ joined (e ∷ es)) junk'

-- A packet is sent where the next pair does not fit behind it.
pub dump_loop-sent :
    (fuel counter : ℕ) (header done junk : List ℕ) (e : List ℕ × List ℕ) (list : List KvPair)
    → max_msg_size ≤ length done + (length e.0 + 1 + length e.1)
    → dump_loop (suc fuel) header counter (full e ∷ list) (done ++ junk) (length done) ≡ (
        dump_loop fuel header counter (full e ∷ list) (done ++ junk) 0 >>= λ rest. ok (done ∷ rest))
unfolding dump_loop
dump_loop-sent fuel counter header done junk e list h =
    let full' : ltb (length done + (length e.0 + 1 + length e.1)) max_msg_size ≡ false =
      ground arith in
    rw (dump_loop, non_null, ◌>>=◌, full', read-append done junk) refl

-- The packets of a content that takes two.
pub dump_loop-joined-joined :
    (n fuel : ℕ) (e d : List ℕ × List ℕ) (es ds : Chain)
    → AllFit max_msg_size (e ∷ es)
    → AllFit max_msg_size (d ∷ ds)
    → length (header_of n ++ joined (e ∷ es)) ≤ max_msg_size
    → max_msg_size ≤ length (header_of n ++ joined (e ∷ es)) + (length d.0 + 1 + length d.1)
    → length (0 ∷ joined (d ∷ ds)) ≤ max_msg_size
    → length (e ∷ es) + length (d ∷ ds) + 1 < fuel
    → dump_loop fuel
        (header_of n)
        0
        (map full (e ∷ es) ++ map full (d ∷ ds))
        (replicate max_msg_size 0)
        0
      ≡ ok ((header_of n ++ joined (e ∷ es)) ∷ (0 ∷ joined (d ∷ ds)) ∷ [])
dump_loop-joined-joined n fuel e d es ds fit fit' size over size' enough =
    let header = header_of n in
    let done = header ++ joined (e ∷ es) in
    let left = fuel - length (e ∷ es) - length (d ∷ ds) - 2 in
    let same : 0 ∷ joined (d ∷ ds) ≡ behind (d ∷ ds) =
      unfold behind in ap (λ m. 0 ∷ m) (joined-behind d ds) in
    let (counter', junk', run) =
      dump_loop-first n fuel (suc (length (d ∷ ds) + suc left)) e es (map full (d ∷ ds)) fit size
        (omega arith) in
    let (counter'', junk'', run') =
      dump_loop-behind (d ∷ ds) header [] (done ++ junk') (length (d ∷ ds) + suc left) (suc left)
        counter' [] fit' (omega (arith, ap length same)) refl in
    let second : dump_loop (length (d ∷ ds) + suc left) header (suc counter') (map full (d ∷ ds))
          (done ++ junk') 0
        ≡ ok ((0 ∷ joined (d ∷ ds)) ∷ []) =
      ap (λ l. dump_loop (length (d ∷ ds) + suc left) header (suc counter') l (done ++ junk') 0)
        (sym (append-nil (map full (d ∷ ds))))
      ∙ run'
      ∙ dump_loop-nil left (suc counter'') header (behind (d ∷ ds)) junk''
      ∙ ap (λ m. ok (m ∷ [])) (sym same) in
    run
    ∙ dump_loop-sent (length (d ∷ ds) + suc left) (suc counter') header done junk' d (map full ds)
        over
    ∙ rw second refl
