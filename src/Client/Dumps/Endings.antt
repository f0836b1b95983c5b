-- ===== src/Client/Dumps/Endings.antt =====
-- The loop in which a server sends its table, where each pair fits in a packet.
use distributed_hash_table.Prelude.{
  ℕ, zero, suc, ◌+◌, ◌*◌, ◌%◌, ◌^◌, ◌<◌, ◌≤◌, List, [], ◌∷◌, ◌++◌, map, true, ltb, some, ok,
  non_null, ◌>>=◌, length, replicate, drop, read, read-length, length-append, length-replicate,
  length-map, arith, ◌≡◌, refl, Returns, ok-inj, ap, sym, subst, ◌∙◌, Bool-cases, inl, inr,
}
use mathlib.Core.List.{append-nil}
use distributed_hash_table.Text.{IsText}
use distributed_hash_table.HashTable.{
  Htable, KvPair, get_htable_content, get_htable_size, get_htable_value,
}
use distributed_hash_table.HashTable.Chains.{Chain, full}
use distributed_hash_table.HashTable.Tables.{IsValid}
use distributed_hash_table.HashTable.Content.{entries, content-table_of, size-table_of}
use distributed_hash_table.HashTable.Distinct.{AllPairs, entries-AllPairs}
use distributed_hash_table.Server.Dump.{Datagram, max_msg_size, header_of, dump_loop, dump_node}
use distributed_hash_table.Client.Dumps.Packed.{
  add_pair-next, dump_loop-step, header-length, add_pair-first,
}
use distributed_hash_table.Client.Dumps.Filled.{dump_loop-sent, dump_loop-nil}

-- Strings that fit in a packet, with the header and two NULs.
abbrev pub FitsAlone : List ℕ → List ℕ → Type 0
FitsAlone key value = IsText key × IsText value × (length key + length value + 5 ≤ max_msg_size)

abbrev pub AllSmall : List Datagram → Type 0
AllSmall [] = Unit
AllSmall (p ∷ packets) = (length p ≤ max_msg_size) × AllSmall packets

-- One packet more than there are pairs, at most, and no packet is too large.
abbrev pub IsSent : ℕ → List Datagram → Type 0
IsSent n packets = (length packets ≤ suc n) × AllSmall packets

length-next :
    (done : List ℕ) (e : List ℕ × List ℕ)
    → length (done ++ 0 ∷ (e.0 ++ 0 ∷ e.1)) ≡ length done + (length e.0 + 1 + length e.1) + 1
length-next done e =
    omega (arith, length-append done (0 ∷ (e.0 ++ 0 ∷ e.1)), length-append e.0 (0 ∷ e.1))

next_pair :
    (fuel counter : ℕ) (header done junk : List ℕ) (e : List ℕ × List ℕ) (list : List KvPair)
    → FitsAlone e.0 e.1
    → length done + (length e.0 + 1 + length e.1) < max_msg_size
    → dump_loop (suc fuel) header (suc counter) (full e ∷ list) (done ++ junk) (length done) ≡ (
        let done' = done ++ 0 ∷ (e.0 ++ 0 ∷ e.1) in
        dump_loop fuel header (suc (suc counter)) list (done' ++ []) (length done'))
next_pair fuel counter header done junk e list fit room =
    let done' = done ++ 0 ∷ (e.0 ++ 0 ∷ e.1) in
    dump_loop-step fuel (suc counter) header (done ++ junk) (length done) e list
      (done', length done') room (add_pair-next header done junk counter e fit.0 fit.1)
    ∙ ap (λ m. dump_loop fuel header (suc (suc counter)) list m (length done'))
        (sym (append-nil done'))

dump_loop-IsSent :
    (es : Chain) (header done junk : List ℕ) (fuel counter : ℕ)
    → AllPairs FitsAlone es
    → length done ≤ max_msg_size
    → 2 * length es < fuel
    → Returns
        (dump_loop fuel header (suc counter) (map full es) (done ++ junk) (length done))
        (IsSent (length es))
dump_loop-IsSent es header done junk zero counter fit small enough = absurd (omega arith)
dump_loop-IsSent [] header done junk (suc fuel) counter fit small enough =
    (done ∷ [], dump_loop-nil fuel (suc counter) header done junk, (omega arith, (small, tt)))
dump_loop-IsSent (e ∷ es) header done junk (suc zero) counter fit small enough =
    absurd (omega arith)
dump_loop-IsSent (e ∷ es) header done junk (suc (suc fuel)) counter (fit, all) small enough =
    let kv = e.0 ++ 0 ∷ e.1 in
    elim (Bool-cases (ltb (length done + (length e.0 + 1 + length e.1)) max_msg_size)) [
      | inl room ↦
          let fits : length done + (length e.0 + 1 + length e.1) < max_msg_size = ground arith in
          let (packets, run, (few, each)) =
            dump_loop-IsSent es header (done ++ 0 ∷ kv) [] (suc fuel) (suc counter) all
              (omega (arith, length-next done e)) (omega arith) in
          (
            packets,
            next_pair (suc fuel) counter header done junk e (map full es) fit fits ∙ run,
            (omega arith, each),
          )
      | inr no_room ↦
          let (packets, run, (few, each)) =
            dump_loop-IsSent es header (0 ∷ kv) [] fuel (suc counter) all
              (omega (arith, length-next [] e)) (omega arith) in
          let next =
            next_pair fuel counter header [] (done ++ junk) e (map full es) fit (omega arith)
            ∙ run in
          (
            done ∷ packets,
            dump_loop-sent (suc fuel) (suc counter) header done junk e (map full es) (ground arith)
                ∙ rw next refl,
            (omega arith, (small, each)),
          )
    ]

entries-IsSent :
    (es : Chain) (n fuel : ℕ)
    → AllPairs FitsAlone es
    → 2 * length es < fuel
    → Returns
        (dump_loop fuel (header_of n) 0 (map full es) (replicate max_msg_size 0) 0)
        (IsSent (length es))
entries-IsSent es n zero fit enough = absurd (omega arith)
entries-IsSent [] n (suc fuel) fit enough = (
  [] ∷ [],
  dump_loop-nil fuel 0 (header_of n) [] (replicate max_msg_size 0),
  (omega arith, (omega arith, tt)),
)
entries-IsSent (e ∷ es) n (suc fuel) (fit, all) enough =
    let buffer : List ℕ = replicate max_msg_size 0 in
    let places : length buffer ≡ max_msg_size = length-replicate {A = ℕ} max_msg_size 0 in
    let done = header_of n ++ (e.0 ++ 0 ∷ e.1) in
    let size : length done ≡ length e.0 + length e.1 + 5 = omega (
      arith,
      length-append (header_of n) (e.0 ++ 0 ∷ e.1),
      length-append e.0 (0 ∷ e.1),
      header-length n,
    ) in
    let junk = drop (length done) buffer in
    let (packets, run, (few, each)) =
      dump_loop-IsSent es (header_of n) done junk fuel 0 all (omega arith) (omega arith) in
    (
      packets,
      dump_loop-step fuel 0 (header_of n) buffer 0 e (map full es) (done ++ junk, length done)
            (omega arith) (add_pair-first n e buffer fit.1 (omega arith))
          ∙ run,
      (omega arith, each),
    )

-- A server whose valid table has n pairs, all strings that fit in a packet with its header, answers
-- the request for the table, when there is more fuel than twice n: it sends at most n + 1 packets,
-- none of them larger than a packet may be.
pub dump_node-IsSent :
    {t : Htable} (valid : IsValid t) (n fuel : ℕ)
    → ((q v : List ℕ) → get_htable_value t (some q) ≡ ok (some v) → FitsAlone q v)
    → get_htable_size t ≡ ok n
    → 2 * n < fuel
    → Returns (dump_node fuel t) (IsSent n)
unfolding dump_node
dump_node-IsSent {t} valid n fuel fit size enough =
    let es = entries valid.chains in
    let count : length es ≡ n =
      ok-inj (sym (ap get_htable_size valid.models ∙ size-table_of valid.chains) ∙ size) in
    let content = ap (get_htable_content true) valid.models ∙ content-table_of valid.chains in
    let all : read (length es) (map full es) ≡ ok (map full es) =
      ap (λ n. read n (map full es)) (sym (length-map es full)) ∙ read-length (map full es) in
    let (packets, run, sent) =
      entries-IsSent es (length es % 2 ^ 32) fuel (entries-AllPairs valid FitsAlone fit)
        (omega arith) in
    (packets, rw (content, ◌>>=◌, non_null, all) run, subst (λ n. IsSent n packets) count sent)
