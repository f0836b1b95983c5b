-- ===== src/Client/Dumps/Sessions.antt =====
-- What pps-dump-node lists of a server that has served puts and gets.
use distributed_hash_table.Prelude.{
  ℕ, ◌+◌, ◌*◌, ◌<◌, ◌≤◌, List, [], ◌∷◌, ◌++◌, map, true, some, ok, ◌>>=◌, length, length-append,
  arith, ◌≡◌, refl, Returns, ok-inj, ap, sym, ◌∙◌, subst, Bool-cases, Option-cases, inl, inr,
}
use distributed_hash_table.Text.{str_eq, str_eq_iff, str_eq_comm, IsText}
use distributed_hash_table.HashTable.{Htable, KvPair, get_htable_content}
use distributed_hash_table.HashTable.Chains.{Chain, full, find, count}
use distributed_hash_table.HashTable.Tables.{get-eq-find}
use distributed_hash_table.HashTable.Content.{entries, entries-IsPlaced, content-table_of}
use distributed_hash_table.HashTable.Enumeration.{
  find_pair, count_pair, find_pair-full, count_pair-full,
}
use distributed_hash_table.HashTable.Distinct.{
  IsDistinct, occurrences, count-absent, AllPairs, entries-AllPairs, length-count,
}
use distributed_hash_table.Server.{Received, serve_loop}
use distributed_hash_table.Server.Dump.{Datagram, max_msg_size, header_of, dump_node}
use distributed_hash_table.Server.Refinement.{
  Request, put, get, Map, after, after_all, AllCarry, Holds, serve_loop-Holds,
}
use distributed_hash_table.Client.Dumps.{read_dump}
use distributed_hash_table.Client.Dumps.Packets.{joined}
use distributed_hash_table.Client.Dumps.RoundTrip.{AllFit}
use distributed_hash_table.Client.Dumps.Content.{dump_node-read_dump}

-- A key and a value of at most `limit` bytes each.
abbrev pub IsShort : ℕ → List ℕ → List ℕ → Type 0
IsShort limit key value = IsText key × IsText value × (length key ≤ limit) × (length value ≤ limit)

-- The map has short keys from a list, with short values.
abbrev pub IsWithin : ℕ → List (List ℕ) → Map → Type 0
IsWithin limit keys f = (q v : List ℕ) → f q ≡ some v → IsShort limit q v × (0 < occurrences q keys)

-- The keys and values that are put have at most `limit` bytes.
abbrev pub AllShort : ℕ → List Request → Type 0
AllShort limit [] = Unit
AllShort limit (put key value ∷ requests) =
    (length key ≤ limit) × (length value ≤ limit) × AllShort limit requests
AllShort limit (get key ∷ requests) = AllShort limit requests

-- The keys of the puts, the last one first, before some others.
unfoldable pub put_keys : List (List ℕ) → List Request → List (List ℕ)
put_keys keys [] = keys
put_keys keys (put key value ∷ requests) = put_keys (key ∷ keys) requests
put_keys keys (get key ∷ requests) = put_keys keys requests

after-IsWithin :
    (limit : ℕ) (keys : List (List ℕ)) (f : Map) (key value : List ℕ)
    → IsShort limit key value
    → IsWithin limit keys f
    → IsWithin limit (key ∷ keys) (after f (put key value))
unfolding after occurrences
after-IsWithin limit keys f key value short within q v found = elim (Bool-cases (str_eq key q)) [
  | inl same ↦
      let k : key ≡ q = (str_eq_iff key q).0 same in
      let stored : value ≡ v = cc (rw same at found) in
      (
        subst (IsShort limit q) stored (subst (λ k. IsShort limit k value) k short),
        ground (arith, same, str_eq_comm key q),
      )
  | inr other ↦ let (short', among) = within q v (rw other at found) in (short', omega arith)
]

after_all-IsWithin :
    (limit : ℕ) (keys : List (List ℕ)) (f : Map) (requests : List Request)
    (messages : List Received)
    → AllCarry requests messages
    → AllShort limit requests
    → IsWithin limit keys f
    → IsWithin limit (put_keys keys requests) (after_all f requests)
unfolding after_all put_keys after
after_all-IsWithin limit keys f [] messages all short within = within
after_all-IsWithin limit keys f (r ∷ requests) [] all short within = absurd all
after_all-IsWithin limit keys f (put key value ∷ requests) (m ∷ messages) (fit, _, all) short
      within =
    after_all-IsWithin limit (key ∷ keys) (after f (put key value)) requests messages all short.2
      (after-IsWithin limit keys f key value (fit.0, fit.1, short.0, short.1) within)
after_all-IsWithin limit keys f (get key ∷ requests) (m ∷ messages) (fit, _, all) short within =
    after_all-IsWithin limit keys f requests messages all short within

AllShort-AllFit :
    (limit : ℕ) (es : Chain)
    → limit < max_msg_size
    → AllPairs (IsShort limit) es
    → AllFit max_msg_size es
AllShort-AllFit limit [] small all = tt
AllShort-AllFit limit (e ∷ es) small (first, all) =
    (first.0, first.1, omega arith, omega arith, AllShort-AllFit limit es small all)

joined-short :
    (limit : ℕ) (es : Chain)
    → AllPairs (IsShort limit) es
    → length (joined es) ≤ length es * (2 * limit + 2)
unfolding joined
joined-short limit [] all = omega arith
joined-short limit (e ∷ []) (first, all) = omega (arith, length-append e.0 (0 ∷ e.1))
joined-short limit (e ∷ d ∷ es) (first, all) =
    let rest = joined-short limit (d ∷ es) all in
    omega (
      arith,
      rest,
      length-append e.0 (0 ∷ (e.1 ++ 0 ∷ joined (d ∷ es))),
      length-append e.1 (0 ∷ joined (d ∷ es)),
    )

-- The client reads the map: every key, once, with its value.
abbrev pub IsDumpOf : Map → List Datagram → Type 0
IsDumpOf f packets = Returns (read_dump packets) λ o.
    (l : List KvPair) × (o ≡ some l)
    × ((q : List ℕ) → find_pair q l ≡ f q)
    × ((q : List ℕ) → count_pair q l ≤ 1)

count-occurrences :
    (c : Chain) (q : List ℕ) (keys : List (List ℕ))
    → IsDistinct c
    → ((v : List ℕ) → find q c ≡ some v → 0 < occurrences q keys)
    → count q c ≤ occurrences q keys
count-occurrences c q keys only among = elim (Option-cases (find q c)) [
  | inl absent ↦ omega (arith, count-absent c q absent)
  | inr (v, found) ↦ omega (arith, only q, among v found)
]

IsDumpOf-entries :
    (t : Htable) (f : Map) (es : Chain) (k v : List ℕ) (fuel : ℕ)
    → get_htable_content true t ≡ ok (some (record { size = length es; list = map full es }))
    → ((q : List ℕ) → find q es ≡ f q)
    → IsDistinct es
    → AllFit max_msg_size es
    → length (joined es) + 4 ≤ max_msg_size
    → find k es ≡ some v
    → length es < fuel
    → Returns (dump_node fuel t) (IsDumpOf f)
IsDumpOf-entries t f [] k v fuel content found only fit room there enough =
    unfold find in absurd (cc there)
IsDumpOf-entries t f (e ∷ es) k v fuel content found only fit room there enough =
    let size : length (header_of (length (e ∷ es)) ++ joined (e ∷ es)) ≤ max_msg_size =
      unfold header_of in omega arith in
    let (packets, run, (_, reads)) = dump_node-read_dump t e es fuel content fit size enough in
    (
      packets,
      run,
      (
        some (map full (e ∷ es)),
        reads,
        (
          map full (e ∷ es),
          refl,
          λ q. find_pair-full q (e ∷ es) ∙ found q,
          λ q. rw count_pair-full (only q),
        ),
      ),
    )

occurrences-length : (q : List ℕ) (keys : List (List ℕ)) → occurrences q keys ≤ length keys
unfolding occurrences
occurrences-length q [] = omega arith
occurrences-length q (k ∷ keys) = ground (arith, occurrences-length q keys)

-- A server whose table holds a map that is not empty, with keys from a list, all short enough for
-- the list to fit in one packet, sends one to the client, when there is more fuel than keys.
dump_node-Holds :
    (t : Htable) (f : Map) (limit : ℕ) (keys : List (List ℕ)) (k v : List ℕ) (fuel : ℕ)
    → Holds t f
    → IsWithin limit keys f
    → f k ≡ some v
    → length keys * (2 * limit + 2) + 4 ≤ max_msg_size
    → length keys < fuel
    → Returns (dump_node fuel t) (IsDumpOf f)
dump_node-Holds t f limit keys k v fuel holds within there room enough =
    let valid = holds.valid in
    let es = entries valid.chains in
    let placed = λ (q : List ℕ). entries-IsPlaced valid.chains q valid.placed in
    let found : (q : List ℕ) → find q es ≡ f q =
      λ q. (placed q).0 ∙ ok-inj (sym (get-eq-find valid q) ∙ holds.reads q) in
    let only : IsDistinct es = λ q. (placed q).1 in
    let content = ap (get_htable_content true) valid.models ∙ content-table_of valid.chains in
    let all =
      entries-AllPairs valid (IsShort limit)
        λ q w e. (within q w (ok-inj (sym (holds.reads q) ∙ e))).0 in
    let few =
      length-count keys es
        λ q. count-occurrences es q keys only (λ w e. (within q w (sym (found q) ∙ e)).1) in
    let some_key = (within k v there).1 in
    let fits : limit < max_msg_size = grind (arith, occurrences-length k keys, some_key, room) in
    let short : length es * (2 * limit + 2) ≤ length keys * (2 * limit + 2) = grind (arith, few) in
    IsDumpOf-entries t f es k v fuel content found only (AllShort-AllFit limit es fits all)
      (omega (arith, joined-short limit es all)) (found k ∙ there) (omega arith)

-- A server holds a map with keys from a list and answers puts and gets of keys and values that are
-- strings and not too long. Memory is not short, a NUL is behind each message in the buffer, and
-- there is enough memory to read behind a value. All keys and values, also those that are put, have
-- at most `limit` bytes, a packet has room for as many such pairs as there are keys in the list and
-- puts, there is more fuel than that, and some key has a value in the end. Then pps-dump-node reads
-- from the server's packets a list in which every key has the value that the map has after the puts,
-- and no key occurs twice.
pub serve_loop-IsDumpOf :
    (t : Htable) (f : Map) (limit : ℕ) (keys : List (List ℕ)) (requests : List Request)
    (messages : List Received) (k v : List ℕ) (fuel : ℕ)
    → Holds t f
    → IsWithin limit keys f
    → AllCarry requests messages
    → AllShort limit requests
    → after_all f requests k ≡ some v
    → length (put_keys keys requests) * (2 * limit + 2) + 4 ≤ max_msg_size
    → length (put_keys keys requests) < fuel
    → Returns
        (serve_loop fuel t messages >>= λ r. dump_node fuel r.0)
        (IsDumpOf (after_all f requests))
serve_loop-IsDumpOf t f limit keys requests messages k v fuel holds within all short there room
      enough =
    let (r, run, (holds', _)) = serve_loop-Holds fuel t f requests messages holds all in
    let (packets, sent, reads) =
      dump_node-Holds r.0 (after_all f requests) limit (put_keys keys requests) k v fuel holds'
        (after_all-IsWithin limit keys f requests messages all short within) there room enough in
    (packets, rw run sent, reads)
