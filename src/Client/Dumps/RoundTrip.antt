-- ===== src/Client/Dumps/RoundTrip.antt =====
-- The pairs of one packet are read back.
use distributed_hash_table.Prelude.{
  ℕ, ◌+◌, ◌<◌, ◌≤◌, List, [], ◌∷◌, ◌++◌, map, Bool, false, leb, ok, length, replicate, store-append,
  length-append, length-replicate, arith, ◌≡◌, refl, Returns, ap, sym, ◌∙◌,
}
use mathlib.Core.List.{append_assoc, append-nil}
use distributed_hash_table.Text.{c_str-append, IsText}
use distributed_hash_table.HashTable.{KvPair, create_kv_pair}
use distributed_hash_table.HashTable.Chains.{Chain, full}
use distributed_hash_table.Server.Dump.{max_msg_size}
use distributed_hash_table.Client.Dumps.{
  Parser, store_pair, parse_byte, parse_bytes, parse_kv_pairs,
}
use distributed_hash_table.Client.Dumps.Packets.{joined, in_key, in_value, Pending, pair_bytes}

-- Keys and values are strings that are shorter than a buffer.
abbrev pub AllFit : ℕ → Chain → Type 0
AllFit room [] = Unit
AllFit room (e ∷ es) =
    IsText e.0 × IsText e.1 × (length e.0 < room) × (length e.1 < room) × AllFit room es

pub store_pair-Pending :
    (size : ℕ) (before after : List KvPair) (s : KvPair) (k v : List ℕ) (room : ℕ) (p : Parser)
    → IsText v
    → (w : Pending size (before ++ s ∷ after) (length before) k v room p)
    → store_pair p
      ≡ ok
          (record (in_value w.key v
            (w.slot ∷ w.slots)
            (before ++ full (k, v) ∷ after)
            (length before)) { value = v ++ 0 ∷ w.slots })
unfolding store_pair create_kv_pair
store_pair-Pending size before after s k v room p hv w = rw (
  w.is_pending,
  store-append v w.slots w.slot 0,
  w.is_key,
  c_str-append v w.slots hv,
  store-append before after s (full (k, v)),
)

-- Behind the last byte: the pair that is left is stored, and all pairs stand in the list.
record Complete (before slots : List KvPair) (es : Chain) (r : Bool × Parser) : Type 0 where
  go_on : r.0 ≡ false
  stored : Parser
  rest : List KvPair
  run : store_pair r.1 ≡ ok stored
  pairs : stored.list ≡ before ++ (map full es ++ rest)
  count : r.1.list_index + 1 ≡ length before + length es
  places : length slots ≡ length es + length rest

module _ (size room : ℕ) where
  last_pair :
      (before after : List KvPair) (s : KvPair) (e : List ℕ × List ℕ) (key value : List ℕ)
      → AllFit room (e ∷ [])
      → length key ≡ room
      → length value ≡ room
      → Returns
          (parse_bytes size
            (in_key [] key value (before ++ s ∷ after) (length before))
            (joined (e ∷ [])))
          (Complete before (s ∷ after) (e ∷ []))
  unfolding joined parse_bytes
  last_pair before after s e key value fit ek ev =
      let (p, w, run) =
        pair_bytes size (before ++ s ∷ after) (length before) e.0 e.1 key value [] room fit.0 fit.1
          fit.2 fit.3 ek ev in
      let stored = store_pair-Pending size before after s e.0 e.1 room p fit.1 w in
      (
        (false, p),
        rw append-nil at run,
        record {
          go_on = refl;
          stored = _;
          rest = after;
          run = stored;
          pairs = refl;
          count = rw w.is_pending (omega arith);
          places = omega arith;
        },
      )

  -- The parser behind a NUL that ends a value.
  pub next_pair :
      (before after : List KvPair) (s : KvPair) (k v : List ℕ) (p : Parser) (rest : List ℕ)
      → IsText v
      → length before + 1 < size
      → (w : Pending size (before ++ s ∷ after) (length before) k v room p)
      → parse_bytes size p (0 ∷ rest)
        ≡ parse_bytes size
            (in_key [] w.key
              (v ++ 0 ∷ w.slots)
              ((before ++ full (k, v) ∷ []) ++ after)
              (length (before ++ full (k, v) ∷ [])))
            rest
  unfolding parse_bytes
  next_pair before after s k v p rest hv more w =
      let stored = store_pair-Pending size before after s k v room p hv w in
      let few : leb size (length before + 1) ≡ false = ground arith in
      let list' : before ++ full (k, v) ∷ after ≡ (before ++ full (k, v) ∷ []) ++ after =
        sym (append_assoc before (full (k, v) ∷ []) after) in
      let index' : length before + 1 ≡ length (before ++ full (k, v) ∷ []) =
        omega (arith, length-append before (full (k, v) ∷ [])) in
      let step : parse_byte size p 0
          ≡ ok (
            false,
            record (in_key [] w.key (v ++ 0 ∷ w.slots) (before ++ full (k, v) ∷ after)
                (length before)) { list_index = length before + 1 },
          ) =
        unfold parse_byte in
        rw w.is_pending (rw (ap store_pair (sym w.is_pending) ∙ stored, few) refl) in
      rw (step, list', index') refl

  all_pairs :
      (es : Chain) (e : List ℕ × List ℕ) (before slots : List KvPair) (key value : List ℕ)
      → AllFit room (e ∷ es)
      → length key ≡ room
      → length value ≡ room
      → length (e ∷ es) ≤ length slots
      → length before + length (e ∷ es) ≤ size
      → Returns
          (parse_bytes size
            (in_key [] key value (before ++ slots) (length before))
            (joined (e ∷ es)))
          (Complete before slots (e ∷ es))
  unfolding joined
  all_pairs es e before [] key value fit ek ev room_left n = absurd (omega arith)
  all_pairs [] e before (s ∷ slots) key value fit ek ev room_left n =
      last_pair before slots s e key value fit ek ev
  all_pairs (d ∷ es) e before (s ∷ slots) key value fit ek ev room_left n =
      let (p, w, run) =
        pair_bytes size (before ++ s ∷ slots) (length before) e.0 e.1 key value
          (0 ∷ joined (d ∷ es)) room fit.0 fit.1 fit.2 fit.3 ek ev in
      let stepped = next_pair before slots s e.0 e.1 p (joined (d ∷ es)) fit.1 (omega arith) w in
      let (r, run', c) =
        all_pairs es d (before ++ full e ∷ []) slots w.key (e.1 ++ 0 ∷ w.slots) fit.4 w.key_room
          (omega (
            arith,
            w.value_room,
            length-append e.1 (0 ∷ w.slots),
            length-append e.1 (w.slot ∷ w.slots),
          ))
          (omega arith) (omega (arith, length-append before (full e ∷ []))) in
      (
        r,
        run ∙ stepped ∙ run',
        record {
          go_on = c.go_on;
          stored = c.stored;
          rest = c.rest;
          run = c.run;
          pairs = c.pairs ∙ append_assoc before (full e ∷ []) (map full (d ∷ es) ++ c.rest);
          count = omega (arith, c.count, length-append before (full e ∷ []));
          places = omega (arith, c.places);
        },
      )

-- A packet of one pair or more, as the server joins them, whose keys and values are shorter than the
-- largest message, is read back: the number of its pairs is returned, and the list begins with
-- them, when it has that many places and no fewer are expected.
pub parse_kv_pairs-joined :
    (e : List ℕ × List ℕ) (es : Chain) (size : ℕ) (slots : List KvPair)
    → AllFit max_msg_size (e ∷ es)
    → length (e ∷ es) ≤ length slots
    → length (e ∷ es) ≤ size
    → Returns (parse_kv_pairs (joined (e ∷ es)) 0 (record { size = size; list = slots })) λ r.
      (r.0 ≡ length (e ∷ es))
      × (r.1.size ≡ size)
      × (rest : List KvPair) × (r.1.list ≡ map full (e ∷ es) ++ rest)
      × (length slots ≡ length (e ∷ es) + length rest)
unfolding parse_kv_pairs
parse_kv_pairs-joined e es size slots fit places all =
    let buffer : List ℕ = replicate max_msg_size 0 in
    let size' : length buffer ≡ max_msg_size = length-replicate {A = ℕ} max_msg_size 0 in
    let (r, run, c) =
      all_pairs size max_msg_size es e [] slots buffer buffer fit size' size' places
        (omega arith) in
    (
      (r.1.list_index + 1, record { size = size; list = c.stored.list }),
      rw (run, c.go_on, c.run),
      (omega (arith, c.count), refl, c.rest, c.pairs, c.places),
    )
