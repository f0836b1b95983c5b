-- ===== src/Client/Dumps/Shifted.antt =====
-- What `parse_kv_pairs` makes of a second packet, which begins with a NUL.
use distributed_hash_table.Prelude.{
  ℕ, ◌+◌, ◌≤◌, List, [], ◌∷◌, ◌++◌, true, leb, length, replicate, length-append, length-replicate,
  arith, ◌≡◌, refl, Returns, ap, sym, ◌∙◌,
}
use distributed_hash_table.Text.{c_str, IsText}
use distributed_hash_table.HashTable.{KvPair, size_max}
use distributed_hash_table.HashTable.Chains.{Chain, full}
use distributed_hash_table.Server.Dump.{max_msg_size}
use distributed_hash_table.Client.Dumps.{store_pair, parse_byte, parse_bytes, parse_kv_pairs}
use distributed_hash_table.Client.Dumps.Packets.{joined, in_value, Pending, key_ended, value_read}
use distributed_hash_table.Client.Dumps.RoundTrip.{AllFit, store_pair-Pending, next_pair}

module _ (size room : ℕ) where
  -- The NUL behind a value that takes the last place of the list.
  last_value :
      (before after : List KvPair) (s : KvPair) (k v rest : List ℕ) (p : _)
      → IsText v
      → size ≡ length before + 1
      → (w : Pending size (before ++ s ∷ after) (length before) k v room p)
      → Returns (parse_bytes size p (0 ∷ rest)) λ r. r.0 ≡ true
  unfolding parse_bytes parse_byte
  last_value before after s k v rest p hv e w =
      let stored = store_pair-Pending size before after s k v room p hv w in
      let last : leb size (length before + 1) ≡ true = ground arith in
      let list = before ++ full (k, v) ∷ after in
      let p' = record (in_value w.key v (w.slot ∷ w.slots) list (length before)) {
        value = v ++ 0 ∷ w.slots;
      } in
      (
        (true, record p' { list_index = length before + 1 }),
        rw w.is_pending (rw (ap store_pair (sym w.is_pending) ∙ stored, last) refl),
        refl,
      )

  -- A key is read as the value of the pair before.
  shifted_pairs :
      (es : Chain) (e : List ℕ × List ℕ) (before slots : List KvPair) (key value : List ℕ)
      → AllFit room (e ∷ es)
      → length key ≡ room
      → length value ≡ room
      → length (e ∷ es) ≤ length slots
      → size ≡ length before + length (e ∷ es)
      → Returns
          (parse_bytes size
            (in_value key [] value (before ++ slots) (length before))
            (joined (e ∷ es)))
          λ r. r.0 ≡ true
  unfolding joined
  shifted_pairs es e before [] key value fit ek ev places n = absurd (omega arith)
  shifted_pairs [] e before (s ∷ slots) key value fit ek ev places n =
      let (p, w, run) =
        value_read size (before ++ s ∷ slots) (length before) e.0 key value (0 ∷ e.1) room fit.0
          fit.2 ek ev in
      let (r, run', full') =
        last_value before slots s (c_str key) e.0 e.1 p fit.0 (omega arith) w in
      (r, run ∙ run', full')
  shifted_pairs (d ∷ es) e before (s ∷ slots) key value fit ek ev places n =
      let rest = joined (d ∷ es) in
      let (p, w, run) =
        value_read size (before ++ s ∷ slots) (length before) e.0 key value (0 ∷ (e.1 ++ 0 ∷ rest))
          room fit.0 fit.2 ek ev in
      let stepped =
        next_pair size room before slots s (c_str key) e.0 p (e.1 ++ 0 ∷ rest) fit.0 (omega arith)
          w in
      let before' = before ++ full (c_str key, e.0) ∷ [] in
      let value' = e.0 ++ 0 ∷ w.slots in
      let len : length value' ≡ room = omega (
        arith,
        w.value_room,
        length-append e.0 (0 ∷ w.slots),
        length-append e.0 (w.slot ∷ w.slots),
      ) in
      let (key', is_key, ek', run') =
        key_ended size (before' ++ slots) (length before') e.1 w.key value' rest room fit.1 fit.3
          w.key_room in
      let (r, run'', full') =
        shifted_pairs es d before' slots key' value' fit.4 ek' len (omega arith)
          (omega (arith, length-append before (full (c_str key, e.0) ∷ []))) in
      (r, run ∙ stepped ∙ run' ∙ run'', full')

-- A packet that begins with a NUL, with as many pairs behind it as the list lacks, is refused.
pub parse_kv_pairs-shifted :
    (e : List ℕ × List ℕ) (es : Chain) (before slots : List KvPair) (size : ℕ)
    → AllFit max_msg_size (e ∷ es)
    → length (e ∷ es) ≤ length slots
    → size ≡ length before + length (e ∷ es)
    → Returns
        (parse_kv_pairs
          (0 ∷ joined (e ∷ es))
          (length before)
          (record { size = size; list = before ++ slots }))
        λ r. r.0 ≡ size_max
unfolding parse_kv_pairs
parse_kv_pairs-shifted e es before slots size fit places n =
    let buffer : List ℕ = replicate max_msg_size 0 in
    let size' : length buffer ≡ max_msg_size = length-replicate {A = ℕ} max_msg_size 0 in
    let (key', is_key, ek', run) =
      key_ended size (before ++ slots) (length before) [] buffer buffer (joined (e ∷ es))
        max_msg_size tt (omega arith) size' in
    let (r, run', refused) =
      shifted_pairs size max_msg_size es e before slots key' buffer fit ek' size' places n in
    ((size_max, record { size = size; list = r.1.list }), rw (run ∙ run', refused) refl, refl)
