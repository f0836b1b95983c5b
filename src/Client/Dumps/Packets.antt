-- ===== src/Client/Dumps/Packets.antt =====
-- What `parse_kv_pairs` makes of one packet.
use distributed_hash_table.Prelude.{
  ℕ, ◌+◌, ◌<◌, ◌≤◌, List, [], ◌∷◌, ◌++◌, true, false, ◌==◌, length, store-append, length-append,
  arith, ◌≡◌, refl, ap, sym, ◌∙◌, subst,
}
use mathlib.Core.List.{append_assoc, append-nil}
use distributed_hash_table.Text.{c_str, c_str-append, IsText}
use distributed_hash_table.HashTable.{KvPair}
use distributed_hash_table.HashTable.Chains.{Chain}
use distributed_hash_table.Client.Dumps.{Parser, parse_bytes}

-- A packet: NUL bytes stand between keys and values, and between pairs.
unfoldable pub joined : Chain → List ℕ
joined [] = []
joined (e ∷ []) = e.0 ++ 0 ∷ e.1
joined (e ∷ d ∷ es) = e.0 ++ 0 ∷ (e.1 ++ 0 ∷ joined (d ∷ es))

abbrev pub in_key : List ℕ → List ℕ → List ℕ → List KvPair → ℕ → Parser
in_key read slots value list list_index = record {
  parsing_key = true;
  key = read ++ slots;
  key_index = length read;
  value = value;
  value_index = 0;
  list = list;
  list_index = list_index;
}

abbrev pub in_value : List ℕ → List ℕ → List ℕ → List KvPair → ℕ → Parser
in_value key read slots list list_index = record {
  parsing_key = false;
  key = key;
  key_index = 0;
  value = read ++ slots;
  value_index = length read;
  list = list;
  list_index = list_index;
}

module _ (size : ℕ) (list : List KvPair) (i : ℕ) where
  one_more-key :
      (read slots value : List ℕ) (b : ℕ)
      → in_key (read ++ b ∷ []) slots value list i
        ≡ record (in_key read (b ∷ slots) value list i) { key_index = length read + 1 }
  one_more-key read slots value b =
      let bytes : (read ++ b ∷ []) ++ slots ≡ read ++ b ∷ slots =
        append_assoc read (b ∷ []) slots in
      let size' : length (read ++ b ∷ []) ≡ length read + 1 =
        omega (arith, length-append read (b ∷ [])) in
      cc (bytes, size')

  one_more-value :
      (key read slots : List ℕ) (b : ℕ)
      → in_value key (read ++ b ∷ []) slots list i
        ≡ record (in_value key read (b ∷ slots) list i) { value_index = length read + 1 }
  one_more-value key read slots b =
      let bytes : (read ++ b ∷ []) ++ slots ≡ read ++ b ∷ slots =
        append_assoc read (b ∷ []) slots in
      let size' : length (read ++ b ∷ []) ≡ length read + 1 =
        omega (arith, length-append read (b ∷ [])) in
      cc (bytes, size')

  key_bytes :
      (k read slots value rest : List ℕ)
      → IsText k
      → length k ≤ length slots
      → (slots' : List ℕ) × (length slots ≡ length k + length slots')
        × (parse_bytes size (in_key read slots value list i) (k ++ rest)
            ≡ parse_bytes size (in_key (read ++ k) slots' value list i) rest)
  unfolding parse_bytes
  key_bytes [] read slots value rest h fits = (slots, omega arith, rw append-nil refl)
  key_bytes (b ∷ k) read [] value rest h fits = absurd (omega arith)
  key_bytes (b ∷ k) read (s ∷ slots) value rest h fits =
      let (slots', size', run) = key_bytes k (read ++ b ∷ []) slots value rest h.1 (omega arith) in
      let text : b == 0 ≡ false = ground arith in
      (
        slots',
        omega arith,
        rw (text, store-append read slots s b)
            (ap (λ p. parse_bytes size p (k ++ rest)) (sym (one_more-key read slots value b))
              ∙ run
              ∙ ap (λ r. parse_bytes size (in_key r slots' value list i) rest)
                  (append_assoc read (b ∷ []) k)),
      )

  value_bytes :
      (v key read slots rest : List ℕ)
      → IsText v
      → length v ≤ length slots
      → (slots' : List ℕ) × (length slots ≡ length v + length slots')
        × (parse_bytes size (in_value key read slots list i) (v ++ rest)
            ≡ parse_bytes size (in_value key (read ++ v) slots' list i) rest)
  unfolding parse_bytes
  value_bytes [] key read slots rest h fits = (slots, omega arith, rw append-nil refl)
  value_bytes (b ∷ v) key read [] rest h fits = absurd (omega arith)
  value_bytes (b ∷ v) key read (s ∷ slots) rest h fits =
      let (slots', size', run) = value_bytes v key (read ++ b ∷ []) slots rest h.1 (omega arith) in
      let text : b == 0 ≡ false = ground arith in
      (
        slots',
        omega arith,
        rw (text, store-append read slots s b)
            (ap (λ p. parse_bytes size p (v ++ rest)) (sym (one_more-value key read slots b))
              ∙ run
              ∙ ap (λ r. parse_bytes size (in_value key r slots' list i) rest)
                  (append_assoc read (b ∷ []) v)),
      )

  -- The parser behind a pair whose bytes are read but not stored.
  pub record Pending (k v : List ℕ) (room : ℕ) (p : Parser) : Type 0 where
    pub key : List ℕ
    pub slot : ℕ
    pub slots : List ℕ
    pub is_key : c_str key ≡ k
    pub key_room : length key ≡ room
    pub value_room : length (v ++ slot ∷ slots) ≡ room
    pub is_pending : p ≡ in_value key v (slot ∷ slots) list i

  -- The NUL behind a key.
  pub key_ended :
      (k key value rest : List ℕ) (room : ℕ)
      → IsText k
      → length k < room
      → length key ≡ room
      → (key' : List ℕ) × (c_str key' ≡ k)
        × (length key' ≡ room)
        × (parse_bytes size (in_key [] key value list i) (k ++ 0 ∷ rest)
            ≡ parse_bytes size (in_value key' [] value list i) rest)
  unfolding parse_bytes
  key_ended k key value rest room hk fk ek =
      let (slots', e, run) = key_bytes k [] key value (0 ∷ rest) hk (omega arith) in
      elim slots'
          as (λ l.
            length key ≡ length k + length l
            → parse_bytes size (in_key [] key value list i) (k ++ 0 ∷ rest)
              ≡ parse_bytes size (in_key k l value list i) (0 ∷ rest)
            → (key' : List ℕ) × (c_str key' ≡ k)
              × (length key' ≡ room)
              × (parse_bytes size (in_key [] key value list i) (k ++ 0 ∷ rest)
                  ≡ parse_bytes size (in_value key' [] value list i) rest)) [
                    | [] ↦ λ len go. absurd (omega arith)
                    | ◌∷◌ s l ↦ λ len go. (
                      k ++ 0 ∷ l,
                      c_str-append k l hk,
                      omega (arith, length-append k (0 ∷ l)),
                      go ∙ rw (store-append k l s 0) refl,
                    )
                  ]
        e run

  pub value_read :
      (v key value rest : List ℕ) (room : ℕ)
      → IsText v
      → length v < room
      → length key ≡ room
      → length value ≡ room
      → (p : Parser) × Pending (c_str key) v room p
        × (parse_bytes size (in_value key [] value list i) (v ++ rest) ≡ parse_bytes size p rest)
  value_read v key value rest room hv fv ek ev =
      let (left, e, run) = value_bytes v key [] value rest hv (omega arith) in
      elim left
          as (λ l.
            length value ≡ length v + length l
            → parse_bytes size (in_value key [] value list i) (v ++ rest)
              ≡ parse_bytes size (in_value key v l list i) rest
            → (p : Parser) × Pending (c_str key) v room p
              × (parse_bytes size (in_value key [] value list i) (v ++ rest)
                  ≡ parse_bytes size p rest)) [
                    | [] ↦ λ len go. absurd (omega arith)
                    | ◌∷◌ x xs ↦ λ len go. (
                      in_value key v (x ∷ xs) list i,
                      record {
                        key = key;
                        slot = x;
                        slots = xs;
                        is_key = refl;
                        key_room = ek;
                        value_room = omega (arith, length-append v (x ∷ xs));
                        is_pending = refl;
                      },
                      go,
                    )
                  ]
        e run

  pub pair_bytes :
      (k v key value rest : List ℕ) (room : ℕ)
      → IsText k
      → IsText v
      → length k < room
      → length v < room
      → length key ≡ room
      → length value ≡ room
      → (p : Parser) × Pending k v room p
        × (parse_bytes size (in_key [] key value list i) (k ++ 0 ∷ (v ++ rest))
            ≡ parse_bytes size p rest)
  pair_bytes k v key value rest room hk hv fk fv ek ev =
      let (key', is_key, ek', run) = key_ended k key value (v ++ rest) room hk fk ek in
      let (p, pending, run') = value_read v key' value rest room hv fv ek' ev in
      (p, subst (λ k. Pending k v room p) is_key pending, run ∙ run')
