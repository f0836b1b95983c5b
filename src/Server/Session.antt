-- ===== src/Server/Session.antt =====
-- What a client of the server can rely on: puts, gets and the bytes that they carry.
use distributed_hash_table.Prelude.{
  ℕ, suc, ◌+◌, ◌<◌, ◌≤◌, ◌^◌, List, [], ◌∷◌, ◌++◌, Bool, true, false, if◌then◌else◌, Option, none,
  some, ok, length, take, map, ◌==◌, ltb, arith, ◌≡◌, refl, Returns, length-append, read-append,
  read-take, ap,
}
use mathlib.Core.List.{append_assoc}
use distributed_hash_table.Text.{str_eq, IsText, c_str, c_str-append, c_str-take, strlen-append}
use distributed_hash_table.HashTable.{Htable, get_htable_value}
use distributed_hash_table.HashTable.Tables.{
  IsValid, table_of, written, add-eq-written, written-IsValid, get-written,
}
use distributed_hash_table.NetworkUtils.{find_nul}
use distributed_hash_table.NetworkUtils.RoundTrip.{parse_put_request-append, find_nul-append}
use distributed_hash_table.Server.{handle_put, handle_get, handle_message}
use distributed_hash_table.Server.Dump.{max_msg_size, max_msg_elem_size}

-- The value that the server stores when `stray` is the byte behind the request in its buffer.
abbrev pub with_stray : List ℕ → ℕ → List ℕ
with_stray value stray = if stray == 0 then value else value ++ stray ∷ []

c_str-stray :
    (value : List ℕ) (stray : ℕ)
    → IsText value
    → c_str ((value ++ stray ∷ []) ++ 0 ∷ []) ≡ with_stray value stray
unfolding c_str
c_str-stray [] stray h = ground arith
c_str-stray (b ∷ value) stray h = ground (arith, c_str-stray value stray)

module _ {t : Htable} (valid : IsValid t) (key value : List ℕ) (hk : IsText key)
    (hv : IsText value) where
  put-Returns :
      (stray : ℕ) (m : List ℕ)
      → length (key ++ 0 ∷ value) < 2 ^ 64
      → Returns
          (handle_put true t ((key ++ 0 ∷ value) ++ stray ∷ m) (length (key ++ 0 ∷ value)))
          λ r.
            (r.1 ≡ [] ∷ [])
            × IsValid r.0
            × ((q : List ℕ)
                → get_htable_value r.0 (some q) ≡ (
                    if str_eq key q
                    then ok (some (with_stray value stray))
                    else get_htable_value t (some q)))
  unfolding handle_put
  put-Returns stray m small =
      let stored = with_stray value stray in
      (
        (table_of (written valid.chains key stored), [] ∷ []),
        rw (
          append_assoc key (0 ∷ value) (stray ∷ m),
          parse_put_request-append key value stray m hk small,
          c_str-append key [] hk,
          c_str-stray value stray hv,
          add-eq-written valid key stored,
        ),
        (refl, written-IsValid valid key stored, get-written valid key stored),
      )

pub find_nul-IsText : (key m : List ℕ) → IsText key → find_nul (length key) (key ++ m) ≡ ok none
unfolding find_nul
find_nul-IsText [] m h = refl
find_nul-IsText (b ∷ key) m h = ground (arith, find_nul-IsText key m)

module _ {t : Htable} (valid : IsValid t) (fuel : ℕ) (key value : List ℕ) (hk : IsText key)
    (hv : IsText value) where
  -- When memory is not short, a put request that fits in the server's buffer, of a key and a value
  -- that are strings and not both empty, is acknowledged by an empty datagram, and the table stays
  -- valid. The key gets the value, with the byte that stands behind the request at its end unless
  -- that is NUL, and every other key keeps what it had.
  pub handle_message-put :
      (stray : ℕ) (m beyond : List ℕ)
      → 0 < length key + length value
      → length key + length value < max_msg_size
      → Returns (handle_message fuel true t (key ++ 0 ∷ value) (stray ∷ m) beyond) λ r.
        (r.1 ≡ [] ∷ [])
        × IsValid r.0
        × ((q : List ℕ)
            → get_htable_value r.0 (some q) ≡ (
                if str_eq key q
                then ok (some (with_stray value stray))
                else get_htable_value t (some q)))
  unfolding handle_message
  handle_message-put stray m beyond pos fits =
      let n : length (key ++ 0 ∷ value) ≡ length key + suc (length value) =
        length-append key (0 ∷ value) in
      let fitting : ltb max_msg_size (length (key ++ 0 ∷ value)) ≡ false = ground arith in
      let some_bytes : length (key ++ 0 ∷ value) == 0 ≡ false = ground arith in
      let more_bytes : length (key ++ 0 ∷ value) == 1 ≡ false = ground arith in
      let nul : find_nul (length (key ++ 0 ∷ value)) ((key ++ 0 ∷ value) ++ stray ∷ m)
          ≡ ok (some (0 ∷ (value ++ stray ∷ m))) =
        rw (append_assoc key (0 ∷ value) (stray ∷ m))
          (find_nul-append key (value ++ stray ∷ m) (length (key ++ 0 ∷ value)) hk (omega arith)) in
      let (r, run, p) = put-Returns valid key value hk hv stray m (omega arith) in
      (r, rw (fitting, some_bytes, nul, more_bytes) run, p)

-- Every answer that fits: a value is a string shorter than what the server sends.
abbrev pub IsSendable : Option (List ℕ) → Type 0
IsSendable none = Unit
IsSendable (some value) = IsText value × (length value < max_msg_elem_size)

-- The datagrams that stand for the answer.
abbrev pub Answers : Option (List ℕ) → List (List ℕ) → Type 0
Answers none sent = sent ≡ (0 ∷ []) ∷ []
Answers (some value) sent = map c_str sent ≡ value ∷ []

get-Returns :
    (t : Htable) (key m beyond : List ℕ) (old : Option (List ℕ))
    → IsText key
    → IsSendable old
    → max_msg_elem_size ≤ length beyond
    → get_htable_value t (some key) ≡ ok old
    → Returns (handle_get t (key ++ 0 ∷ m) beyond) λ r. (r.0 ≡ t) × Answers old r.1
unfolding handle_get
get-Returns t key m beyond none hk hv far found =
    ((t, (0 ∷ []) ∷ []), rw (strlen-append key m hk, read-append, found), (refl, refl))
get-Returns t key m beyond (some value) hk hv far found = (
  (t, take max_msg_elem_size (value ++ 0 ∷ beyond) ∷ []),
  rw (
    strlen-append key m hk,
    read-append,
    found,
    read-take max_msg_elem_size (value ++ 0 ∷ beyond)
        (omega (arith, length-append value (0 ∷ beyond))),
  ),
  (refl, ap (λ s. s ∷ []) (c_str-take value beyond max_msg_elem_size hv.0 hv.1)),
)

-- A request for a key that fits in the server's buffer, with a NUL behind it there, changes no
-- table and is answered by one datagram: one whose string is the key's value, when that is shorter
-- than what the server sends, or a single NUL when the table does not map the key.
pub handle_message-get :
    (fuel : ℕ) (room : Bool) (t : Htable) (key m beyond : List ℕ) (old : Option (List ℕ))
    → IsText key
    → 0 < length key
    → length key ≤ max_msg_size
    → IsSendable old
    → max_msg_elem_size ≤ length beyond
    → get_htable_value t (some key) ≡ ok old
    → Returns (handle_message fuel room t key (0 ∷ m) beyond) λ r. (r.0 ≡ t) × Answers old r.1
unfolding handle_message
handle_message-get fuel room t key m beyond old hk pos fits hv far found =
    let fitting : ltb max_msg_size (length key) ≡ false = ground arith in
    let some_bytes : length key == 0 ≡ false = ground arith in
    let (r, run, p) = get-Returns t key m beyond old hk hv far found in
    (r, rw (fitting, some_bytes, find_nul-IsText key (0 ∷ m) hk) run, p)
