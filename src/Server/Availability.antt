-- ===== src/Server/Availability.antt =====
-- The server's loop on messages of any bytes, apart from a request for the whole table.
use distributed_hash_table.Prelude.{
  ℕ, zero, suc, ◌+◌, ◌<◌, ◌≤◌, List, [], ◌∷◌, ◌++◌, map, true, false, ◌==◌, ltb, Option, none, some,
  Run, ok, length, length-append, read-append, read-take, take, arith, ◌≡◌, ◌≢◌, ◌⊎◌, refl, Returns,
  ap, sym, subst, ◌∙◌, inl, inr,
}
use mathlib.Core.List.{append_assoc}
use distributed_hash_table.Text.{IsText, c_str, strlen-append}
use distributed_hash_table.HashTable.{Htable, get_htable_value}
use distributed_hash_table.HashTable.Chains.{find}
use distributed_hash_table.HashTable.Tables.{
  IsValid, table_of, written, chain_of, add-eq-written, written-IsValid, get-eq-find,
}
use distributed_hash_table.NetworkUtils.{find_nul}
use distributed_hash_table.NetworkUtils.RoundTrip.{find_nul-append, parse_put_request-append}
use distributed_hash_table.Server.{
  Received, Round, handle_put, handle_get, handle_message, serve_loop,
}
use distributed_hash_table.Server.Dump.{Datagram, max_msg_size, max_msg_elem_size}
use distributed_hash_table.Server.Session.{find_nul-IsText}

-- A message starts with a string that a NUL ends, or is a string.
first_nul :
    (m : List ℕ)
    → IsText m ⊎ ((key : List ℕ) × (rest : List ℕ) × (m ≡ key ++ 0 ∷ rest) × IsText key)
first_nul [] = inl tt
first_nul (zero ∷ m) = inr ([], m, refl, tt)
first_nul (suc b ∷ m) = elim (first_nul m) [
  | inl text ↦ inl (omega arith, text)
  | inr (key, rest, split, text) ↦
      inr (suc b ∷ key, rest, ap (λ s. suc b ∷ s) split, (omega arith, text))
]

append-IsText : (a b : List ℕ) → IsText a → IsText b → IsText (a ++ b)
append-IsText [] b ha hb = hb
append-IsText (n ∷ a) b ha hb = (ha.0, append-IsText a b ha.1 hb)

first_byte_of : (s rest : List ℕ) → (b : ℕ) × (m : List ℕ) × (s ++ 0 ∷ rest ≡ b ∷ m)
first_byte_of [] rest = (0, rest, refl)
first_byte_of (b ∷ s) rest = (b, s ++ 0 ∷ rest, refl)

more_than_nul :
    (key value : List ℕ) → key ++ 0 ∷ value ≢ 0 ∷ [] → length (key ++ 0 ∷ value) == 1 ≡ false
more_than_nul [] [] other = absurd (other refl)
more_than_nul [] (b ∷ value) other = ground arith
more_than_nul (b ∷ key) value other = ground (arith, length-append key (0 ∷ value))

-- The round ends with a valid table and one datagram for the client.
abbrev pub IsAnswered : Run Round → Type 0
IsAnswered run = Returns run λ r. IsValid r.0 × (length r.1 ≡ 1)

get-IsAnswered :
    {t : Htable} (valid : IsValid t) (key m beyond : List ℕ) (old : Option (List ℕ))
    → IsText key
    → max_msg_elem_size ≤ length beyond
    → get_htable_value t (some key) ≡ ok old
    → IsAnswered (handle_get t (key ++ 0 ∷ m) beyond)
unfolding handle_get
get-IsAnswered {t} valid key m beyond none hk far found =
    ((t, (0 ∷ []) ∷ []), rw (strlen-append key m hk, read-append, found), (valid, refl))
get-IsAnswered {t} valid key m beyond (some value) hk far found = (
  (t, take max_msg_elem_size (value ++ 0 ∷ beyond) ∷ []),
  rw (
    strlen-append key m hk,
    read-append,
    found,
    read-take max_msg_elem_size (value ++ 0 ∷ beyond)
        (omega (arith, length-append value (0 ∷ beyond))),
  ),
  (valid, refl),
)

module _ {t : Htable} (valid : IsValid t) where
  put-IsAnswered :
      (key value m : List ℕ) (stray : ℕ)
      → IsText key
      → length (key ++ 0 ∷ value) ≤ max_msg_size
      → IsAnswered (handle_put true t ((key ++ 0 ∷ value) ++ stray ∷ m) (length (key ++ 0 ∷ value)))
  unfolding handle_put
  put-IsAnswered key value m stray hk fits =
      let k = c_str (key ++ 0 ∷ []) in
      let v = c_str ((value ++ stray ∷ []) ++ 0 ∷ []) in
      (
        (table_of (written valid.chains k v), [] ∷ []),
        rw
            (
              append_assoc key (0 ∷ value) (stray ∷ m),
              parse_put_request-append key value stray m hk (omega arith),
              add-eq-written valid k v,
            )
            refl,
        (written-IsValid valid k v, refl),
      )

  put_message-IsAnswered :
      (fuel : ℕ) (key value m beyond : List ℕ) (stray : ℕ)
      → IsText key
      → length (key ++ 0 ∷ value) ≤ max_msg_size
      → key ++ 0 ∷ value ≢ 0 ∷ []
      → IsAnswered (handle_message fuel true t (key ++ 0 ∷ value) (stray ∷ m) beyond)
  unfolding handle_message
  put_message-IsAnswered fuel key value m beyond stray hk fits other =
      let n : length (key ++ 0 ∷ value) ≡ length key + suc (length value) =
        length-append key (0 ∷ value) in
      let fitting : ltb max_msg_size (length (key ++ 0 ∷ value)) ≡ false = ground arith in
      let some_bytes : length (key ++ 0 ∷ value) == 0 ≡ false = ground arith in
      let more_bytes = more_than_nul key value other in
      let nul : find_nul (length (key ++ 0 ∷ value)) ((key ++ 0 ∷ value) ++ stray ∷ m)
          ≡ ok (some (0 ∷ (value ++ stray ∷ m))) =
        rw (append_assoc key (0 ∷ value) (stray ∷ m))
          (find_nul-append key (value ++ stray ∷ m) (length (key ++ 0 ∷ value)) hk (omega arith)) in
      let (r, run, p) = put-IsAnswered key value m stray hk fits in
      (r, rw (fitting, some_bytes, nul, more_bytes) run, p)

  get_message-IsAnswered :
      (fuel : ℕ) (key text rest beyond : List ℕ)
      → IsText key
      → IsText text
      → 0 < length key
      → length key ≤ max_msg_size
      → max_msg_elem_size ≤ length beyond
      → IsAnswered (handle_message fuel true t key (text ++ 0 ∷ rest) beyond)
  unfolding handle_message
  get_message-IsAnswered fuel key text rest beyond hk clean pos fits far =
      let fitting : ltb max_msg_size (length key) ≡ false = ground arith in
      let some_bytes : length key == 0 ≡ false = ground arith in
      let memory : key ++ (text ++ 0 ∷ rest) ≡ (key ++ text) ++ 0 ∷ rest =
        sym (append_assoc key text (0 ∷ rest)) in
      let nul = find_nul-IsText key (text ++ 0 ∷ rest) hk in
      let (r, run, p) =
        get-IsAnswered valid (key ++ text) rest beyond
          (find (key ++ text) (chain_of valid.chains (key ++ text)))
          (append-IsText key text hk clean) far (get-eq-find valid (key ++ text)) in
      (r, rw (fitting, some_bytes, nul, memory) run, p)

  message-IsAnswered :
      (fuel : ℕ) (msg text rest beyond : List ℕ)
      → IsText text
      → max_msg_elem_size ≤ length beyond
      → length msg ≤ max_msg_size
      → msg ≢ 0 ∷ []
      → IsAnswered (handle_message fuel true t msg (text ++ 0 ∷ rest) beyond)
  unfolding handle_message
  message-IsAnswered fuel [] text rest beyond clean far fits other =
      ((t, [] ∷ []), refl, (valid, refl))
  message-IsAnswered fuel (b ∷ bs) text rest beyond clean far fits other =
      elim (first_nul (b ∷ bs)) [
        | inl hk ↦
            get_message-IsAnswered fuel (b ∷ bs) text rest beyond hk clean (omega arith) fits far
        | inr (key, value, split, hk) ↦
            let (stray, m, behind) = first_byte_of text rest in
            let answered =
              put_message-IsAnswered fuel key value m beyond stray hk
                (subst (λ x. length x ≤ max_msg_size) split fits) (λ e. other (split ∙ e)) in
            subst (λ x. IsAnswered (handle_message fuel true t x (text ++ 0 ∷ rest) beyond))
              (sym split)
              (subst (λ x. IsAnswered (handle_message fuel true t (key ++ 0 ∷ value) x beyond))
                (sym behind) answered)
      ]

-- A message of any bytes that a buffer has room for, but for a single NUL, the request for the whole
-- table. Somewhere behind it in the buffer is a NUL, and memory is not short.
abbrev pub IsOrdinary : Received → Type 0
IsOrdinary m =
    (length m.msg ≤ max_msg_size)
    × (m.msg ≢ 0 ∷ [])
    × ((text : List ℕ) × (rest : List ℕ) × (m.junk ≡ text ++ 0 ∷ rest) × IsText text)
    × (m.room ≡ true)
    × (max_msg_elem_size ≤ length m.beyond)

abbrev pub AllOrdinary : List Received → Type 0
AllOrdinary [] = Unit
AllOrdinary (m ∷ messages) = IsOrdinary m × AllOrdinary messages

-- A server with a valid table serves any sequence of messages of any bytes, apart from requests for
-- the whole table, that its buffer has room for, when a NUL is somewhere behind each message in the
-- buffer, memory is not short, and there is enough memory to read behind a value: it answers each of
-- them with one datagram, and the table stays valid.
pub serve_loop-answers :
    (fuel : ℕ) (messages : List Received) (t : Htable) (valid : IsValid t)
    → AllOrdinary messages
    → Returns
        (serve_loop fuel t messages)
        λ r. IsValid r.0 × (map (length {A = Datagram}) r.1 ≡ map (λ _. 1) messages)
unfolding serve_loop
serve_loop-answers fuel [] t valid all = ((t, []), refl, (valid, refl))
serve_loop-answers fuel (m ∷ messages) t valid
      ((fits, other, (text, rest, junk, clean), room, far), all) =
    let (r, run, (valid', one)) =
      message-IsAnswered valid fuel m.msg text rest m.beyond clean far fits other in
    let (s, run', (valid'', each)) = serve_loop-answers fuel messages r.0 valid' all in
    ((s.0, r.1 ∷ s.1), rw (room, junk, run, run'), (valid'', rw (one, each)))
