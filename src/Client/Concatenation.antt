-- ===== src/Client/Concatenation.antt =====
-- What pps-client-cat stores.
use distributed_hash_table.Prelude.{
  ℕ, ◌+◌, ◌≤◌, List, [], ◌∷◌, ◌++◌, false, ltb, none, some, ok, length, length-append, arith, ◌≡◌,
  refl, ◌∙◌,
}
use mathlib.Core.List.{append_assoc, append-nil}
use distributed_hash_table.HashTable.{size_max}
use distributed_hash_table.Args.{total_servers, get_needed, put_needed}
use distributed_hash_table.Network.{Client, Sent}
use distributed_hash_table.Client.{argv_size}
use distributed_hash_table.Client.Start.{argv_size-eq-length}
use distributed_hash_table.Client.Commands.{
  World, failed, started, get_value, put_value, cat_loop, max_mandatory_arguments, split_last,
  pps_client_cat,
}

unfoldable pub concatenation : List (List ℕ) → List ℕ
concatenation [] = []
concatenation (text ∷ texts) = text ++ concatenation texts

module _ (world : World) (client : Client) where
  -- Each get, from the `request`-th request on, finds the text for its key.
  pub data Reads : ℕ → List (List ℕ) → List (List ℕ) → Sent → Type 0 where
    all_read : {request : ℕ} → Reads request [] [] []
    one_read :
        {request : ℕ} {key text : List ℕ} {keys texts : List (List ℕ)} {sent rest : Sent}
        → get_value world client request key ≡ ok (some text, sent)
        → Reads (request + 1) keys texts rest
        → Reads request (key ∷ keys) (text ∷ texts) (sent ++ rest)

  -- A get fails, behind others that find a text.
  pub data Misses : ℕ → List (List ℕ) → Sent → Type 0 where
    first_missed :
        {request : ℕ} {key : List ℕ} {keys : List (List ℕ)} {sent : Sent}
        → get_value world client request key ≡ ok (none, sent)
        → Misses request (key ∷ keys) sent
    later_missed :
        {request : ℕ} {key text : List ℕ} {keys : List (List ℕ)} {sent rest : Sent}
        → get_value world client request key ≡ ok (some text, sent)
        → Misses (request + 1) keys rest
        → Misses request (key ∷ keys) (sent ++ rest)

  cat_loop-Reads :
      {request : ℕ} {keys texts : List (List ℕ)} {sent : Sent} (concat : List ℕ) (before : Sent)
      → Reads request keys texts sent
      → cat_loop world client request keys concat before
        ≡ ok (some (concat ++ concatenation texts), before ++ sent)
  unfolding cat_loop concatenation
  cat_loop-Reads concat before all_read = rw (append-nil concat, append-nil before) refl
  cat_loop-Reads concat before
        (one_read {text = text} {texts = texts} {sent = sent} {rest = rest} get reads) =
      rw
        (
          get,
          cat_loop-Reads (concat ++ text) (before ++ sent) reads,
          append_assoc concat text (concatenation texts),
          append_assoc before sent rest,
        )
        refl

  cat_loop-Misses :
      {request : ℕ} {keys : List (List ℕ)} {sent : Sent} (concat : List ℕ) (before : Sent)
      → Misses request keys sent
      → cat_loop world client request keys concat before ≡ ok (none, before ++ sent)
  unfolding cat_loop
  cat_loop-Misses concat before (first_missed get) = rw get refl
  cat_loop-Misses concat before
        (later_missed {text = text} {sent = sent} {rest = rest} get misses) =
      rw
        (
          get,
          cat_loop-Misses (concat ++ text) (before ++ sent) misses,
          append_assoc before sent rest,
        )
        refl

split_last-append :
    (key : List ℕ) (keys : List (List ℕ)) (output : List ℕ)
    → split_last key (keys ++ output ∷ []) ≡ (key ∷ keys, output)
unfolding split_last
split_last-append key [] output = refl
split_last-append key (next ∷ keys) output = rw (split_last-append next keys output) refl

module _ (world : World) (argv : List (List ℕ)) (client : Client) (key : List ℕ)
    (keys : List (List ℕ)) (output : List ℕ)
    (run : started world size_max (total_servers + put_needed + get_needed) argv
      ≡ ok (some (client, key ∷ (keys ++ output ∷ []))))
    (few : length keys + 2 ≤ max_mandatory_arguments) where
  size : argv_size (key ∷ (keys ++ output ∷ [])) ≡ length keys + 2
  size =
      argv_size-eq-length (key ∷ (keys ++ output ∷ []))
      ∙ omega (arith, length-append keys (output ∷ []))

  enough : ltb (length keys + 2) 2 ≡ false
  enough = ground arith

  not_many : ltb max_mandatory_arguments (length keys + 2) ≡ false
  not_many = ground arith

  -- When a client with one key or more before the last one has started, with 300 keys at most, and
  -- the gets of the keys before the last one find texts, the program puts these one behind the other
  -- as the last key's value.
  pub pps_client_cat-Reads :
      (texts : List (List ℕ)) (sent : Sent)
      → Reads world client 0 (key ∷ keys) texts sent
      → pps_client_cat world argv
        ≡ put_value world client (length (key ∷ keys)) output (concatenation texts) sent
  unfolding pps_client_cat
  pps_client_cat-Reads texts sent reads =
      let last = split_last-append key keys output in
      rw (run, size, enough, not_many, last, cat_loop-Reads world client [] [] reads, last) refl

  -- When such a client has started and one of these gets fails, the program puts nothing and fails.
  pub pps_client_cat-Misses :
      (sent : Sent)
      → Misses world client 0 (key ∷ keys) sent
      → pps_client_cat world argv ≡ ok (failed sent)
  unfolding pps_client_cat
  pps_client_cat-Misses sent misses =
      rw
        (
          run,
          size,
          enough,
          not_many,
          split_last-append key keys output,
          cat_loop-Misses world client [] [] misses,
        )
        refl
