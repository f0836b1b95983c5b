-- ===== src/Server/Refinement.antt =====
-- The server's loop against a map from keys to values.
use distributed_hash_table.Prelude.{
  ℕ, ◌<◌, ◌≤◌, List, [], ◌∷◌, ◌++◌, true, if◌then◌else◌, Option, some, ok, length, arith, ◌≡◌, refl,
  Returns, Bool-cases, inl, inr,
}
use distributed_hash_table.Text.{str_eq, IsText}
use distributed_hash_table.HashTable.{Htable, get_htable_value}
use distributed_hash_table.HashTable.Tables.{IsValid}
use distributed_hash_table.Server.{Received, handle_message, serve_loop}
use distributed_hash_table.Server.Dump.{Datagram, max_msg_elem_size}
use distributed_hash_table.Server.Session.{
  IsSendable, Answers, handle_message-put, handle_message-get,
}

-- What a client asks.
pub data Request : Type 0 where
  put : List ℕ → List ℕ → Request
  get : List ℕ → Request

abbrev pub bytes_of : Request → List ℕ
bytes_of (put key value) = key ++ 0 ∷ value
bytes_of (get key) = key

abbrev pub Map : Type 0
Map = List ℕ → Option (List ℕ)

-- The map behind a request.
unfoldable pub after : Map → Request → Map
after f (put key value) = λ q. if str_eq key q then some value else f q
after f (get key) = f

unfoldable pub after_all : Map → List Request → Map
after_all f [] = f
after_all f (r ∷ requests) = after_all (after f r) requests

-- A put is answered by an empty datagram, a get by what the map has at this moment.
abbrev pub Answered : Map → List Request → List (List Datagram) → Type 0
Answered f [] sent = sent ≡ []
Answered f (put key value ∷ requests) [] = ⊥
Answered f (put key value ∷ requests) (s ∷ sent) =
    (s ≡ [] ∷ []) × Answered (after f (put key value)) requests sent
Answered f (get key ∷ requests) [] = ⊥
Answered f (get key ∷ requests) (s ∷ sent) = Answers (f key) s × Answered f requests sent

-- Keys and values are strings that fit in a datagram each.
abbrev pub IsFit : Request → Type 0
IsFit (put key value) =
    IsText key
    × IsText value
    × (0 < length key)
    × (length key ≤ max_msg_elem_size)
    × (length value < max_msg_elem_size)
IsFit (get key) = IsText key × (0 < length key) × (length key ≤ max_msg_elem_size)

-- The message holds the request, with a NUL behind it in the buffer.
abbrev pub Carries : Request → Received → Type 0
Carries r m =
    (m.msg ≡ bytes_of r)
    × ((rest : List ℕ) × (m.junk ≡ 0 ∷ rest))
    × (m.room ≡ true)
    × (max_msg_elem_size ≤ length m.beyond)

abbrev pub AllCarry : List Request → List Received → Type 0
AllCarry [] [] = Unit
AllCarry [] (m ∷ messages) = ⊥
AllCarry (r ∷ requests) [] = ⊥
AllCarry (r ∷ requests) (m ∷ messages) = IsFit r × Carries r m × AllCarry requests messages

-- The table holds the map, whose values can all be sent.
pub record Holds (t : Htable) (f : Map) : Type 0 where
  pub valid : IsValid t
  pub reads : (q : List ℕ) → get_htable_value t (some q) ≡ ok (f q)
  pub sendable : (q : List ℕ) → IsSendable (f q)

after-IsSendable :
    (f : Map) (key value : List ℕ)
    → IsFit (put key value)
    → ((q : List ℕ) → IsSendable (f q))
    → (q : List ℕ) → IsSendable (after f (put key value) q)
unfolding after
after-IsSendable f key value fit sendable q = elim (Bool-cases (str_eq key q)) [
  | inl same ↦ rw same (fit.1, fit.4)
  | inr other ↦ rw other (sendable q)
]

pub put-Holds :
    (fuel : ℕ) (t : Htable) (f : Map) (key value : List ℕ) (m : Received)
    → IsFit (put key value)
    → Carries (put key value) m
    → Holds t f
    → Returns
        (handle_message fuel m.room t m.msg m.junk m.beyond)
        λ r. (r.1 ≡ [] ∷ []) × Holds r.0 (after f (put key value))
unfolding after
put-Holds fuel t f key value m fit (msg, (rest, junk), room, far) holds =
    let (r, run, (answer, valid, reads)) =
      handle_message-put holds.valid fuel key value fit.0 fit.1 0 rest m.beyond (omega arith)
        (omega arith) in
    (
      r,
      rw (msg, junk, room) run,
      (
        answer,
        record {
          valid = valid;
          reads = λ q. ground (arith, reads q, holds.reads q);
          sendable = after-IsSendable f key value fit holds.sendable;
        },
      ),
    )

pub get-Holds :
    (fuel : ℕ) (t : Htable) (f : Map) (key : List ℕ) (m : Received)
    → IsFit (get key)
    → Carries (get key) m
    → Holds t f
    → Returns
        (handle_message fuel m.room t m.msg m.junk m.beyond)
        λ r. (r.0 ≡ t) × Answers (f key) r.1
get-Holds fuel t f key m fit (msg, (rest, junk), room, far) holds =
    let (r, run, p) =
      handle_message-get fuel m.room t key rest m.beyond (f key) fit.0 fit.1 (omega arith)
        (holds.sendable key) far (holds.reads key) in
    (r, rw (msg, junk) run, p)

-- A server whose table holds a map of values that can be sent serves any sequence of puts and gets of
-- keys and values that are strings and not too long, when memory is not short, a NUL is behind each
-- message in the buffer, and there is enough memory to read behind a value: it acknowledges every
-- put, answers every get with what the map has then, and its table holds the map that the puts lead
-- to.
pub serve_loop-Holds :
    (fuel : ℕ) (t : Htable) (f : Map) (requests : List Request) (messages : List Received)
    → Holds t f
    → AllCarry requests messages
    → Returns
        (serve_loop fuel t messages)
        λ r. Holds r.0 (after_all f requests) × Answered f requests r.1
unfolding serve_loop after_all after
serve_loop-Holds fuel t f [] [] holds all = ((t, []), refl, (holds, refl))
serve_loop-Holds fuel t f [] (m ∷ messages) holds all = absurd all
serve_loop-Holds fuel t f (r ∷ requests) [] holds all = absurd all
serve_loop-Holds fuel t f (put key value ∷ requests) (m ∷ messages) holds (fit, carries, all) =
    let (r, run, (answer, holds')) = put-Holds fuel t f key value m fit carries holds in
    let (s, run', p) =
      serve_loop-Holds fuel r.0 (after f (put key value)) requests messages holds' all in
    ((s.0, r.1 ∷ s.1), rw (run, run'), (p.0, (answer, p.1)))
serve_loop-Holds fuel t f (get key ∷ requests) (m ∷ messages) holds (fit, carries, all) =
    let (r, run, (same, answer)) = get-Holds fuel t f key m fit carries holds in
    let (s, run', p) = serve_loop-Holds fuel t f requests messages holds all in
    ((s.0, r.1 ∷ s.1), rw (run, same, run'), (p.0, (answer, p.1)))
