-- ===== src/Server/Service.antt =====
-- What a client relies on of a server, and that pps-launch-server.c provides it.
use distributed_hash_table.Prelude.{
  ℕ, ◌≤◌, List, [], ◌∷◌, ◌++◌, true, Run, length, ◌≡◌, refl, Returns,
}
use distributed_hash_table.HashTable.{Htable}
use distributed_hash_table.Server.{Received, handle_message}
use distributed_hash_table.Server.Dump.{Datagram, max_msg_elem_size}
use distributed_hash_table.Server.Session.{IsSendable, Answers}
use distributed_hash_table.Server.Refinement.{
  Request, put, get, bytes_of, Map, after, IsFit, Holds, put-Holds, get-Holds,
}

-- A server answers messages. `Has` relates its state to a map, whose values can be sent: a put
-- changes the map and is acknowledged, a get leaves the state as it is and is answered from the map.
pub record Service : Type 1 where
  pub State : Type 0
  pub handle : State → List ℕ → Run (State × List Datagram)
  pub Has : State → Map → Type 0
  pub sendable : (t : State) (f : Map) → Has t f → (q : List ℕ) → IsSendable (f q)
  pub put_law :
      (t : State) (f : Map) (key value : List ℕ)
      → IsFit (put key value)
      → Has t f
      → Returns
          (handle t (key ++ 0 ∷ value))
          λ r. (r.1 ≡ [] ∷ []) × Has r.0 (after f (put key value))
  pub get_law :
      (t : State) (f : Map) (key : List ℕ)
      → IsFit (get key)
      → Has t f
      → Returns (handle t key) λ r. (r.0 ≡ t) × Answers (f key) r.1

-- The server of pps-launch-server.c, when memory is not short. In its buffer a NUL stands behind a
-- message, and then `junk`; behind a value that is sent stands `beyond`.
module _ (fuel : ℕ) (junk beyond : List ℕ) (far : max_msg_elem_size ≤ length beyond) where
  abbrev message : Request → Received
  message r = record { room = true; msg = bytes_of r; junk = 0 ∷ junk; beyond = beyond }

  abbrev pub pps_server : Service
  pps_server = record {
    State = Htable;
    handle = λ t msg. handle_message fuel true t msg (0 ∷ junk) beyond;
    Has = Holds;
    sendable = λ t f holds. holds.sendable;
    put_law = λ t f key value fit holds.
        put-Holds fuel t f key value (message (put key value)) fit (refl, (junk, refl), refl, far)
          holds;
    get_law = λ t f key fit holds.
        get-Holds fuel t f key (message (get key)) fit (refl, (junk, refl), refl, far) holds;
  }
