-- ===== src/Cluster/Provenance.antt =====
-- Where the values come from that a get returns.
use distributed_hash_table.Prelude.{
  ℕ, suc, ◌<◌, ◌≤◌, List, [], ◌∷◌, none, some, ◌⊎◌, ok, ◌≡◌, refl, arith, ap, Bool-cases, inl, inr,
  ltb, length,
}
use mathlib.Core.List.{Memᴰ}
use distributed_hash_table.Errors.{err_none}
use distributed_hash_table.Args.{Args}
use distributed_hash_table.Node.{Address, Node}
use distributed_hash_table.Network.{Sent}
use distributed_hash_table.Network.Quorum.{agree}
use distributed_hash_table.Server.Dump.{Datagram, max_msg_elem_size}
use distributed_hash_table.Server.Refinement.{Request, put, get, bytes_of, IsFit}
use distributed_hash_table.Server.Service.{Service, pps_server}
use distributed_hash_table.Cluster.{
  Cluster, update, Exchange, done, lost, arrived, other_arrived, Gets,
}
use distributed_hash_table.Cluster.Arrivals.{returned, PutHas, AllKnown, update-AllKnown}
use distributed_hash_table.Cluster.Replicas.{sent_to}
use distributed_hash_table.Cluster.Votes.{agree-append, agree-Answers-pos}
use distributed_hash_table.Cluster.Exchanges.{client_of, Gets-answered}

module _ (service : Service) (Other : Request → Type 0) (P : List ℕ → List ℕ → Type 0)
    (known : (r : Request) → Other r → PutHas P r) (key : List ℕ) where
  Exchange-known :
      {c c' : Cluster service} {sent : Sent} {answers : List Datagram} (v : List ℕ)
      (nodes : List Node)
      → IsFit (get key)
      → AllKnown service P c
      → sent ≡ sent_to (get key) nodes
      → Exchange service Other c sent c' answers
      → 0 < agree v answers
      → P key v
  Exchange-known v nodes fit all e done pos =
      let no_votes : agree v [] ≡ 0 = unfold agree in refl in absurd (omega arith)
  Exchange-known v [] fit all e (lost x) pos = absurd (cc e)
  Exchange-known v (node ∷ nodes) fit all e (lost x) pos =
      Exchange-known v nodes fit all (cc e) x pos
  Exchange-known v [] fit all e (arrived t run x split) pos = absurd (cc e)
  Exchange-known v (m ∷ nodes) fit all e
        (arrived {c = c} {node = node} {now = now} {later = later} t run x split) pos =
      let run' : service.handle (c node.addr) key ≡ ok (t, now) = cc (run, e) in
      let (f, (has, pairs)) = all node.addr in
      let answer = (returned t now run' (service.get_law (c node.addr) f key fit has)).1 in
      elim (Bool-cases (ltb 0 (agree v now))) [
        | inl here ↦ pairs key v (
            agree-Answers-pos v (f key) now (service.sendable (c node.addr) f has key) answer
              (ground arith))
        | inr elsewhere ↦
            Exchange-known v nodes fit
              (update-AllKnown service c node (get key) t now fit run' P tt all) (cc e) x
              (ground (arith, agree-append v now later, ap (agree v) split))
      ]
  Exchange-known v nodes fit all e (other_arrived {c = c} {now = now} r node t fit' is_other run x)
        pos =
      Exchange-known v nodes fit
        (update-AllKnown service c node r t now fit' run P (known r is_other) all) e x pos

PutHas-Memᴰ :
    (P : List ℕ → List ℕ → Type 0) (r : Request) (requests : List Request)
    → ((key value : List ℕ) → Memᴰ (put key value) requests → P key value)
    → Memᴰ r requests
    → PutHas P r
PutHas-Memᴰ P (put key value) requests all m = all key value m
PutHas-Memᴰ P (get key) requests all m = tt

module _ (service : Service) where
  -- What servers become that start with empty maps, when requests arrive in this order.
  pub data History : List Request → Cluster service → Type 0 where
    started : {c : Cluster service} → ((a : Address) → service.Has (c a) (λ _. none)) → History [] c
    served :
        {requests : List Request} {c : Cluster service} {now : List Datagram} (r : Request)
        (node : Node) (t : service.State)
        → History requests c
        → IsFit r
        → service.handle (c node.addr) (bytes_of r) ≡ ok (t, now)
        → History (r ∷ requests) (update service c node t)

  abbrev pub WasPut : List Request → List ℕ → List ℕ → Type 0
  WasPut requests key value = Memᴰ (put key value) requests

  pub History-AllKnown :
      (P : List ℕ → List ℕ → Type 0) {requests : List Request} {c : Cluster service}
      → ((key value : List ℕ) → WasPut requests key value → P key value)
      → History requests c
      → AllKnown service P c
  History-AllKnown P all (started empty) = λ a. ((λ _. none), (empty a, λ q v e. absurd (cc e)))
  History-AllKnown P all
        (served {requests = requests} {c = c} {now = now} r node t history fit run) =
      update-AllKnown service c node r t now fit run P
        (PutHas-Memᴰ P r (r ∷ requests) all (Memᴰ.head refl))
        (History-AllKnown P (λ k v m. all k v (Memᴰ.tail m)) history)

-- Servers of pps-launch-server.c start with empty tables, and requests of strings that fit arrive at
-- them in any order; memory is not short, a NUL is behind each message in a server's buffer, and
-- behind a value there is enough memory to read. A client whose ring is not empty, with N positive
-- and R from 1 to 127, gets a key, while further requests arrive. A value that this get returns was
-- put for that key by one of these requests.
pub Gets-WasPut :
    (fuel : ℕ) (junk beyond : List ℕ) (far : max_msg_elem_size ≤ length beyond)
    (sha1 : List ℕ → List ℕ) (allocated left : ℕ) (n : Node) (ring : List Node) (args : Args)
    (requests further : List Request) (c c' : Cluster (pps_server fuel junk beyond far))
    (key v : List ℕ)
    → args.n ≡ suc left
    → 0 < args.r
    → args.r ≤ 127
    → IsFit (get key)
    → History (pps_server fuel junk beyond far) requests c
    → Gets
        (pps_server fuel junk beyond far)
        (λ r. Memᴰ r further)
        sha1
        (client_of allocated n ring args)
        c
        key
        (err_none, some v)
        c'
    → Memᴰ (put key v) further ⊎ Memᴰ (put key v) requests
Gets-WasPut fuel junk beyond far sha1 allocated left n ring args requests further c c' key v en hr
      small fit history gets =
    let service = pps_server fuel junk beyond far in
    let P : List ℕ → List ℕ → Type 0 = λ k w. Memᴰ (put k w) further ⊎ Memᴰ (put k w) requests in
    let (l, found, full, (answers, exchange, votes)) =
      Gets-answered service (λ r. Memᴰ r further) sha1 allocated left n ring args c c' key en v hr
        small fit gets in
    Exchange-known service (λ r. Memᴰ r further) P
      (λ r m. PutHas-Memᴰ P r further (λ k w m. inl m) m) key v l.nodes fit
      (History-AllKnown service P (λ k w m. inr m) history) refl exchange (omega arith)
