-- ===== src/Cluster/NoLoss.antt =====
-- A put and a get of which no message is lost.
use distributed_hash_table.Prelude.{
  ℕ, suc, ◌<◌, ◌≤◌, List, [], ◌∷◌, ◌++◌, true, some, ok, ◌≡◌, refl, length, length-append, arith,
  ap, ◌∙◌, inl, inr, inl, subst, Bool-cases,
}
use distributed_hash_table.Text.{str_eq, str_eq_iff}
use distributed_hash_table.Errors.{err_none}
use distributed_hash_table.Args.{Args}
use distributed_hash_table.Node.{Node}
use distributed_hash_table.NodeList.{NodeList}
use distributed_hash_table.Ring.{ring_get_nodes_for_key}
use distributed_hash_table.Network.Quorum.{agree}
use distributed_hash_table.Network.Requests.{acknowledged, put-full, get-full}
use distributed_hash_table.Server.Dump.{Datagram, max_msg_elem_size}
use distributed_hash_table.Server.Refinement.{Request, put, get, IsFit}
use distributed_hash_table.Server.Service.{Service, pps_server}
use distributed_hash_table.Cluster.{
  Cluster, update, Exchange, done, arrived, Puts, put_exchange, Gets, get_exchange,
}
use distributed_hash_table.Cluster.Arrivals.{PutHas, PutsOnly, update-AllKnown, update-Stored}
use distributed_hash_table.Cluster.Replicas.{
  sent_to, Copies, nil, copy, other, Copies-Stored, Exchange-AllKnown, Exchange-put, Exchange-get,
}
use distributed_hash_table.Cluster.Votes.{agree-append, agree-Answers-same}
use distributed_hash_table.Cluster.Exchanges.{in_order, pair-eq, client_of}
use distributed_hash_table.Cluster.ReadYourWrites.{AllHold, any_PutHas}

module _ (service : Service) (Other : Request → Type 0) (key value : List ℕ) where
  all_put :
      (nodes : List Node) (c : Cluster service)
      → IsFit (put key value)
      → AllHold service c
      → (c' : Cluster service) × (answers : List Datagram) × Exchange service Other c
          (sent_to (put key value) nodes)
          c'
          answers
        × (length answers ≡ length nodes)
  all_put [] c fit all = (c, [], done, refl)
  all_put (node ∷ nodes) c fit all =
      let (f, (has, pairs)) = all node.addr in
      let (r, run, (answer, has')) = service.put_law (c node.addr) f key value fit has in
      let all' =
        update-AllKnown service c node (put key value) r.0 r.1 fit run (λ _ _. Unit) tt all in
      let (c', answers, exchange, count) = all_put nodes (update service c node r.0) fit all' in
      (
        c',
        r.1 ++ answers,
        arrived r.0 run exchange refl,
        omega (arith, length-append r.1 answers, ap length answer),
      )

  all_asked :
      (nodes : List Node) {n : ℕ} (c : Cluster service)
      → IsFit (get key)
      → 0 < length value
      → AllHold service c
      → Copies service c key (λ w. w ≡ value) nodes n
      → (c' : Cluster service) × (answers : List Datagram) × Exchange service Other c
          (sent_to (get key) nodes)
          c'
          answers
        × (n ≤ agree value answers)
  all_asked [] c fit pos all nil = (c, [], done, omega arith)
  all_asked (node ∷ nodes) c fit pos all (copy (f, has, (w, found, same)) copies) =
      let (r, run, (kept, answer)) = service.get_law (c node.addr) f key fit has in
      let all' = update-AllKnown service c node (get key) r.0 r.1 fit run (λ _ _. Unit) tt all in
      let keep = λ (m : Node).
        update-Stored service c node (get key) r.0 r.1 fit run key (λ w. w ≡ value) m tt in
      let (c', answers, exchange, count) =
        all_asked nodes (update service c node r.0) fit pos all'
          (Copies-Stored service keep copies) in
      (
        c',
        r.1 ++ answers,
        arrived r.0 run exchange refl,
        omega (
          arith,
          agree-append value r.1 answers,
          agree-Answers-same value (f key) r.1 pos (found ∙ ap some same)
              (service.sendable (c node.addr) f has key) answer,
        ),
      )
  all_asked (node ∷ nodes) c fit pos all (other copies) =
      let (f, (has, pairs)) = all node.addr in
      let (r, run, (kept, answer)) = service.get_law (c node.addr) f key fit has in
      let all' = update-AllKnown service c node (get key) r.0 r.1 fit run (λ _ _. Unit) tt all in
      let keep = λ (m : Node).
        update-Stored service c node (get key) r.0 r.1 fit run key (λ w. w ≡ value) m tt in
      let (c', answers, exchange, count) =
        all_asked nodes (update service c node r.0) fit pos all'
          (Copies-Stored service keep copies) in
      (
        c',
        r.1 ++ answers,
        arrived r.0 run exchange refl,
        omega (arith, agree-append value r.1 answers),
      )

module _ (service : Service) (Other : Request → Type 0) (sha1 : List ℕ → List ℕ)
    (allocated left : ℕ) (n : Node) (ring : List Node) (args : Args) (key value : List ℕ)
    (l : NodeList) (en : args.n ≡ suc left)
    (found : ring_get_nodes_for_key sha1 true
        (client_of allocated n ring args).server
        (suc left)
        key
      ≡ ok (some l))
    (full : length l.nodes ≡ suc left) (fit : IsFit (put key value)) (pos : 0 < length value)
    (harmless : (r : Request) → Other r → PutsOnly key value r) where
  known : (r : Request) → Other r → PutHas (λ _ _. Unit) r
  known r h = any_PutHas r

  pub Gets-all :
      (c : Cluster service)
      → 0 < args.r
      → args.r ≤ 127
      → args.r ≤ args.n
      → AllHold service c
      → Copies service c key (λ w. w ≡ value) l.nodes (suc left)
      → (c' : Cluster service) × Gets service Other sha1
          (client_of allocated n ring args)
          c
          key
          (err_none, some value)
          c'
  Gets-all c hr small enough all copies =
      let fit' : IsFit (get key) = (fit.0, fit.2, fit.3) in
      let (c', answers, exchange, votes) =
        all_asked service Other key value l.nodes c fit' pos all copies in
      let (o, run, (right, sent)) =
        get-full sha1 (client_of allocated n ring args).server left args key l en found fit.3
          answers hr small full in
      let same : (v : List ℕ) → args.r ≤ agree v answers → v ≡ value =
        λ (v : List ℕ) (h : args.r ≤ agree v answers). elim (Bool-cases (str_eq v value)) [
          | inl e ↦ (str_eq_iff v value).0 e
          | inr ne ↦ absurd (
              omega (
                arith,
                Exchange-get service Other (λ _ _. Unit) key (λ w. w ≡ value) known harmless v
                    l.nodes fit' (λ e. cc (ne, (str_eq_iff v value).1 e)) all copies refl exchange,
              ))
        ] in
      let unanimous : o.0 ≡ (err_none, some value) = elim right [
        | inl (v, e, h) ↦ e ∙ ap (λ v. (err_none, some v)) (same v h)
        | inr (e, h) ↦ absurd (omega (arith, h value))
      ] in
      (c', get_exchange (run ∙ ap ok (pair-eq unanimous sent)) exchange (in_order answers))

  pub put_and_get :
      (c : Cluster service)
      → 0 < args.w
      → args.w ≤ args.n
      → 0 < args.r
      → args.r ≤ 127
      → args.r ≤ args.n
      → AllHold service c
      → (c' : Cluster service) × Puts service Other sha1
          (client_of allocated n ring args)
          c
          key
          value
          err_none
          c'
        × ((c'' : Cluster service) × Gets service Other sha1
              (client_of allocated n ring args)
              c'
              key
              (err_none, some value)
              c'')
  put_and_get c hw w_fits hr small r_fits all =
      let (c', answers, exchange, count) = all_put service Other key value l.nodes c fit all in
      let sends =
        put-full sha1 (client_of allocated n ring args).server left args key l en found fit.3 value
          answers (omega (arith, fit.4)) hw fit.0 fit.1 full in
      let size : length answers ≡ suc left = count ∙ full in
      let verdict : acknowledged args.w (length answers) ≡ err_none = ground (arith, size) in
      let copies =
        Exchange-put service Other (λ _ _. Unit) key (λ w. w ≡ value) known harmless value l.nodes
          fit refl tt all refl exchange in
      let all' =
        Exchange-AllKnown service (λ _ _. Unit) (put key value) known tt fit l.nodes refl exchange
          all in
      (
        c',
        put_exchange (sends ∙ ap (λ e. ok (e, sent_to (put key value) l.nodes)) verdict) exchange
            (in_order answers),
        Gets-all c' hr small r_fits all'
            (subst (Copies service c' key (λ w. w ≡ value) l.nodes) size copies),
      )

-- When N servers of pps-launch-server.c store the key, with W at most N and R at most N and 127, all
-- positive, and their tables hold values that can be sent, memory is not short, a NUL is behind each
-- message in a server's buffer, and behind a value there is enough memory to read: it can be that
-- the put of a key and a value that is not empty, both strings that fit, reports no error, and that
-- a get behind it returns the value, namely when no message and no answer gets lost.
pub Puts-Gets :
    (fuel : ℕ) (junk beyond : List ℕ) (far : max_msg_elem_size ≤ length beyond)
    (sha1 : List ℕ → List ℕ) (allocated left : ℕ) (n : Node) (ring : List Node) (args : Args)
    (key value : List ℕ) (l : NodeList) (c : Cluster (pps_server fuel junk beyond far))
    → args.n ≡ suc left
    → ring_get_nodes_for_key sha1 true (client_of allocated n ring args).server (suc left) key
      ≡ ok (some l)
    → length l.nodes ≡ suc left
    → IsFit (put key value)
    → 0 < length value
    → 0 < args.w
    → args.w ≤ args.n
    → 0 < args.r
    → args.r ≤ 127
    → args.r ≤ args.n
    → AllHold (pps_server fuel junk beyond far) c
    → (c' : Cluster (pps_server fuel junk beyond far)) × Puts
        (pps_server fuel junk beyond far)
        (PutsOnly key value)
        sha1
        (client_of allocated n ring args)
        c
        key
        value
        err_none
        c'
      × ((c'' : Cluster (pps_server fuel junk beyond far)) × Gets
            (pps_server fuel junk beyond far)
            (PutsOnly key value)
            sha1
            (client_of allocated n ring args)
            c'
            key
            (err_none, some value)
            c'')
Puts-Gets fuel junk beyond far sha1 allocated left n ring args key value l c en found full fit pos =
    put_and_get (pps_server fuel junk beyond far) (PutsOnly key value) sha1 allocated left n ring
      args key value l en found full fit pos (λ r h. h) c
