-- ===== src/Cluster/Replicas.antt =====
-- How many servers have a value, while a put and a get exchange messages with them.
use distributed_hash_table.Prelude.{
  ℕ, suc, ◌+◌, ◌≤◌, List, [], ◌∷◌, ◌++◌, map, ok, ◌≡◌, refl, ◌⊎◌, inl, inr, length, length-append,
  arith, ap, sym, subst,
}
use distributed_hash_table.Node.{Node}
use distributed_hash_table.Network.{Sent}
use distributed_hash_table.Network.Quorum.{agree}
use distributed_hash_table.Server.Dump.{Datagram}
use distributed_hash_table.Server.Refinement.{Request, put, get, bytes_of, IsFit}
use distributed_hash_table.Server.Service.{Service}
use distributed_hash_table.Cluster.{Cluster, update, Exchange, done, lost, arrived, other_arrived}
use distributed_hash_table.Cluster.Arrivals.{
  returned, PutHas, IsHarmless, AllKnown, Stored, update-AllKnown, update-Stored, put-Stored,
}
use distributed_hash_table.Cluster.Votes.{agree-append, agree-Answers, agree-Answers-other}

-- A request that is sent to each of the nodes.
abbrev pub sent_to : Request → List Node → Sent
sent_to r nodes = map (λ node. (bytes_of r, node)) nodes

module _ (service : Service) where
  -- At least so many of the nodes' servers map the key to an allowed value.
  pub data Copies (c : Cluster service) (key : List ℕ) (Allowed : List ℕ → Type 0)
      : List Node → ℕ → Type 0 where
    nil : Copies c key Allowed [] 0
    copy :
        {node : Node} {nodes : List Node} {n : ℕ}
        → Stored service c key Allowed node
        → Copies c key Allowed nodes n
        → Copies c key Allowed (node ∷ nodes) (suc n)
    other :
        {node : Node} {nodes : List Node} {n : ℕ}
        → Copies c key Allowed nodes n
        → Copies c key Allowed (node ∷ nodes) n

  Copies-length :
      {c : Cluster service} {key : List ℕ} {Allowed : List ℕ → Type 0} {nodes : List Node} {n : ℕ}
      → Copies c key Allowed nodes n
      → n ≤ length nodes
  Copies-length nil = omega arith
  Copies-length (copy s copies) = omega (arith, Copies-length copies)
  Copies-length (other copies) = omega (arith, Copies-length copies)

  pub Copies-Stored :
      {c c' : Cluster service} {key : List ℕ} {Allowed : List ℕ → Type 0} {nodes : List Node}
      {n : ℕ}
      → ((node : Node) → Stored service c key Allowed node → Stored service c' key Allowed node)
      → Copies c key Allowed nodes n
      → Copies c' key Allowed nodes n
  Copies-Stored keep nil = nil
  Copies-Stored keep (copy {node} s copies) = copy (keep node s) (Copies-Stored keep copies)
  Copies-Stored keep (other copies) = other (Copies-Stored keep copies)

  -- What every arrival keeps is kept while a request is exchanged with nodes.
  pub Exchange-keeps :
      {Other : Request → Type 0} (Q : Cluster service → Type 0) (r : Request)
      → ((c : Cluster service) (node : Node) (r' : Request) (t : service.State)
            (now : List Datagram)
          → IsFit r'
          → (r' ≡ r) ⊎ Other r'
          → service.handle (c node.addr) (bytes_of r') ≡ ok (t, now)
          → Q c
          → Q (update service c node t))
      → IsFit r
      → {c c' : Cluster service} {sent : Sent} {answers : List Datagram} (nodes : List Node)
      → sent ≡ sent_to r nodes
      → Exchange service Other c sent c' answers
      → Q c
      → Q c'
  Exchange-keeps Q r keep fit nodes e done q = q
  Exchange-keeps Q r keep fit [] e (lost x) q = absurd (cc e)
  Exchange-keeps Q r keep fit (node ∷ nodes) e (lost x) q =
      Exchange-keeps Q r keep fit nodes (cc e) x q
  Exchange-keeps Q r keep fit [] e (arrived t run x split) q = absurd (cc e)
  Exchange-keeps Q r keep fit (m ∷ nodes) e
        (arrived {c = c} {node = node} {now = now} t run x split) q =
      let run' : service.handle (c node.addr) (bytes_of r) ≡ ok (t, now) = cc (run, e) in
      Exchange-keeps Q r keep fit nodes (cc e) x (keep c node r t now fit (inl refl) run' q)
  Exchange-keeps Q r keep fit nodes e
        (other_arrived {c = c} {now = now} r' node t fit' is_other run x) q =
      Exchange-keeps Q r keep fit nodes e x (keep c node r' t now fit' (inr is_other) run q)

  -- What is known of all pairs stays known when a request of known pairs is exchanged.
  pub Exchange-AllKnown :
      {Other : Request → Type 0} (P : List ℕ → List ℕ → Type 0) (r : Request)
      → ((r' : Request) → Other r' → PutHas P r')
      → PutHas P r
      → IsFit r
      → {c c' : Cluster service} {sent : Sent} {answers : List Datagram} (nodes : List Node)
      → sent ≡ sent_to r nodes
      → Exchange service Other c sent c' answers
      → AllKnown service P c
      → AllKnown service P c'
  Exchange-AllKnown P r others new fit nodes e x all =
      Exchange-keeps (AllKnown service P) r
        (λ c node r' t now fit' which run all.
          update-AllKnown service c node r' t now fit' run P
            (elim which [
              | inl own ↦ subst (PutHas P) (sym own) new
              | inr is_other ↦ others r' is_other
            ])
            all)
        fit nodes e x all

  -- A server keeps an allowed value when only such values are put for the key.
  pub Exchange-Stored :
      {Other : Request → Type 0} (key : List ℕ) (Allowed : List ℕ → Type 0) (r : Request)
      → ((r' : Request) → Other r' → IsHarmless key Allowed r')
      → IsHarmless key Allowed r
      → IsFit r
      → {c c' : Cluster service} {sent : Sent} {answers : List Datagram} (nodes : List Node)
      → sent ≡ sent_to r nodes
      → Exchange service Other c sent c' answers
      → (m : Node) → Stored service c key Allowed m
      → Stored service c' key Allowed m
  Exchange-Stored key Allowed r others own fit nodes e x m =
      Exchange-keeps (λ c. Stored service c key Allowed m) r
        (λ c node r' t now fit' which run stored.
          update-Stored service c node r' t now fit' run key Allowed m
            (elim which [
              | inl same ↦ subst (IsHarmless key Allowed) (sym same) own
              | inr is_other ↦ others r' is_other
            ])
            stored)
        fit nodes e x

  module _ (Other : Request → Type 0) (P : List ℕ → List ℕ → Type 0) (key : List ℕ)
      (Allowed : List ℕ → Type 0) (known : (r : Request) → Other r → PutHas P r)
      (harmless : (r : Request) → Other r → IsHarmless key Allowed r) where
    -- Behind a put, at least as many servers have the value as have answered.
    pub Exchange-put :
        {c c' : Cluster service} {sent : Sent} {answers : List Datagram} (value : List ℕ)
        (nodes : List Node)
        → IsFit (put key value)
        → Allowed value
        → P key value
        → AllKnown service P c
        → sent ≡ sent_to (put key value) nodes
        → Exchange service Other c sent c' answers
        → Copies c' key Allowed nodes (length answers)
    Exchange-put value [] fit ok_value new all e done = nil
    Exchange-put value (node ∷ nodes) fit ok_value new all e done = absurd (cc e)
    Exchange-put value [] fit ok_value new all e (lost x) = absurd (cc e)
    Exchange-put value (node ∷ nodes) fit ok_value new all e (lost x) =
        other (Exchange-put value nodes fit ok_value new all (cc e) x)
    Exchange-put value [] fit ok_value new all e (arrived t run x split) = absurd (cc e)
    Exchange-put value (m ∷ nodes) fit ok_value new all e
          (arrived {c = c} {c' = c'} {node = node} {answers = answers} {now = now} {later = later} t
            run x split) =
        let run' : service.handle (c node.addr) (key ++ 0 ∷ value) ≡ ok (t, now) = cc (run, e) in
        let (f, (has, pairs)) = all node.addr in
        let answer = (returned t now run' (service.put_law (c node.addr) f key value fit has)).0 in
        let all' = update-AllKnown service c node (put key value) t now fit run' P new all in
        let stored = put-Stored service c node key value Allowed f t now fit ok_value run' has in
        let same : node ≡ m = cc e in
        let size : suc (length later) ≡ length answers =
          omega (arith, ap length split, length-append now later, ap length answer) in
        subst (Copies c' key Allowed (m ∷ nodes)) size (
          copy
            (subst (Stored service c' key Allowed) same (
              Exchange-Stored key Allowed (put key value) harmless (inr ok_value) fit nodes (cc e) x
                node stored))
            (Exchange-put value nodes fit ok_value new all' (cc e) x))
    Exchange-put value nodes fit ok_value new all e
          (other_arrived {c = c} {now = now} r node t fit' is_other run x) =
        Exchange-put value nodes fit ok_value new
          (update-AllKnown service c node r t now fit' run P (known r is_other) all) e x

    -- Answers with a value that is not allowed come only from servers that have no allowed one.
    pub Exchange-get :
        {c c' : Cluster service} {sent : Sent} {answers : List Datagram} {n : ℕ} (v : List ℕ)
        (nodes : List Node)
        → IsFit (get key)
        → ¬ Allowed v
        → AllKnown service P c
        → Copies c key Allowed nodes n
        → sent ≡ sent_to (get key) nodes
        → Exchange service Other c sent c' answers
        → agree v answers + n ≤ length nodes
    Exchange-get v [] fit ne all copies e done = unfold agree in omega (arith, Copies-length copies)
    Exchange-get v (node ∷ nodes) fit ne all copies e done = absurd (cc e)
    Exchange-get v [] fit ne all copies e (lost x) = absurd (cc e)
    Exchange-get v (node ∷ nodes) fit ne all (copy s copies) e (lost x) =
        omega (arith, Exchange-get v nodes fit ne all copies (cc e) x)
    Exchange-get v (node ∷ nodes) fit ne all (other copies) e (lost x) =
        omega (arith, Exchange-get v nodes fit ne all copies (cc e) x)
    Exchange-get v [] fit ne all copies e (arrived t run x split) = absurd (cc e)
    Exchange-get v (m ∷ nodes) fit ne all (copy (f, has, (value, stored, allowed)) copies) e
          (arrived {c = c} {node = node} {answers = answers} {now = now} {later = later} t run x
            split) =
        let run' : service.handle (c node.addr) key ≡ ok (t, now) = cc (run, e) in
        let same : m ≡ node = cc e in
        let has' = subst (λ (k : Node). service.Has (c k.addr) f) same has in
        let answer = (returned t now run' (service.get_law (c node.addr) f key fit has')).1 in
        let keep =
          λ (k : Node). update-Stored service c node (get key) t now fit run' key Allowed k tt in
        let all' = update-AllKnown service c node (get key) t now fit run' P tt all in
        omega (
          arith,
          Exchange-get v nodes fit ne all' (Copies-Stored keep copies) (cc e) x,
          agree-append v now later,
          ap (agree v) split,
          agree-Answers-other v value (f key) now (λ same. ne (subst Allowed (sym same) allowed))
              stored (service.sendable (c node.addr) f has' key) answer,
        )
    Exchange-get v (m ∷ nodes) fit ne all (other copies) e
          (arrived {c = c} {node = node} {answers = answers} {now = now} {later = later} t run x
            split) =
        let run' : service.handle (c node.addr) key ≡ ok (t, now) = cc (run, e) in
        let (f, (has, pairs)) = all node.addr in
        let answer = (returned t now run' (service.get_law (c node.addr) f key fit has)).1 in
        let keep =
          λ (k : Node). update-Stored service c node (get key) t now fit run' key Allowed k tt in
        let all' = update-AllKnown service c node (get key) t now fit run' P tt all in
        omega (
          arith,
          Exchange-get v nodes fit ne all' (Copies-Stored keep copies) (cc e) x,
          agree-append v now later,
          ap (agree v) split,
          agree-Answers v (f key) now (service.sendable (c node.addr) f has key) answer,
        )
    Exchange-get v nodes fit ne all copies e
          (other_arrived {c = c} {now = now} r node t fit' is_other run x) =
        let keep = λ (k : Node).
          update-Stored service c node r t now fit' run key Allowed k (harmless r is_other) in
        Exchange-get v nodes fit ne
          (update-AllKnown service c node r t now fit' run P (known r is_other) all)
          (Copies-Stored keep copies) e x
