-- ===== src/Cluster/ReadYourWrites.antt =====
-- Why the quorums of a put and of a get have to overlap: N < R + W.
use distributed_hash_table.Prelude.{
  ℕ, suc, ◌+◌, ◌<◌, ◌≤◌, List, some, ◌≡◌, refl, length, arith, ap, sym, Bool-cases, inl, inr,
}
use distributed_hash_table.Text.{str_eq, str_eq_iff}
use distributed_hash_table.Errors.{err_none}
use distributed_hash_table.Args.{Args}
use distributed_hash_table.Node.{Node}
use distributed_hash_table.NodeList.{NodeList}
use distributed_hash_table.Server.Dump.{max_msg_elem_size}
use distributed_hash_table.Server.Refinement.{Request, put, get, IsFit}
use distributed_hash_table.Server.Service.{Service, pps_server}
use distributed_hash_table.Cluster.{Cluster, Puts, Gets}
use distributed_hash_table.Cluster.Arrivals.{PutHas, IsHarmless, PutsOnly, AllKnown}
use distributed_hash_table.Cluster.Replicas.{sent_to, Exchange-AllKnown, Exchange-put, Exchange-get}
use distributed_hash_table.Cluster.Exchanges.{client_of, Puts-answered, Gets-answered}

-- Every server has some map.
abbrev pub AllHold : (service : Service) → Cluster service → Type 0
AllHold service c = AllKnown service (λ _ _. Unit) c

pub any_PutHas : (r : Request) → PutHas (λ _ _. Unit) r
any_PutHas (put key value) = tt
any_PutHas (get key) = tt

module _ (service : Service) (Other : Request → Type 0) (sha1 : List ℕ → List ℕ)
    (allocated left : ℕ) (n : Node) (ring : List Node) (args args' : Args) (key value : List ℕ)
    (Allowed : List ℕ → Type 0) (harmless : (r : Request) → Other r → IsHarmless key Allowed r)
    (c c' c'' : Cluster service) where
  -- When only allowed values are put for the key, the value of a put that is acknowledged among
  -- them, a value that is not allowed has no quorum in a get behind it, whose R may be another.
  pub quorums_overlap :
      (v : List ℕ)
      → args.n ≡ suc left
      → args'.n ≡ suc left
      → 0 < args.w
      → 0 < args'.r
      → args'.r ≤ 127
      → args.n < args'.r + args.w
      → IsFit (put key value)
      → AllHold service c
      → Allowed value
      → Puts service Other sha1 (client_of allocated n ring args) c key value err_none c'
      → Gets service Other sha1 (client_of allocated n ring args') c' key (err_none, some v) c''
      → ¬ (¬ Allowed v)
  quorums_overlap v en en' hw hr small overlap fit all allowed puts gets refused =
      let P : List ℕ → List ℕ → Type 0 = λ _ _. Unit in
      let known = λ (r : Request) (h : Other r). any_PutHas r in
      let (l, found, full, (acks, stored, enough)) =
        Puts-answered service Other sha1 allocated left n ring args c c' key en value hw fit puts in
      let (l', found', full', (answers, asked, votes)) =
        Gets-answered service Other sha1 allocated left n ring args' c' c'' key en' v hr small
          (fit.0, fit.2, fit.3) gets in
      let same : l ≡ l' = cc (found, found') in
      let copies =
        Exchange-put service Other P key Allowed known harmless value l.nodes fit allowed tt all
          refl stored in
      let all' = Exchange-AllKnown service P (put key value) known tt fit l.nodes refl stored all in
      let few =
        Exchange-get service Other P key Allowed known harmless v l.nodes (fit.0, fit.2, fit.3)
          refused all' copies (ap (λ (k : NodeList). sent_to (get key) k.nodes) (sym same)) asked in
      omega (arith, few, full)

-- A client whose ring is not empty, with N positive, W positive, R from 1 to 127 and N < R + W, puts
-- a value for a key, both strings that fit, at servers of pps-launch-server.c whose tables hold
-- values that can be sent; memory is not short, a NUL is behind each message in a server's buffer,
-- and behind a value there is enough memory to read. When the put reported no error, a later get of
-- the key by such a client returns no other value, whichever of their messages get lost and in
-- whatever order the answers come, and whatever other requests arrive before, between and behind
-- theirs, as long as none of them puts another value for this key.
pub Gets-eq-Puts :
    (fuel : ℕ) (junk beyond : List ℕ) (far : max_msg_elem_size ≤ length beyond)
    (sha1 : List ℕ → List ℕ) (allocated left : ℕ) (n : Node) (ring : List Node) (args : Args)
    (key value v : List ℕ) (c c' c'' : Cluster (pps_server fuel junk beyond far))
    → args.n ≡ suc left
    → 0 < args.w
    → 0 < args.r
    → args.r ≤ 127
    → args.n < args.r + args.w
    → IsFit (put key value)
    → AllHold (pps_server fuel junk beyond far) c
    → Puts
        (pps_server fuel junk beyond far)
        (PutsOnly key value)
        sha1
        (client_of allocated n ring args)
        c
        key
        value
        err_none
        c'
    → Gets
        (pps_server fuel junk beyond far)
        (PutsOnly key value)
        sha1
        (client_of allocated n ring args)
        c'
        key
        (err_none, some v)
        c''
    → v ≡ value
Gets-eq-Puts fuel junk beyond far sha1 allocated left n ring args key value v c c' c'' en hw hr
      small overlap fit all puts gets =
    elim (Bool-cases (str_eq v value)) [
      | inl e ↦ (str_eq_iff v value).0 e
      | inr ne ↦ absurd (
          quorums_overlap (pps_server fuel junk beyond far) (PutsOnly key value) sha1 allocated left
            n ring args args key value (λ w. w ≡ value) (λ r h. h) c c' c'' v en en hw hr small
            overlap fit all refl puts gets (λ e. cc (ne, (str_eq_iff v value).1 e)))
    ]
