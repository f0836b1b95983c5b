-- ===== src/Cluster/Exchanges.antt =====
-- What a client's report tells of the exchange behind it.
use distributed_hash_table.Prelude.{
  ℕ, suc, true, sym, ◌∙◌, ◌<◌, ◌≤◌, List, [], ◌∷◌, some, ok, fault, ◌≡◌, refl, ◌==◌, ◌⊎◌, length,
  length-append, arith, ap, Bool-cases, inl, inr, leb, subst,
}
use distributed_hash_table.Errors.{err_none}
use distributed_hash_table.Args.{Args}
use distributed_hash_table.Node.{Node}
use distributed_hash_table.Network.{Client}
use distributed_hash_table.Network.Quorum.{agree, IsAnswer}
use distributed_hash_table.Network.Requests.{acknowledged, put-full, put-short, get-full, get-short}
use distributed_hash_table.Server.Dump.{Datagram}
use distributed_hash_table.Server.Refinement.{Request, put, get, IsFit}
use distributed_hash_table.Cluster.{
  Cluster, Exchange, Arrives, timeout, reply, Puts, put_exchange, Gets, get_exchange,
}
use distributed_hash_table.Cluster.Replicas.{sent_to}
use distributed_hash_table.Cluster.Votes.{agree-append}
use distributed_hash_table.NodeList.{NodeList}
use distributed_hash_table.Ring.{ring_get_nodes_for_key}
use distributed_hash_table.Ring.Storage.{ring_get_nodes_for_key-IsStorage}
use distributed_hash_table.Server.Service.{Service}

pub length-Arrives :
    {answers replies : List Datagram} → Arrives answers replies → length replies ≤ length answers
length-Arrives timeout = omega arith
length-Arrives (reply before behind d e rest) = omega (
  arith,
  length-Arrives rest,
  length-append before behind,
  length-append before (d ∷ behind),
  ap length e,
)

pub in_order : (answers : List Datagram) → Arrives answers answers
in_order [] = timeout
in_order (d ∷ answers) = reply [] answers d refl (in_order answers)

pub agree-Arrives :
    (v : List ℕ) {answers replies : List Datagram}
    → Arrives answers replies
    → agree v replies ≤ agree v answers
agree-Arrives v timeout = unfold agree in omega arith
agree-Arrives v (reply {answers} {replies} before behind d e rest) = omega (
  arith,
  agree-Arrives v rest,
  agree-append v before behind,
  agree-append v before (d ∷ behind),
  agree-append v (d ∷ []) behind,
  agree-append v (d ∷ []) replies,
  ap (agree v) e,
)

pub le-cases : (a b : ℕ) → a ≤ b → (a < b) ⊎ (a ≡ b)
le-cases a b h = elim (Bool-cases (a == b)) [
  | inl e ↦ inr (ground arith)
  | inr e ↦ inl (ground arith)
]

pub fault-ne-ok : {A : Type 0} {a : A} → ¬ fault ≡ ok a
fault-ne-ok e = cc e

-- A put that reports no error had W replies.
pub acknowledged-none : (w n : ℕ) → acknowledged w n ≡ err_none → w ≤ n
acknowledged-none w n e = elim (Bool-cases (leb w n)) [
  | inl h ↦ ground arith
  | inr h ↦ absurd (cc (e, h))
]

pub answered-votes :
    (r : ℕ) (v : List ℕ) (replies : List Datagram)
    → IsAnswer r replies (err_none, some v)
    → r ≤ agree v replies
answered-votes r v replies (inl (w, e, h)) = let same : v ≡ w = cc e in rw same h
answered-votes r v replies (inr (e, h)) = absurd (cc e)

pub pair-eq : {A B : Type 0} {p : A × B} {a : A} {b : B} → p.0 ≡ a → p.1 ≡ b → p ≡ (a, b)
pair-eq e f = λ i. (e i, f i)

abbrev pub client_of : ℕ → Node → List Node → Args → Client
client_of allocated n ring args = record {
  server = record { allocated_size = allocated; nodes = n ∷ ring };
  args = args;
}

module _ (service : Service) (Other : Request → Type 0) (sha1 : List ℕ → List ℕ)
    (allocated left : ℕ) (n : Node) (ring : List Node) (args : Args) (c c' : Cluster service)
    (key : List ℕ) (en : args.n ≡ suc left) where
  abbrev server : NodeList
  server = (client_of allocated n ring args).server

  -- A put that reports no error has sent its request to N nodes, and W answers have come.
  abbrev pub PutAnswered : List ℕ → Type 0
  PutAnswered value =
      (l : NodeList) × (ring_get_nodes_for_key sha1 true server (suc left) key ≡ ok (some l))
      × (length l.nodes ≡ suc left)
      × ((answers : List Datagram) × Exchange service Other c (sent_to (put key value) l.nodes) c'
            answers
          × (args.w ≤ length answers))

  -- A get that returns a value has sent its request to N nodes, and R answers carry the value.
  abbrev pub GetAnswered : List ℕ → Type 0
  GetAnswered v =
      (l : NodeList) × (ring_get_nodes_for_key sha1 true server (suc left) key ≡ ok (some l))
      × (length l.nodes ≡ suc left)
      × ((answers : List Datagram) × Exchange service Other c (sent_to (get key) l.nodes) c' answers
          × (args.r ≤ agree v answers))

  pub Puts-answered :
      (value : List ℕ)
      → 0 < args.w
      → IsFit (put key value)
      → Puts service Other sha1 (client_of allocated n ring args) c key value err_none c'
      → PutAnswered value
  Puts-answered value hw fit (put_exchange {sent} {replies} {answers} run exchange arrived) =
      let (o, found, (l, some_l, storage)) =
        ring_get_nodes_for_key-IsStorage sha1 allocated n ring left key in
      let found' = found ∙ ap ok some_l in
      let full : length l.nodes ≡ suc left =
        elim (le-cases (length l.nodes) (suc left) storage.at_most) [
          | inl few ↦ absurd (
              fault-ne-ok (
                sym (
                  put-short sha1 server left args key l en found' fit.3 value replies
                    (omega (arith, fit.4)) few)
                ∙ run))
          | inr e ↦ e
        ] in
      let sends =
        put-full sha1 server left args key l en found' fit.3 value replies (omega (arith, fit.4)) hw
          fit.0 fit.1 full in
      let sent' : sent ≡ sent_to (put key value) l.nodes = cc (sends, run) in
      let enough : args.w ≤ length replies =
        acknowledged-none args.w (length replies) (cc (sends, run)) in
      (
        l,
        found',
        full,
        (
          answers,
          subst (λ s. Exchange service Other c s c' answers) sent' exchange,
          omega (arith, length-Arrives arrived),
        ),
      )

  pub Gets-answered :
      (v : List ℕ)
      → 0 < args.r
      → args.r ≤ 127
      → IsFit (get key)
      → Gets service Other sha1 (client_of allocated n ring args) c key (err_none, some v) c'
      → GetAnswered v
  Gets-answered v hr small fit (get_exchange {sent} {replies} {answers} run exchange arrived) =
      let (o, found, (l, some_l, storage)) =
        ring_get_nodes_for_key-IsStorage sha1 allocated n ring left key in
      let found' = found ∙ ap ok some_l in
      let full : length l.nodes ≡ suc left =
        elim (le-cases (length l.nodes) (suc left) storage.at_most) [
          | inl few ↦ absurd (
              fault-ne-ok
                (sym (get-short sha1 server left args key l en found' fit.2 replies few) ∙ run))
          | inr e ↦ e
        ] in
      let (r, run', (right, sent')) =
        get-full sha1 server left args key l en found' fit.2 replies hr small full in
      let both : r ≡ ((err_none, some v), sent) = cc (run, run') in
      let votes : args.r ≤ agree v replies =
        answered-votes args.r v replies
          (subst (IsAnswer args.r replies) (ap (λ p. p.0) both) right) in
      (
        l,
        found',
        full,
        (
          answers,
          subst (λ s. Exchange service Other c s c' answers) (sym (ap (λ p. p.1) both) ∙ sent')
              exchange,
          omega (arith, agree-Arrives v arrived),
        ),
      )
