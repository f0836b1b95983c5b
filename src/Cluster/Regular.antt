-- ===== src/Cluster/Regular.antt =====
-- What a get returns while other clients put other values for its key.
use mathlib.Core.List.{Memᴰ}
use distributed_hash_table.Prelude.{
  ℕ, suc, ◌+◌, ◌<◌, ◌≤◌, List, [], ◌∷◌, some, ◌≡◌, refl, ◌⊎◌, inl, inr, length, Bool-cases, subst,
}
use distributed_hash_table.Text.{str_eq, str_eq_iff}
use distributed_hash_table.Errors.{err_none}
use distributed_hash_table.Args.{Args}
use distributed_hash_table.Node.{Node}
use distributed_hash_table.Server.Dump.{max_msg_elem_size}
use distributed_hash_table.Server.Refinement.{Request, put, get, IsFit}
use distributed_hash_table.Server.Service.{Service, pps_server}
use distributed_hash_table.Cluster.{Cluster, Puts, Gets}
use distributed_hash_table.Cluster.Arrivals.{IsHarmless}
use distributed_hash_table.Cluster.Exchanges.{client_of}
use distributed_hash_table.Cluster.ReadYourWrites.{quorums_overlap}
use distributed_hash_table.Cluster.Provenance.{History, History-AllKnown}

str_eq-cases : (s t : List ℕ) → (s ≡ t) ⊎ ¬ s ≡ t
str_eq-cases s t = elim (Bool-cases (str_eq s t)) [
  | inl same ↦ inl ((str_eq_iff s t).0 same)
  | inr other ↦ inr (λ e. cc (other, (str_eq_iff s t).1 e))
]

Memᴰ-uncons : {r s : Request} {rs : List Request} → Memᴰ r (s ∷ rs) → (r ≡ s) ⊎ Memᴰ r rs
Memᴰ-uncons (Memᴰ.head e) = inl e
Memᴰ-uncons (Memᴰ.tail m) = inr m

put-cases : (key v : List ℕ) (r : Request) → (put key v ≡ r) ⊎ ¬ put key v ≡ r
put-cases key v (get k) = inr (λ e. cc e)
put-cases key v (put k w) = elim (str_eq-cases key k) [
  | inr other ↦ inr (λ e. other (cc e))
  | inl e ↦ elim (str_eq-cases v w) [
    | inr other ↦ inr (λ e. other (cc e))
    | inl e' ↦ inl (cc (e, e'))
  ]
]

Memᴰ-cases :
    (key v : List ℕ) (requests : List Request)
    → Memᴰ (put key v) requests ⊎ ¬ Memᴰ (put key v) requests
Memᴰ-cases key v [] = inr (λ m. elim m [ ])
Memᴰ-cases key v (r ∷ requests) = elim (Memᴰ-cases key v requests) [
  | inl m ↦ inl (Memᴰ.tail m)
  | inr absent ↦ elim (put-cases key v r) [
    | inl e ↦ inl (Memᴰ.head e)
    | inr other ↦ inr (λ m. elim (Memᴰ-uncons m) [ inl e ↦ other e | inr m' ↦ absent m' ])
  ]
]

-- What may be read: the value that was put, or one that some other request puts.
abbrev pub IsWritten : List ℕ → List ℕ → List Request → List ℕ → Type 0
IsWritten key value further v = (v ≡ value) ⊎ Memᴰ (put key v) further

further-IsHarmless :
    (key value : List ℕ) (further : List Request) (r : Request)
    → Memᴰ r further
    → IsHarmless key (IsWritten key value further) r
further-IsHarmless key value further (get k) m = tt
further-IsHarmless key value further (put k v) m = elim (str_eq-cases k key) [
  | inl same ↦ inr (inr (subst (λ k. Memᴰ (put k v) further) same m))
  | inr other ↦ inl other
]

-- The value of a get behind a put, between clients with options of their own.
pub read_back :
    (service : Service) (sha1 : List ℕ → List ℕ) (allocated left : ℕ) (n : Node) (ring : List Node)
    (args args' : Args) (requests further : List Request) (key value v : List ℕ)
    (c c' c'' : Cluster service)
    → args.n ≡ suc left
    → args'.n ≡ suc left
    → 0 < args.w
    → 0 < args'.r
    → args'.r ≤ 127
    → args.n < args'.r + args.w
    → IsFit (put key value)
    → History service requests c
    → Puts service
        (λ r. Memᴰ r further)
        sha1
        (client_of allocated n ring args)
        c
        key
        value
        err_none
        c'
    → Gets service
        (λ r. Memᴰ r further)
        sha1
        (client_of allocated n ring args')
        c'
        key
        (err_none, some v)
        c''
    → IsWritten key value further v
read_back service sha1 allocated left n ring args args' requests further key value v c c' c'' en en'
      hw hr small overlap fit history puts gets =
    let all = History-AllKnown service (λ _ _. Unit) (λ k w m. tt) history in
    let refuted =
      quorums_overlap service (λ r. Memᴰ r further) sha1 allocated left n ring args args' key value
        (IsWritten key value further) (further-IsHarmless key value further) c c' c'' v en en' hw hr
        small overlap fit all (inl refl) puts gets in
    elim (str_eq-cases v value) [
      | inl e ↦ inl e
      | inr other ↦ elim (Memᴰ-cases key v further) [
        | inl m ↦ inr m
        | inr absent ↦ absurd (refuted (λ w. elim w [ inl e ↦ other e | inr m ↦ absent m ]))
      ]
    ]

-- Servers of pps-launch-server.c start with empty tables, and requests of strings that fit arrive at
-- them in any order; memory is not short, a NUL is behind each message in a server's buffer, and
-- behind a value there is enough memory to read. A client whose ring is not empty, with N and W
-- positive, R from 1 to 127 and N < R + W, puts a value for a key, both strings that fit, and is told
-- that there is no error. Then such a client gets the key. Between the arrivals of these two
-- clients' messages further requests arrive, of which some may put other values for the key. A value
-- that the get returns is the one that was put, or one that a further request puts for the key;
-- those of the first requests are no longer returned.
pub Gets-IsWritten :
    (fuel : ℕ) (junk beyond : List ℕ) (far : max_msg_elem_size ≤ length beyond)
    (sha1 : List ℕ → List ℕ) (allocated left : ℕ) (n : Node) (ring : List Node) (args : Args)
    (requests further : List Request) (key value v : List ℕ)
    (c c' c'' : Cluster (pps_server fuel junk beyond far))
    → args.n ≡ suc left
    → 0 < args.w
    → 0 < args.r
    → args.r ≤ 127
    → args.n < args.r + args.w
    → IsFit (put key value)
    → History (pps_server fuel junk beyond far) requests c
    → Puts
        (pps_server fuel junk beyond far)
        (λ r. Memᴰ r further)
        sha1
        (client_of allocated n ring args)
        c
        key
        value
        err_none
        c'
    → Gets
        (pps_server fuel junk beyond far)
        (λ r. Memᴰ r further)
        sha1
        (client_of allocated n ring args)
        c'
        key
        (err_none, some v)
        c''
    → IsWritten key value further v
Gets-IsWritten fuel junk beyond far sha1 allocated left n ring args requests further key value v c
      c' c'' en hw hr small overlap fit history puts gets =
    read_back (pps_server fuel junk beyond far) sha1 allocated left n ring args args requests
      further key value v c c' c'' en en hw hr small overlap fit history puts gets
