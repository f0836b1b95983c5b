-- ===== src/Cluster/Arrivals.antt =====
-- What the arrival of one request leaves at the servers.
use distributed_hash_table.Prelude.{
  ℕ, List, ◌∷◌, ◌++◌, some, Run, ok, ◌≡◌, refl, ◌≢◌, ◌⊎◌, arith, Returns, sym, Bool-cases, inl, inr,
  subst,
}
use distributed_hash_table.Text.{str_eq, str_eq_iff, str_eq_refl}
use distributed_hash_table.Node.{Address, Node}
use distributed_hash_table.Server.Dump.{Datagram}
use distributed_hash_table.Server.Refinement.{Request, put, get, bytes_of, Map, after, IsFit}
use distributed_hash_table.Server.Service.{Service}
use distributed_hash_table.Cluster.{Cluster, is_at, update}

-- A run that is known to end so ends in a value of which the postcondition holds.
pub returned :
    {A B : Type 0} {p : Run (A × B)} {P : A × B → Type 0} (a : A) (b : B)
    → p ≡ ok (a, b)
    → Returns p P
    → P (a, b)
returned {P} a b e (r, run, h) = subst P (cc (run, e)) h

-- A put's pair has the property; a get has no pair.
abbrev pub PutHas : (List ℕ → List ℕ → Type 0) → Request → Type 0
PutHas P (put key value) = P key value
PutHas P (get key) = Unit

-- What is put for the key is allowed.
abbrev pub IsHarmless : List ℕ → (List ℕ → Type 0) → Request → Type 0
IsHarmless key Allowed (put k v) = (k ≢ key) ⊎ Allowed v
IsHarmless key Allowed (get k) = Unit

-- No other value is put for the key.
abbrev pub PutsOnly : List ℕ → List ℕ → Request → Type 0
PutsOnly key value = IsHarmless key (λ v. v ≡ value)

after-put : (f : Map) (key value : List ℕ) → after f (put key value) key ≡ some value
unfolding after
after-put f key value = rw (str_eq_refl key) refl

-- The map has an allowed value for the key.
abbrev HasAllowed : Map → List ℕ → (List ℕ → Type 0) → Type 0
HasAllowed f key Allowed = (v : List ℕ) × (f key ≡ some v) × Allowed v

after-HasAllowed :
    (f : Map) (key : List ℕ) (Allowed : List ℕ → Type 0) (r : Request)
    → IsHarmless key Allowed r
    → HasAllowed f key Allowed
    → HasAllowed (after f r) key Allowed
unfolding after
after-HasAllowed f key Allowed (get k) h e = e
after-HasAllowed f key Allowed (put k v) h e = elim (Bool-cases (str_eq k key)) [
  | inl same ↦ elim h [
    | inl other ↦ absurd (other ((str_eq_iff k key).0 same))
    | inr allowed ↦ (v, rw same refl, allowed)
  ]
  | inr other ↦ (e.0, rw other e.1, e.2)
]

module _ (service : Service) where
  -- What a server has of which it is known that its pairs have the property.
  abbrev pub HasKnown : (List ℕ → List ℕ → Type 0) → service.State → Map → Type 0
  HasKnown P t f = service.Has t f × ((q v : List ℕ) → f q ≡ some v → P q v)

  -- Every server has some map, all of whose pairs have the property.
  abbrev pub AllKnown : (List ℕ → List ℕ → Type 0) → Cluster service → Type 0
  AllKnown P c = (a : Address) → (f : Map) × HasKnown P (c a) f

  -- The server of a node maps the key to an allowed value.
  abbrev pub Stored : Cluster service → List ℕ → (List ℕ → Type 0) → Node → Type 0
  Stored c key Allowed node = (f : Map) × service.Has (c node.addr) f × HasAllowed f key Allowed

  pub handle-Has :
      (r : Request) (f : Map) (t t' : service.State) (now : List Datagram)
      → IsFit r
      → service.handle t (bytes_of r) ≡ ok (t', now)
      → service.Has t f
      → service.Has t' (after f r)
  unfolding after
  handle-Has (put key value) f t t' now fit run has =
      (returned t' now run (service.put_law t f key value fit has)).1
  handle-Has (get key) f t t' now fit run has =
      let same : t' ≡ t = (returned t' now run (service.get_law t f key fit has)).0 in rw same has

  known-after :
      (P : List ℕ → List ℕ → Type 0) (r : Request) (f : Map)
      → PutHas P r
      → ((q v : List ℕ) → f q ≡ some v → P q v)
      → (q v : List ℕ) → after f r q ≡ some v
      → P q v
  unfolding after
  known-after P (get key) f new known q v e = known q v e
  known-after P (put key value) f new known q v e = elim (Bool-cases (str_eq key q)) [
    | inl same ↦
        let key' : key ≡ q = (str_eq_iff key q).0 same in
        let value' : value ≡ v = cc (rw same at e) in
        subst (λ k. P k v) key' (subst (P key) value' new)
    | inr other ↦ known q v (rw other at e)
  ]

  pub update-at :
      (c : Cluster service) (node : Node) (t : service.State)
      → update service c node t node.addr ≡ t
  update-at c node t = ground arith

  -- What holds of the changed server and of the others holds of each.
  pub update-cases :
      (c : Cluster service) (node : Node) (t : service.State) (a : Address)
      (Q : service.State → Type 0)
      → (node.addr ≡ a → Q t)
      → Q (c a)
      → Q (update service c node t a)
  update-cases c node t a Q new old = elim (Bool-cases (is_at node a)) [
    | inl same ↦ rw same (new (ground arith))
    | inr elsewhere ↦ rw elsewhere old
  ]

  module _ (c : Cluster service) (node : Node) (r : Request) (t : service.State)
      (now : List Datagram) (fit : IsFit r)
      (run : service.handle (c node.addr) (bytes_of r) ≡ ok (t, now)) where
    pub update-AllKnown :
        (P : List ℕ → List ℕ → Type 0)
        → PutHas P r
        → AllKnown P c
        → AllKnown P (update service c node t)
    update-AllKnown P new all a =
        update-cases c node t a (λ s. (f : Map) × HasKnown P s f)
          (λ here.
            let (f, (has, known)) = all node.addr in
            (
              after f r,
              (handle-Has r f (c node.addr) t now fit run has, known-after P r f new known),
            ))
          (all a)

    -- A harmless request leaves what is stored allowed.
    pub update-Stored :
        (key : List ℕ) (Allowed : List ℕ → Type 0) (m : Node)
        → IsHarmless key Allowed r
        → Stored c key Allowed m
        → Stored (update service c node t) key Allowed m
    update-Stored key Allowed m harmless (f, has, e) =
        update-cases c node t m.addr (λ s. (f : Map) × service.Has s f × HasAllowed f key Allowed)
          (λ here.
            let has' = subst (λ a. service.Has (c a) f) (sym here) has in
            (
              after f r,
              handle-Has r f (c node.addr) t now fit run has',
              after-HasAllowed f key Allowed r harmless e,
            ))
          (f, has, e)

-- Behind a put its server has the value.
pub put-Stored :
    (service : Service) (c : Cluster service) (node : Node) (key value : List ℕ)
    (Allowed : List ℕ → Type 0) (f : Map) (t : service.State) (now : List Datagram)
    → IsFit (put key value)
    → Allowed value
    → service.handle (c node.addr) (key ++ 0 ∷ value) ≡ ok (t, now)
    → service.Has (c node.addr) f
    → Stored service (update service c node t) key Allowed node
put-Stored service c node key value Allowed f t now fit allowed run has =
    let has' = handle-Has service (put key value) f (c node.addr) t now fit run has in
    (
      after f (put key value),
      subst (λ s. service.Has s (after f (put key value))) (sym (update-at service c node t)) has',
      (value, after-put f key value, allowed),
    )
