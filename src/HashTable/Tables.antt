-- ===== src/HashTable/Tables.antt =====
-- A table whose buckets are chains, and what it maps: a key stands in the chain at its hash, at
-- most once.
use distributed_hash_table.Prelude.{
  ℕ, zero, suc, ◌≤◌, ◌<◌, List, [], map, true, if◌then◌else◌, none, some, ok, ◌>>=◌, length, get_or,
  set, at, arith, ◌≡◌, refl, ◌≢◌, replicate, get_elem?-map, get_elem?-get_or, set-map, length-set,
  get_or-set, replicate-map, length-replicate, get_or-replicate, ap, ◌∙◌,
}
use distributed_hash_table.Text.{str_eq, str_eq_iff}
use distributed_hash_table.Errors.{err_none}
use distributed_hash_table.HashTable.{
  Htable, construct_htable, hash_function, add_htable_value, get_htable_value,
}
use distributed_hash_table.HashTable.Chains.{
  Chain, repr, find, assign, count, add_value_to_bucket-repr, get_value_from_bucket-repr,
  find-assign, count-assign,
}

abbrev pub table_of : List Chain → Htable
table_of cs = record { buckets = map repr cs; size = length cs }

-- In range for every key, unless the table has no bucket.
pub hash_function-lt : (k : List ℕ) (n : ℕ) → 0 < n → hash_function (some k) n < n
unfolding hash_function
hash_function-lt k zero h = absurd (omega arith)
hash_function-lt k (suc n) h = omega arith

abbrev pub home : List Chain → List ℕ → ℕ
home cs k = hash_function (some k) (length cs)

abbrev pub chain_of : List Chain → List ℕ → Chain
chain_of cs k = get_or cs (home cs k) []

pub at-home :
    (cs : List Chain) (k : List ℕ)
    → 0 < length cs
    → at (map repr cs) (home cs k) ≡ ok (repr (chain_of cs k))
at-home cs k h = rw (get_elem?-map, get_elem?-get_or cs (home cs k) [] (hash_function-lt k _ h))

abbrev pub written : List Chain → List ℕ → List ℕ → List Chain
written cs k v = set cs (home cs k) (assign k v (chain_of cs k))

pub add-table_of :
    (cs : List Chain) (k v : List ℕ)
    → 0 < length cs
    → add_htable_value true (table_of cs) (some k) (some v)
      ≡ ok (err_none, table_of (written cs k v))
unfolding add_htable_value
add-table_of cs k v h =
    rw (at-home cs k h, add_value_to_bucket-repr)
      (cc (
        set-map cs repr (home cs k) (assign k v (chain_of cs k)),
        length-set cs (home cs k) (assign k v (chain_of cs k)),
      ))

pub get-table_of :
    (cs : List Chain) (k : List ℕ)
    → 0 < length cs
    → get_htable_value (table_of cs) (some k) ≡ ok (find k (chain_of cs k))
unfolding get_htable_value
get-table_of cs k h = rw (at-home cs k h, ◌>>=◌, get_value_from_bucket-repr)

-- A key occurs at most once, and only in its home chain.
abbrev pub IsPlaced : List Chain → Type 0
IsPlaced cs =
    (q : List ℕ) (i : ℕ)
    → (count q (get_or cs i []) ≤ 1) × (home cs q ≢ i → count q (get_or cs i []) ≡ 0)

pub written-IsPlaced :
    (cs : List Chain) (k v : List ℕ) → 0 < length cs → IsPlaced cs → IsPlaced (written cs k v)
written-IsPlaced cs k v h placed q i =
    rw
      (
        length-set,
        get_or-set cs (home cs k) i (assign k v (chain_of cs k)) [] (hash_function-lt k _ h),
      )
      (ground (arith, placed q i, count-assign k q v (chain_of cs k), str_eq_iff q k))

pub written-find :
    (cs : List Chain) (k v q : List ℕ)
    → 0 < length cs
    → find q (chain_of (written cs k v) q) ≡ (if str_eq k q then some v else find q (chain_of cs q))
written-find cs k v q h =
    rw
      (
        length-set,
        get_or-set cs (home cs k) (home cs q) (assign k v (chain_of cs k)) []
            (hash_function-lt k _ h),
      )
      (ground (arith, find-assign k q v (chain_of cs k), str_eq_iff k q))

-- A table that the operations build: no bucket is malformed, every key is at its place.
pub record IsValid (t : Htable) : Type 0 where
  pub chains : List Chain
  pub models : t ≡ table_of chains
  pub nonempty : 0 < length chains
  pub placed : IsPlaced chains

module _ {t : Htable} (valid : IsValid t) where
  pub get-eq-find :
      (q : List ℕ) → get_htable_value t (some q) ≡ ok (find q (chain_of valid.chains q))
  get-eq-find q =
      ap (λ (x : Htable). get_htable_value x (some q)) valid.models
      ∙ get-table_of valid.chains q valid.nonempty

  pub add-eq-written :
      (k v : List ℕ)
      → add_htable_value true t (some k) (some v)
        ≡ ok (err_none, table_of (written valid.chains k v))
  add-eq-written k v =
      ap (λ (x : Htable). add_htable_value true x (some k) (some v)) valid.models
      ∙ add-table_of valid.chains k v valid.nonempty

  pub written-IsValid : (k v : List ℕ) → IsValid (table_of (written valid.chains k v))
  written-IsValid k v = record {
    chains = written valid.chains k v;
    models = refl;
    nonempty = rw length-set valid.nonempty;
    placed = written-IsPlaced valid.chains k v valid.nonempty valid.placed;
  }

  pub get-written :
      (k v q : List ℕ)
      → get_htable_value (table_of (written valid.chains k v)) (some q)
        ≡ (if str_eq k q then ok (some v) else get_htable_value t (some q))
  get-written k v q =
      rw
        (
          get-table_of (written valid.chains k v) q (rw length-set valid.nonempty),
          written-find valid.chains k v q valid.nonempty,
          get-eq-find q,
        )
        (ground arith)

-- What `calloc` leaves is a table without a key.
abbrev pub blank : ℕ → List Chain
blank n = replicate n []

module _ (n : ℕ) (pos : 0 < n) where
  pub blank-IsValid : IsValid (table_of (blank n))
  unfolding count
  blank-IsValid = record {
    chains = blank n;
    models = refl;
    nonempty = rw length-replicate pos;
    placed = λ q i. rw get_or-replicate (omega arith, λ _. refl);
  }

  pub construct_htable-eq : construct_htable true n ≡ some (table_of (blank n))
  unfolding construct_htable repr
  construct_htable-eq = cc (replicate-map n repr [], length-replicate {A = Chain} n [])

  pub get-blank : (q : List ℕ) → get_htable_value (table_of (blank n)) (some q) ≡ ok none
  unfolding find
  get-blank q = rw (get-table_of (blank n) q (rw length-replicate pos), get_or-replicate)
