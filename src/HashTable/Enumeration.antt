-- ===== src/HashTable/Enumeration.antt =====
-- What the enumerations of a valid table promise: its size, its content, what its deletion frees.
use mathlib.Core.List.{Perm}
use distributed_hash_table.Prelude.{
  ℕ, zero, suc, ◌+◌, ◌<◌, ◌≤◌, List, [], ◌∷◌, map, true, if◌then◌else◌, Option, none, some, ok,
  arith, ◌≡◌, refl, length, set, get_or, length-append, length-map, read-length, ap, sym, ◌∙◌,
  Returns,
}
use distributed_hash_table.Text.{str_eq, str_eq_comm}
use distributed_hash_table.HashTable.{
  Htable, KvPair, KvList, get_htable_size, get_htable_content, delete_htable_and_content,
  get_htable_value, add_htable_value, kv_list_free,
}
use distributed_hash_table.HashTable.Chains.{Chain, full, find, count, assign}
use distributed_hash_table.HashTable.Tables.{
  IsValid, home, chain_of, written, get-eq-find, add-eq-written, hash_function-lt,
}
use distributed_hash_table.HashTable.Content.{
  entries, entries-IsPlaced, size-table_of, content-table_of, read-table_of, delete_loop-repr,
}

-- The value of the first pair with the key.
pub find_pair : List ℕ → List KvPair → Option (List ℕ)
find_pair q [] = none
find_pair q (kv ∷ l) =
    let rest = find_pair q l in
    elim kv.key [ none ↦ rest | some k ↦ if str_eq k q then kv.value else rest ]

-- How many pairs have the key.
pub count_pair : List ℕ → List KvPair → ℕ
count_pair q [] = 0
count_pair q (kv ∷ l) =
    elim kv.key [ none ↦ 0 | some k ↦ if str_eq q k then 1 else 0 ] + count_pair q l

pub find_pair-full : (q : List ℕ) (c : Chain) → find_pair q (map full c) ≡ find q c
unfolding find_pair find
find_pair-full q [] = refl
find_pair-full q (e ∷ c) = ground (arith, find_pair-full q c)

pub count_pair-full : (q : List ℕ) (c : Chain) → count_pair q (map full c) ≡ count q c
unfolding count_pair count
count_pair-full q [] = refl
count_pair-full q (e ∷ c) = ground (arith, count_pair-full q c)

unfoldable pub size_after : Option (List ℕ) → ℕ → ℕ
size_after none n = suc n
size_after (some _) n = n

length-assign :
    (k v : List ℕ) (c : Chain) → length (assign k v c) ≡ size_after (find k c) (length c)
unfolding assign find size_after
length-assign k v [] = refl
length-assign k v (e ∷ c) = ground (arith, length-assign k v c, str_eq_comm k e.0)

length-entries-set :
    (cs : List Chain) (i : ℕ) (c : Chain)
    → i < length cs
    → length (entries (set cs i c)) + length (get_or cs i []) ≡ length (entries cs) + length c
length-entries-set [] i c h = absurd (omega arith)
length-entries-set (d ∷ cs) zero c h = omega (arith, length-append {0})
length-entries-set (d ∷ cs) (suc i) c h =
    omega (arith, length-append {0}, length-entries-set cs i c (omega arith))

length-written :
    (cs : List Chain) (k v : List ℕ)
    → 0 < length cs
    → length (entries (written cs k v)) ≡ size_after (find k (chain_of cs k)) (length (entries cs))
unfolding size_after
length-written cs k v h = ground (
  arith,
  length-entries-set cs (home cs k) (assign k v (chain_of cs k)) (hash_function-lt k _ h),
  length-assign k v (chain_of cs k),
)

module _ {t : Htable} (valid : IsValid t) where
  size-eq : get_htable_size t ≡ ok (length (entries valid.chains))
  size-eq = ap get_htable_size valid.models ∙ size-table_of valid.chains

  -- A pair that is added to a valid table makes the table larger by one exactly when the key was
  -- absent.
  pub size-add :
      (k v : List ℕ) (n : ℕ) (old : Option (List ℕ))
      → get_htable_size t ≡ ok n
      → get_htable_value t (some k) ≡ ok old
      → Returns
          (add_htable_value true t (some k) (some v))
          λ r. get_htable_size r.1 ≡ ok (size_after old n)
  size-add k v n old hn hold = (
    _,
    add-eq-written valid k v,
    rw (size-table_of, length-written valid.chains k v valid.nonempty)
        (cc (size-eq, get-eq-find valid k)),
  )

  -- The content of a valid table is a list of just its size, in which every key occurs at most
  -- once, and with the value that the table maps it to. Freeing the list frees each of its pairs.
  pub get_htable_content_lem : Returns (get_htable_content true t) λ o.
      (l : KvList) × (o ≡ some l)
      × (get_htable_size t ≡ ok (length l.list))
      × ((q : List ℕ) → get_htable_value t (some q) ≡ ok (find_pair q l.list))
      × ((q : List ℕ) → count_pair q l.list ≤ 1)
      × (kv_list_free l ≡ ok l.list)
  unfolding kv_list_free
  get_htable_content_lem =
      let l : KvList = record {
        size = length (entries valid.chains);
        list = map full (entries valid.chains);
      } in
      (
        some l,
        ap (get_htable_content true) valid.models ∙ content-table_of valid.chains,
        (
          l,
          refl,
          rw length-map size-eq,
          λ q.
              get-eq-find valid q
              ∙ ap ok
                  (sym (entries-IsPlaced valid.chains q valid.placed).0 ∙ sym (find_pair-full q _)),
          λ q. rw count_pair-full (entries-IsPlaced valid.chains q valid.placed).1,
          rw (← length-map (entries valid.chains) full, read-length),
        ),
      )

  -- Deleting a valid table frees every pair of its content exactly once.
  pub delete_htable_and_content_lem :
      Returns
        (delete_htable_and_content t)
        λ freed. (l : KvList) × (get_htable_content true t ≡ ok (some l)) × Perm freed l.list
  unfolding delete_htable_and_content
  delete_htable_and_content_lem = (
    _,
    ap delete_htable_and_content valid.models ∙ rw (read-table_of valid.chains),
    (
      _,
      ap (get_htable_content true) valid.models ∙ content-table_of valid.chains,
      delete_loop-repr valid.chains,
    ),
  )
