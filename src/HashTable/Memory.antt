-- ===== src/HashTable/Memory.antt =====
-- An added pair when memory may be short: the table stays valid whatever `malloc` returns.
use distributed_hash_table.Prelude.{
  ℕ, ◌<◌, List, [], ◌∷◌, Bool, true, false, some, arith, ◌≡◌, refl, Returns, ap, ◌∙◌, sym, ◌⊎◌, inl,
  inr, map, set, set-map, length-set, length, subst, Bool-cases,
}
use distributed_hash_table.Text.{str_eq}
use distributed_hash_table.Errors.{ErrorCode, err_none, err_nomem}
use distributed_hash_table.HashTable.{Htable, Bucket, link, add_value_to_bucket, add_htable_value}
use distributed_hash_table.HashTable.Chains.{Chain, repr, full, assign, add_value_to_bucket-repr}
use distributed_hash_table.HashTable.Tables.{
  IsValid, table_of, home, chain_of, written, at-home, written-IsValid,
}
use distributed_hash_table.HashTable.Failures.{set-get_or}

-- The bucket is left as it was, or holds the new pair.
abbrev Kept : Chain → List ℕ → List ℕ → ErrorCode × Bucket → Type 0
Kept c k v r = (r.1 ≡ repr c) ⊎ (r.1 ≡ repr (assign k v c))

link-Kept :
    (e d : List ℕ × List ℕ) (c : Chain) (k v : List ℕ) (r : ErrorCode × Bucket)
    → str_eq k e.0 ≡ false
    → Kept (d ∷ c) k v r
    → Kept (e ∷ d ∷ c) k v (err_none, link (full e) r.1)
unfolding repr assign
link-Kept e d c k v r other (inl same) = inl (ground arith)
link-Kept e d c k v r other (inr new) = inr (rw (other, new) (ground arith))

no_room-Kept :
    (c : Chain) (k v : List ℕ) → Returns (add_value_to_bucket false (repr c) k v) (Kept c k v)
unfolding add_value_to_bucket repr assign
no_room-Kept [] k v = (_, refl, inr refl)
no_room-Kept (e ∷ []) k v = elim (Bool-cases (str_eq k e.0)) [
  | inl same ↦ ((err_none, repr ((k, v) ∷ [])), rw same, inr (rw same))
  | inr other ↦ ((err_nomem, repr (e ∷ [])), rw other, inl refl)
]
no_room-Kept (e ∷ d ∷ c) k v = elim (Bool-cases (str_eq k e.0)) [
  | inl same ↦ ((err_none, repr ((k, v) ∷ d ∷ c)), rw same, inr (rw same))
  | inr other ↦
      let (r, run, kept) = no_room-Kept (d ∷ c) k v in
      ((err_none, link (full e) r.1), rw (other, run), link-Kept e d c k v r other kept)
]

add_value_to_bucket-Kept :
    (room : Bool) (c : Chain) (k v : List ℕ)
    → Returns (add_value_to_bucket room (repr c) k v) (Kept c k v)
add_value_to_bucket-Kept true c k v = (_, add_value_to_bucket-repr c k v, inr refl)
add_value_to_bucket-Kept false c k v = no_room-Kept c k v

of_Kept :
    (cs : List Chain) (k v : List ℕ) (r : ErrorCode × Bucket)
    → Kept (chain_of cs k) k v r
    → (b : Htable) → b ≡ record { buckets = set (map repr cs) (home cs k) r.1; size = length cs }
    → (b ≡ table_of cs) ⊎ (b ≡ table_of (written cs k v))
of_Kept cs k v r (inl same) b e =
    inl
      (e ∙ rw same (cc (set-map cs repr (home cs k) (chain_of cs k), set-get_or cs (home cs k) [])))
of_Kept cs k v r (inr new) b e = inr (
    e
    ∙ rw new (
        cc (
          set-map cs repr (home cs k) (assign k v (chain_of cs k)),
          length-set cs (home cs k) (assign k v (chain_of cs k)),
        )))

add-Kept :
    (room : Bool) (cs : List Chain) (k v : List ℕ)
    → 0 < length cs
    → Returns
        (add_htable_value room (table_of cs) (some k) (some v))
        λ r. (r.1 ≡ table_of cs) ⊎ (r.1 ≡ table_of (written cs k v))
unfolding add_htable_value
add-Kept room cs k v pos =
    let (r, run, kept) = add_value_to_bucket-Kept room (chain_of cs k) k v in
    let t : Htable = record { buckets = set (map repr cs) (home cs k) r.1; size = length cs } in
    ((r.0, t), rw (at-home cs k pos, run), of_Kept cs k v r kept t refl)

IsValid-either :
    {t : Htable} (valid : IsValid t) (k v : List ℕ) (t' : Htable)
    → (t' ≡ table_of valid.chains) ⊎ (t' ≡ table_of (written valid.chains k v))
    → IsValid t'
IsValid-either {t} valid k v t' (inl same) = subst IsValid (valid.models ∙ sym same) valid
IsValid-either valid k v t' (inr new) = subst IsValid (sym new) (written-IsValid valid k v)

-- A pair that is added to a valid table leaves a valid table, whether or not there is memory.
pub add-IsValid :
    (room : Bool) {t : Htable} (valid : IsValid t) (k v : List ℕ)
    → Returns (add_htable_value room t (some k) (some v)) λ r. IsValid r.1
add-IsValid room valid k v =
    let (r, run, either) = add-Kept room valid.chains k v valid.nonempty in
    (
      r,
      ap (λ (x : Htable). add_htable_value room x (some k) (some v)) valid.models ∙ run,
      IsValid-either valid k v r.1 either,
    )
