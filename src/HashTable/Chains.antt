-- ===== src/HashTable/Chains.antt =====
-- A bucket in its normal form stands for an association list, its chain. The bucket operations are
-- computed on chains.
use distributed_hash_table.Prelude.{
  ℕ, ◌+◌, List, [], ◌∷◌, ◌++◌, map, true, if◌then◌else◌, Option, none, some, ok, length, arith, ◌≡◌,
  refl, ap, store-append, length-append, ◌==◌, sym, ◌∙◌,
}
use mathlib.Core.List.{append_assoc, reverse, reverse-cons}
use distributed_hash_table.Text.{str_eq, str_eq_iff}
use distributed_hash_table.Errors.{err_none}
use distributed_hash_table.HashTable.{
  KvPair, Bucket, last, link, empty_bucket, add_value_to_bucket, get_value_from_bucket,
  get_bucket_size, get_bucket_content, delete_bucket,
}

abbrev pub Chain : Type 0
Chain = List (List ℕ × List ℕ)

abbrev pub full : List ℕ × List ℕ → KvPair
full e = record { key = some e.0; value = some e.1 }

-- The bucket that holds a chain.
unfoldable pub repr : Chain → Bucket
repr [] = empty_bucket
repr (e ∷ []) = last (full e)
repr (e ∷ d ∷ c) = link (full e) (repr (d ∷ c))

unfoldable pub find : List ℕ → Chain → Option (List ℕ)
find k [] = none
find k (e ∷ c) = if str_eq e.0 k then some e.1 else find k c

-- Replace the value of a key, or add the pair at the end.
unfoldable pub assign : List ℕ → List ℕ → Chain → Chain
assign k v [] = (k, v) ∷ []
assign k v (e ∷ c) = if str_eq k e.0 then (k, v) ∷ c else e ∷ assign k v c

-- How many pairs have the key.
unfoldable pub count : List ℕ → Chain → ℕ
count q [] = 0
count q (e ∷ c) = (if str_eq q e.0 then 1 else 0) + count q c

pub add_value_to_bucket-repr :
    (c : Chain) (k v : List ℕ)
    → add_value_to_bucket true (repr c) k v ≡ ok (err_none, repr (assign k v c))
unfolding add_value_to_bucket repr assign
add_value_to_bucket-repr [] k v = refl
add_value_to_bucket-repr (e ∷ []) k v = ground arith
add_value_to_bucket-repr (e ∷ d ∷ c) k v = ground (arith, add_value_to_bucket-repr (d ∷ c) k v)

pub get_value_from_bucket-repr :
    (c : Chain) (k : List ℕ) → get_value_from_bucket (repr c) k ≡ find k c
unfolding get_value_from_bucket repr find
get_value_from_bucket-repr [] k = refl
get_value_from_bucket-repr (e ∷ []) k = ground arith
get_value_from_bucket-repr (e ∷ d ∷ c) k = ground (arith, get_value_from_bucket-repr (d ∷ c) k)

pub get_bucket_size-repr : (c : Chain) → get_bucket_size (repr c) ≡ length c
unfolding get_bucket_size repr
get_bucket_size-repr [] = refl
get_bucket_size-repr (e ∷ []) = refl
get_bucket_size-repr (e ∷ d ∷ c) = omega (arith, get_bucket_size-repr (d ∷ c))

pub delete_bucket-repr : (c : Chain) → delete_bucket (repr c) ≡ reverse (map full c)
unfolding delete_bucket repr
delete_bucket-repr [] = refl
delete_bucket-repr (e ∷ []) = refl
delete_bucket-repr (e ∷ d ∷ c) =
    ap (λ l. l ++ full e ∷ []) (delete_bucket-repr (d ∷ c))
    ∙ sym (reverse-cons (full e) (map full (d ∷ c)))

pub find-assign :
    (k q v : List ℕ) (c : Chain) → find q (assign k v c) ≡ (if str_eq k q then some v else find q c)
unfolding find assign
find-assign k q v [] = refl
find-assign k q v (e ∷ c) =
    ground (arith, find-assign k q v c, str_eq_iff k q, str_eq_iff k e.0, str_eq_iff e.0 q)

pub count-assign :
    (k q v : List ℕ) (c : Chain)
    → count q (assign k v c)
      ≡ (if str_eq q k then (if count q c == 0 then 1 else count q c) else count q c)
unfolding count assign
count-assign k q v [] = ground arith
count-assign k q v (e ∷ c) =
    ground (arith, count-assign k q v c, str_eq_iff k e.0, str_eq_iff q k, str_eq_iff q e.0)

-- The chain is written over the slots that start at `length done`.
pub get_bucket_content-repr :
    (c : Chain) (done slots rest : List KvPair)
    → length slots ≡ length c
    → get_bucket_content (repr c) (done ++ (slots ++ rest)) (length done)
      ≡ ok (length c, done ++ (map full c ++ rest))
unfolding get_bucket_content repr
get_bucket_content-repr [] done [] rest h = refl
get_bucket_content-repr [] done (s ∷ ss) rest h = absurd (omega arith)
get_bucket_content-repr (e ∷ c) done [] rest h = absurd (omega arith)
get_bucket_content-repr (e ∷ []) done (s ∷ []) rest h = rw store-append
get_bucket_content-repr (e ∷ []) done (s ∷ t ∷ ss) rest h = absurd (omega arith)
get_bucket_content-repr (e ∷ d ∷ c) done (s ∷ ss) rest h =
    let next = get_bucket_content-repr (d ∷ c) (done ++ full e ∷ []) ss rest (omega arith) in
    rw store-append (rw (rw (append_assoc, length-append {0}, append_assoc) at next) (ground arith))
