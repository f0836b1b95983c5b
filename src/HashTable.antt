-- ===== src/HashTable.antt =====
-- hashtable.h and hashtable.c: the local hash table, an array of buckets, each a linked list whose
-- first node stands in the array and is zeroed (NULL key, NULL value, NULL next) while empty.
-- `room` says whether the one `malloc` of `create_bucket` in a call succeeds; the copies of keys
-- and values in `create_kv_pair` are taken to be allocated, as the code takes them.
pub mod Chains
pub mod Tables
pub mod Lookup
pub mod Content
pub mod Enumeration
pub mod Failures
pub mod Memory
pub mod Distinct
pub mod Order
use Prim.Native.Nat.{bit_xor}
use distributed_hash_table.Prelude.{
  ℕ, zero, suc, ◌+◌, ◌*◌, ◌/◌, ◌%◌, ◌^◌, ◌-◌, List, [], ◌∷◌, ◌++◌, Bool, true, false, if◌then◌else◌,
  Option, none, some, Run, ok, fault, ◌>>=◌, non_null, at, set, replicate, read, store,
}
use distributed_hash_table.Text.{str_eq}
use distributed_hash_table.Errors.{ErrorCode, err_none, err_nomem, err_bad_parameter}

-- `kv_pair_t`; `none` is NULL.
pub record KvPair : Type 0 where
  pub key : Option (List ℕ)
  pub value : Option (List ℕ)

-- `struct bucket`: `last` where `next` is NULL.
pub data Bucket : Type 0 where
  last : KvPair → Bucket
  link : KvPair → Bucket → Bucket

-- `Htable_t`
pub record Htable : Type 0 where
  pub buckets : List Bucket
  pub size : ℕ

-- `kv_list_t`
pub record KvList : Type 0 where
  pub size : ℕ
  pub list : List KvPair

abbrev pub htable_size : ℕ
htable_size = 256

-- SIZE_MAX of a 64-bit `size_t`.
abbrev pub size_max : ℕ
size_max = 2 ^ 64 - 1

-- What `calloc` leaves in an array of pairs, and in an array of buckets.
abbrev pub null_pair : KvPair
null_pair = record { key = none; value = none }

abbrev pub empty_bucket : Bucket
empty_bucket = last null_pair

-- `room`: whether the array of buckets could be allocated.
unfoldable pub construct_htable : Bool → ℕ → Option Htable
construct_htable false size = none
construct_htable true size = some (record { buckets = replicate size empty_bucket; size = size })

unfoldable pub create_bucket : Bool → KvPair → Option Bucket
create_bucket false key_value = none
create_bucket true key_value = some (last key_value)

unfoldable pub create_kv_pair : List ℕ → List ℕ → KvPair
create_kv_pair key value = record { key = some key; value = some value }

-- One round of the loop over the key's bytes.
unfoldable pub hash_step : ℕ → ℕ → ℕ
hash_step hash byte =
    let added = (hash + byte) % 2 ^ 64 in
    let shifted = (added + added * 2 ^ 10 % 2 ^ 64) % 2 ^ 64 in bit_xor shifted (shifted / 2 ^ 6)

unfoldable pub hash_loop : ℕ → List ℕ → ℕ
unfolding hash_step
hash_loop hash [] = hash
hash_loop hash (byte ∷ key) = hash_loop (hash_step hash byte) key

unfoldable pub hash_finish : ℕ → ℕ
hash_finish hash =
    let added = (hash + hash * 2 ^ 3 % 2 ^ 64) % 2 ^ 64 in
    let mixed = bit_xor added (added / 2 ^ 11) in (mixed + mixed * 2 ^ 15 % 2 ^ 64) % 2 ^ 64

unfoldable pub hash_function : Option (List ℕ) → ℕ → ℕ
unfolding hash_loop hash_finish
hash_function key zero = size_max
hash_function none (suc n) = size_max
hash_function (some key) (suc n) = hash_finish (hash_loop 0 key) % suc n

-- The last `else if` and the `else`: a new bucket at the end, or the recursive call, whose error
-- code is dropped.
unfoldable pub add_value_to_bucket : Bool → Bucket → List ℕ → List ℕ → Run (ErrorCode × Bucket)
unfolding create_bucket create_kv_pair
add_value_to_bucket room (last kv) key value = elim kv.key [
  | none ↦ elim kv.value [ none ↦ ok (err_none, last (create_kv_pair key value)) | some _ ↦ fault ]
  | some old ↦
      if str_eq key old
      then ok (err_none, last (create_kv_pair key value))
      else elim (create_bucket room (create_kv_pair key value)) [
        | none ↦ ok (err_nomem, last kv)
        | some bucket_new ↦ ok (err_none, link kv bucket_new)
      ]
]
add_value_to_bucket room (link kv next) key value = elim kv.key [
  | none ↦ elim kv.value [
    | none ↦ ok (err_none, link (create_kv_pair key value) next)
    | some _ ↦ fault
  ]
  | some old ↦
      let rest = add_value_to_bucket room next key value in
      if str_eq key old
      then ok (err_none, link (create_kv_pair key value) next)
      else (rest >>= λ r. ok (err_none, link kv r.1))
]

unfoldable pub add_htable_value :
    Bool → Htable → Option (List ℕ) → Option (List ℕ) → Run (ErrorCode × Htable)
add_htable_value room htable key none = ok (err_bad_parameter, htable)
add_htable_value room htable key (some value) = do
  let index = hash_function key htable.size
  bck ← at htable.buckets index
  text ← non_null key
  (error, bck') ← add_value_to_bucket room bck text value
  ok (error, record htable { buckets = set htable.buckets index bck' })

-- `none` is NULL.
unfoldable pub get_value_from_bucket : Bucket → List ℕ → Option (List ℕ)
get_value_from_bucket (last kv) key = elim kv.key [
  | none ↦ none
  | some k ↦ elim kv.value [ none ↦ none | some v ↦ if str_eq k key then some v else none ]
]
get_value_from_bucket (link kv next) key = elim kv.key [
  | none ↦ none
  | some k ↦ elim kv.value [
    | none ↦ none
    | some v ↦ let rest = get_value_from_bucket next key in if str_eq k key then some v else rest
  ]
]

unfoldable pub get_htable_value : Htable → Option (List ℕ) → Run (Option (List ℕ))
get_htable_value htable none = ok none
get_htable_value htable (some key) = do
  row ← at htable.buckets (hash_function (some key) htable.size)
  ok (get_value_from_bucket row key)

-- `kv.key == NULL || kv.value == NULL`
unfoldable pub has_null : KvPair → Bool
has_null kv = elim kv.key [ none ↦ true | some _ ↦ elim kv.value [ none ↦ true | some _ ↦ false ] ]

unfoldable pub get_bucket_size : Bucket → ℕ
unfolding has_null
get_bucket_size (last kv) = if has_null kv then 0 else 1
get_bucket_size (link kv next) =
    let rest = get_bucket_size next in if has_null kv then 0 else 1 + rest

-- The loop over the array: one recursive call for each bucket.
unfoldable pub size_loop : ℕ → List Bucket → ℕ
size_loop total [] = total
size_loop total (b ∷ bs) = size_loop (total + get_bucket_size b) bs

unfoldable pub get_htable_size : Htable → Run ℕ
get_htable_size table = do bs ← read table.size table.buckets; ok (size_loop 0 bs)

-- How many pairs were stored in the list, and the list. The last pair of a chain is copied, the
-- ones before it share their strings with the table.
unfoldable pub get_bucket_content : Bucket → List KvPair → ℕ → Run (ℕ × List KvPair)
unfolding has_null
get_bucket_content (last kv) list from =
    let stored = store list from kv in
    if has_null kv then ok (0, list) else (stored >>= λ list'. ok (1, list'))
get_bucket_content (link kv next) list from =
    let rest = λ (list' : List KvPair). get_bucket_content next list' (from + 1) in
    let stored = store list from kv in
    if has_null kv
    then ok (0, list)
    else (stored >>= λ list'. rest list' >>= λ r. ok (1 + r.0, r.1))

unfoldable pub content_loop : ℕ → List KvPair → List Bucket → Run (List KvPair)
content_loop used_until list [] = ok list
content_loop used_until list (b ∷ bs) =
    get_bucket_content b list used_until >>= λ r. content_loop (used_until + r.0) r.1 bs

-- `room`: whether the list could be allocated; `none` is NULL.
unfoldable pub get_htable_content : Bool → Htable → Run (Option KvList)
get_htable_content room table = do
  size ← get_htable_size table
  if room
      then (do
        bs ← read table.size table.buckets
        list ← content_loop 0 (replicate size null_pair) bs
        ok (some (record { size = size; list = list })))
      else ok none

-- The pairs that `kv_pair_free` is called on, in order.
unfoldable pub delete_bucket : Bucket → List KvPair
unfolding has_null
delete_bucket (last kv) = if has_null kv then [] else kv ∷ []
delete_bucket (link kv next) =
    let rest = delete_bucket next in if has_null kv then rest else rest ++ kv ∷ []

unfoldable pub delete_loop : List Bucket → List KvPair
delete_loop [] = []
delete_loop (b ∷ bs) = delete_bucket b ++ delete_loop bs

-- The table itself is freed too: no call may use it afterwards.
unfoldable pub delete_htable_and_content : Htable → Run (List KvPair)
delete_htable_and_content table = do bs ← read table.size table.buckets; ok (delete_loop bs)

-- `kv_pair_free` on the first `size` pairs.
unfoldable pub kv_list_free : KvList → Run (List KvPair)
kv_list_free list = read list.size list.list
