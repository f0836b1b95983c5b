-- ===== src/HashTable/Lookup.antt =====
-- What a client of hashtable.c relies on: a new table is empty, and an added pair is found.
use distributed_hash_table.Prelude.{
  ℕ, ◌<◌, List, true, if◌then◌else◌, none, some, ok, ◌≡◌, refl, Returns,
}
use distributed_hash_table.Text.{str_eq}
use distributed_hash_table.Errors.{err_none}
use distributed_hash_table.HashTable.{Htable, construct_htable, add_htable_value, get_htable_value}
use distributed_hash_table.HashTable.Tables.{
  IsValid, table_of, blank, written, blank-IsValid, construct_htable-eq, get-blank, add-eq-written,
  written-IsValid, get-written,
}

-- A table that could be allocated with at least one bucket is valid, and maps no key.
pub construct_htable-IsValid :
    (size : ℕ)
    → 0 < size
    → (t : Htable) × (construct_htable true size ≡ some t)
      × IsValid t
      × ((q : List ℕ) → get_htable_value t (some q) ≡ ok none)
construct_htable-IsValid size pos = (
  table_of (blank size),
  construct_htable-eq size pos,
  blank-IsValid size pos,
  get-blank size pos,
)

-- In a valid table a pair is added without an error when the bucket can be allocated. The table
-- stays valid, the key is found with the new value, and every other key with what it had.
pub get-add :
    {t : Htable} (valid : IsValid t) (k v : List ℕ)
    → Returns (add_htable_value true t (some k) (some v)) λ r.
      (r.0 ≡ err_none)
      × IsValid r.1
      × ((q : List ℕ)
          → get_htable_value r.1 (some q)
            ≡ (if str_eq k q then ok (some v) else get_htable_value t (some q)))
get-add valid k v = (
  (err_none, table_of (written valid.chains k v)),
  add-eq-written valid k v,
  (refl, written-IsValid valid k v, get-written valid k v),
)
