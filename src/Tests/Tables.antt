-- ===== src/Tests/Tables.antt =====
-- The local hash table on small tables.
use mathlib.Core.List.{Perm}
use distributed_hash_table.Prelude.{
  ℕ, ◌≤◌, List, true, false, if◌then◌else◌, none, some, ok, length, arith, ◌≡◌, refl, Returns,
  ok-inj, read, subst, Bool-cases, inl, inr, ap, sym, ◌∙◌,
}
use distributed_hash_table.Text.{str_eq, str_eq_iff}
use distributed_hash_table.Errors.{ErrorCode, err_none}
use distributed_hash_table.HashTable.{
  size_loop, get_bucket_size, Htable, KvList, add_htable_value, get_htable_value, get_htable_size,
  get_htable_content, delete_htable_and_content, kv_list_free,
}
use distributed_hash_table.HashTable.Tables.{
  IsValid, chain_of, table_of, blank, written, blank-IsValid, get-blank, written-IsValid,
  add-eq-written, get-written,
}
use distributed_hash_table.HashTable.Order.{
  SameAnswers, SameContent, get_htable_content-SameAnswers,
}
use distributed_hash_table.Server.Dump.{dump_node}
use distributed_hash_table.Client.Dumps.Endings.{FitsAlone, IsSent, dump_node-IsSent}
use distributed_hash_table.HashTable.Chains.{repr}
use distributed_hash_table.HashTable.Lookup.{get-add}
use distributed_hash_table.HashTable.Enumeration.{
  find_pair, count_pair, size_after, size-add, get_htable_content_lem,
  delete_htable_and_content_lem,
}
use distributed_hash_table.HashTable.Failures.{reported, add-no_room}
use distributed_hash_table.Tests.Data.{
  zip, basel, one_chain, one_pair, one_pair_valid, zip_absent, zip_chain, one_pair_size,
}

get-add_example : Returns (add_htable_value true one_pair (some zip) (some basel)) λ r.
    (r.0 ≡ err_none)
    × IsValid r.1
    × ((q : List ℕ)
        → get_htable_value r.1 (some q)
          ≡ (if str_eq zip q then ok (some basel) else get_htable_value one_pair (some q)))
get-add_example = get-add one_pair_valid zip basel

size-add_example :
    Returns
      (add_htable_value true one_pair (some zip) (some basel))
      λ r. get_htable_size r.1 ≡ ok (size_after none 1)
size-add_example = size-add one_pair_valid zip basel 1 none one_pair_size zip_absent

get_htable_content_lem_example : Returns (get_htable_content true one_pair) λ o.
    (l : KvList) × (o ≡ some l)
    × (get_htable_size one_pair ≡ ok (length l.list))
    × ((q : List ℕ) → get_htable_value one_pair (some q) ≡ ok (find_pair q l.list))
    × ((q : List ℕ) → count_pair q l.list ≤ 1)
    × (kv_list_free l ≡ ok l.list)
get_htable_content_lem_example = get_htable_content_lem one_pair_valid

delete_htable_and_content_lem_example :
    Returns
      (delete_htable_and_content one_pair)
      λ freed. (l : KvList) × (get_htable_content true one_pair ≡ ok (some l)) × Perm freed l.list
delete_htable_and_content_lem_example = delete_htable_and_content_lem one_pair_valid

add-no_room_example :
    add_htable_value false one_pair (some zip) (some basel)
    ≡ ok (reported (chain_of one_chain zip), one_pair)
add-no_room_example =
    add-no_room one_pair_valid zip basel zip_absent (λ e. omega (arith, ap length e, zip_chain))

-- Tables of three and of seven buckets with one key.
abbrev small : IsValid (table_of (blank 3))
small = blank-IsValid 3 (omega arith)

abbrev large : IsValid (table_of (blank 7))
large = blank-IsValid 7 (omega arith)

abbrev small_table : Htable
small_table = table_of (written small.chains zip basel)

abbrev large_table : Htable
large_table = table_of (written large.chains zip basel)

one_key : SameAnswers small_table large_table
one_key q =
    get-written small zip basel q
    ∙ ap (λ o. if str_eq zip q then ok (some basel) else o)
        (get-blank 3 (omega arith) q ∙ sym (get-blank 7 (omega arith) q))
    ∙ sym (get-written large zip basel q)

get_htable_content-SameAnswers_example : SameContent small_table large_table
get_htable_content-SameAnswers_example =
    get_htable_content-SameAnswers (written-IsValid small zip basel)
      (written-IsValid large zip basel) one_key

zip_only : (q v : List ℕ) → get_htable_value small_table (some q) ≡ ok (some v) → FitsAlone q v
zip_only q v found =
    let answer = sym (get-written small zip basel q) ∙ found in
    elim (Bool-cases (str_eq zip q)) [
      | inl same ↦
          let key : zip ≡ q = (str_eq_iff zip q).0 same in
          let value : basel ≡ v = cc (rw same at answer) in
          subst (FitsAlone q) value
            (subst (λ k. FitsAlone k basel) key (omega arith, omega arith, omega arith))
      | inr other ↦ absurd (cc (get-blank 3 (omega arith) q, rw other at answer))
    ]

blank_size : get_htable_size (table_of (blank 3)) ≡ ok 0
unfolding get_htable_size read size_loop get_bucket_size repr
blank_size = refl

small_size : get_htable_size small_table ≡ ok 1
unfolding size_after
small_size =
    let (r, run, size) =
      size-add small zip basel 0 none blank_size (get-blank 3 (omega arith) zip) in
    let same : r.1 ≡ small_table =
      ap (λ (r : ErrorCode × Htable). r.1) (ok-inj (sym run ∙ add-eq-written small zip basel)) in
    subst (λ (t : Htable). get_htable_size t ≡ ok 1) same size

dump_node-IsSent_example : Returns (dump_node 3 small_table) (IsSent 1)
dump_node-IsSent_example =
    dump_node-IsSent (written-IsValid small zip basel) 1 3 zip_only small_size (omega arith)
