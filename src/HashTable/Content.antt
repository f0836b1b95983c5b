-- ===== src/HashTable/Content.antt =====
-- The content of a table: `get_Htable_size`, `get_Htable_content` and `delete_Htable_and_content`
-- on tables of chains.
use mathlib.Core.List.{Perm, append_assoc, map-append, reverse_perm}
use mathlib.Core.List.Perm
use distributed_hash_table.Prelude.{
  ℕ, zero, suc, ◌+◌, ◌≤◌, List, [], ◌∷◌, ◌++◌, map, true, Option, none, some, ok, arith, ◌≡◌, refl,
  ◌≢◌, read, length, replicate, get_or, length-append, length-map, read-length, ap, sym, ◌∙◌,
}
use distributed_hash_table.Text.{str_eq_comm}
use distributed_hash_table.HashTable.{
  KvPair, null_pair, size_loop, get_htable_size, content_loop, get_htable_content, delete_loop,
}
use distributed_hash_table.HashTable.Chains.{
  Chain, full, repr, find, count, get_bucket_size-repr, get_bucket_content-repr, delete_bucket-repr,
}
use distributed_hash_table.HashTable.Tables.{IsPlaced, table_of, home, chain_of}

-- All pairs, bucket by bucket.
abbrev pub entries : List Chain → Chain
entries [] = []
entries (c ∷ cs) = c ++ entries cs

or_else : Option (List ℕ) → Option (List ℕ) → Option (List ℕ)
or_else none b = b
or_else (some v) b = some v

find-append : (q : List ℕ) (a b : Chain) → find q (a ++ b) ≡ or_else (find q a) (find q b)
unfolding find or_else
find-append q [] b = refl
find-append q (e ∷ a) b = ground (arith, find-append q a b)

count-append : (q : List ℕ) (a b : Chain) → count q (a ++ b) ≡ count q a + count q b
unfolding count
count-append q [] b = omega arith
count-append q (e ∷ a) b = omega (arith, count-append q a b)

pub find-eq-none : (q : List ℕ) (c : Chain) → count q c ≡ 0 → find q c ≡ none
unfolding find count
find-eq-none q [] h = refl
find-eq-none q (e ∷ c) h = ground (arith, find-eq-none q c, str_eq_comm q e.0)

count-entries_nowhere :
    (q : List ℕ) (cs : List Chain)
    → ((i : ℕ) → count q (get_or cs i []) ≡ 0)
    → count q (entries cs) ≡ 0
unfolding count
count-entries_nowhere q [] h = refl
count-entries_nowhere q (c ∷ cs) h =
    rw (count-append, h 0, count-entries_nowhere q cs (λ i. h (suc i)))

-- A key that stands in one chain at most is found there.
entries_only :
    (q : List ℕ) (cs : List Chain) (j : ℕ)
    → ((i : ℕ) → i ≢ j → count q (get_or cs i []) ≡ 0)
    → (find q (entries cs) ≡ find q (get_or cs j []))
      × (count q (entries cs) ≡ count q (get_or cs j []))
unfolding find count or_else
entries_only q [] j h = (refl, refl)
entries_only q (c ∷ cs) zero h =
    let rest = count-entries_nowhere q cs (λ i. h (suc i) (omega arith)) in
    ground (
      arith,
      find-append q c (entries cs),
      count-append q c (entries cs),
      find-eq-none q (entries cs),
    )
entries_only q (c ∷ cs) (suc j) h =
    let here = h 0 (omega arith) in
    let rest = entries_only q cs j (λ i n. h (suc i) (omega arith)) in
    ground (arith, find-append q c (entries cs), count-append q c (entries cs), find-eq-none q c)

pub entries-IsPlaced :
    (cs : List Chain) (q : List ℕ)
    → IsPlaced cs
    → (find q (entries cs) ≡ find q (chain_of cs q)) × (count q (entries cs) ≤ 1)
entries-IsPlaced cs q placed =
    let only = entries_only q cs (home cs q) (λ i n. (placed q i).1 (λ e. n (sym e))) in
    (only.0, rw only.1 (placed q _).0)

size_loop-repr :
    (total : ℕ) (cs : List Chain) → size_loop total (map repr cs) ≡ total + length (entries cs)
unfolding size_loop
size_loop-repr total [] = omega arith
size_loop-repr total (c ∷ cs) =
    let rest = size_loop-repr (total + length c) cs in
    ap (λ n. size_loop (total + n) (map repr cs)) (get_bucket_size-repr c)
    ∙ omega (arith, rest, length-append c (entries cs))

pub read-table_of : (cs : List Chain) → read (length cs) (map repr cs) ≡ ok (map repr cs)
read-table_of cs = rw (← length-map cs repr, read-length)

pub size-table_of : (cs : List Chain) → get_htable_size (table_of cs) ≡ ok (length (entries cs))
unfolding get_htable_size
size-table_of cs = rw (read-table_of, size_loop-repr) (ground arith)

blank_slots : Chain → List KvPair
blank_slots = map (λ _. null_pair)

replicate-blank_slots : (c : Chain) → replicate (length c) null_pair ≡ blank_slots c
unfolding blank_slots
replicate-blank_slots [] = refl
replicate-blank_slots (e ∷ c) = ap (◌∷◌ null_pair) (replicate-blank_slots c)

-- The loop writes each chain over the slots behind what it has written.
content_loop-repr :
    (done : List KvPair) (cs : List Chain)
    → content_loop (length done) (done ++ blank_slots (entries cs)) (map repr cs)
      ≡ ok (done ++ map full (entries cs))
unfolding content_loop blank_slots
content_loop-repr done [] = refl
content_loop-repr done (c ∷ cs) =
    let rest = content_loop-repr (done ++ map full c) cs in
    rw
      (
        map-append,
        get_bucket_content-repr c done (blank_slots c) (blank_slots (entries cs)) (length-map c _),
        map-append,
      )
      (rw (length-append {0}, length-map, append_assoc, append_assoc) at rest)

-- The content of a table of chains: every pair, once, in a list of just the right size.
pub content-table_of :
    (cs : List Chain)
    → get_htable_content true (table_of cs)
      ≡ ok (some (record { size = length (entries cs); list = map full (entries cs) }))
unfolding get_htable_content
content-table_of cs =
    rw (size-table_of, read-table_of, replicate-blank_slots, content_loop-repr [] cs)

pub delete_loop-repr : (cs : List Chain) → Perm (delete_loop (map repr cs)) (map full (entries cs))
unfolding delete_loop
delete_loop-repr [] = Perm.refl []
delete_loop-repr (c ∷ cs) =
    rw (delete_bucket-repr, map-append)
      (Perm.append (reverse_perm (map full c)) (delete_loop-repr cs))
