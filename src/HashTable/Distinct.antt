-- ===== src/HashTable/Distinct.antt =====
-- Chains in which no key occurs twice: their pairs, and how many there are.
use distributed_hash_table.Prelude.{
  ℕ, ◌+◌, ◌≤◌, List, [], ◌∷◌, ◌++◌, false, if◌then◌else◌, none, some, ok, sym, ◌∙◌, arith, ◌≡◌,
  refl, length, length-append, ap, Bool-cases, Option-cases, inl, inr,
}
use distributed_hash_table.Text.{str_eq, str_eq_iff, str_eq_refl, str_eq_comm}
use distributed_hash_table.HashTable.Chains.{Chain, find, count}
use distributed_hash_table.HashTable.Content.{find-eq-none, entries, entries-IsPlaced}
use distributed_hash_table.HashTable.{Htable, get_htable_value}
use distributed_hash_table.HashTable.Tables.{IsValid, get-eq-find}

abbrev pub IsDistinct : Chain → Type 0
IsDistinct c = (q : List ℕ) → count q c ≤ 1

pub find_split :
    (c : Chain) (k v : List ℕ)
    → find k c ≡ some v
    → (pre : Chain) × (post : Chain) × (c ≡ pre ++ (k, v) ∷ post)
unfolding find
find_split [] k v e = absurd (cc e)
find_split (d ∷ c) k v e = elim (Bool-cases (str_eq d.0 k)) [
  | inl same ↦
      let key : d.0 ≡ k = (str_eq_iff d.0 k).0 same in
      let value : d.1 ≡ v = cc (rw same at e) in ([], c, λ i. (key i, value i) ∷ c)
  | inr other ↦
      let (pre, post, split) = find_split c k v (rw other at e) in
      (d ∷ pre, post, ap (λ c. d ∷ c) split)
]

pub find-middle :
    (pre post : Chain) (k v q : List ℕ)
    → str_eq k q ≡ false
    → find q (pre ++ (k, v) ∷ post) ≡ find q (pre ++ post)
unfolding find
find-middle [] post k v q e = rw e refl
find-middle (d ∷ pre) post k v q e = ground (arith, find-middle pre post k v q e)

pub count-middle :
    (pre post : Chain) (k v q : List ℕ)
    → count q (pre ++ (k, v) ∷ post) ≡ (if str_eq q k then 1 else 0) + count q (pre ++ post)
unfolding count
count-middle [] post k v q = refl
count-middle (d ∷ pre) post k v q = ground (arith, count-middle pre post k v q)

-- How often a key is in a list.
unfoldable pub occurrences : List ℕ → List (List ℕ) → ℕ
occurrences q [] = 0
occurrences q (k ∷ keys) = (if str_eq q k then 1 else 0) + occurrences q keys

abbrev pub AllPairs : (List ℕ → List ℕ → Type 0) → Chain → Type 0
AllPairs P [] = Unit
AllPairs P (e ∷ c) = P e.0 e.1 × AllPairs P c

find-tail :
    (e : List ℕ × List ℕ) (c : Chain) (q v : List ℕ)
    → IsDistinct (e ∷ c)
    → find q c ≡ some v
    → find q (e ∷ c) ≡ some v
unfolding find count
find-tail e c q v only found = ground (arith, only q, find-eq-none q c, str_eq_comm q e.0)

-- What holds of every key that is found, with its value, holds of every pair.
find-AllPairs :
    (P : List ℕ → List ℕ → Type 0) (c : Chain)
    → IsDistinct c
    → ((q v : List ℕ) → find q c ≡ some v → P q v)
    → AllPairs P c
find-AllPairs P [] only each = tt
find-AllPairs P (e ∷ c) only each =
    let first : find e.0 (e ∷ c) ≡ some e.1 = unfold find in rw (str_eq_refl e.0) refl in
    let tail_only : IsDistinct c = λ q. unfold count in ground (arith, only q) in
    (
      each e.0 e.1 first,
      find-AllPairs P c tail_only (λ q v found. each q v (find-tail e c q v only found)),
    )

pub count-absent : (c : Chain) (q : List ℕ) → find q c ≡ none → count q c ≡ 0
unfolding find count
count-absent [] q e = refl
count-absent (d ∷ c) q e = ground (arith, count-absent c q, str_eq_comm q d.0)

-- A chain has no more pairs than a list of keys that has each of its keys as often.
pub length-count :
    (keys : List (List ℕ)) (c : Chain)
    → ((q : List ℕ) → count q c ≤ occurrences q keys)
    → length c ≤ length keys
unfolding occurrences
length-count [] [] among = omega arith
length-count [] (d ∷ c) among = unfold count in absurd (ground (arith, among d.0, str_eq_refl d.0))
length-count (k ∷ keys) c among = elim (Option-cases (find k c)) [
  | inl absent ↦
      let none_left : count k c ≡ 0 = count-absent c k absent in
      let among' : (q : List ℕ) → count q c ≤ occurrences q keys = λ q.
        elim (Bool-cases (str_eq q k)) [
          | inl same ↦
              let key : q ≡ k = (str_eq_iff q k).0 same in
              let zero_left : count q c ≡ 0 = rw key none_left in omega arith
          | inr other ↦ ground (arith, among q)
        ] in
      omega (arith, length-count keys c among')
  | inr (v, found) ↦
      let (pre, post, split) = find_split c k v found in
      let among' : (q : List ℕ) → count q (pre ++ post) ≤ occurrences q keys =
        λ q. ground (arith, among q, ap (count q) split, count-middle pre post k v q) in
      omega (
        arith,
        length-count keys (pre ++ post) among',
        ap length split,
        length-append pre ((k, v) ∷ post),
        length-append pre post,
      )
]

-- What holds of every key that a valid table maps, with its value, holds of every pair of it.
pub entries-AllPairs :
    {t : Htable} (valid : IsValid t) (P : List ℕ → List ℕ → Type 0)
    → ((q v : List ℕ) → get_htable_value t (some q) ≡ ok (some v) → P q v)
    → AllPairs P (entries valid.chains)
entries-AllPairs valid P each =
    let placed = λ (q : List ℕ). entries-IsPlaced valid.chains q valid.placed in
    find-AllPairs P (entries valid.chains) (λ q. (placed q).1)
      λ q v found. each q v (get-eq-find valid q ∙ ap ok (sym (placed q).0 ∙ found))
