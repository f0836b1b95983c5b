-- ===== src/HashTable/Order.antt =====
-- The content of a table as a bag of pairs.
use mathlib.Core.List.Permᴰ
use mathlib.Core.List.{Permᴰ}
use mathlib.Core.Quot.{Quot, mk, sound}
use distributed_hash_table.Prelude.{
  ℕ, List, [], ◌∷◌, ◌++◌, map, true, if◌then◌else◌, none, some, ok, arith, ◌≡◌, refl, length,
  length-map, length-Permᴰ, ap, sym, ◌∙◌, subst, ok-inj, Bool-cases, inl, inr,
}
use distributed_hash_table.Text.{str_eq, str_eq_refl, str_eq_comm}
use distributed_hash_table.HashTable.{Htable, KvPair, KvList, get_htable_content, get_htable_value}
use distributed_hash_table.HashTable.Chains.{Chain, full, find, count}
use distributed_hash_table.HashTable.Tables.{IsValid, get-eq-find}
use distributed_hash_table.HashTable.Distinct.{IsDistinct, find_split, find-middle, count-middle}
use distributed_hash_table.HashTable.Content.{
  find-eq-none, entries, entries-IsPlaced, content-table_of,
}

-- A key that is found is gone when its only pair is taken out.
find-without :
    (pre post : Chain) (k v q : List ℕ)
    → IsDistinct (pre ++ (k, v) ∷ post)
    → find q (pre ++ post) ≡ (if str_eq k q then none else find q (pre ++ (k, v) ∷ post))
find-without pre post k v q only = elim (Bool-cases (str_eq k q)) [
  | inl same ↦
      let absent : count q (pre ++ post) ≡ 0 =
        ground (arith, only q, count-middle pre post k v q, str_eq_comm k q) in
      rw same (find-eq-none q (pre ++ post) absent)
  | inr other ↦ rw other (sym (find-middle pre post k v q other))
]

-- Lists of distinct keys that map every key alike have the same pairs.
Permᴰ-find :
    (c c' : Chain)
    → IsDistinct c
    → IsDistinct c'
    → ((q : List ℕ) → find q c ≡ find q c')
    → Permᴰ c c'
Permᴰ-find [] [] only only' same = Permᴰ.nil
Permᴰ-find [] (d ∷ c') only only' same = unfold find in absurd (cc (same d.0, str_eq_refl d.0))
Permᴰ-find (d ∷ c) c' only only' same =
    let found : find d.0 c' ≡ some d.1 =
      sym (same d.0) ∙ (unfold find in rw (str_eq_refl d.0) refl) in
    let (pre, post, split) = find_split c' d.0 d.1 found in
    let distinct : IsDistinct (pre ++ d ∷ post) = subst IsDistinct split only' in
    let rest : IsDistinct (pre ++ post) =
      λ q. ground (arith, distinct q, count-middle pre post d.0 d.1 q) in
    let tail_only : IsDistinct c = λ q. unfold count in ground (arith, only q) in
    let same' : (q : List ℕ) → find q c ≡ find q (pre ++ post) = λ q.
      find-without [] c d.0 d.1 q only
      ∙ ap (λ o. if str_eq d.0 q then none else o) (same q ∙ ap (find q) split)
      ∙ sym (find-without pre post d.0 d.1 q distinct) in
    let p = Permᴰ-find c (pre ++ post) tail_only rest same' in
    subst (Permᴰ (d ∷ c)) (sym split)
      (Permᴰ.trans (Permᴰ.cons refl p) (Permᴰ.symm (Permᴰ.middle d pre post)))

-- Lists of pairs, up to their order.
abbrev pub Bag : Type 0
Bag = Quot (Permᴰ {A = KvPair})

abbrev pub bag_of : List KvPair → Bag
bag_of l = mk l

abbrev pub SameAnswers : Htable → Htable → Type 0
SameAnswers t t' = (q : List ℕ) → get_htable_value t (some q) ≡ get_htable_value t' (some q)

-- The contents of both tables can be read, and are the same bag.
abbrev pub SameContent : Htable → Htable → Type 0
SameContent t t' =
    (l : KvList) × (l' : KvList) × (get_htable_content true t ≡ ok (some l))
    × (get_htable_content true t' ≡ ok (some l'))
    × (l.size ≡ l'.size)
    × (bag_of l.list ≡ bag_of l'.list)

module _ {t t' : Htable} (valid : IsValid t) (valid' : IsValid t') where
  -- Valid tables that answer every get alike have the same content, up to the order of the pairs,
  -- whatever their numbers of buckets and the order in which pairs came to them.
  pub get_htable_content-SameAnswers : SameAnswers t t' → SameContent t t'
  get_htable_content-SameAnswers same =
      let es = entries valid.chains in
      let es' = entries valid'.chains in
      let placed = λ (q : List ℕ). entries-IsPlaced valid.chains q valid.placed in
      let placed' = λ (q : List ℕ). entries-IsPlaced valid'.chains q valid'.placed in
      let found : (q : List ℕ) → find q es ≡ find q es' = λ q.
        (placed q).0
        ∙ ok-inj (sym (get-eq-find valid q) ∙ same q ∙ get-eq-find valid' q)
        ∙ sym (placed' q).0 in
      let p = Permᴰ.map full (Permᴰ-find es es' (λ q. (placed q).1) (λ q. (placed' q).1) found) in
      (
        record { size = length es; list = map full es },
        record { size = length es'; list = map full es' },
        ap (get_htable_content true) valid.models ∙ content-table_of valid.chains,
        ap (get_htable_content true) valid'.models ∙ content-table_of valid'.chains,
        sym (length-map es full) ∙ length-Permᴰ p ∙ length-map es' full,
        sound p,
      )
