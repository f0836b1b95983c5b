-- ===== src/HashTable/Failures.antt =====
-- What happens when `create_bucket` gets no memory: the recursive call of `add_value_to_bucket`
-- drops the error.
use distributed_hash_table.Prelude.{
  ℕ, ◌<◌, List, [], ◌∷◌, false, if◌then◌else◌, none, some, ok, arith, ◌≡◌, refl, ◌≢◌, length, ap,
  sym, ◌==◌, set, get_or, set-map, zero, suc, subst,
}
use distributed_hash_table.Text.{str_eq_comm}
use distributed_hash_table.Errors.{ErrorCode, err_none, err_nomem}
use distributed_hash_table.HashTable.{
  Htable, add_value_to_bucket, add_htable_value, get_htable_value,
}
use distributed_hash_table.HashTable.Chains.{Chain, repr, find}
use distributed_hash_table.HashTable.Tables.{
  IsValid, table_of, home, chain_of, at-home, get-eq-find,
}

-- What the code reports: only a failure in the second bucket of the chain is seen.
abbrev pub reported : Chain → ErrorCode
reported c = if length c == 1 then err_nomem else err_none

add_value_to_bucket-no_room :
    (c : Chain) (k v : List ℕ)
    → c ≢ []
    → find k c ≡ none
    → add_value_to_bucket false (repr c) k v ≡ ok (reported c, repr c)
unfolding add_value_to_bucket repr find
add_value_to_bucket-no_room [] k v ne h = absurd (ne refl)
add_value_to_bucket-no_room (e ∷ []) k v ne h = ground (arith, str_eq_comm k e.0)
add_value_to_bucket-no_room (e ∷ d ∷ c) k v ne h =
    ground (arith, str_eq_comm k e.0, add_value_to_bucket-no_room (d ∷ c) k v (λ p. cc p))

pub set-get_or {ℓ} : {A : Type ℓ} (xs : List A) (i : ℕ) (d : A) → set xs i (get_or xs i d) ≡ xs
set-get_or [] i d = refl
set-get_or (x ∷ xs) zero d = refl
set-get_or (x ∷ xs) (suc i) d = ap (◌∷◌ x) (set-get_or xs i d)

no_room-table_of :
    (cs : List Chain) (k v : List ℕ)
    → 0 < length cs
    → find k (chain_of cs k) ≡ none
    → chain_of cs k ≢ []
    → add_htable_value false (table_of cs) (some k) (some v)
      ≡ ok (reported (chain_of cs k), table_of cs)
unfolding add_htable_value
no_room-table_of cs k v pos absent ne =
    rw (at-home cs k pos, add_value_to_bucket-no_room (chain_of cs k) k v ne absent)
      (cc (set-map cs repr (home cs k) (chain_of cs k), set-get_or cs (home cs k) []))

-- Where a new key finds its chain neither empty nor with room for a bucket, the table is left as
-- it was. The caller is told so when the chain has one pair, and told of success when it has more.
pub add-no_room :
    {t : Htable} (valid : IsValid t) (k v : List ℕ)
    → get_htable_value t (some k) ≡ ok none
    → chain_of valid.chains k ≢ []
    → add_htable_value false t (some k) (some v) ≡ ok (reported (chain_of valid.chains k), t)
add-no_room valid k v absent ne =
    let missing : find k (chain_of valid.chains k) ≡ none = cc (absent, get-eq-find valid k) in
    subst
      (λ x. add_htable_value false x (some k) (some v) ≡ ok (reported (chain_of valid.chains k), x))
      (sym valid.models) (no_room-table_of valid.chains k v valid.nonempty missing ne)
