-- ===== src/Network/Quorum.antt =====
-- The quorum of `network_get`, against a count of the replies that agree.
use distributed_hash_table.Prelude.{
  ℕ, zero, suc, ◌+◌, ◌%◌, ◌^◌, ◌<◌, ◌≤◌, List, [], ◌∷◌, Bool, true, false, ◌||◌, if◌then◌else◌,
  ◌==◌, leb, Option, none, some, ok, ◌>>=◌, take, arith, ◌≡◌, refl, ◌⊎◌, inl, inr, Returns,
  Bool-cases,
}
use distributed_hash_table.Text.{c_str, str_eq, str_eq_iff, str_eq_refl}
use distributed_hash_table.Errors.{ErrorCode, err_none, err_network, err_not_found}
use distributed_hash_table.HashTable.{
  Htable, htable_size, construct_htable, add_htable_value, get_htable_value,
}
use distributed_hash_table.HashTable.Chains.{find}
use distributed_hash_table.HashTable.Tables.{
  IsValid, table_of, blank, chain_of, blank-IsValid, get-blank, construct_htable-eq, get-eq-find,
}
use distributed_hash_table.HashTable.Lookup.{get-add}
use distributed_hash_table.Server.Dump.{Datagram, max_msg_elem_size}
use distributed_hash_table.Network.{
  reaches, first_byte, count_text, is_not_found, get_loop, get_replies, Answer,
}

-- What the buffer holds of a reply.
abbrev pub received : Datagram → Datagram
received = take max_msg_elem_size

-- How many replies carry the value.
unfoldable pub agree : List ℕ → List Datagram → ℕ
agree v [] = 0
agree v (m ∷ replies) =
    let rest = agree v replies in
    if is_not_found (received m)
    then rest
    else (if str_eq (c_str (received m)) v then 1 else 0) + rest

-- Is there a reply that says that the key is not there?
pub any_not_found : List Datagram → Bool
any_not_found [] = false
any_not_found (m ∷ replies) = is_not_found (received m) || any_not_found replies

vote_text : ℕ → Option (List ℕ)
vote_text zero = none
vote_text (suc n) = some (suc n ∷ [])

-- The local table holds, for each value, the number of votes that `f` gives.
record Tallies (t : Htable) (r : ℕ) (f : List ℕ → ℕ) : Type 0 where
  valid : IsValid t
  votes : (v : List ℕ) → get_htable_value t (some v) ≡ ok (vote_text (f v))
  below : (v : List ℕ) → f v < r

abbrev one_more : (List ℕ → ℕ) → List ℕ → List ℕ → ℕ
one_more f s v = if str_eq s v then suc (f v) else f v

first_byte-vote_text : (n : ℕ) → first_byte (vote_text n) ≡ n
unfolding first_byte vote_text
first_byte-vote_text zero = refl
first_byte-vote_text (suc n) = refl

reaches-small : (count r : ℕ) → count < 128 → r ≤ 127 → reaches count r ≡ leb r count
unfolding reaches
reaches-small count r h k = ground arith

votes_after :
    (t : Htable) (r : ℕ) (f : List ℕ → ℕ) (s : List ℕ)
    → Tallies t r f
    → (t' : Htable)
    → ((q : List ℕ)
        → get_htable_value t' (some q)
          ≡ (if str_eq s q then ok (some (suc (f s) ∷ [])) else get_htable_value t (some q)))
    → (v : List ℕ) → get_htable_value t' (some v) ≡ ok (vote_text (one_more f s v))
unfolding vote_text
votes_after t r f s tal t' reads v = elim (Bool-cases (str_eq s v)) [
  | inl e ↦ rw (reads v, e, (str_eq_iff s v).0 e)
  | inr e ↦ rw (reads v, e) (tal.votes v)
]

next_vote :
    (t : Htable) (r : ℕ) (f : List ℕ → ℕ) (s : List ℕ)
    → r ≤ 127
    → Tallies t r f
    → suc (f s) < r
    → Returns
        (add_htable_value true t (some s) (some (count_text (suc (f s)))))
        λ p. Tallies p.1 r (one_more f s)
unfolding count_text
next_vote t r f s small tal more =
    let (p, run, q) = get-add tal.valid s (suc (f s) ∷ []) in
    (
      p,
      run,
      record {
        valid = q.1;
        votes = votes_after t r f s tal p.1 q.2;
        below = λ v. ground (arith, tal.below v, str_eq_iff s v);
      },
    )

-- What the loop reports when no value reaches the quorum.
abbrev pub failure : ℕ → List Datagram → ErrorCode
failure error_not_found replies =
    if error_not_found == 0
    then (if any_not_found replies then err_not_found else err_network)
    else err_not_found

abbrev Verdict : ℕ → (List ℕ → ℕ) → ℕ → List Datagram → Answer → Type 0
Verdict r f nf replies o =
    ((v : List ℕ) × (o ≡ (err_none, some v)) × (r ≤ f v + agree v replies))
    ⊎ ((o ≡ (failure nf replies, none)) × ((v : List ℕ) → f v + agree v replies < r))

module _ (r : ℕ) (small : r ≤ 127) where
  Verdict-not_found :
      (f : List ℕ → ℕ) (nf : ℕ) (m : Datagram) (replies : List Datagram) (o : Answer)
      → is_not_found (received m) ≡ true
      → Verdict r f (nf + 1) replies o
      → Verdict r f nf (m ∷ replies) o
  unfolding agree any_not_found
  Verdict-not_found f nf m replies o e (inl (v, q, h)) = inl (v, q, rw e h)
  Verdict-not_found f nf m replies o e (inr (q, h)) = inr (ground arith, λ v. rw e (h v))

  Verdict-vote :
      (f : List ℕ → ℕ) (nf : ℕ) (m : Datagram) (replies : List Datagram) (o : Answer)
      → is_not_found (received m) ≡ false
      → Verdict r (one_more f (c_str (received m))) nf replies o
      → Verdict r f nf (m ∷ replies) o
  unfolding agree any_not_found
  Verdict-vote f nf m replies o e (inl (v, q, h)) = inl (v, q, ground arith)
  Verdict-vote f nf m replies o e (inr (q, h)) = inr (ground arith, λ v. ground (arith, h v))

  get_loop-Verdict :
      (replies : List Datagram) (t : Htable) (f : List ℕ → ℕ) (nf : ℕ)
      → Tallies t r f
      → Returns (get_loop true r t nf replies) (Verdict r f nf replies)
  unfolding get_loop
  get_loop-Verdict [] t f nf tal = (
    _,
    refl,
    inr (unfold any_not_found in ground arith, λ v. unfold agree in omega (arith, tal.below v)),
  )
  get_loop-Verdict (m ∷ replies) t f nf tal = elim (Bool-cases (is_not_found (received m))) [
    | inl e ↦
        let (o, run, v) = get_loop-Verdict replies t f (nf + 1) tal in
        (o, rw e run, Verdict-not_found f nf m replies o e v)
    | inr e ↦
        let s = c_str (received m) in
        let count : (f s + 1) % 256 ≡ suc (f s) = omega (arith, tal.below s) in
        let test : reaches (suc (f s)) r ≡ leb r (suc (f s)) =
          reaches-small (suc (f s)) r (omega (arith, tal.below s)) small in
        elim (Bool-cases (leb r (suc (f s)))) [
          | inl full ↦ (
            (err_none, some s),
            rw (e, tal.votes s, ◌>>=◌, first_byte-vote_text, count, test, full),
            inl (s, refl, unfold agree in rw (e, str_eq_refl s) (ground arith)),
          )
          | inr more ↦
              let (p, added, tal') = next_vote t r f s small tal (ground arith) in
              let (o, run, v) = get_loop-Verdict replies p.1 (one_more f s) nf tal' in
              (
                o,
                rw (e, tal.votes s, ◌>>=◌, first_byte-vote_text, count, test, more, added) run,
                Verdict-vote f nf m replies o e v,
              )
        ]
  ]

empty-Tallies : (r : ℕ) → 0 < r → Tallies (table_of (blank htable_size)) r (λ _. 0)
unfolding vote_text
empty-Tallies r h = record {
  valid = blank-IsValid htable_size (omega arith);
  votes = get-blank htable_size (omega arith);
  below = λ v. h;
}

-- What a get reports: a value that R replies carry, or that there is none.
abbrev pub IsAnswer : ℕ → List Datagram → Answer → Type 0
IsAnswer r replies o =
    ((v : List ℕ) × (o ≡ (err_none, some v)) × (r ≤ agree v replies))
    ⊎ ((o ≡ (failure 0 replies, none)) × ((v : List ℕ) → agree v replies < r))

of_Verdict :
    (r : ℕ) (replies : List Datagram) (o : Answer)
    → Verdict r (λ _. 0) 0 replies o
    → IsAnswer r replies o
of_Verdict r replies o (inl (v, e, h)) = inl (v, e, omega arith)
of_Verdict r replies o (inr (e, h)) = inr (e, λ v. omega (arith, h v))

-- With a quorum R from 1 to 127 the client's loop ends. A value that it returns was carried by R
-- replies at least. When it returns none, no value was carried by R replies; the error then says
-- whether some reply told that the key is not there.
pub get_replies-quorum :
    (r : ℕ) (replies : List Datagram)
    → 0 < r
    → r ≤ 127
    → Returns (get_replies true r (construct_htable true htable_size) replies) (IsAnswer r replies)
unfolding get_replies
get_replies-quorum r [] h small =
    (_, refl, inr (unfold any_not_found in refl, λ v. unfold agree in h))
get_replies-quorum r (m ∷ replies) h small =
    let (o, run, v) =
      get_loop-Verdict r small (m ∷ replies) (table_of (blank htable_size)) (λ _. 0) 0
        (empty-Tallies r h) in
    (
      o,
      rw (construct_htable-eq htable_size (omega arith), ◌>>=◌) run,
      of_Verdict r (m ∷ replies) o v,
    )

reaches-large : (count r : ℕ) → 128 ≤ r → r < 2 ^ 31 → reaches (count % 256) r ≡ false
unfolding reaches
reaches-large count r h k = ground arith

get_loop-large :
    (r : ℕ) (replies : List Datagram) (t : Htable) (nf : ℕ)
    → 128 ≤ r
    → r < 2 ^ 31
    → IsValid t
    → get_loop true r t nf replies ≡ ok (failure nf replies, none)
unfolding get_loop any_not_found
get_loop-large r [] t nf h k valid = ground arith
get_loop-large r (m ∷ replies) t nf h k valid = elim (Bool-cases (is_not_found (received m))) [
  | inl e ↦ rw (e, get_loop-large r replies t (nf + 1) h k valid) (ground arith)
  | inr e ↦
      let s = c_str (received m) in
      let votes = find s (chain_of valid.chains s) in
      let count = (first_byte votes + 1) % 256 in
      let (p, added, (_, valid', _)) = get-add valid s (count_text count) in
      rw (
        e,
        get-eq-find valid s,
        ◌>>=◌,
        reaches-large (first_byte votes + 1) r h k,
        added,
        ◌>>=◌,
        get_loop-large r replies p.1 nf h k valid',
      )
]

-- With a quorum R of 128 or more, below 2^31, no replies at all make a get succeed: the votes are
-- counted in a signed byte.
pub get_replies-large :
    (r : ℕ) (replies : List Datagram)
    → 128 ≤ r
    → r < 2 ^ 31
    → get_replies true r (construct_htable true htable_size) replies ≡ ok (failure 0 replies, none)
unfolding get_replies
get_replies-large r [] h k = unfold any_not_found in refl
get_replies-large r (m ∷ replies) h k =
    rw (construct_htable-eq htable_size (omega arith), ◌>>=◌)
      (get_loop-large r (m ∷ replies) (table_of (blank htable_size)) 0 h k
        (blank-IsValid htable_size (omega arith)))
