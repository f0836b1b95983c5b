-- ===== src/Cluster/Votes.antt =====
-- How many of the answers to a get carry a value.
use distributed_hash_table.Prelude.{
  ℕ, zero, suc, ◌+◌, ◌<◌, ◌≤◌, List, [], ◌∷◌, ◌++◌, map, false, ◌==◌, Option, none, some, ◌≡◌, sym,
  refl, ◌≢◌, length, arith, take, ap, ◌∙◌, Bool-cases, inl, inr,
}
use distributed_hash_table.Text.{c_str, str_eq, str_eq_iff, str_eq_refl}
use distributed_hash_table.Server.Dump.{Datagram, max_msg_elem_size}
use distributed_hash_table.Server.Session.{Answers, IsSendable}
use distributed_hash_table.Network.{is_not_found}
use distributed_hash_table.Network.Quorum.{agree, received}

c_str-take_long : (m : List ℕ) (n : ℕ) → length (c_str m) ≤ n → c_str (take n m) ≡ c_str m
unfolding c_str
c_str-take_long [] zero h = refl
c_str-take_long [] (suc n) h = refl
c_str-take_long (b ∷ m) zero h = elim (Bool-cases (b == 0)) [
  | inl e ↦ rw e refl
  | inr e ↦ absurd (ground arith)
]
c_str-take_long (b ∷ m) (suc n) h = elim (Bool-cases (b == 0)) [
  | inl e ↦ rw e refl
  | inr e ↦ ground (arith, c_str-take_long m n)
]

pub agree-append :
    (v : List ℕ) (xs ys : List Datagram) → agree v (xs ++ ys) ≡ agree v xs + agree v ys
unfolding agree
agree-append v [] ys = omega arith
agree-append v (x ∷ xs) ys = ground (arith, agree-append v xs ys)

agree-none : (v : List ℕ) (sent : List Datagram) → sent ≡ (0 ∷ []) ∷ [] → agree v sent ≡ 0
unfolding agree is_not_found
agree-none v sent e = rw e refl

agree-some :
    (v value : List ℕ) (sent : List Datagram)
    → map c_str sent ≡ value ∷ []
    → length value < max_msg_elem_size
    → (agree v sent ≤ 1) × (v ≢ value → agree v sent ≡ 0)
unfolding agree
agree-some v value [] e short = absurd (cc e)
agree-some v value (m ∷ []) e short =
    let text : c_str m ≡ value = cc e in
    let same : c_str (received m) ≡ value =
      c_str-take_long m max_msg_elem_size (omega (arith, ap length text)) ∙ text in
    (ground arith, λ ne. ground (arith, same, str_eq_iff value v))
agree-some v value (m ∷ n ∷ sent) e short = absurd (omega (arith, ap length e))

pub agree-Answers :
    (v : List ℕ) (old : Option (List ℕ)) (sent : List Datagram)
    → IsSendable old
    → Answers old sent
    → agree v sent ≤ 1
agree-Answers v none sent h a = omega (arith, agree-none v sent a)
agree-Answers v (some value) sent h a = (agree-some v value sent a h.1).0

is_not_found-text : (m : List ℕ) → 0 < length (c_str m) → is_not_found m ≡ false
unfolding is_not_found c_str
is_not_found-text [] pos = refl
is_not_found-text (b ∷ []) pos = elim (Bool-cases (b == 0)) [
  | inl e ↦ absurd (ground arith)
  | inr e ↦ e
]
is_not_found-text (b ∷ c ∷ m) pos = refl

agree-same :
    (value : List ℕ) (m : Datagram)
    → c_str m ≡ value
    → 0 < length value
    → length value < max_msg_elem_size
    → agree value (m ∷ []) ≡ 1
unfolding agree
agree-same value m e pos short =
    let same : c_str (received m) ≡ value =
      c_str-take_long m max_msg_elem_size (omega (arith, ap length e)) ∙ e in
    let found : is_not_found (received m) ≡ false =
      is_not_found-text (received m) (omega (arith, ap length same)) in
    rw (found, same, str_eq_refl value) refl

pub agree-Answers-same :
    (value : List ℕ) (old : Option (List ℕ)) (sent : List Datagram)
    → 0 < length value
    → old ≡ some value
    → IsSendable old
    → Answers old sent
    → agree value sent ≡ 1
agree-Answers-same value none sent pos e h a = absurd (cc e)
agree-Answers-same value (some w) [] pos e h a = absurd (cc a)
agree-Answers-same value (some w) (m ∷ []) pos e h a =
    let same : w ≡ value = cc e in
    agree-same value m (cc (a, same)) pos (omega (arith, h.1, ap length same))
agree-Answers-same value (some w) (m ∷ n ∷ sent) pos e h a = absurd (omega (arith, ap length a))

pub agree-Answers-other :
    (v value : List ℕ) (old : Option (List ℕ)) (sent : List Datagram)
    → v ≢ value
    → old ≡ some value
    → IsSendable old
    → Answers old sent
    → agree v sent ≡ 0
agree-Answers-other v value none sent ne e h a = absurd (cc e)
agree-Answers-other v value (some w) sent ne e h a =
    (agree-some v w sent a h.1).1 (λ same. ne (cc (same, e)))

-- A value that the answers carry is the one that the server has.
pub agree-Answers-pos :
    (v : List ℕ) (old : Option (List ℕ)) (sent : List Datagram)
    → IsSendable old
    → Answers old sent
    → 0 < agree v sent
    → old ≡ some v
agree-Answers-pos v none sent h a pos = absurd (omega (arith, agree-none v sent a))
agree-Answers-pos v (some w) sent h a pos = elim (Bool-cases (str_eq v w)) [
  | inl same ↦ ap some (sym ((str_eq_iff v w).0 same))
  | inr other ↦ absurd (
      omega (
        arith,
        agree-Answers-other v w (some w) sent (λ e. cc (other, (str_eq_iff v w).1 e)) refl h a,
      ))
]
