-- ===== src/Client/Search.antt =====
-- The place that pps-client-find prints.
use distributed_hash_table.Prelude.{
  ℕ, zero, suc, ◌+◌, ◌<◌, ◌≤◌, List, [], ◌∷◌, ◌++◌, true, false, Option, none, some, length, drop,
  arith, ◌≡◌, refl, ◌⊎◌, inl, inr, ap, ◌∙◌, Bool-cases,
}
use distributed_hash_table.Client.Commands.{is_prefix, strstr}

-- The pattern stands in the text at a place.
abbrev pub Occurs : List ℕ → List ℕ → ℕ → Type 0
Occurs pattern text i = (rest : List ℕ) × (drop i text ≡ pattern ++ rest)

of_is_prefix :
    (pattern text : List ℕ)
    → is_prefix pattern text ≡ true
    → (rest : List ℕ) × (text ≡ pattern ++ rest)
unfolding is_prefix
of_is_prefix [] text h = (text, refl)
of_is_prefix (b ∷ pattern) [] h = absurd (ground arith)
of_is_prefix (b ∷ pattern) (c ∷ text) h =
    let (rest, e) = of_is_prefix pattern text (ground arith) in
    let same : b ≡ c = ground arith in (rest, cc (same, e))

is_prefix-append : (pattern rest : List ℕ) → is_prefix pattern (pattern ++ rest) ≡ true
unfolding is_prefix
is_prefix-append [] rest = refl
is_prefix-append (b ∷ pattern) rest = ground (arith, is_prefix-append pattern rest)

not_prefix :
    (pattern text : List ℕ) (i : ℕ)
    → is_prefix pattern (drop i text) ≡ false
    → Occurs pattern text i
    → ⊥
not_prefix pattern text i h (rest, e) =
    ground (arith, is_prefix-append pattern rest, ap (is_prefix pattern) e)

-- The first place where the pattern stands, counted from `start`; or there is none.
abbrev Found : ℕ → List ℕ → List ℕ → Option ℕ → Type 0
Found start text pattern o =
    ((i : ℕ) × (o ≡ some (start + i))
      × Occurs pattern text i
      × ((j : ℕ) → j < i → Occurs pattern text j → ⊥))
    ⊎ ((o ≡ none) × ((j : ℕ) → j ≤ length text → Occurs pattern text j → ⊥))

none_left :
    (pattern : List ℕ) → is_prefix pattern [] ≡ false → (j : ℕ) → j ≤ 0 → Occurs pattern [] j → ⊥
none_left pattern h zero small o = not_prefix pattern [] 0 h o
none_left pattern h (suc j) small o = absurd (omega arith)

module _ (c : ℕ) (text pattern : List ℕ) (not_here : is_prefix pattern (c ∷ text) ≡ false) where
  not_before :
      (i : ℕ)
      → ((j : ℕ) → j < i → Occurs pattern text j → ⊥)
      → (j : ℕ) → j < suc i
      → Occurs pattern (c ∷ text) j
      → ⊥
  not_before i before zero h o = not_prefix pattern (c ∷ text) 0 not_here o
  not_before i before (suc j) h o = before j (omega arith) o

  later :
      (start : ℕ) (o : Option ℕ)
      → Found (start + 1) text pattern o
      → Found start (c ∷ text) pattern o
  later start o (inl (i, e, occurs, before)) =
      inl (suc i, e ∙ ap some (omega arith), occurs, not_before i before)
  later start o (inr (e, never)) =
      inr (e, λ j h. not_before (suc (length text)) (λ k l. never k (omega arith)) j (omega arith))

strstr-Found :
    (start : ℕ) (text pattern : List ℕ) → Found start text pattern (strstr start text pattern)
unfolding strstr
strstr-Found start [] pattern = elim (Bool-cases (is_prefix pattern [])) [
  | inl here ↦ inl (
    0,
    rw here (ap some (omega arith)),
    of_is_prefix pattern [] here,
    λ j h o. absurd (omega arith),
  )
  | inr none_here ↦ inr (rw none_here, none_left pattern none_here)
]
strstr-Found start (c ∷ text) pattern = elim (Bool-cases (is_prefix pattern (c ∷ text))) [
  | inl here ↦ inl (
    0,
    rw here (ap some (omega arith)),
    of_is_prefix pattern (c ∷ text) here,
    λ j h o. absurd (omega arith),
  )
  | inr not_here ↦
      rw not_here (later c text pattern not_here start _ (strstr-Found (start + 1) text pattern))
]

-- The place that is printed is the first one where the second value stands in the first, and there
-- is no such place where -1 is printed.
pub strstr_lem :
    (text pattern : List ℕ)
    → ((i : ℕ) × (strstr 0 text pattern ≡ some i)
        × Occurs pattern text i
        × ((j : ℕ) → j < i → Occurs pattern text j → ⊥))
      ⊎ ((strstr 0 text pattern ≡ none) × ((j : ℕ) → j ≤ length text → Occurs pattern text j → ⊥))
strstr_lem text pattern = elim (strstr-Found 0 text pattern) [
  | inl (i, e, occurs, before) ↦ inl (i, e ∙ ap some (omega arith), occurs, before)
  | inr none_found ↦ inr none_found
]
