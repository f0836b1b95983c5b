-- ===== src/Ring/Places.antt =====
-- Where a key stands on the ring.
use distributed_hash_table.Prelude.{
  ℕ, zero, suc, ◌+◌, ◌<◌, List, [], ◌∷◌, true, false, length, arith, ◌≡◌, refl, ◌⊎◌, inl, inr,
  Returns, get_or, Bool-cases, subst,
}
use distributed_hash_table.Node.{Node}
use distributed_hash_table.Ring.{is_beyond, place_loop}

module _ (sha : List ℕ) (default : Node) where
  -- The first `k` nodes come before the digest.
  abbrev AllBeyond : List Node → ℕ → Type 0
  AllBeyond ring k = (j : ℕ) → j < k → is_beyond sha (get_or ring j default) ≡ true

  AllBeyond-cons :
      (n : Node) (ring : List Node) (k : ℕ)
      → is_beyond sha n ≡ true
      → AllBeyond ring k
      → AllBeyond (n ∷ ring) (suc k)
  AllBeyond-cons n ring k b all zero h = b
  AllBeyond-cons n ring k b all (suc j) h = all j (omega arith)

  -- `place` is the first node that does not come before the digest, counted from `start`.
  abbrev Stops : List Node → ℕ → ℕ → Type 0
  Stops ring start place =
      (i : ℕ) × (place ≡ start + i)
      × (i < length ring)
      × AllBeyond ring i
      × (is_beyond sha (get_or ring i default) ≡ false)

  -- All nodes come before the digest: the key belongs to the first one.
  abbrev Wraps : List Node → ℕ → Type 0
  Wraps ring place = (place ≡ 0) × AllBeyond ring (length ring)

  place-cons :
      (start place : ℕ) (n m : Node) (ring : List Node)
      → is_beyond sha n ≡ true
      → Stops (m ∷ ring) (suc start) place ⊎ Wraps (m ∷ ring) place
      → Stops (n ∷ m ∷ ring) start place ⊎ Wraps (n ∷ m ∷ ring) place
  place-cons start place n m ring b (inl (i, e, h, all, stop)) =
      inl (suc i, omega arith, omega arith, AllBeyond-cons n (m ∷ ring) i b all, stop)
  place-cons start place n m ring b (inr (e, all)) =
      inr (e, AllBeyond-cons n (m ∷ ring) (length (m ∷ ring)) b all)

  place_loop-Returns :
      (start : ℕ) (n : Node) (ring : List Node)
      → Returns
          (place_loop sha start (n ∷ ring))
          λ place. Stops (n ∷ ring) start place ⊎ Wraps (n ∷ ring) place
  unfolding place_loop
  place_loop-Returns start n [] = elim (Bool-cases (is_beyond sha n)) [
    | inl b ↦ (0, rw b, inr (refl, AllBeyond-cons n [] 0 b (λ j h. absurd (omega arith))))
    | inr e ↦ (start, rw e, inl (0, omega arith, omega arith, λ j h. absurd (omega arith), e))
  ]
  place_loop-Returns start n (m ∷ ring) = elim (Bool-cases (is_beyond sha n)) [
    | inl b ↦
        let (place, run, p) = place_loop-Returns (suc start) m ring in
        (place, rw b run, place-cons start place n m ring b p)
    | inr e ↦ (start, rw e, inl (0, omega arith, omega arith, λ j h. absurd (omega arith), e))
  ]

-- The place of a digest on a ring: the first node that it does not come behind, or the first node
-- of the ring where it comes behind all of them.
pub record IsPlace (sha : List ℕ) (default : Node) (ring : List Node) (place : ℕ) : Type 0 where
  pub in_range : place < length ring
  pub before : (j : ℕ) → j < place → is_beyond sha (get_or ring j default) ≡ true
  pub stops :
      (is_beyond sha (get_or ring place default) ≡ false)
      ⊎ ((place ≡ 0) × ((j : ℕ) → j < length ring → is_beyond sha (get_or ring j default) ≡ true))

of_Stops :
    (sha : List ℕ) (d n : Node) (ring : List Node) (place : ℕ)
    → Stops sha d (n ∷ ring) 0 place ⊎ Wraps sha d (n ∷ ring) place
    → IsPlace sha d (n ∷ ring) place
of_Stops sha d n ring place (inl (i, e, h, all, stop)) =
    let same : i ≡ place = omega arith in
    record {
      in_range = omega arith;
      before = subst (AllBeyond sha d (n ∷ ring)) same all;
      stops = inl (rw (← same) stop);
    }
of_Stops sha d n ring place (inr (e, all)) = record {
  in_range = omega arith;
  before = λ j h. absurd (omega arith);
  stops = inr (e, all);
}

-- On a ring that is not empty the first loop ends, at the place of the digest.
pub place_loop-IsPlace :
    (sha : List ℕ) (d n : Node) (ring : List Node)
    → Returns (place_loop sha 0 (n ∷ ring)) (IsPlace sha d (n ∷ ring))
place_loop-IsPlace sha d n ring =
    let (place, run, p) = place_loop-Returns sha d 0 n ring in
    (place, run, of_Stops sha d n ring place p)
