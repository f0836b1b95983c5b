-- ===== src/Args/Bounds.antt =====
-- What an accepted choice of N, R and W satisfies.
use Prim.Native.Nat.{bit_and}
use distributed_hash_table.Prelude.{
  ℕ, zero, suc, ◌<◌, Bool, true, ◌&&◌, if◌then◌else◌, ◌==◌, leb, arith, Bool-cases, inl, inr, ◌≡◌,
  refl,
}
use distributed_hash_table.Args.{Args, check_bounds, put_needed, get_needed, is_set}

-- A test of the numbers below a bound, from the smallest on.
each : (ℕ → Bool) → ℕ → Bool
each test zero = true
each test (suc bound) = each test bound && test bound

each-below : (test : ℕ → Bool) (bound f : ℕ) → each test bound ≡ true → f < bound → test f ≡ true
unfolding each
each-below test zero f passed small = absurd (omega arith)
each-below test (suc bound) f passed small = elim (Bool-cases (f == bound)) [
  | inl same ↦ ground arith
  | inr other ↦ each-below test bound f (ground arith) (ground arith)
]

-- What a choice of flags below 8 asks: W where puts are supported, R where only gets are.
pub asked : Args → ℕ → Bool
asked args flags =
    if is_set (bit_and flags put_needed)
    then leb args.w args.n
    else if is_set (bit_and flags get_needed)
    then leb args.r args.n
    else true

puts_and_gets_table : each (λ f. bit_and (bit_and f put_needed) get_needed == 0) 8 ≡ true
unfolding each
puts_and_gets_table = refl

-- The first branch of `check_bounds` is never taken: with both flags only W is compared to N, and
-- R may be larger than N.
pub check_bounds-eq-asked :
    (args : Args) (flags : ℕ) → flags < 8 → check_bounds args flags ≡ asked args flags
unfolding check_bounds asked
check_bounds-eq-asked args flags h =
    let never : bit_and (bit_and flags put_needed) get_needed == 0 ≡ true =
      each-below (λ f. bit_and (bit_and f put_needed) get_needed == 0) 8 flags puts_and_gets_table
        h in
    rw never
