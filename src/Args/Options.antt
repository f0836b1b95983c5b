-- ===== src/Args/Options.antt =====
-- What the loop over the options keeps, by one rule for its rounds.
use Prim.Native.Nat.{bit_and}
use distributed_hash_table.Prelude.{
  ℕ, zero, suc, ◌≤◌, ◌<◌, List, [], ◌∷◌, Bool, true, false, none, some, Run, ok, fault, no_fuel,
  length, arith, ◌≡◌, refl, ◌≢◌, Bool-cases, inl, inr, if-cases,
}
use distributed_hash_table.Text.{str_eq}
use distributed_hash_table.Numbers.{ℤ, pos, negsuc, strtol}
use distributed_hash_table.Args.{
  Args, parse_option, option_value, continue_with, parse_loop, parse_opt_args, finish, is_set,
  default_args, Parsed, dash_dash, total_servers, get_needed, put_needed,
}
use distributed_hash_table.Args.Bounds.{asked, check_bounds-eq-asked}

-- An accepted option has a positive value, and takes an argument off the rest at least.
module _ (P : Run Parsed → Type 0) (rest : ℕ → List (List ℕ) → Run Parsed) (on_fault : P fault)
    (on_null : (l : List (List ℕ)) → P (ok (none, l))) where
  value-rule :
      (x : List ℕ) (argv : List (List ℕ)) (value : ℕ) (z : ℤ)
      → strtol x ≡ z
      → ((v : ℕ) → P (rest (suc v) argv))
      → P (continue_with (option_value (x ∷ argv) value) rest)
  unfolding continue_with option_value
  value-rule x argv value (pos zero) e next = elim (Bool-cases (str_eq x dash_dash)) [
    | inl dashes ↦ rw dashes (on_null (x ∷ argv))
    | inr other ↦ rw (other, e) (on_null (x ∷ argv))
  ]
  value-rule x argv value (pos (suc v)) e next = elim (Bool-cases (str_eq x dash_dash)) [
    | inl dashes ↦ rw dashes (on_null (x ∷ argv))
    | inr other ↦ rw (other, e) (next v)
  ]
  value-rule x argv value (negsuc v) e next = elim (Bool-cases (str_eq x dash_dash)) [
    | inl dashes ↦ rw dashes (on_null (x ∷ argv))
    | inr other ↦ rw (other, e) (on_null (x ∷ argv))
  ]

  option-rule :
      (supported : Bool) (s : List ℕ) (argv : List (List ℕ)) (value : ℕ)
      → ((v : ℕ) (l : List (List ℕ)) → suc (length l) ≤ length argv → P (rest (suc v) l))
      → P (continue_with (parse_option supported (s ∷ argv) value) rest)
  unfolding parse_option
  option-rule false s argv value next = unfold continue_with in on_null (s ∷ argv)
  option-rule true s [] value next = unfold continue_with option_value in on_fault
  option-rule true s (x ∷ argv) value next =
      value-rule x argv value (strtol x) refl (λ v. next v argv (omega arith))

-- What an accepted choice promises: all three numbers are positive, and the quorum that is asked
-- for is at most N.
pub record IsAccepted (flags : ℕ) (a : Args) : Type 0 where
  pub n_pos : 0 < a.n
  pub r_pos : 0 < a.r
  pub w_pos : 0 < a.w
  pub quorum : asked a flags ≡ true

abbrev Positive : Args → Type 0
Positive a = (0 < a.n) × (0 < a.r) × (0 < a.w)

abbrev Accepts : ℕ → Run Parsed → Type 0
Accepts flags r = (a : Args) (l : List (List ℕ)) → r ≡ ok (some a, l) → IsAccepted flags a

finish-Accepts :
    (flags : ℕ) (a : Args) (l : List (List ℕ))
    → flags < 8
    → Positive a
    → Accepts flags (ok (finish flags a l))
unfolding finish
finish-Accepts flags a l h p b l' e = ground (arith, check_bounds-eq-asked a flags h)

-- One round, for any property of results that a fault, a NULL and every way out have.
parse_loop-round :
    (P : Run Parsed → Type 0) (flags fuel : ℕ) (a : Args) (s : List ℕ) (argv : List (List ℕ))
    → P fault
    → ((l : List (List ℕ)) → P (ok (none, l)))
    → ((l : List (List ℕ)) → length l ≤ suc (length argv) → P (ok (finish flags a l)))
    → ((v : ℕ) (l : List (List ℕ))
        → suc (length l) ≤ length argv
        → P (parse_loop fuel flags (record a { n = suc v }) l)
          × P (parse_loop fuel flags (record a { r = suc v }) l)
          × P (parse_loop fuel flags (record a { w = suc v }) l))
    → P (parse_loop (suc fuel) flags a (s ∷ argv))
unfolding parse_loop
parse_loop-round P flags fuel a s argv on_fault on_null on_finish next =
    if-cases P (str_eq s (b'-' ∷ b'n' ∷ [])) _ _
      (option-rule P (λ x. parse_loop fuel flags (record a { n = x })) on_fault on_null
        (is_set (bit_and flags total_servers)) s argv a.n (λ v l h. (next v l h).0))
      (if-cases P (str_eq s (b'-' ∷ b'r' ∷ [])) _ _
        (option-rule P (λ x. parse_loop fuel flags (record a { r = x })) on_fault on_null
          (is_set (bit_and flags get_needed)) s argv a.r (λ v l h. (next v l h).1))
        (if-cases P (str_eq s (b'-' ∷ b'w' ∷ [])) _ _
          (option-rule P (λ x. parse_loop fuel flags (record a { w = x })) on_fault on_null
            (is_set (bit_and flags put_needed)) s argv a.w (λ v l h. (next v l h).2))
          (if-cases P (str_eq s dash_dash) _ _ (on_finish argv (omega arith))
            (on_finish (s ∷ argv) (omega arith)))))

module _ (flags : ℕ) (h : flags < 8) where
  parse_loop-Accepts :
      (fuel : ℕ) (a : Args) (argv : List (List ℕ))
      → Positive a
      → Accepts flags (parse_loop fuel flags a argv)
  parse_loop-Accepts zero a argv p = unfold parse_loop in λ b l e. cc
  parse_loop-Accepts (suc fuel) a [] p = unfold parse_loop in finish-Accepts flags a [] h p
  parse_loop-Accepts (suc fuel) a (s ∷ argv) p =
      parse_loop-round (Accepts flags) flags fuel a s argv (λ b l e. cc) (λ l b l' e. cc)
        (λ l _. finish-Accepts flags a l h p)
        (λ v l _. (
          parse_loop-Accepts fuel (record a { n = suc v }) l (omega arith),
          parse_loop-Accepts fuel (record a { r = suc v }) l (omega arith),
          parse_loop-Accepts fuel (record a { w = suc v }) l (omega arith),
        ))

  -- Whatever the arguments are, a choice that is accepted has positive numbers, and N is at least
  -- the quorum that `check_bounds` asks for: W where puts are supported, R where only gets are.
  pub parse_opt_args-IsAccepted :
      (argv : List (List ℕ)) (a : Args) (l : List (List ℕ))
      → parse_opt_args flags argv ≡ ok (some a, l)
      → IsAccepted flags a
  parse_opt_args-IsAccepted argv =
      unfold parse_opt_args in
      parse_loop-Accepts (suc (length argv)) default_args argv (omega arith)

parse_loop-ne-no_fuel :
    (fuel flags : ℕ) (a : Args) (argv : List (List ℕ))
    → length argv < fuel
    → parse_loop fuel flags a argv ≢ no_fuel
parse_loop-ne-no_fuel zero flags a argv h = absurd (omega arith)
parse_loop-ne-no_fuel (suc fuel) flags a [] h = unfold parse_loop in λ e. cc
parse_loop-ne-no_fuel (suc fuel) flags a (s ∷ argv) h =
    parse_loop-round (λ r. r ≢ no_fuel) flags fuel a s argv (λ e. cc) (λ l e. cc) (λ l _ e. cc)
      (λ v l k. (
        parse_loop-ne-no_fuel fuel flags (record a { n = suc v }) l (omega arith),
        parse_loop-ne-no_fuel fuel flags (record a { r = suc v }) l (omega arith),
        parse_loop-ne-no_fuel fuel flags (record a { w = suc v }) l (omega arith),
      ))

-- The fuel is enough for any array. An option without its number at the end of the array is a fault
-- all the same.
parse_opt_args-ne-no_fuel : (flags : ℕ) (argv : List (List ℕ)) → parse_opt_args flags argv ≢ no_fuel
unfolding parse_opt_args
parse_opt_args-ne-no_fuel flags argv =
    parse_loop-ne-no_fuel (suc (length argv)) flags default_args argv (omega arith)

-- The arguments that are left are at most as many as a bound.
abbrev pub Leaves : ℕ → Run Parsed → Type 0
Leaves bound r = (a : Args) (l : List (List ℕ)) → r ≡ ok (some a, l) → length l ≤ bound

finish-Leaves :
    (bound flags : ℕ) (a : Args) (l : List (List ℕ))
    → length l ≤ bound
    → Leaves bound (ok (finish flags a l))
unfolding finish
finish-Leaves bound flags a l h b l' e = let same : l ≡ l' = cc e in rw (← same) h

parse_loop-Leaves :
    (bound fuel flags : ℕ) (a : Args) (argv : List (List ℕ))
    → length argv ≤ bound
    → Leaves bound (parse_loop fuel flags a argv)
parse_loop-Leaves bound zero flags a argv h = unfold parse_loop in λ b l e. cc
parse_loop-Leaves bound (suc fuel) flags a [] h =
    unfold parse_loop in finish-Leaves bound flags a [] h
parse_loop-Leaves bound (suc fuel) flags a (s ∷ argv) h =
    parse_loop-round (Leaves bound) flags fuel a s argv (λ b l e. cc) (λ l b l' e. cc)
      (λ l small. finish-Leaves bound flags a l (omega arith))
      (λ v l small. (
        parse_loop-Leaves bound fuel flags (record a { n = suc v }) l (omega arith),
        parse_loop-Leaves bound fuel flags (record a { r = suc v }) l (omega arith),
        parse_loop-Leaves bound fuel flags (record a { w = suc v }) l (omega arith),
      ))

pub parse_opt_args-Leaves :
    (flags : ℕ) (argv : List (List ℕ)) → Leaves (length argv) (parse_opt_args flags argv)
unfolding parse_opt_args
parse_opt_args-Leaves flags argv =
    parse_loop-Leaves (length argv) (suc (length argv)) flags default_args argv (omega arith)
