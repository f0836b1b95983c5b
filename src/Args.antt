-- ===== src/Args.antt =====
-- args.c: the options -n, -r and -w. `argv` is the list of the arguments that are left; the NULL
-- that ends the array is the end of the list.
pub mod Bounds
pub mod Options
pub mod RoundTrip
use Prim.Native.Nat.{bit_and}
use distributed_hash_table.Prelude.{
  ℕ, zero, suc, ◌+◌, List, [], ◌∷◌, Bool, true, false, ◌&&◌, ◌||◌, not, if◌then◌else◌, ◌==◌, ltb,
  leb, Option, none, some, Run, ok, fault, no_fuel, ◌>>=◌, drop, length,
}
use distributed_hash_table.Text.{str_eq}
use distributed_hash_table.Numbers.{ℤ, pos, negsuc, strtol}
use distributed_hash_table.Errors.{ErrorCode, err_none, err_bad_parameter, err_not_found}

-- `args_t`
pub record Args : Type 0 where
  pub n : ℕ
  pub r : ℕ
  pub w : ℕ

-- `args_kind`
abbrev pub total_servers : ℕ
total_servers = 1

abbrev pub get_needed : ℕ
get_needed = 2

abbrev pub put_needed : ℕ
put_needed = 4

-- A number as a condition.
abbrev pub is_set : ℕ → Bool
is_set flags = not (flags == 0)

abbrev pub default_args : Args
default_args = record { n = 3; r = 2; w = 2 }

abbrev pub dash_dash : List ℕ
dash_dash = b'-' ∷ b'-' ∷ []

-- The option's value: the error code, the arguments from the value on, the value.
unfoldable pub option_value : List (List ℕ) → ℕ → Run (ErrorCode × List (List ℕ) × ℕ)
option_value [] value = fault
option_value (s ∷ argv) value =
    if str_eq s dash_dash then ok (err_bad_parameter, s ∷ argv, value) else elim (strtol s) [
      | pos zero ↦ ok (err_bad_parameter, s ∷ argv, value)
      | pos (suc val) ↦ ok (err_none, s ∷ argv, suc val)
      | negsuc _ ↦ ok (err_bad_parameter, s ∷ argv, value)
    ]

-- The test of `*rem_argv` against NULL never holds: `rem_argv` points into the array. At the end
-- of the array `strcmp` reads NULL.
unfoldable pub parse_option : Bool → List (List ℕ) → ℕ → Run (ErrorCode × List (List ℕ) × ℕ)
unfolding option_value
parse_option false argv value = ok (err_not_found, argv, value)
parse_option true argv value = option_value (drop 1 argv) value

unfoldable pub check_bounds : Args → ℕ → Bool
check_bounds args supported_args =
    if is_set (bit_and (bit_and supported_args put_needed) get_needed)
    then not (ltb args.n args.r || ltb args.n args.w)
    else if is_set (bit_and supported_args put_needed)
    then leb args.w args.n
    else if is_set (bit_and supported_args get_needed)
    then leb args.r args.n
    else true

-- What the function returns: the arguments (`none` is NULL) and what is left of the array.
abbrev pub Parsed : Type 0
Parsed = Option Args × List (List ℕ)

unfoldable pub finish : ℕ → Args → List (List ℕ) → Parsed
finish supported_args parsed argv =
    (if check_bounds parsed supported_args then some parsed else none, argv)

-- After `parse_option`: give up on an error, or store the value and go on behind it.
unfoldable pub continue_with :
    Run (ErrorCode × List (List ℕ) × ℕ) → (ℕ → List (List ℕ) → Run Parsed) → Run Parsed
continue_with result rest =
    result >>= λ p. elim p.0 [ err_none ↦ rest p.2 (drop 1 p.1) | _ ↦ ok (none, p.1) ]

-- The loop, a round for each unit of fuel.
unfoldable pub parse_loop : ℕ → ℕ → Args → List (List ℕ) → Run Parsed
unfolding finish continue_with parse_option
parse_loop zero supported_args parsed argv = no_fuel
parse_loop (suc fuel) supported_args parsed [] = ok (finish supported_args parsed [])
parse_loop (suc fuel) supported_args parsed (s ∷ argv) =
    let total =
      continue_with
        (parse_option (is_set (bit_and supported_args total_servers)) (s ∷ argv) parsed.n)
        (λ value. parse_loop fuel supported_args (record parsed { n = value })) in
    let get =
      continue_with (parse_option (is_set (bit_and supported_args get_needed)) (s ∷ argv) parsed.r)
        (λ value. parse_loop fuel supported_args (record parsed { r = value })) in
    let put =
      continue_with (parse_option (is_set (bit_and supported_args put_needed)) (s ∷ argv) parsed.w)
        (λ value. parse_loop fuel supported_args (record parsed { w = value })) in
    if str_eq s (b'-' ∷ b'n' ∷ [])
    then total
    else if str_eq s (b'-' ∷ b'r' ∷ [])
    then get
    else if str_eq s (b'-' ∷ b'w' ∷ [])
    then put
    else if str_eq s dash_dash
    then ok (finish supported_args parsed argv)
    else ok (finish supported_args parsed (s ∷ argv))

-- Each round but the last takes an argument at least.
unfoldable pub parse_opt_args : ℕ → List (List ℕ) → Run Parsed
unfolding parse_loop
parse_opt_args supported_args argv = parse_loop (suc (length argv)) supported_args default_args argv
