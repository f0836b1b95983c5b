-- ===== src/Args/RoundTrip.antt =====
-- Options that are written as the usage asks, and what is read of them.
use Prim.Native.Nat.{bit_and}
use distributed_hash_table.Prelude.{
  ℕ, zero, suc, ◌^◌, ◌<◌, List, [], ◌∷◌, ◌++◌, true, false, if◌then◌else◌, ok, none, some, ◌==◌,
  length, arith, ◌≡◌, refl, ◌⊎◌, inl, inr, ◌∙◌, Run,
}
use distributed_hash_table.Text.{str_eq}
use distributed_hash_table.Numbers.{decimal, isdigit, strtol-decimal, decimal_loop-digit}
use distributed_hash_table.Args.{
  Args, option_value, parse_option, continue_with, parse_loop, parse_opt_args, finish, check_bounds,
  is_set, default_args, dash_dash, total_servers, get_needed, put_needed, Parsed,
}

abbrev pub dash_n : List ℕ
dash_n = b'-' ∷ b'n' ∷ []

abbrev pub dash_r : List ℕ
dash_r = b'-' ∷ b'r' ∷ []

abbrev pub dash_w : List ℕ
dash_w = b'-' ∷ b'w' ∷ []

-- An option with its number.
pub data Choice : Type 0 where
  choose_n : ℕ → Choice
  choose_r : ℕ → Choice
  choose_w : ℕ → Choice

-- The arguments of the command line.
abbrev pub written : List Choice → List (List ℕ)
written [] = []
written (choose_n v ∷ choices) = dash_n ∷ decimal v ∷ written choices
written (choose_r v ∷ choices) = dash_r ∷ decimal v ∷ written choices
written (choose_w v ∷ choices) = dash_w ∷ decimal v ∷ written choices

-- The last choice of a number counts.
abbrev pub chosen : Args → List Choice → Args
chosen a [] = a
chosen a (choose_n v ∷ choices) = chosen (record a { n = v }) choices
chosen a (choose_r v ∷ choices) = chosen (record a { r = v }) choices
chosen a (choose_w v ∷ choices) = chosen (record a { w = v }) choices

-- A positive `long`.
abbrev pub IsNumber : ℕ → Type 0
IsNumber v = (0 < v) × (v < 2 ^ 63)

abbrev pub AllSupported : ℕ → List Choice → Type 0
AllSupported flags [] = Unit
AllSupported flags (choose_n v ∷ choices) =
    IsNumber v × (is_set (bit_and flags total_servers) ≡ true) × AllSupported flags choices
AllSupported flags (choose_r v ∷ choices) =
    IsNumber v × (is_set (bit_and flags get_needed) ≡ true) × AllSupported flags choices
AllSupported flags (choose_w v ∷ choices) =
    IsNumber v × (is_set (bit_and flags put_needed) ≡ true) × AllSupported flags choices

-- Arguments of which the first one is neither an option nor `--`.
abbrev pub IsPlain : List (List ℕ) → Type 0
IsPlain [] = Unit
IsPlain (s ∷ argv) =
    (str_eq s dash_n ≡ false)
    × (str_eq s dash_r ≡ false)
    × (str_eq s dash_w ≡ false)
    × (str_eq s dash_dash ≡ false)

-- What stands behind the options, and what is left of it: the options end before the first argument
-- that is none, or behind `--`.
abbrev pub Ends : List (List ℕ) → List (List ℕ) → Type 0
Ends argv left = (argv ≡ dash_dash ∷ left) ⊎ ((argv ≡ left) × IsPlain left)

other_first : (d : ℕ) (s : List ℕ) → d == b'-' ≡ false → str_eq (d ∷ s) dash_dash ≡ false
unfolding str_eq
other_first d s h = ground arith

decimal-other : (v : ℕ) → str_eq (decimal v) dash_dash ≡ false
unfolding decimal
decimal-other v =
    let (d, s, e, digit) = decimal_loop-digit (suc v) v [] (omega arith) in
    let minus : d == b'-' ≡ false = unfold isdigit in ground arith in rw (e, other_first d s minus)

option_value-decimal :
    (v old : ℕ) (argv : List (List ℕ)) (rest : ℕ → List (List ℕ) → Run Parsed)
    → IsNumber v
    → continue_with (option_value (decimal v ∷ argv) old) rest ≡ rest v argv
unfolding continue_with option_value
option_value-decimal zero old argv rest h = absurd (omega arith)
option_value-decimal (suc v) old argv rest h =
    rw (decimal-other (suc v), strtol-decimal (suc v) h.1) refl

module _ (fuel flags : ℕ) (a : Args) (v : ℕ) (argv : List (List ℕ)) (number : IsNumber v) where
  n-round :
      is_set (bit_and flags total_servers) ≡ true
      → parse_loop (suc fuel) flags a (dash_n ∷ decimal v ∷ argv)
        ≡ parse_loop fuel flags (record a { n = v }) argv
  unfolding parse_loop parse_option str_eq
  n-round supported =
      rw supported
        (option_value-decimal v a.n argv (λ v. parse_loop fuel flags (record a { n = v })) number)

  r-round :
      is_set (bit_and flags get_needed) ≡ true
      → parse_loop (suc fuel) flags a (dash_r ∷ decimal v ∷ argv)
        ≡ parse_loop fuel flags (record a { r = v }) argv
  unfolding parse_loop parse_option str_eq
  r-round supported =
      rw supported
        (option_value-decimal v a.r argv (λ v. parse_loop fuel flags (record a { r = v })) number)

  w-round :
      is_set (bit_and flags put_needed) ≡ true
      → parse_loop (suc fuel) flags a (dash_w ∷ decimal v ∷ argv)
        ≡ parse_loop fuel flags (record a { w = v }) argv
  unfolding parse_loop parse_option str_eq
  w-round supported =
      rw supported
        (option_value-decimal v a.w argv (λ v. parse_loop fuel flags (record a { w = v })) number)

plain_round :
    (fuel flags : ℕ) (a : Args) (left : List (List ℕ))
    → IsPlain left
    → parse_loop (suc fuel) flags a left ≡ ok (finish flags a left)
unfolding parse_loop
plain_round fuel flags a [] plain = refl
plain_round fuel flags a (s ∷ left) (no_n, no_r, no_w, no_dashes) =
    rw (no_n, no_r, no_w, no_dashes) refl

dashes_round :
    (fuel flags : ℕ) (a : Args) (left : List (List ℕ))
    → parse_loop (suc fuel) flags a (dash_dash ∷ left) ≡ ok (finish flags a left)
unfolding parse_loop str_eq
dashes_round fuel flags a left = refl

parse_loop-written :
    (fuel flags : ℕ) (a : Args) (choices : List Choice) (argv left : List (List ℕ))
    → AllSupported flags choices
    → Ends argv left
    → length (written choices ++ argv) < fuel
    → parse_loop fuel flags a (written choices ++ argv) ≡ ok (finish flags (chosen a choices) left)
parse_loop-written zero flags a choices argv left all ends enough = absurd (omega arith)
parse_loop-written (suc fuel) flags a [] argv left all (inl dashes) enough =
    rw dashes (dashes_round fuel flags a left)
parse_loop-written (suc fuel) flags a [] argv left all (inr (same, plain)) enough =
    rw same (plain_round fuel flags a left plain)
parse_loop-written (suc fuel) flags a (choose_n v ∷ choices) argv left (number, supported, all) ends
      enough =
    n-round fuel flags a v (written choices ++ argv) number supported
    ∙ parse_loop-written fuel flags (record a { n = v }) choices argv left all ends (omega arith)
parse_loop-written (suc fuel) flags a (choose_r v ∷ choices) argv left (number, supported, all) ends
      enough =
    r-round fuel flags a v (written choices ++ argv) number supported
    ∙ parse_loop-written fuel flags (record a { r = v }) choices argv left all ends (omega arith)
parse_loop-written (suc fuel) flags a (choose_w v ∷ choices) argv left (number, supported, all) ends
      enough =
    w-round fuel flags a v (written choices ++ argv) number supported
    ∙ parse_loop-written fuel flags (record a { w = v }) choices argv left all ends (omega arith)

-- Options that the program supports, each followed by a positive `long` in decimal digits, are read
-- as they were written, the last one of each kind, and the defaults for the others: the choice is
-- accepted exactly where `check_bounds` accepts it. What is left are the arguments behind the
-- options, from the first one that is none, or from behind `--`.
pub parse_opt_args-written :
    (flags : ℕ) (choices : List Choice) (argv left : List (List ℕ))
    → AllSupported flags choices
    → Ends argv left
    → parse_opt_args flags (written choices ++ argv) ≡ (
        let a = chosen default_args choices in
        ok ((if check_bounds a flags then some a else none), left))
unfolding parse_opt_args finish
parse_opt_args-written flags choices argv left all ends =
    parse_loop-written (suc (length (written choices ++ argv))) flags default_args choices argv left
      all ends (omega arith)
