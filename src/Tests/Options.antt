-- ===== src/Tests/Options.antt =====
-- Options as a user may write them.
use distributed_hash_table.Prelude.{ℕ, List, [], ◌∷◌, ◌++◌, inl, some, ok, arith, ◌≡◌, refl}
use distributed_hash_table.Text.{str_eq}
use distributed_hash_table.Numbers.{strtol}
use distributed_hash_table.Args.{Args, parse_opt_args, check_bounds}
use distributed_hash_table.Args.Bounds.{asked, check_bounds-eq-asked}
use distributed_hash_table.Args.{dash_dash}
use distributed_hash_table.Args.RoundTrip.{choose_n, choose_w, written, parse_opt_args-written}
use distributed_hash_table.Args.Options.{IsAccepted, parse_opt_args-IsAccepted}
use distributed_hash_table.Tests.Data.{city}

-- `-n 5 -w 4 city`
abbrev arguments : List (List ℕ)
arguments = (b'-' ∷ b'n' ∷ []) ∷ (b'5' ∷ []) ∷ (b'-' ∷ b'w' ∷ []) ∷ (b'4' ∷ []) ∷ city ∷ []

abbrev chosen : Args
chosen = record { n = 5; r = 2; w = 4 }

arguments_accepted : parse_opt_args 5 arguments ≡ ok (some chosen, city ∷ [])
unfolding parse_opt_args str_eq strtol check_bounds
arguments_accepted = refl

parse_opt_args-IsAccepted_example : IsAccepted 5 chosen
parse_opt_args-IsAccepted_example =
    parse_opt_args-IsAccepted 5 (omega arith) arguments chosen (city ∷ []) arguments_accepted

-- `-n 5 -w 4 -n 7 -- city`
parse_opt_args-written_example :
    parse_opt_args 5 (written (choose_n 5 ∷ choose_w 4 ∷ choose_n 7 ∷ []) ++ dash_dash ∷ city ∷ [])
    ≡ ok (some (record { n = 7; r = 2; w = 4 }), city ∷ [])
unfolding check_bounds
parse_opt_args-written_example =
    parse_opt_args-written 5 (choose_n 5 ∷ choose_w 4 ∷ choose_n 7 ∷ []) (dash_dash ∷ city ∷ [])
      (city ∷ [])
      (
        (omega arith, omega arith),
        refl,
        ((omega arith, omega arith), refl, ((omega arith, omega arith), refl, tt)),
      )
      (inl refl)

-- A choice where R is larger than N passes.
check_bounds-eq-asked_example :
    check_bounds (record { n = 2; r = 3; w = 2 }) 7 ≡ asked (record { n = 2; r = 3; w = 2 }) 7
check_bounds-eq-asked_example =
    check_bounds-eq-asked (record { n = 2; r = 3; w = 2 }) 7 (omega arith)
