-- ===== src/Client/Scenario.antt =====
-- scenario_1.c: a client that puts the numbers below a bound, each as its own value, and then gets
-- them. The clock, whose times are printed, is taken to be readable.
use distributed_hash_table.Prelude.{
  ℕ, zero, suc, ◌+◌, List, [], ◌∷◌, ◌++◌, Option, none, some, Run, ok, ◌>>=◌, at,
}
use distributed_hash_table.Numbers.{ℤ, pos, negsuc, strtol, decimal}
use distributed_hash_table.Errors.{err_none}
use distributed_hash_table.Args.{total_servers, get_needed, put_needed}
use distributed_hash_table.Network.{Client, Sent, network_get, network_put}
use distributed_hash_table.Client.Commands.{World, started}

-- The numbers that a loop reports as failed, and what it sends.
abbrev pub Failures : Type 0
Failures = List ℕ × Sent

-- The loop of the puts, with the rounds that are left, from `i` on.
unfoldable pub put_keys : World → Client → ℕ → ℕ → Run Failures
put_keys world client zero i = ok ([], [])
put_keys world client (suc left) i = do
  put ←
      network_put world.sha1 world.room client (some (decimal i)) (some (decimal i))
        (world.replies i)
  rest ← put_keys world client left (i + 1)
  ok (elim put.0 [ err_none ↦ rest.0 | _ ↦ i ∷ rest.0 ], put.1 ++ rest.1)

-- The loop of the gets, behind `puts` requests. The value that a get finds is not looked at.
unfoldable pub get_keys : World → Client → ℕ → ℕ → ℕ → Run Failures
get_keys world client puts zero i = ok ([], [])
get_keys world client puts (suc left) i = do
  get ← network_get world.sha1 world.room client (decimal i) (world.replies (puts + i))
  rest ← get_keys world client puts left (i + 1)
  ok (elim get.0.0 [ err_none ↦ rest.0 | _ ↦ i ∷ rest.0 ], get.1 ++ rest.1)

-- `i < nbr_keys`, from 0 on.
abbrev pub rounds : ℤ → ℕ
rounds (pos n) = n
rounds (negsuc n) = 0

-- The failures of the puts and of the gets; `none` where the program says FAIL.
unfoldable pub scenario_1 : World → List (List ℕ) → Run (Option (Failures × Failures))
unfolding started put_keys get_keys
scenario_1 world argv = started world 1 (total_servers + get_needed + put_needed) argv >>= λ s.
    elim s [
      | none ↦ ok none
      | some p ↦ do
        text ← at p.1 0
        let nbr_keys = rounds (strtol text)
        puts ← put_keys world p.0 nbr_keys 0
        gets ← get_keys world p.0 nbr_keys nbr_keys 0
        ok (some (puts, gets))
    ]
