-- ===== src/Server/Start.antt =====
-- pps-launch-server.c: the start of a server, up to the loop over the messages.
use distributed_hash_table.Prelude.{
  ℕ, ◌%◌, ◌^◌, List, [], ◌∷◌, Bool, true, false, ◌&&◌, if◌then◌else◌, ◌==◌, Option, some, Run, ok,
  no_fuel, ◌>>=◌,
}
use distributed_hash_table.Errors.{ErrorCode, err_none}
use distributed_hash_table.HashTable.{Htable, htable_size, construct_htable}
use distributed_hash_table.Node.{Address}
use distributed_hash_table.System.{bind_server}

-- What a call of `scanf` returns and leaves in `ip` and `port`.
pub record Typed : Type 0 where
  pub count_rec : ℕ
  pub ip : List ℕ
  pub port : ℕ

abbrev pub is_bound : ErrorCode → Bool
is_bound err_none = true
is_bound _ = false

-- The `while` loop, which asks until an address can be bound: what is typed then.
unfoldable pub ask_loop : (List ℕ → Option ℕ) → (Address → Bool) → List Typed → Run Typed
ask_loop inet_pton bind [] = no_fuel
ask_loop inet_pton bind (typed ∷ answers) =
    let again = ask_loop inet_pton bind answers in
    let error_bind = bind_server inet_pton bind (some typed.ip) (typed.port % 2 ^ 16) in
    if typed.count_rec == 2 && is_bound error_bind then ok typed else again

-- The table with which the server starts, and its address. The first `FAIL` of a text that is too
-- long is printed only.
unfoldable pub start_server :
    (List ℕ → Option ℕ) → (Address → Bool) → Bool → List Typed → Run (Option Htable × Typed)
unfolding ask_loop
start_server inet_pton bind room answers = do
  typed ← ask_loop inet_pton bind answers
  ok (construct_htable room htable_size, typed)
