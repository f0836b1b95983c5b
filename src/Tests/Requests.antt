-- ===== src/Tests/Requests.antt =====
-- The bytes of requests, and the server's answers, on small tables.
use distributed_hash_table.Prelude.{
  ℕ, List, [], ◌∷◌, ◌++◌, true, false, if◌then◌else◌, some, ok, length, arith, read, ◌≡◌, refl,
  Returns,
}
use distributed_hash_table.Text.{strlen, c_str, str_eq}
use distributed_hash_table.Errors.{err_none}
use distributed_hash_table.HashTable.{
  Htable, htable_size, hash_function, add_value_to_bucket, add_htable_value, get_htable_value,
}
use distributed_hash_table.HashTable.Tables.{IsValid, table_of, blank, written, construct_htable-eq}
use distributed_hash_table.HashTable.Chains.{repr, assign}
use distributed_hash_table.Server.Rounds.{IsReached, start, step, round, IsReached-IsValid}
use distributed_hash_table.NetworkUtils.{find_nul, parse_put_request}
use distributed_hash_table.NetworkUtils.RoundTrip.{parse_put_request-append}
use distributed_hash_table.Server.{handle_message, handle_put}
use distributed_hash_table.Server.Session.{with_stray, handle_message-put}
use distributed_hash_table.Tests.Data.{city, zip, bern, basel, one_pair, one_pair_valid}

parse_put_request-append_example :
    parse_put_request (zip ++ 0 ∷ (basel ++ 7 ∷ [])) (length (zip ++ 0 ∷ basel))
    ≡ ok (err_none, zip ++ 0 ∷ [], (basel ++ 7 ∷ []) ++ 0 ∷ [])
parse_put_request-append_example =
    parse_put_request-append zip basel 7 [] (omega arith) (omega arith)

-- The memory that was allocated for the buffer holds the byte 7 behind the message.
handle_message-put_example :
    Returns (handle_message 9 true one_pair (city ++ 0 ∷ basel) (7 ∷ 0 ∷ []) []) λ r.
      (r.1 ≡ [] ∷ [])
      × IsValid r.0
      × ((q : List ℕ)
          → get_htable_value r.0 (some q) ≡ (
              if str_eq city q
              then ok (some (with_stray basel 7))
              else get_htable_value one_pair (some q)))
handle_message-put_example =
    handle_message-put one_pair_valid 9 city basel (omega arith) (omega arith) 7 (0 ∷ []) []
      (omega arith) (omega arith)

abbrev new_table : Htable
new_table = table_of (blank htable_size)

abbrev after_put : Htable
after_put = table_of (written (blank htable_size) city bern)

new_table_put :
    handle_message 0 false new_table (city ++ 0 ∷ bern) (0 ∷ []) [] ≡ ok (after_put, [] ∷ [])
unfolding handle_message handle_put find_nul parse_put_request strlen read add_htable_value
    hash_function c_str add_value_to_bucket repr assign
new_table_put = refl

after_put-IsReached : IsReached after_put
after_put-IsReached =
    step (start (construct_htable-eq htable_size (omega arith)))
      (round 0 false (city ++ 0 ∷ bern) (0 ∷ []) [] ([] ∷ []) new_table_put)

IsReached-IsValid_example : IsValid after_put
IsReached-IsValid_example = IsReached-IsValid after_put-IsReached
