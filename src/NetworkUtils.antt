-- ===== src/NetworkUtils.antt =====
-- network-utils.c: the bytes of a put request.
pub mod RoundTrip
use distributed_hash_table.Prelude.{
  ℕ, zero, suc, ◌+◌, ◌-◌, ◌%◌, ◌^◌, List, [], ◌∷◌, ◌++◌, Option, none, some, Run, ok, fault, ◌>>=◌,
  if◌then◌else◌, ◌==◌, drop, read, non_null, Bool, true, false,
}
use distributed_hash_table.Text.{strlen}
use distributed_hash_table.Errors.{ErrorCode, err_none, err_bad_parameter, err_network}

-- `memchr(m, '\0', n)` of string.h: the memory from the NUL on, `none` for NULL.
unfoldable pub find_nul : ℕ → List ℕ → Run (Option (List ℕ))
find_nul zero m = ok none
find_nul (suc n) [] = fault
find_nul (suc n) (b ∷ m) = if b == 0 then ok (some (b ∷ m)) else find_nul n m

-- `skey` and `svalue`: `none` is -1, the length of the string.
unfoldable pub size_or_strlen : Option ℕ → List ℕ → Run ℕ
size_or_strlen none m = strlen m
size_or_strlen (some n) m = ok n

-- The two loops copy the key's bytes and the value's; a NUL stands between them.
unfoldable pub format_put_request : List ℕ → List ℕ → Option ℕ → Option ℕ → Run (List ℕ)
unfolding size_or_strlen
format_put_request key value skey svalue = do
  size_key ← size_or_strlen skey key
  size_value ← size_or_strlen svalue value
  key_bytes ← read size_key key
  value_bytes ← read size_value value
  ok (key_bytes ++ 0 ∷ value_bytes)

-- `a - b` in `size_t`.
abbrev pub sub_size : ℕ → ℕ → ℕ
sub_size a b = (a + 2 ^ 64 - b) % 2 ^ 64

-- The second loop: `value[i] = ret[i + 1]`.
unfoldable pub read_behind : ℕ → Option (List ℕ) → Run (List ℕ)
read_behind zero ret = ok []
read_behind (suc n) ret = do m ← non_null ret; read (suc n) (drop 1 m)

-- The memory that `key` and `value` hold afterwards. `in_msg` is the memory from the message on.
unfoldable pub parse_put_request : List ℕ → ℕ → Run (ErrorCode × List ℕ × List ℕ)
unfolding read_behind
parse_put_request in_msg length = do
  ret ← find_nul length in_msg
  size_key ← strlen in_msg
  key ← read size_key in_msg
  value ← read_behind (sub_size length size_key) ret
  ok (err_none, key ++ 0 ∷ [], value ++ 0 ∷ [])

-- `sent` is what `sendto` returns: false for -1. The message is `none` where it is NULL.
unfoldable pub send_packet : Bool → Option (List ℕ) → ErrorCode
send_packet sent none = err_bad_parameter
send_packet false (some message) = err_network
send_packet true (some message) = err_none
