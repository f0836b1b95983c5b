-- ===== src/NetworkUtils/RoundTrip.antt =====
-- What a formatted request is, and what parsing makes of it.
use distributed_hash_table.Prelude.{
  ℕ, zero, suc, ◌^◌, ◌<◌, List, [], ◌∷◌, ◌++◌, none, some, ok, read, length, length-append,
  read-append, arith, ◌≡◌, refl,
}
use distributed_hash_table.Text.{IsText, strlen-append}
use distributed_hash_table.Errors.{err_none}
use distributed_hash_table.NetworkUtils.{
  find_nul, format_put_request, read_behind, sub_size, parse_put_request,
}

-- A string formats to its bytes.
pub format_put_request-append :
    (key value m n : List ℕ)
    → IsText key
    → IsText value
    → format_put_request (key ++ 0 ∷ m) (value ++ 0 ∷ n) none none ≡ ok (key ++ 0 ∷ value)
unfolding format_put_request
format_put_request-append key value m n hk hv =
    rw (strlen-append key m hk, strlen-append value n hv, read-append, read-append)

pub find_nul-append :
    (key m : List ℕ) (n : ℕ)
    → IsText key
    → length key < n
    → find_nul n (key ++ 0 ∷ m) ≡ ok (some (0 ∷ m))
unfolding find_nul
find_nul-append key m zero h lt = absurd (omega arith)
find_nul-append [] m (suc n) h lt = refl
find_nul-append (b ∷ key) m (suc n) h lt = ground (arith, find_nul-append key m n)

read_behind-append :
    (value : List ℕ) (stray : ℕ) (m : List ℕ)
    → read_behind (suc (length value)) (some (0 ∷ (value ++ stray ∷ m))) ≡ ok (value ++ stray ∷ [])
unfolding read_behind read
read_behind-append [] stray m = refl
read_behind-append (b ∷ value) stray m = rw (read_behind-append value stray m)

-- A request of a key and a value, with one byte behind it in the buffer: the value that is parsed
-- has that byte at its end.
pub parse_put_request-append :
    (key value : List ℕ) (stray : ℕ) (m : List ℕ)
    → IsText key
    → length (key ++ 0 ∷ value) < 2 ^ 64
    → parse_put_request (key ++ 0 ∷ (value ++ stray ∷ m)) (length (key ++ 0 ∷ value))
      ≡ ok (err_none, key ++ 0 ∷ [], (value ++ stray ∷ []) ++ 0 ∷ [])
unfolding parse_put_request
parse_put_request-append key value stray m hk small =
    let size : sub_size (length (key ++ 0 ∷ value)) (length key) ≡ suc (length value) =
      omega (arith, length-append key (0 ∷ value)) in
    rw (
      find_nul-append key (value ++ stray ∷ m) (length (key ++ 0 ∷ value)) hk
          (omega (arith, length-append key (0 ∷ value))),
      strlen-append key (value ++ stray ∷ m) hk,
      read-append,
      size,
      read_behind-append,
    )
