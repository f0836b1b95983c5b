-- ===== src/Client/Substrings.antt =====
-- pps-client-substr.c: the numbers of its arguments and the substring, in the arithmetic of `int`,
-- which has 32 bits: a number of this type is its residue. `strtod_end` is the text that `strtod` of
-- stdlib.h leaves.
use distributed_hash_table.Prelude.{
  ℕ, zero, suc, ◌+◌, ◌-◌, ◌%◌, ◌^◌, List, [], ◌∷◌, ◌++◌, Bool, true, false, ◌&&◌, ◌||◌, not,
  if◌then◌else◌, ◌==◌, ltb, leb, Option, none, some, Run, ok, fault, ◌>>=◌, length, drop, replicate,
  read, store,
}
use distributed_hash_table.Text.{c_str, strlen}
use distributed_hash_table.Numbers.{ℤ, pos, negsuc, strtol, isspace, isdigit, read_digits, long_max}
use distributed_hash_table.Errors.{ErrorCode, err_none, err_bad_parameter}
use distributed_hash_table.Server.Dump.{overwrite}

unfoldable pub is_valid_number : (List ℕ → List ℕ) → List ℕ → Bool
unfolding isspace
is_valid_number strtod_end [] = false
is_valid_number strtod_end (c ∷ s) =
    if isspace c then false else elim (strtod_end (c ∷ s)) [ [] ↦ true | ◌∷◌ _ _ ↦ false ]

-- `strtol` leaves no text: there is a digit behind the sign, and nothing else behind the digits.
unfoldable pub all_digits : List ℕ → Bool
unfolding isdigit
all_digits [] = true
all_digits (c ∷ s) = isdigit c && all_digits s

unfoldable pub is_read_whole : List ℕ → Bool
unfolding all_digits
is_read_whole [] = false
is_read_whole (c ∷ s) =
    if c == b'-' || c == b'+' then not (length s == 0) && all_digits s else all_digits (c ∷ s)

-- `strtol` sets `errno`: the number does not fit in a `long`.
unfoldable pub out_of_range : List ℕ → Bool
out_of_range [] = false
out_of_range (c ∷ s) =
    if c == b'-'
    then ltb (2 ^ 63) (read_digits 0 s)
    else if c == b'+'
    then ltb long_max (read_digits 0 s)
    else ltb long_max (read_digits 0 (c ∷ s))

-- A `long` as an `int`.
unfoldable pub int_of : ℤ → ℕ
int_of (pos n) = n % 2 ^ 32
int_of (negsuc n) = 2 ^ 32 - 1 - n % 2 ^ 32

-- The error code, and `*dest` where it was written.
unfoldable pub string_to_int : (List ℕ → List ℕ) → List ℕ → ErrorCode × Option ℕ
unfolding is_valid_number is_read_whole out_of_range int_of
string_to_int strtod_end string =
    if is_valid_number strtod_end string
    then (
      if out_of_range string || not (is_read_whole string) then err_bad_parameter else err_none,
      some (int_of (strtol string)),
    )
    else (err_bad_parameter, none)

abbrev pub is_negative : ℕ → Bool
is_negative x = leb (2 ^ 31) x

-- The sum of two numbers of type `int`: undefined behaviour where it does not fit.
unfoldable pub add_int : ℕ → ℕ → Run ℕ
add_int a b =
    let sum = (a + b) % 2 ^ 32 in
    if is_negative a
    then (if is_negative b then (if is_negative sum then ok sum else fault) else ok sum)
    else (if is_negative b then ok sum else (if is_negative sum then fault else ok sum))

-- `a > b`
abbrev pub exceeds : ℕ → ℕ → Bool
exceeds a b = ltb ((b + 2 ^ 31) % 2 ^ 32) ((a + 2 ^ 31) % 2 ^ 32)

-- A negative position counts from the value's end.
unfoldable pub from_end : ℕ → ℕ → ℕ
from_end size position = if is_negative position then (size + position) % 2 ^ 32 else position

-- An array of so many bytes on the stack, which is not initialised.
abbrev pub array : (ℕ → ℕ) → ℕ → List ℕ
array stack zero = []
array stack (suc n) = stack n ∷ array stack n

-- The array, with as many bytes as the value, and the string in it. Where no byte is asked for, the
-- bytes before the first NUL of the array become NUL: `strlen` reads the array as it was found. A
-- negative length or position, and a length that is not smaller than the value's, reach outside of
-- an array.
unfoldable pub copied : (ℕ → ℕ) → List ℕ → ℕ → ℕ → Run (List ℕ)
copied stack value position zero = do
  let substring = array stack (length value)
  size ← strlen substring
  substring' ← overwrite (replicate size 0) substring
  ok (c_str substring')
copied stack value position (suc length') =
    if is_negative (suc length') || is_negative position then fault else (do
      bytes ← read (suc length') (drop position (value ++ 0 ∷ []))
      substring ← overwrite bytes (array stack (length value))
      substring' ← store substring (suc length') 0
      ok (c_str substring'))

-- `none`: the program says FAIL.
unfoldable pub substring_of : (ℕ → ℕ) → List ℕ → ℕ → ℕ → Run (Option (List ℕ))
unfolding from_end copied add_int
substring_of stack value position length' = do
  let position' = from_end (length value) position
  end ← add_int length' position'
  if exceeds end (length value)
      then ok none
      else (copied stack value position' length' >>= λ s. ok (some s))
