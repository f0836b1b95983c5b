-- ===== src/Client/Slices.antt =====
-- What `substring_of` returns, position by position.
use distributed_hash_table.Prelude.{
  Bool, length-replicate, ℕ, zero, suc, ◌+◌, ◌-◌, ◌^◌, ◌<◌, ◌≤◌, List, [], ◌∷◌, ◌++◌, true, false,
  ◌||◌, if◌then◌else◌, ◌==◌, ltb, leb, Option, none, some, Run, ok, fault, ◌>>=◌, length, drop,
  take, replicate, read, read-append, store, store-append, arith, ◌≡◌, refl, ◌⊎◌, inl, inr,
  Bool-cases,
}
use distributed_hash_table.Text.{c_str, strlen, c_str-append, IsText}
use distributed_hash_table.Server.Dump.{overwrite}
use distributed_hash_table.Client.Substrings.{
  array, is_negative, add_int, exceeds, from_end, copied, substring_of,
}

read-inside :
    (value m : List ℕ) (start n : ℕ)
    → start + n ≤ length value
    → read n (drop start (value ++ m)) ≡ ok (take n (drop start value))
unfolding read
read-inside value m zero zero h = refl
read-inside [] m zero (suc n) h = absurd (omega arith)
read-inside (b ∷ value) m zero (suc n) h = rw (read-inside value m zero n (omega arith))
read-inside [] m (suc start) n h = absurd (omega arith)
read-inside (b ∷ value) m (suc start) n h = read-inside value m start n (omega arith)

slice-IsText : (value : List ℕ) (start n : ℕ) → IsText value → IsText (take n (drop start value))
slice-IsText value zero zero h = tt
slice-IsText [] zero (suc n) h = tt
slice-IsText (b ∷ value) zero (suc n) h = (h.0, slice-IsText value zero n h.1)
slice-IsText [] (suc start) zero h = tt
slice-IsText [] (suc start) (suc n) h = tt
slice-IsText (b ∷ value) (suc start) n h = slice-IsText value start n h.1

length-slice :
    (value : List ℕ) (start n : ℕ)
    → start + n ≤ length value
    → length (take n (drop start value)) ≡ n
length-slice value zero zero h = refl
length-slice [] zero (suc n) h = absurd (omega arith)
length-slice (b ∷ value) zero (suc n) h = omega (arith, length-slice value zero n (omega arith))
length-slice [] (suc start) n h = absurd (omega arith)
length-slice (b ∷ value) (suc start) n h = length-slice value start n (omega arith)

overwrite-inside :
    (bytes m : List ℕ)
    → length bytes < length m
    → (b : ℕ) × (rest : List ℕ) × (overwrite bytes m ≡ ok (bytes ++ b ∷ rest))
unfolding overwrite
overwrite-inside bytes [] h = absurd (omega arith)
overwrite-inside [] (b ∷ m) h = (b, m, refl)
overwrite-inside (c ∷ bytes) (b ∷ m) h =
    let (b', rest, run) = overwrite-inside bytes m (omega arith) in (b', rest, rw run)

store-at :
    (slice rest : List ℕ) (b n : ℕ)
    → length slice ≡ n
    → store (slice ++ b ∷ rest) n 0 ≡ ok (slice ++ 0 ∷ rest)
store-at slice rest b n h = rw (← h) (store-append slice rest b 0)

overwrite-all : (bytes m : List ℕ) → length m ≡ length bytes → overwrite bytes m ≡ ok bytes
unfolding overwrite
overwrite-all [] [] h = refl
overwrite-all [] (b ∷ m) h = absurd (omega arith)
overwrite-all (c ∷ bytes) [] h = absurd (omega arith)
overwrite-all (c ∷ bytes) (b ∷ m) h = rw (overwrite-all bytes m (omega arith))

length-array : (stack : ℕ → ℕ) (n : ℕ) → length (array stack n) ≡ n
length-array stack zero = refl
length-array stack (suc n) = omega (arith, length-array stack n)

-- Is there a NUL among the first bytes of the stack?
unfoldable pub has_nul : (ℕ → ℕ) → ℕ → Bool
has_nul stack zero = false
has_nul stack (suc n) = stack n == 0 || has_nul stack n

strlen-array :
    (stack : ℕ → ℕ) (n : ℕ)
    → has_nul stack n ≡ true
    → (size : ℕ) × (strlen (array stack n) ≡ ok size) × (size < n)
unfolding has_nul strlen
strlen-array stack zero h = absurd (cc h)
strlen-array stack (suc n) h = elim (Bool-cases (stack n == 0)) [
  | inl nul ↦ (0, rw nul refl, omega arith)
  | inr other ↦
      let (size, run, inside) = strlen-array stack n (ground arith) in
      (suc size, rw (other, run), omega arith)
]

strlen-outside : (stack : ℕ → ℕ) (n : ℕ) → has_nul stack n ≡ false → strlen (array stack n) ≡ fault
unfolding has_nul strlen
strlen-outside stack zero h = refl
strlen-outside stack (suc n) h =
    let other : stack n == 0 ≡ false = ground arith in
    let rest = strlen-outside stack n (ground arith) in rw (other, rest)

-- What `strlen` counts becomes NUL, so the string is empty.
cleared :
    (stack : ℕ → ℕ) (n : ℕ)
    → has_nul stack n ≡ true
    → (strlen (array stack n) >>= λ size.
        overwrite (replicate size 0) (array stack n) >>= λ m. ok (c_str m))
      ≡ ok []
unfolding has_nul strlen overwrite c_str
cleared stack zero h = absurd (cc h)
cleared stack (suc n) h = elim (Bool-cases (stack n == 0)) [
  | inl nul ↦ rw (nul, nul) refl
  | inr other ↦
      let (size, run, inside) = strlen-array stack n (ground arith) in
      let (b, rest, run') =
        overwrite-inside (replicate size 0) (array stack n)
          (omega (arith, length-array stack n, length-replicate {A = ℕ} size 0)) in
      rw (other, run, run') refl
]

copied-nothing :
    (stack : ℕ → ℕ) (value : List ℕ) (start : ℕ)
    → copied stack value start 0 ≡ (if has_nul stack (length value) then ok [] else fault)
unfolding copied
copied-nothing stack value start = elim (Bool-cases (has_nul stack (length value))) [
  | inl found ↦ rw found (cleared stack (length value) found)
  | inr absent ↦ rw (absent, strlen-outside stack (length value) absent) refl
]

store-length : (bytes : List ℕ) (b : ℕ) → store bytes (length bytes) b ≡ fault
unfolding store
store-length [] b = refl
store-length (x ∷ bytes) b = rw (store-length bytes b)

copied-all :
    (stack : ℕ → ℕ) (value : List ℕ) (n : ℕ)
    → suc n ≡ length value
    → length value < 2 ^ 31
    → copied stack value 0 (suc n) ≡ fault
unfolding copied
copied-all stack value n all small =
    let fits : is_negative (suc n) ≡ false = ground arith in
    let bytes : read (suc n) (value ++ 0 ∷ []) ≡ ok value = rw all (read-append value (0 ∷ [])) in
    let outside : store value (suc n) 0 ≡ fault = rw all (store-length value 0) in
    let written =
      overwrite-all value (array stack (length value)) (length-array stack (length value)) in
    rw (fits, bytes, written, outside)

copied-inside :
    (stack : ℕ → ℕ) (value : List ℕ) (start n : ℕ)
    → IsText value
    → length value < 2 ^ 31
    → start + suc n ≤ length value
    → suc n < length value
    → copied stack value start (suc n) ≡ ok (take (suc n) (drop start value))
unfolding copied
copied-inside stack value start n text small inside shorter =
    let slice = take (suc n) (drop start value) in
    let size : length slice ≡ suc n = length-slice value start (suc n) inside in
    let (b, rest, run) =
      overwrite-inside slice (array stack (length value))
        (omega (arith, length-array stack (length value))) in
    let fits : (is_negative (suc n) || is_negative start) ≡ false = ground arith in
    rw (fits, read-inside value (0 ∷ []) start (suc n) inside, run)
      (rw (
        store-at slice rest b (suc n) size,
        c_str-append slice rest (slice-IsText value start (suc n) text),
      ))

-- The numbers of type `int` that stand for a place of the value: its distance from the first byte,
-- or a negative number, counted from the end.
abbrev pub IsPosition : ℕ → ℕ → ℕ → Type 0
IsPosition size position start =
    (position ≡ start) ⊎ ((start < size) × (position ≡ 2 ^ 32 - (size - start)))

from_end-IsPosition :
    (size position start : ℕ)
    → size < 2 ^ 31
    → start < 2 ^ 31
    → IsPosition size position start
    → from_end size position ≡ start
unfolding from_end
from_end-IsPosition size position start small near (inl same) = ground arith
from_end-IsPosition size position start small near (inr (inside, back)) = ground arith

add_int-small : (a b : ℕ) → a + b < 2 ^ 31 → add_int a b ≡ ok (a + b)
unfolding add_int
add_int-small a b h = ground arith

-- What the program makes of a value, the place where the substring starts, and its length.
unfoldable pub slice_of : (ℕ → ℕ) → List ℕ → ℕ → ℕ → Run (Option (List ℕ))
slice_of stack value start n =
    if ltb (length value) (start + n)
    then ok none
    else if n == 0
    then (if has_nul stack (length value) then ok (some []) else fault)
    else if leb (length value) n
    then fault
    else ok (some (take n (drop start value)))

copied-slice_of :
    (stack : ℕ → ℕ) (value : List ℕ) (start n : ℕ)
    → IsText value
    → length value < 2 ^ 31
    → start + n ≤ length value
    → (copied stack value start n >>= λ s. ok (some s)) ≡ slice_of stack value start n
unfolding slice_of
copied-slice_of stack value start zero text small inside =
    rw (copied-nothing stack value start) (ground arith)
copied-slice_of stack value start (suc n) text small inside =
    elim (Bool-cases (leb (length value) (suc n))) [
      | inl whole ↦
          let first : 0 ≡ start = ground arith in
          rw (← first) (rw (copied-all stack value n (ground arith) small) (ground arith))
      | inr shorter ↦
          rw (copied-inside stack value start n text small inside (ground arith)) (ground arith)
    ]

-- For a value that is a string of less than 2^31 bytes, a place, counted from its first byte or,
-- within it, from its end by a negative number, and a length, where place and length add up to less
-- than 2^31: the program fails where the substring reaches beyond the value, and gives just the
-- bytes from that place on where it is shorter than the value and not empty. A substring that is the
-- whole of a value that is not empty makes it write behind its array. An empty substring is given
-- when the array on the stack, which is not initialised and has as many bytes as the value, happens
-- to have a NUL; otherwise, and for an empty value, the program reads behind that array.
pub substring_of-slice_of :
    (stack : ℕ → ℕ) (value : List ℕ) (position start n : ℕ)
    → IsText value
    → length value < 2 ^ 31
    → start + n < 2 ^ 31
    → IsPosition (length value) position start
    → substring_of stack value position n ≡ slice_of stack value start n
unfolding substring_of slice_of
substring_of-slice_of stack value position start n text small near place =
    let from : from_end (length value) position ≡ start =
      from_end-IsPosition (length value) position start small (omega arith) place in
    let end : add_int n start ≡ ok (n + start) = add_int-small n start (omega arith) in
    elim (Bool-cases (ltb (length value) (start + n))) [
      | inl beyond ↦
          let over : exceeds (n + start) (length value) ≡ true = ground arith in
          rw (from, end, over, beyond)
      | inr inside ↦
          let under : exceeds (n + start) (length value) ≡ false = ground arith in
          rw (from, end, under) (copied-slice_of stack value start n text small (ground arith))
    ]
