-- ===== src/Numbers.antt =====
-- Numbers in text, as stdlib.h reads them (`strtol` to base 10, on a 64-bit `long`) and printf
-- writes them (`%d`, `%lu`).
use distributed_hash_table.Prelude.{
  ℕ, zero, suc, ◌+◌, ◌-◌, ◌*◌, ◌/◌, ◌%◌, ◌^◌, ◌<◌, List, [], ◌∷◌, Bool, true, false, ◌&&◌, ◌||◌,
  if◌then◌else◌, ◌==◌, ltb, leb, min, arith, length, ◌≡◌, refl, Bool-cases, inl, inr, ap, ◌∙◌, ◌≤◌,
}

-- `negsuc n` is -(n + 1).
pub data ℤ : Type 0 where
  pos : ℕ → ℤ
  negsuc : ℕ → ℤ

unfoldable pub isspace : ℕ → Bool
isspace c = c == 32 || (leb 9 c && leb c 13)

unfoldable pub isdigit : ℕ → Bool
isdigit c = leb 48 c && leb c 57

unfoldable pub skip_space : List ℕ → List ℕ
unfolding isspace
skip_space [] = []
skip_space (c ∷ s) = if isspace c then skip_space s else c ∷ s

-- The digits that a text begins with, behind a number that is already read.
unfoldable pub read_digits : ℕ → List ℕ → ℕ
unfolding isdigit
read_digits n [] = n
read_digits n (c ∷ s) =
    let rest = read_digits (n * 10 + (c - 48)) s in if isdigit c then rest else n

abbrev pub long_max : ℕ
long_max = 2 ^ 63 - 1

unfoldable pub negative : ℕ → ℤ
negative zero = pos 0
negative (suc n) = negsuc (min n long_max)

unfoldable pub strtol_sign : List ℕ → ℤ
unfolding read_digits negative
strtol_sign [] = pos 0
strtol_sign (c ∷ s) =
    if c == b'-'
    then negative (read_digits 0 s)
    else if c == b'+'
    then pos (min (read_digits 0 s) long_max)
    else pos (min (read_digits 0 (c ∷ s)) long_max)

unfoldable pub strtol : List ℕ → ℤ
unfolding skip_space strtol_sign
strtol s = strtol_sign (skip_space s)

unfoldable pub decimal_loop : ℕ → ℕ → List ℕ → List ℕ
decimal_loop zero n out = out
decimal_loop (suc fuel) n out =
    let out' = (48 + n % 10) ∷ out in
    let rest = decimal_loop fuel (n / 10) out' in if ltb n 10 then out' else rest

-- The digits of a number.
unfoldable pub decimal : ℕ → List ℕ
unfolding decimal_loop
decimal n = decimal_loop (suc n) n []

isdigit-digit : (d : ℕ) → d < 10 → isdigit (48 + d) ≡ true
unfolding isdigit
isdigit-digit d h = ground arith

read_digits-digit :
    (m n : ℕ) (s : List ℕ) → read_digits m ((48 + n % 10) ∷ s) ≡ read_digits (m * 10 + n % 10) s
unfolding read_digits
read_digits-digit m n s =
    let digit : isdigit (48 + n % 10) ≡ true = isdigit-digit (n % 10) (omega arith) in
    let value : 48 + n % 10 - 48 ≡ n % 10 = omega arith in rw (digit, value)

pub read_digits-decimal_loop :
    (fuel n : ℕ) (out : List ℕ)
    → n < fuel
    → read_digits 0 (decimal_loop fuel n out) ≡ read_digits n out
unfolding decimal_loop
read_digits-decimal_loop zero n out h = absurd (omega arith)
read_digits-decimal_loop (suc fuel) n out h = elim (Bool-cases (ltb n 10)) [
  | inl e ↦
      let same : 0 * 10 + n % 10 ≡ n = ground arith in
      rw e (read_digits-digit 0 n out ∙ ap (λ m. read_digits m out) same)
  | inr e ↦
      let same : n / 10 * 10 + n % 10 ≡ n = omega arith in
      rw e (
        read_digits-decimal_loop fuel (n / 10) ((48 + n % 10) ∷ out) (ground arith)
        ∙ read_digits-digit (n / 10) n out
        ∙ ap (λ m. read_digits m out) same)
]

-- What is written of a number begins with a digit.
pub decimal_loop-digit :
    (fuel n : ℕ) (out : List ℕ)
    → n < fuel
    → (d : ℕ) × (s : List ℕ) × (decimal_loop fuel n out ≡ d ∷ s) × (isdigit d ≡ true)
unfolding decimal_loop
decimal_loop-digit zero n out h = absurd (omega arith)
decimal_loop-digit (suc fuel) n out h = elim (Bool-cases (ltb n 10)) [
  | inl e ↦ (48 + n % 10, out, rw e, isdigit-digit (n % 10) (omega arith))
  | inr e ↦ rw e (decimal_loop-digit fuel (n / 10) ((48 + n % 10) ∷ out) (ground arith))
]

strtol-digit :
    (d : ℕ) (s : List ℕ)
    → isdigit d ≡ true
    → strtol (d ∷ s) ≡ pos (min (read_digits 0 (d ∷ s)) long_max)
strtol-digit d s h =
    let range : (48 ≤ d) × (d ≤ 57) = unfold isdigit in ground arith in
    let visible : isspace d ≡ false = unfold isspace in ground arith in
    let minus : d == b'-' ≡ false = ground arith in
    let plus : d == b'+' ≡ false = ground arith in unfold strtol in rw (visible, minus, plus)

-- A number that fits in a `long` is read back as it was written.
pub strtol-decimal : (n : ℕ) → n < 2 ^ 63 → strtol (decimal n) ≡ pos n
unfolding decimal
strtol-decimal n h =
    let (d, s, e, digit) = decimal_loop-digit (suc n) n [] (omega arith) in
    let value : read_digits 0 (d ∷ s) ≡ n =
      rw (← e) (read_digits-decimal_loop (suc n) n [] (omega arith) ∙ unfold read_digits in refl) in
    rw (e, strtol-digit d s digit, value) (ap pos (omega arith))

length-decimal_loop :
    (fuel k n : ℕ) (out : List ℕ)
    → n < 10 ^ suc k
    → length (decimal_loop fuel n out) ≤ suc k + length out
unfolding decimal_loop
length-decimal_loop zero k n out h = omega arith
length-decimal_loop (suc fuel) zero n out h =
    let one : ltb n 10 ≡ true = ground arith in rw one (omega arith)
length-decimal_loop (suc fuel) (suc k) n out h =
    let rest = length-decimal_loop fuel k (n / 10) ((48 + n % 10) ∷ out) (omega arith) in
    elim (Bool-cases (ltb n 10)) [
      | inl one ↦ rw one (omega arith)
      | inr more ↦ rw more (omega (arith, rest))
    ]

-- A number of at most five digits.
pub length-decimal : (n : ℕ) → n < 100000 → length (decimal n) ≤ 5
unfolding decimal
length-decimal n h = length-decimal_loop (suc n) 4 n [] h
