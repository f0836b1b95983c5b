-- ===== src/Text.antt =====
-- C strings and memory: a string is the list of its bytes before the NUL, and memory is a list of
-- bytes in which a string ends at the first NUL. `strcmp` and `strlen` are those of string.h.
use Prim.Native.Nat.{compare, Ordering}
use distributed_hash_table.Prelude.{
  ℕ, zero, suc, ◌<◌, List, [], ◌∷◌, ◌++◌, Bool, true, false, ◌≡◌, refl, ◌↔◌, arith, ◌==◌,
  if◌then◌else◌, Run, ok, fault, ◌>>=◌, length, take,
}

-- The sign of `strcmp(a, b)`.
unfoldable pub strcmp : List ℕ → List ℕ → Ordering
strcmp [] [] = Ordering.eq
strcmp [] (b ∷ t) = Ordering.lt
strcmp (a ∷ s) [] = Ordering.gt
strcmp (a ∷ s) (b ∷ t) = elim (compare a b) [
  | Ordering.lt ↦ Ordering.lt
  | Ordering.gt ↦ Ordering.gt
  | Ordering.eq ↦ strcmp s t
]

-- `strcmp(a, b) == 0`
unfoldable pub str_eq : List ℕ → List ℕ → Bool
unfolding strcmp
str_eq a b = elim (strcmp a b) [ Ordering.eq ↦ true | _ ↦ false ]

pub str_eq_refl : (a : List ℕ) → str_eq a a ≡ true
unfolding str_eq
str_eq_refl [] = refl
str_eq_refl (a ∷ s) = ground (arith, str_eq_refl s)

pub eq_of_str_eq : (a b : List ℕ) → str_eq a b ≡ true → a ≡ b
unfolding str_eq
eq_of_str_eq [] [] h = refl
eq_of_str_eq [] (b ∷ t) h = ground arith
eq_of_str_eq (a ∷ s) [] h = ground arith
eq_of_str_eq (a ∷ s) (b ∷ t) h = ground (arith, eq_of_str_eq s t)

pub str_eq_iff : (a b : List ℕ) → (str_eq a b ≡ true) ↔ (a ≡ b)
str_eq_iff a b = (eq_of_str_eq a b, λ e. rw e (str_eq_refl b))

pub str_eq_comm : (a b : List ℕ) → str_eq a b ≡ str_eq b a
str_eq_comm a b = ground (arith, str_eq_iff a b, str_eq_iff b a)

-- No byte is NUL.
abbrev pub IsText : List ℕ → Type 0
IsText [] = Unit
IsText (b ∷ s) = (0 < b) × IsText s

-- The string that starts at the memory's first byte.
unfoldable pub c_str : List ℕ → List ℕ
c_str [] = []
c_str (b ∷ m) = if b == 0 then [] else b ∷ c_str m

unfoldable pub strlen : List ℕ → Run ℕ
strlen [] = fault
strlen (b ∷ m) = if b == 0 then ok 0 else (strlen m >>= λ n. ok (suc n))

pub c_str-append : (s m : List ℕ) → IsText s → c_str (s ++ 0 ∷ m) ≡ s
unfolding c_str
c_str-append [] m h = refl
c_str-append (b ∷ s) m h = ground (arith, c_str-append s m)

pub strlen-append : (s m : List ℕ) → IsText s → strlen (s ++ 0 ∷ m) ≡ ok (length s)
unfolding strlen
strlen-append [] m h = refl
strlen-append (b ∷ s) m h = ground (arith, strlen-append s m)

-- A string is read from any prefix of the memory that reaches its NUL.
pub c_str-take : (s m : List ℕ) (n : ℕ) → IsText s → length s < n → c_str (take n (s ++ 0 ∷ m)) ≡ s
unfolding c_str
c_str-take s m zero h lt = absurd (omega arith)
c_str-take [] m (suc n) h lt = refl
c_str-take (b ∷ s) m (suc n) h lt = ground (arith, c_str-take s m n)
