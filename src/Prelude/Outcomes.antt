-- ===== src/Prelude/Outcomes.antt =====
-- A run of C code: it returns, or it meets undefined behaviour (a read or write out of bounds, a
-- NULL pointer that is read), or the fuel that stands for its rounds runs out.
use Prim.Native.Nat.{ℕ, zero, suc, ◌≤◌}
use native.Mathlib.Omega.{arith}
use mathlib.Core.Path.{◌≡◌, refl}
use mathlib.Core.List.{List, [], ◌∷◌, ◌++◌}
use mathlib.Core.Option.{Option, none, some}
use distributed_hash_table.Prelude.Lists.{length, take, get_elem?}

pub data Run {ℓ} (A : Type ℓ) : Type ℓ where
  ok : A → Run A
  fault : Run A
  no_fuel : Run A

infixl 5 ◌>>=◌
abbrev pub ◌>>=◌ {ℓ κ} : {A : Type ℓ} {B : Type κ} → Run A → (A → Run B) → Run B
fault >>= next = fault
no_fuel >>= next = no_fuel
ok a >>= next = next a

-- What comes first in a run that ends normally.
pub ok_before {ℓ κ} :
    {A : Type ℓ} {B : Type κ} (run : Run A) (next : A → Run B) (b : B)
    → (run >>= next) ≡ ok b
    → (a : A) × (run ≡ ok a) × (next a ≡ ok b)
ok_before (ok a) next b e = (a, refl, e)
ok_before fault next b e = absurd (cc e)
ok_before no_fuel next b e = absurd (cc e)

-- `*p` where `p` may be NULL.
abbrev pub non_null {ℓ} : {A : Type ℓ} → Option A → Run A
non_null none = fault
non_null (some a) = ok a

-- `xs[i]`.
abbrev pub at {ℓ} : {A : Type ℓ} → List A → ℕ → Run A
at xs i = non_null (get_elem? xs i)

-- The run ends normally, in a value that satisfies `P`.
abbrev pub Returns {ℓ κ} : {A : Type ℓ} → Run A → (A → Type κ) → Type (ℓ ⊔ κ)
Returns {A} run P = (result : A) × (run ≡ ok result) × P result

module _ {ℓ} {A : Type ℓ} where
  -- `xs[0]`, …, `xs[n - 1]`, read in that order.
  unfoldable pub read : ℕ → List A → Run (List A)
  read zero xs = ok []
  read (suc n) [] = fault
  read (suc n) (x ∷ xs) = read n xs >>= λ ys. ok (x ∷ ys)

  -- `xs[i] = v`
  unfoldable pub store : List A → ℕ → A → Run (List A)
  store [] i v = fault
  store (x ∷ xs) zero v = ok (v ∷ xs)
  store (x ∷ xs) (suc i) v = store xs i v >>= λ ys. ok (x ∷ ys)

  pub read-append : (xs ys : List A) → read (length xs) (xs ++ ys) ≡ ok xs
  unfolding read
  read-append [] ys = refl
  read-append (x ∷ xs) ys = rw (read-append xs ys)

  pub read-length : (xs : List A) → read (length xs) xs ≡ ok xs
  unfolding read
  read-length [] = refl
  read-length (x ∷ xs) = rw (read-length xs)

  pub store-append :
      (xs ys : List A) (y v : A) → store (xs ++ y ∷ ys) (length xs) v ≡ ok (xs ++ v ∷ ys)
  unfolding store
  store-append [] ys y v = refl
  store-append (x ∷ xs) ys y v = rw (store-append xs ys y v)

  pub read-take : (n : ℕ) (xs : List A) → n ≤ length xs → read n xs ≡ ok (take n xs)
  unfolding read
  read-take zero xs h = refl
  read-take (suc n) [] h = absurd (omega arith)
  read-take (suc n) (x ∷ xs) h = rw (read-take n xs (omega arith))

  pub read-short : (n : ℕ) (xs : List A) → suc (length xs) ≤ n → read n xs ≡ fault
  unfolding read
  read-short zero xs h = absurd (omega arith)
  read-short (suc n) [] h = refl
  read-short (suc n) (x ∷ xs) h = rw (read-short n xs (omega arith))

pub ok-inj : {A : Type 0} {a b : A} → ok a ≡ ok b → a ≡ b
ok-inj e = cc e
