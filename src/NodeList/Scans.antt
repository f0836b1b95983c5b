-- ===== src/NodeList/Scans.antt =====
-- What the reads of `get_nodes` leave of a text that ends in a newline.
use distributed_hash_table.Prelude.{
  ℕ, zero, suc, ◌+◌, ◌*◌, ◌-◌, ◌<◌, ◌≤◌, List, [], ◌∷◌, Bool, true, ◌==◌, Option, none, some, ok,
  fault, length, arith, ◌≡◌, refl, ◌⊎◌, inl, inr, Bool-cases, subst, store, false,
}
use distributed_hash_table.Numbers.{isspace, isdigit}
use distributed_hash_table.NodeList.Reader.{
  File, fgetc, skip_blank, scan_digits, scan_number, scan_signed, fscanf_unsigned, skip_line,
  skip_to_newline,
}

-- The text is empty, or its last byte is a newline.
abbrev pub IsWhole : List ℕ → Type 0
IsWhole [] = Unit
IsWhole (c ∷ []) = c ≡ b'\n'
IsWhole (c ∷ d ∷ text) = IsWhole (d ∷ text)

IsWhole-tail : (c : ℕ) (text : List ℕ) → IsWhole (c ∷ text) → IsWhole text
IsWhole-tail c [] h = tt
IsWhole-tail c (d ∷ text) h = h

-- What is left is whole, too.
abbrev pub Left : List ℕ → List ℕ → Type 0
Left text rest = IsWhole rest × (length rest ≤ length text)

skip_blank-Left : (eof : Bool) (text : List ℕ) → IsWhole text → Left text (skip_blank eof text).text
unfolding skip_blank
skip_blank-Left eof [] h = (tt, omega arith)
skip_blank-Left eof (c ∷ text) h = elim (Bool-cases (isspace c)) [
  | inl e ↦
      let (whole, shorter) = skip_blank-Left eof text (IsWhole-tail c text h) in
      rw e (whole, omega arith)
  | inr e ↦ rw e (h, omega arith)
]

scan_digits-Left :
    (eof : Bool) (n c : ℕ) (text : List ℕ)
    → IsWhole (c ∷ text)
    → Left (c ∷ text) (scan_digits eof n (c ∷ text)).1.text
      × (0 < length (scan_digits eof n (c ∷ text)).1.text)
unfolding scan_digits isdigit
scan_digits-Left eof n c [] h = rw h ((refl, omega arith), omega arith)
scan_digits-Left eof n c (d ∷ text) h = elim (Bool-cases (isdigit c)) [
  | inl e ↦
      let (left, more) = scan_digits-Left eof (n * 10 + (c - 48)) d text h in
      rw e ((left.0, omega arith), more)
  | inr e ↦ rw e ((h, omega arith), omega arith)
]

abbrev pub Scanned : List ℕ → ℕ × File → Type 0
Scanned text r = Left text r.1.text × (0 < length r.1.text)

scan_number-Scanned :
    (negative eof : Bool) (text : List ℕ) (r : ℕ × File)
    → IsWhole text
    → scan_number negative eof text ≡ some r
    → Scanned text r
unfolding scan_number
scan_number-Scanned negative eof [] r h e = absurd (cc e)
scan_number-Scanned negative eof (c ∷ text) r h e = elim (Bool-cases (isdigit c)) [
  | inl d ↦
      let same : (scan_digits eof 0 (c ∷ text)).1 ≡ r.1 = ground (arith, e) in
      subst (λ (f : File). Left (c ∷ text) f.text × (0 < length f.text)) same
        (scan_digits-Left eof 0 c text h)
  | inr d ↦ absurd (ground (arith, e))
]

scan_signed-Scanned :
    (eof : Bool) (text : List ℕ) (r : ℕ × File)
    → IsWhole text
    → scan_signed eof text ≡ some r
    → Scanned text r
unfolding scan_signed
scan_signed-Scanned eof [] r h e = absurd (cc e)
scan_signed-Scanned eof (c ∷ text) r h e = elim (Bool-cases (c == b'-')) [
  | inl minus ↦
      let (left, more) =
        scan_number-Scanned true eof text r (IsWhole-tail c text h) (rw minus at e) in
      ((left.0, omega arith), more)
  | inr other ↦ elim (Bool-cases (c == b'+')) [
    | inl plus ↦
        let (left, more) =
          scan_number-Scanned false eof text r (IsWhole-tail c text h) (rw (other, plus) at e) in
        ((left.0, omega arith), more)
    | inr digit ↦ scan_number-Scanned false eof (c ∷ text) r h (rw (other, digit) at e)
  ]
]

pub fscanf_unsigned-Scanned :
    (file : File) (r : ℕ × File)
    → IsWhole file.text
    → fscanf_unsigned file ≡ some r
    → Scanned file.text r
unfolding fscanf_unsigned
fscanf_unsigned-Scanned file r h e =
    let start = skip_blank file.eof file.text in
    let (whole, shorter) = skip_blank-Left file.eof file.text h in
    let (left, more) = scan_signed-Scanned start.eof start.text r whole e in
    ((left.0, omega arith), more)

skip_line-Left :
    (eof : Bool) (c : ℕ) (text : List ℕ)
    → IsWhole (c ∷ text)
    → (file : File) × (skip_line eof (c ∷ text) ≡ ok file) × Left (c ∷ text) file.text
unfolding skip_line
skip_line-Left eof c [] h = rw h (_, refl, (tt, omega arith))
skip_line-Left eof c (d ∷ text) h = elim (Bool-cases (c == b'\n')) [
  | inl e ↦ (record { text = d ∷ text; eof = eof }, rw e refl, (h, omega arith))
  | inr e ↦
      let (file, run, left) = skip_line-Left eof d text h in (file, rw e run, (left.0, omega arith))
]

skip_to_newline-Left :
    (eof : Bool) (c : ℕ) (text : List ℕ)
    → IsWhole (c ∷ text)
    → (file : File) × (skip_to_newline (some c) (record { text = text; eof = eof }) ≡ ok file)
      × Left text file.text
unfolding skip_to_newline
skip_to_newline-Left eof c [] h = rw h (_, refl, (tt, omega arith))
skip_to_newline-Left eof c (d ∷ text) h = elim (Bool-cases (c == b'\n')) [
  | inl e ↦ (record { text = d ∷ text; eof = eof }, rw e refl, (h, omega arith))
  | inr e ↦ let (file, run, left) = skip_line-Left eof d text h in (file, rw e run, left)
]

pub option-cases : {A : Type 0} (o : Option A) → (o ≡ none) ⊎ ((a : A) × (o ≡ some a))
option-cases none = inl refl
option-cases (some a) = inr (a, refl)

pub store-cases :
    {A : Type 0} (xs : List A) (i : ℕ) (v : A)
    → (store xs i v ≡ fault) ⊎ ((ys : List A) × (store xs i v ≡ ok ys))
unfolding store
store-cases [] i v = inl refl
store-cases (x ∷ xs) zero v = inr (v ∷ xs, refl)
store-cases (x ∷ xs) (suc i) v = elim (store-cases xs i v) [
  | inl e ↦ inl (rw e refl)
  | inr (ys, e) ↦ inr (x ∷ ys, rw e refl)
]

pub fgetc-Left :
    (eof : Bool) (text : List ℕ)
    → IsWhole text
    → Left text (fgetc (record { text = text; eof = eof })).1.text
unfolding fgetc
fgetc-Left eof [] h = (tt, omega arith)
fgetc-Left eof (c ∷ text) h = (IsWhole-tail c text h, omega arith)

-- At the end of the text the end of the file is met; else there is less text behind a byte.
pub fgetc-next :
    (eof : Bool) (text : List ℕ)
    → ((fgetc (record { text = text; eof = eof })).1.eof ≡ true)
      ⊎ (length (fgetc (record { text = text; eof = eof })).1.text < length text)
unfolding fgetc
fgetc-next eof [] = inl refl
fgetc-next eof (c ∷ text) = inr (omega arith)

pub skip-Left :
    (eof : Bool) (text : List ℕ)
    → IsWhole text
    → 0 < length text
    → (next : File) × (skip_to_newline
          (fgetc (record { text = text; eof = eof })).0
          (fgetc (record { text = text; eof = eof })).1
        ≡ ok next)
      × Left text next.text
unfolding fgetc
skip-Left eof [] h more = absurd (omega arith)
skip-Left eof (c ∷ text) h more =
    let (file, run, left) = skip_to_newline-Left eof c text h in (file, run, (left.0, omega arith))
