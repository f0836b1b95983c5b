-- ===== src/Client/Listing/Addresses.antt =====
-- The texts by which pps-list-nodes tells addresses apart.
use distributed_hash_table.Prelude.{
  ltb, ◌%◌, ◌/◌, ℕ, zero, suc, ◌+◌, ◌<◌, ◌^◌, List, [], ◌∷◌, ◌++◌, Bool, false, ◌||◌, ◌&&◌, ◌==◌,
  length, arith, ◌≡◌, ◌≢◌, refl, ap, sym, ◌∙◌, inl, inr, Bool-cases,
}
use distributed_hash_table.Numbers.{isdigit, decimal_loop, pos, decimal, strtol, strtol-decimal}
use distributed_hash_table.Text.{str_eq, str_eq_iff}
use distributed_hash_table.Node.{Address, htons}
use distributed_hash_table.Client.Listing.{address_text}

-- A byte that a text does not have.
abbrev pub Without : ℕ → List ℕ → Type 0
Without c [] = Unit
Without c (b ∷ s) = (b ≢ c) × Without c s

pub append-Without : (c : ℕ) (x y : List ℕ) → Without c x → Without c y → Without c (x ++ y)
append-Without c [] y hx hy = hy
append-Without c (b ∷ x) y hx hy = (hx.0, append-Without c x y hx.1 hy)

decimal_loop-Without :
    (c fuel n : ℕ) (out : List ℕ)
    → isdigit c ≡ false
    → Without c out
    → Without c (decimal_loop fuel n out)
unfolding decimal_loop
decimal_loop-Without c zero n out other w = w
decimal_loop-Without c (suc fuel) n out other w =
    let digit : 48 + n % 10 ≢ c = unfold isdigit in ground arith in
    elim (Bool-cases (ltb n 10)) [
      | inl e ↦ rw e (digit, w)
      | inr e ↦ rw e (decimal_loop-Without c fuel (n / 10) ((48 + n % 10) ∷ out) other (digit, w))
    ]

-- Digits are written, and nothing else.
pub decimal-Without : (c n : ℕ) → isdigit c ≡ false → Without c (decimal n)
unfolding decimal
decimal-Without c n other = decimal_loop-Without c (suc n) n [] other tt

-- A text ends where the byte stands first.
pub split_at :
    (c : ℕ) (x y r s : List ℕ)
    → Without c x
    → Without c y
    → x ++ c ∷ r ≡ y ++ c ∷ s
    → (x ≡ y) × (r ≡ s)
split_at c [] [] r s hx hy e = (refl, cc e)
split_at c [] (b ∷ y) r s hx hy e = absurd (hy.0 (cc e))
split_at c (a ∷ x) [] r s hx hy e = absurd (hx.0 (cc e))
split_at c (a ∷ x) (b ∷ y) r s hx hy e =
    let (same, rest) = split_at c x y r s hx.1 hy.1 (cc e) in (cc (same, e), rest)

pub decimal-inj : (m n : ℕ) → m < 2 ^ 63 → n < 2 ^ 63 → decimal m ≡ decimal n → m ≡ n
decimal-inj m n hm hn e =
    let same : pos m ≡ pos n = sym (strtol-decimal m hm) ∙ ap strtol e ∙ strtol-decimal n hn in
    cc same

htons-inj : (p q : ℕ) → p < 2 ^ 16 → q < 2 ^ 16 → htons p ≡ htons q → p ≡ q
unfolding htons
htons-inj p q hp hq e = omega arith

-- What `inet_ntoa` is documented to write: different texts for different addresses, without spaces.
pub record IsNtoa (inet_ntoa : ℕ → List ℕ) : Type 0 where
  pub distinct : (a b : ℕ) → a < 2 ^ 32 → b < 2 ^ 32 → inet_ntoa a ≡ inet_ntoa b → a ≡ b
  pub no_space : (a : ℕ) → a < 2 ^ 32 → Without 32 (inet_ntoa a)

-- An address of 32 bits and a port of 16, whose text and its NUL fit in 20 bytes.
pub record IsShortAddress (inet_ntoa : ℕ → List ℕ) (a : Address) : Type 0 where
  pub address_bits : a.s_addr < 2 ^ 32
  pub port_bits : a.sin_port < 2 ^ 16
  pub short : length (address_text inet_ntoa a) < 20

abbrev pub AllShortAddress : (ℕ → List ℕ) → List Address → Type 0
AllShortAddress inet_ntoa [] = Unit
AllShortAddress inet_ntoa (a ∷ answers) =
    IsShortAddress inet_ntoa a × AllShortAddress inet_ntoa answers

abbrev pub same_address : Address → Address → Bool
same_address a b = a.s_addr == b.s_addr && a.sin_port == b.sin_port

-- Does some answer come from this address and port?
unfoldable pub heard : List Address → Address → Bool
heard [] b = false
heard (a ∷ answers) b = same_address a b || heard answers b

module _ {inet_ntoa : ℕ → List ℕ} (ntoa : IsNtoa inet_ntoa) where
  address_text-inj :
      (a b : Address)
      → IsShortAddress inet_ntoa a
      → IsShortAddress inet_ntoa b
      → address_text inet_ntoa a ≡ address_text inet_ntoa b
      → (a.s_addr ≡ b.s_addr) × (a.sin_port ≡ b.sin_port)
  address_text-inj a b ha hb e =
      let (hosts, ports) =
        split_at 32 (inet_ntoa a.s_addr) (inet_ntoa b.s_addr) (decimal (htons a.sin_port))
          (decimal (htons b.sin_port)) (ntoa.no_space a.s_addr ha.address_bits)
          (ntoa.no_space b.s_addr hb.address_bits) e in
      let port : htons a.sin_port ≡ htons b.sin_port =
        decimal-inj (htons a.sin_port) (htons b.sin_port) (unfold htons in omega arith)
          (unfold htons in omega arith) ports in
      (
        ntoa.distinct a.s_addr b.s_addr ha.address_bits hb.address_bits hosts,
        htons-inj a.sin_port b.sin_port ha.port_bits hb.port_bits port,
      )

  pub same-text :
      (a b : Address)
      → IsShortAddress inet_ntoa a
      → IsShortAddress inet_ntoa b
      → str_eq (address_text inet_ntoa a) (address_text inet_ntoa b) ≡ same_address a b
  same-text a b ha hb =
      elim (Bool-cases (str_eq (address_text inet_ntoa a) (address_text inet_ntoa b))) [
        | inl same ↦
            let (host, port) =
              address_text-inj a b ha hb
                ((str_eq_iff (address_text inet_ntoa a) (address_text inet_ntoa b)).0 same) in
            rw same (ground arith)
        | inr other ↦ elim (Bool-cases (same_address a b)) [
          | inl both ↦
              let host : a.s_addr ≡ b.s_addr = ground arith in
              let port : a.sin_port ≡ b.sin_port = ground arith in
              let text : address_text inet_ntoa a ≡ address_text inet_ntoa b = cc (host, port) in
              absurd (cc (other, (str_eq_iff _ _).1 text))
          | inr different ↦ rw other (sym different)
        ]
      ]
