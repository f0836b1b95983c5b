-- ===== src/LogPackets/Lines.antt =====
-- The lines of the log can be read back.
use distributed_hash_table.Prelude.{
  ℕ, zero, suc, ◌+◌, ◌*◌, ◌-◌, ◌/◌, ◌%◌, ◌<◌, List, [], ◌∷◌, ◌++◌, Bool, true, false, ◌==◌, ◌||◌,
  if◌then◌else◌, ltb, Option, none, some, drop, arith, ◌≡◌, refl, inl, inr, Bool-cases,
}
use mathlib.Core.Option
use distributed_hash_table.Numbers.{decimal_loop, decimal}
use distributed_hash_table.LogPackets.{
  Endpoint, Calls, returned, hex_digit, hex_bytes, log_line, sendto,
}

-- Where a word of a line ends.
abbrev is_end : ℕ → Bool
is_end b = b == 32 || b == 10

unfoldable pub behind_word : List ℕ → List ℕ
behind_word [] = []
behind_word (b ∷ line) = let rest = behind_word line in if is_end b then b ∷ line else rest

unfoldable pub digit_value : ℕ → ℕ
digit_value d = if ltb d 58 then d - 48 else d - 55

-- The bytes that a list of pairs of digits stands for, up to the newline.
unfoldable pub bytes_of_hex : List ℕ → Option (List ℕ)
unfolding digit_value
bytes_of_hex [] = none
bytes_of_hex (s ∷ []) = if s == 10 then some [] else none
bytes_of_hex (s ∷ a ∷ []) = none
bytes_of_hex (s ∷ a ∷ b ∷ line) =
    Option.map (λ m. (digit_value a * 16 + digit_value b) ∷ m) (bytes_of_hex line)

-- The fifth word of a line and those behind it.
unfoldable pub message_of : List ℕ → Option (List ℕ)
unfolding behind_word bytes_of_hex
message_of line =
    let port = behind_word line in
    let ip = behind_word (drop 1 port) in
    let dest_port = behind_word (drop 1 ip) in bytes_of_hex (behind_word (drop 1 dest_port))

abbrev pub IsWord : List ℕ → Type 0
IsWord [] = Unit
IsWord (b ∷ word) = (is_end b ≡ false) × IsWord word

abbrev pub AreBytes : List ℕ → Type 0
AreBytes [] = Unit
AreBytes (b ∷ message) = (b < 256) × AreBytes message

behind_word-append :
    (word line : List ℕ) (b : ℕ)
    → IsWord word
    → is_end b ≡ true
    → behind_word (word ++ b ∷ line) ≡ b ∷ line
unfolding behind_word
behind_word-append [] line b w e = rw e refl
behind_word-append (c ∷ word) line b w e = rw (w.0, behind_word-append word line b w.1 e) refl

digit-IsWord : (n : ℕ) → n < 10 → is_end (48 + n) ≡ false
digit-IsWord n h = ground arith

decimal_loop-IsWord : (fuel n : ℕ) (out : List ℕ) → IsWord out → IsWord (decimal_loop fuel n out)
unfolding decimal_loop
decimal_loop-IsWord zero n out w = w
decimal_loop-IsWord (suc fuel) n out w =
    let digit : is_end (48 + n % 10) ≡ false = digit-IsWord (n % 10) (omega arith) in
    elim (Bool-cases (ltb n 10)) [
      | inl e ↦ rw e (digit, w)
      | inr e ↦ rw e (decimal_loop-IsWord fuel (n / 10) ((48 + n % 10) ∷ out) (digit, w))
    ]

decimal-IsWord : (n : ℕ) → IsWord (decimal n)
unfolding decimal
decimal-IsWord n = decimal_loop-IsWord (suc n) n [] tt

digit_value-hex_digit : (n : ℕ) → n < 16 → digit_value (hex_digit n) ≡ n
unfolding digit_value hex_digit
digit_value-hex_digit n h = ground arith

bytes_of_hex-hex_bytes :
    (message : List ℕ)
    → AreBytes message
    → bytes_of_hex (hex_bytes message ++ 10 ∷ []) ≡ some message
unfolding bytes_of_hex hex_bytes
bytes_of_hex-hex_bytes [] bytes = refl
bytes_of_hex-hex_bytes (b ∷ message) bytes =
    let high = digit_value-hex_digit (b / 16) (omega (arith, bytes.0)) in
    let low = digit_value-hex_digit (b % 16) (omega arith) in
    let same : b / 16 * 16 + b % 16 ≡ b = omega arith in
    rw (high, low, bytes_of_hex-hex_bytes message bytes.1, same) refl

-- The digits of the last port end where the bytes begin.
behind_word-hex_bytes :
    (word message : List ℕ)
    → IsWord word
    → behind_word (word ++ (hex_bytes message ++ 10 ∷ [])) ≡ hex_bytes message ++ 10 ∷ []
unfolding hex_bytes
behind_word-hex_bytes word [] w = behind_word-append word [] 10 w refl
behind_word-hex_bytes word (b ∷ message) w =
    behind_word-append word
      (hex_digit (b / 16) ∷ hex_digit (b % 16) ∷ (hex_bytes message ++ 10 ∷ [])) 32 w refl

message_of-log_line :
    (source dest : Endpoint) (message : List ℕ)
    → IsWord source.ip
    → IsWord dest.ip
    → AreBytes message
    → message_of (log_line source dest message) ≡ some message
unfolding message_of log_line
message_of-log_line source dest message hs hd bytes =
    let last = decimal dest.port ++ (hex_bytes message ++ 10 ∷ []) in
    let third = dest.ip ++ 32 ∷ last in
    let second = decimal source.port ++ 32 ∷ third in
    rw
      (
        behind_word-append source.ip second 32 hs refl,
        behind_word-append (decimal source.port) third 32 (decimal-IsWord source.port) refl,
        behind_word-append dest.ip last 32 hd refl,
        behind_word-hex_bytes (decimal dest.port) message (decimal-IsWord dest.port),
      )
      (bytes_of_hex-hex_bytes message bytes)

-- When the log can be opened, locked and unlocked, and the socket's address is known, `sendto`
-- returns what the real one returns, and the log has one line more, from which the message, of
-- bytes, can be read back, when no printed address has a space or a newline.
pub sendto-message_of :
    {A : Type 0} (calls : Calls A) (source dest : Endpoint) (message log : List ℕ)
    → calls.opens ≡ true
    → calls.locks ≡ true
    → calls.bound ≡ some source
    → calls.unlocks ≡ true
    → IsWord source.ip
    → IsWord dest.ip
    → AreBytes message
    → (line : List ℕ) × (sendto calls dest message log ≡ returned calls.result (log ++ line))
      × (message_of line ≡ some message)
unfolding sendto
sendto-message_of calls source dest message log opens locks bound unlocks hs hd bytes = (
  log_line source dest message,
  rw (opens, locks, bound, unlocks) refl,
  message_of-log_line source dest message hs hd bytes,
)
