-- ===== src/LogPackets.antt =====
-- log-packets.c: a `sendto` that takes the place of the one of sys/socket.h and writes each packet
-- to a log. What the operating system answers is an argument; SEND_DELAY only makes it wait.
pub mod Lines
use distributed_hash_table.Prelude.{
  ℕ, ◌+◌, ◌/◌, ◌%◌, List, [], ◌∷◌, ◌++◌, Bool, true, false, if◌then◌else◌, ltb, Option, none, some,
}
use distributed_hash_table.Numbers.{decimal}

-- An address as it is printed by inet_ntop, and its port.
pub record Endpoint : Type 0 where
  pub ip : List ℕ
  pub port : ℕ

-- Whether the log can be opened, locked and unlocked, the result of the real `sendto`, and the
-- address of the socket, `none` where `getsockname` fails.
pub record Calls {ℓ} (A : Type ℓ) : Type ℓ where
  pub opens : Bool
  pub locks : Bool
  pub result : A
  pub bound : Option Endpoint
  pub unlocks : Bool

-- The program stops at an `assert`, or `sendto` returns; the log, and whether the packet was sent.
pub data Logged {ℓ} (A : Type ℓ) : Type ℓ where
  aborted : Bool → List ℕ → Logged A
  returned : A → List ℕ → Logged A

-- A digit of `%X`.
unfoldable pub hex_digit : ℕ → ℕ
hex_digit n = if ltb n 10 then 48 + n else 55 + n

-- `" %02X"` for each byte.
unfoldable pub hex_bytes : List ℕ → List ℕ
unfolding hex_digit
hex_bytes [] = []
hex_bytes (b ∷ message) = 32 ∷ hex_digit (b / 16) ∷ hex_digit (b % 16) ∷ hex_bytes message

unfoldable pub log_line : Endpoint → Endpoint → List ℕ → List ℕ
unfolding hex_bytes
log_line source dest message =
    source.ip
    ++ 32
      ∷ (decimal source.port
          ++ 32 ∷ (dest.ip ++ 32 ∷ (decimal dest.port ++ (hex_bytes message ++ 10 ∷ []))))

unfoldable pub sendto {ℓ} : {A : Type ℓ} → Calls A → Endpoint → List ℕ → List ℕ → Logged A
unfolding log_line
sendto calls dest message log =
    if calls.opens
    then (if calls.locks
        then elim calls.bound [
          | none ↦ aborted true log
          | some source ↦
              let log' = log ++ log_line source dest message in
              if calls.unlocks then returned calls.result log' else aborted true log'
        ]
        else aborted false log)
    else aborted false log
