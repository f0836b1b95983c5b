-- ===== src/Tests/Logs.antt =====
-- A packet of three bytes in the log.
use distributed_hash_table.Prelude.{ℕ, List, [], ◌∷◌, true, some, arith, ◌≡◌, refl}
use distributed_hash_table.LogPackets.{Endpoint, Calls, returned, sendto}
use distributed_hash_table.LogPackets.Lines.{message_of, sendto-message_of}

abbrev near : Endpoint
near = record { ip = b'1' ∷ b'.' ∷ b'2' ∷ []; port = 80 }

abbrev far : Endpoint
far = record { ip = b'3' ∷ []; port = 1234 }

abbrev calls : Calls ℕ
calls = record { opens = true; locks = true; result = 3; bound = some near; unlocks = true }

sendto-message_of_example :
    (line : List ℕ) × (sendto calls far (7 ∷ 255 ∷ 0 ∷ []) (b'x' ∷ 10 ∷ [])
      ≡ returned 3 (b'x' ∷ 10 ∷ line))
    × (message_of line ≡ some (7 ∷ 255 ∷ 0 ∷ []))
sendto-message_of_example =
    sendto-message_of calls near far (7 ∷ 255 ∷ 0 ∷ []) (b'x' ∷ 10 ∷ []) refl refl refl refl
      (refl, (refl, (refl, tt))) (refl, tt) (omega arith, (omega arith, (omega arith, tt)))
