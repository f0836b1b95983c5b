-- ===== src/Errors.antt =====
-- error.h and error.c: the error codes and their messages.
use distributed_hash_table.Prelude.{ℕ, List, [], ◌∷◌, some, get_elem?, ◌≡◌, refl}

pub data ErrorCode : Type 0 where
  err_none err_nomem err_io err_bad_parameter err_network err_not_found err_last : ErrorCode

-- The number of a code.
unfoldable pub number_of : ErrorCode → ℕ
number_of err_none = 0
number_of err_nomem = 1
number_of err_io = 2
number_of err_bad_parameter = 3
number_of err_network = 4
number_of err_not_found = 5
number_of err_last = 6

abbrev pub err_messages : List (List ℕ)
err_messages =
    []
    ∷ (b'N' ∷ b'o' ∷ b't' ∷ b' ' ∷ b'e' ∷ b'n' ∷ b'o' ∷ b'u' ∷ b'g' ∷ b'h' ∷ b' ' ∷ b'm' ∷ b'e'
        ∷ b'm' ∷ b'o' ∷ b'r' ∷ b'y' ∷ [])
    ∷ (b'I' ∷ b'O' ∷ b' ' ∷ b'e' ∷ b'r' ∷ b'r' ∷ b'o' ∷ b'r' ∷ [])
    ∷ (b'B' ∷ b'a' ∷ b'd' ∷ b' ' ∷ b'p' ∷ b'a' ∷ b'r' ∷ b'a' ∷ b'm' ∷ b'e' ∷ b't' ∷ b'e' ∷ b'r'
        ∷ [])
    ∷ (b'N' ∷ b'e' ∷ b't' ∷ b'w' ∷ b'o' ∷ b'r' ∷ b'k' ∷ b' ' ∷ b'i' ∷ b's' ∷ b's' ∷ b'u' ∷ b'e'
        ∷ [])
    ∷ (b'N' ∷ b'o' ∷ b't' ∷ b' ' ∷ b'f' ∷ b'o' ∷ b'u' ∷ b'n' ∷ b'd' ∷ [])
    ∷ (b'n' ∷ b'o' ∷ b' ' ∷ b'e' ∷ b'r' ∷ b'r' ∷ b'o' ∷ b'r' ∷ b' ' ∷ b'(' ∷ b's' ∷ b'h' ∷ b'a'
        ∷ b'l' ∷ b'l' ∷ b' ' ∷ b'n' ∷ b'o' ∷ b't' ∷ b' ' ∷ b'b' ∷ b'e' ∷ b' ' ∷ b'd' ∷ b'i' ∷ b's'
        ∷ b'p' ∷ b'l' ∷ b'a' ∷ b'y' ∷ b'e' ∷ b'd' ∷ b')' ∷ [])
    ∷ []

-- Each code has a message.
err_messages-number_of :
    (e : ErrorCode) → (m : List ℕ) × (get_elem? err_messages (number_of e) ≡ some m)
unfolding number_of
err_messages-number_of err_none = (_, refl)
err_messages-number_of err_nomem = (_, refl)
err_messages-number_of err_io = (_, refl)
err_messages-number_of err_bad_parameter = (_, refl)
err_messages-number_of err_network = (_, refl)
err_messages-number_of err_not_found = (_, refl)
err_messages-number_of err_last = (_, refl)
