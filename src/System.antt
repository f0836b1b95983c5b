-- ===== src/System.antt =====
-- system.c: the sockets. What the operating system answers is an argument: the descriptor of the new
-- socket (`none` is -1), whether its timeout can be set, and whether an address can be bound.
use distributed_hash_table.Prelude.{
  ℕ, List, Bool, true, false, if◌then◌else◌, ltb, Option, none, some,
}
use distributed_hash_table.Errors.{ErrorCode, err_none, err_network}
use distributed_hash_table.Node.{Address, get_server_addr}

-- `t` is the timeout in seconds.
unfoldable pub get_socket : Option ℕ → Bool → ℕ → Option ℕ
get_socket none timeout_set t = none
get_socket (some fd) true t = some fd
get_socket (some fd) false t = if ltb 0 t then none else some fd

-- The address is not initialised before `get_server_addr`; it is taken to be zero.
unfoldable pub bind_server :
    (List ℕ → Option ℕ) → (Address → Bool) → Option (List ℕ) → ℕ → ErrorCode
bind_server inet_pton bind ip port =
    let r = get_server_addr inet_pton ip port (record { s_addr = 0; sin_port = 0 }) in
    elim r.0 [ err_none ↦ (if bind r.1 then err_none else err_network) | e ↦ e ]
