-- ===== src/Node.antt =====
-- node.h, node.c, and `get_server_addr` of system.c. `sha1` is SHA1 of openssl and `inet_pton`
-- reads an IPv4 address (none where it does not return 1); both are arguments.
-- A digest stands for the string at its address, its bytes up to the first NUL: the byte behind
-- the twenty is taken to be NUL, and so is the one behind the array `space`. The array `id_str` has
-- room for one digit; a number of a node with more digits is taken to do no harm.
use Prim.Native.Nat.{Ordering}
use distributed_hash_table.Prelude.{
  ℕ, ◌+◌, ◌*◌, ◌/◌, ◌%◌, List, ◌∷◌, ◌++◌, Bool, ◌&&◌, if◌then◌else◌, ◌==◌, ltb, Option, none, some,
}
use distributed_hash_table.Text.{strcmp, c_str}
use distributed_hash_table.Numbers.{decimal}
use distributed_hash_table.Errors.{ErrorCode, err_none, err_network, err_bad_parameter}

-- `struct sockaddr_in`, as far as it is used.
pub record Address : Type 0 where
  pub s_addr : ℕ
  pub sin_port : ℕ

-- `node_t`
pub record Node : Type 0 where
  pub addr : Address
  pub id : ℕ
  pub sha : List ℕ

-- `htons`: the two bytes change places.
unfoldable pub htons : ℕ → ℕ
htons port = port % 256 * 256 + port / 256 % 256

-- `p_server_addr` is changed only without an error.
unfoldable pub get_server_addr :
    (List ℕ → Option ℕ) → Option (List ℕ) → ℕ → Address → ErrorCode × Address
unfolding htons
get_server_addr inet_pton none port old = (err_bad_parameter, old)
get_server_addr inet_pton (some ip) port old = elim (inet_pton ip) [
  | none ↦ (err_network, old)
  | some s_addr ↦ (err_none, record { s_addr = s_addr; sin_port = htons port })
]

-- The text that is hashed: address, port and number of the node.
unfoldable pub node_name : List ℕ → ℕ → ℕ → List ℕ
node_name ip port node_id = ip ++ (32 ∷ (decimal port ++ (32 ∷ decimal node_id)))

-- The node is written whether or not the address is read.
unfoldable pub node_init :
    (List ℕ → List ℕ) → (List ℕ → Option ℕ) → Node → List ℕ → ℕ → ℕ → ErrorCode × Node
unfolding node_name get_server_addr
node_init sha1 inet_pton node ip port node_id =
    let r = get_server_addr inet_pton (some ip) port node.addr in
    (r.0, record { addr = r.1; id = node_id; sha = sha1 (node_name ip port node_id) })

unfoldable pub node_cmp_sha : Node → Node → Ordering
node_cmp_sha first second = strcmp (c_str first.sha) (c_str second.sha)

unfoldable pub node_cmp_server_addr : Node → Node → ℕ
node_cmp_server_addr n1 n2 =
    if n1.addr.s_addr == n2.addr.s_addr
    then (if ltb n2.addr.sin_port n1.addr.sin_port then 1 else 0)
    else (if ltb n2.addr.s_addr n1.addr.s_addr then 1 else 0)

-- The test of `node_list_contains` on one node.
unfoldable pub same_server : Node → Node → Bool
same_server n1 n2 = n1.addr.s_addr == n2.addr.s_addr && n1.addr.sin_port == n2.addr.sin_port
