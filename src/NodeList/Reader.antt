-- ===== src/NodeList/Reader.antt =====
-- node_list.c: `get_nodes`, which reads the file of servers. `fgetc` and `fscanf` are those of
-- stdio.h: a file is the text that is left, and whether a read met its end. The array `ip` and a new
-- node are not initialised; their bytes are taken to be zero.
use distributed_hash_table.Prelude.{
  ℕ, zero, suc, ◌+◌, ◌-◌, ◌*◌, ◌%◌, ◌^◌, List, [], ◌∷◌, Bool, true, false, if◌then◌else◌, ◌==◌, leb,
  Option, none, some, Run, ok, no_fuel, ◌>>=◌, length, take, replicate, store,
}
use distributed_hash_table.Text.{c_str}
use distributed_hash_table.Numbers.{isspace, isdigit}
use distributed_hash_table.Errors.{err_none}
use distributed_hash_table.Node.{Node, node_init}
use distributed_hash_table.NodeList.{NodeList, node_list_new, node_list_add}

pub record File : Type 0 where
  pub text : List ℕ
  pub eof : Bool

-- `none` is EOF.
unfoldable pub fgetc : File → Option ℕ × File
fgetc file = elim file.text [
  | [] ↦ (none, record { text = []; eof = true })
  | ◌∷◌ c text ↦ (some c, record { text = text; eof = file.eof })
]

-- What `fscanf` skips before a number.
unfoldable pub skip_blank : Bool → List ℕ → File
skip_blank eof [] = record { text = []; eof = true }
skip_blank eof (c ∷ text) =
    if isspace c then skip_blank eof text else record { text = c ∷ text; eof = eof }

unfoldable pub scan_digits : Bool → ℕ → List ℕ → ℕ × File
scan_digits eof n [] = (n, record { text = []; eof = true })
scan_digits eof n (c ∷ text) =
    let rest = scan_digits eof (n * 10 + (c - 48)) text in
    if isdigit c then rest else (n, record { text = c ∷ text; eof = eof })

-- A number with its sign, as `strtoul` reads it: one that does not fit in 64 bits becomes the largest
-- one, whatever its sign.
unfoldable pub strtoul_value : Bool → ℕ → ℕ
strtoul_value negative n =
    if leb (2 ^ 64) n then 2 ^ 64 - 1 else if negative then (2 ^ 64 - n) % 2 ^ 64 else n

-- `none` where there is no digit.
unfoldable pub scan_number : Bool → Bool → List ℕ → Option (ℕ × File)
unfolding scan_digits strtoul_value
scan_number negative eof [] = none
scan_number negative eof (c ∷ text) =
    let number = scan_digits eof 0 (c ∷ text) in
    if isdigit c then some (strtoul_value negative number.0, number.1) else none

unfoldable pub scan_signed : Bool → List ℕ → Option (ℕ × File)
unfolding scan_number
scan_signed eof [] = none
scan_signed eof (c ∷ text) =
    if c == b'-'
    then scan_number true eof text
    else if c == b'+'
    then scan_number false eof text
    else scan_number false eof (c ∷ text)

-- `fscanf` of `%lu`: the number modulo 2^64, of which `%hu` keeps 16 bits. `none` where it does not
-- return 1.
unfoldable pub fscanf_unsigned : File → Option (ℕ × File)
unfolding skip_blank scan_signed
fscanf_unsigned file = let start = skip_blank file.eof file.text in scan_signed start.eof start.text

abbrev pub no_node : Node
no_node = record { addr = record { s_addr = 0; sin_port = 0 }; id = 0; sha = [] }

-- The `for` loop, with the nodes that are still to come. `none` where `node_init` has an error; one
-- of `node_list_add` is dropped.
unfoldable pub add_nodes :
    (List ℕ → List ℕ)
    → (List ℕ → Option ℕ)
    → Bool
    → List ℕ
    → ℕ
    → ℕ
    → Option NodeList
    → Option (Option NodeList)
add_nodes sha1 inet_pton room ip port zero nodes = some nodes
add_nodes sha1 inet_pton room ip port (suc node_id) nodes =
    let r = node_init sha1 inet_pton no_node ip port (suc node_id) in
    let rest = add_nodes sha1 inet_pton room ip port node_id (node_list_add room nodes r.1).1 in
    elim r.0 [ err_none ↦ rest | _ ↦ none ]

-- The inner `while` loop. It does not end where the text does.
unfoldable pub skip_line : Bool → List ℕ → Run File
skip_line eof [] = no_fuel
skip_line eof (c ∷ text) =
    if c == b'\n' then ok (record { text = text; eof = eof }) else skip_line eof text

-- The same, with the character that is read already.
unfoldable pub skip_to_newline : Option ℕ → File → Run File
unfolding skip_line
skip_to_newline none file = no_fuel
skip_to_newline (some c) file = if c == b'\n' then ok file else skip_line file.eof file.text

-- The variables of `get_nodes`.
pub record Reading : Type 0 where
  pub file : File
  pub current_char : Option ℕ
  pub ip : List ℕ
  pub index : ℕ
  pub nodes : Option NodeList

-- The branch of a blank: the rest of a line. `none` where `get_nodes` returns NULL.
unfoldable pub read_line :
    (List ℕ → List ℕ) → (List ℕ → Option ℕ) → Bool → Reading → Run (Option Reading)
unfolding fscanf_unsigned add_nodes skip_to_newline
read_line sha1 inet_pton room r = elim (fscanf_unsigned r.file) [
  | none ↦ ok none
  | some port ↦ elim (fscanf_unsigned port.1) [
    | none ↦ ok none
    | some count ↦
        let next = fgetc count.1 in
        let added =
          add_nodes sha1 inet_pton room (c_str (take r.index r.ip)) (port.0 % 2 ^ 16) count.0
            r.nodes in
        let finish = λ (nodes : Option NodeList). skip_to_newline next.0 next.1 >>= λ file'. ok (
          some (record {
            file = (fgetc file').1;
            current_char = (fgetc file').0;
            ip = r.ip;
            index = 0;
            nodes = nodes;
          })) in
        if count.0 == 0 then ok none else elim added [ none ↦ ok none | some nodes ↦ finish nodes ]
  ]
]

-- `(char) current_char`, as a byte.
abbrev pub char_of : Option ℕ → ℕ
char_of none = 255
char_of (some c) = c

unfoldable pub store_char : Reading → Run Reading
unfolding fgetc
store_char r = do
  ip ← store r.ip r.index (char_of r.current_char)
  ok (record r {
    file = (fgetc r.file).1;
    current_char = (fgetc r.file).0;
    ip = ip;
    index = r.index + 1;
  })

abbrev pub is_blank : Option ℕ → Bool
is_blank none = false
is_blank (some c) = isspace c

-- The body of the outer loop.
unfoldable pub read_char :
    (List ℕ → List ℕ) → (List ℕ → Option ℕ) → Bool → Reading → Run (Option Reading)
unfolding read_line store_char
read_char sha1 inet_pton room r =
    (if is_blank r.current_char then read_line sha1 inet_pton room r else ok (some r)) >>= λ o.
    elim o [ none ↦ ok none | some r' ↦ (store_char r' >>= λ r''. ok (some r'')) ]

-- The outer loop, a round for each unit of fuel.
unfoldable pub read_loop :
    (List ℕ → List ℕ) → (List ℕ → Option ℕ) → Bool → ℕ → Reading → Run (Option NodeList)
unfolding read_char
read_loop sha1 inet_pton room zero r = no_fuel
read_loop sha1 inet_pton room (suc fuel) r =
    let rest : Run (Option NodeList) =
      (read_char sha1 inet_pton room r >>= λ o. elim o [
        | none ↦ ok none
        | some r' ↦ read_loop sha1 inet_pton room fuel r'
      ]) in
    if r.file.eof then ok r.nodes else rest

-- `text` is the file, `none` where it cannot be opened. Each round reads a character, or the end.
unfoldable pub get_nodes :
    (List ℕ → List ℕ) → (List ℕ → Option ℕ) → Bool → Option (List ℕ) → Run (Option NodeList)
unfolding read_loop
get_nodes sha1 inet_pton room none = ok none
get_nodes sha1 inet_pton room (some text) =
    let opened : File = record { text = text; eof = false } in
    read_loop sha1 inet_pton room (length text + 2) (record {
      file = (fgetc opened).1;
      current_char = (fgetc opened).0;
      ip = replicate 16 0;
      index = 0;
      nodes = node_list_new room;
    })
