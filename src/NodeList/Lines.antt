-- ===== src/NodeList/Lines.antt =====
-- What `get_nodes` reads from a file of lines: address, port and number of nodes.
use distributed_hash_table.Prelude.{
  ℕ, zero, suc, ◌+◌, ◌-◌, ◌*◌, ◌/◌, ◌%◌, ◌^◌, ◌<◌, List, [], ◌∷◌, ◌++◌, true, false, ◌==◌, ltb,
  Option, some, length, arith, ◌≡◌, refl, Bool-cases, inl, inr, ap, sym, ◌∙◌, subst, ◌≤◌,
}
use mathlib.Core.List.{append_assoc, append-nil}
use distributed_hash_table.Numbers.{
  isspace, isdigit, decimal, decimal_loop, read_digits, read_digits-decimal_loop,
  decimal_loop-digit,
}
use distributed_hash_table.Errors.{err_none}
use distributed_hash_table.Node.{Node, htons, node_name, node_init, get_server_addr}
use distributed_hash_table.NodeList.{NodeList, copy_node, node_list_add}
use distributed_hash_table.NodeList.Reader.{
  File, skip_blank, scan_digits, strtoul_value, scan_signed, fscanf_unsigned, no_node, add_nodes,
}

abbrev IsDigits : List ℕ → Type 0
IsDigits [] = Unit
IsDigits (d ∷ s) = (isdigit d ≡ true) × IsDigits s

digit-of : (n : ℕ) → isdigit (48 + n % 10) ≡ true
unfolding isdigit
digit-of n = ground arith

decimal_loop-IsDigits :
    (fuel n : ℕ) (out : List ℕ) → IsDigits out → IsDigits (decimal_loop fuel n out)
unfolding decimal_loop
decimal_loop-IsDigits zero n out h = h
decimal_loop-IsDigits (suc fuel) n out h =
    let rest = decimal_loop-IsDigits fuel (n / 10) ((48 + n % 10) ∷ out) (digit-of n, h) in
    elim (Bool-cases (ltb n 10)) [ inl one ↦ rw one (digit-of n, h) | inr more ↦ rw more rest ]

-- The file behind some text.
abbrev pub rest_of : List ℕ → File
rest_of text = record { text = text; eof = false }

scan_digits-append :
    (n : ℕ) (s : List ℕ) (c : ℕ) (text : List ℕ)
    → IsDigits s
    → isdigit c ≡ false
    → scan_digits false n (s ++ c ∷ text) ≡ (read_digits n s, rest_of (c ∷ text))
unfolding scan_digits read_digits
scan_digits-append n [] c text h e = rw e refl
scan_digits-append n (d ∷ s) c text h e =
    rw (h.0, scan_digits-append (n * 10 + (d - 48)) s c text h.1 e) refl

digit-visible :
    (d : ℕ) → isdigit d ≡ true → (isspace d ≡ false) × (d == b'-' ≡ false) × (d == b'+' ≡ false)
unfolding isdigit isspace
digit-visible d h = (ground arith, ground arith, ground arith)

fscanf-digits :
    (d n c : ℕ) (s text : List ℕ)
    → IsDigits (d ∷ s)
    → read_digits 0 (d ∷ s) ≡ n
    → n < 2 ^ 64
    → isdigit c ≡ false
    → fscanf_unsigned (rest_of ((d ∷ s) ++ c ∷ text)) ≡ some (n, rest_of (c ∷ text))
unfolding fscanf_unsigned
fscanf-digits d n c s text all value small e =
    let (visible, minus, plus) = digit-visible d all.0 in
    let scanned : scan_digits false 0 (d ∷ (s ++ c ∷ text)) ≡ (n, rest_of (c ∷ text)) =
      scan_digits-append 0 (d ∷ s) c text all e ∙ ap (λ m. (m, rest_of (c ∷ text))) value in
    let fits : strtoul_value false n ≡ n = unfold strtoul_value in ground arith in
    let digit : isdigit d ≡ true = all.0 in
    let start : skip_blank false (d ∷ (s ++ c ∷ text)) ≡ rest_of (d ∷ (s ++ c ∷ text)) =
      unfold skip_blank in rw visible refl in
    let signed : scan_signed false (d ∷ (s ++ c ∷ text)) ≡ some (n, rest_of (c ∷ text)) =
      unfold scan_signed in rw (minus, plus, scanned, digit, fits) refl in
    ap (λ (f : File). scan_signed f.eof f.text) start ∙ signed

-- A number is read up to the character that ends it.
pub fscanf-decimal :
    (n c : ℕ) (text : List ℕ)
    → n < 2 ^ 64
    → isdigit c ≡ false
    → fscanf_unsigned (rest_of (decimal n ++ c ∷ text)) ≡ some (n, rest_of (c ∷ text))
unfolding decimal
fscanf-decimal n c text small e =
    let (d, s, digits, _) = decimal_loop-digit (suc n) n [] (omega arith) in
    let value : read_digits 0 (decimal_loop (suc n) n []) ≡ n =
      read_digits-decimal_loop (suc n) n [] (omega arith) ∙ unfold read_digits in refl in
    ap (λ t. fscanf_unsigned (rest_of (t ++ c ∷ text))) digits
    ∙ fscanf-digits d n c s text (subst IsDigits digits (decimal_loop-IsDigits (suc n) n [] tt))
        (ap (read_digits 0) (sym digits) ∙ value) small e

pub fscanf-space :
    (text : List ℕ) → fscanf_unsigned (rest_of (32 ∷ text)) ≡ fscanf_unsigned (rest_of text)
unfolding fscanf_unsigned isspace
fscanf-space text = refl

-- The nodes of a line, the one with the largest number first.
pub nodes_of : (List ℕ → List ℕ) → ℕ → List ℕ → ℕ → ℕ → List Node
nodes_of sha1 s_addr ip port zero = []
nodes_of sha1 s_addr ip port (suc n) =
    copy_node (record {
      addr = record { s_addr = s_addr; sin_port = htons port };
      id = suc n;
      sha = sha1 (node_name ip port (suc n));
    })
    ∷ nodes_of sha1 s_addr ip port n

-- A list that has these nodes behind those of another.
abbrev pub Extends : NodeList → List Node → Option NodeList → Type 0
Extends l more o = (l' : NodeList) × (o ≡ some l') × (l'.nodes ≡ l.nodes ++ more)

node_list_add-Extends :
    (l : NodeList) (n : Node) → Extends l (copy_node n ∷ []) (node_list_add true (some l) n).1
unfolding node_list_add
node_list_add-Extends l n = elim (Bool-cases (ltb l.allocated_size (length l.nodes + 1))) [
  | inl more ↦ rw more (_, refl, refl)
  | inr enough ↦ rw enough (_, refl, refl)
]

get_server_addr-known :
    (inet_pton : List ℕ → Option ℕ) (ip : List ℕ) (port s_addr : ℕ)
    → inet_pton ip ≡ some s_addr
    → get_server_addr inet_pton (some ip) port no_node.addr
      ≡ (err_none, record { s_addr = s_addr; sin_port = htons port })
unfolding get_server_addr
get_server_addr-known inet_pton ip port s_addr known = rw (get_server_addr, known) refl

node_init-known :
    (inet_pton : List ℕ → Option ℕ) (sha1 : List ℕ → List ℕ) (ip : List ℕ) (port s_addr n : ℕ)
    → inet_pton ip ≡ some s_addr
    → node_init sha1 inet_pton no_node ip port n ≡ (
      err_none,
      record {
        addr = record { s_addr = s_addr; sin_port = htons port };
        id = n;
        sha = sha1 (node_name ip port n);
      },
    )
unfolding node_init
node_init-known inet_pton sha1 ip port s_addr n known =
    rw (node_init, get_server_addr-known inet_pton ip port s_addr known) refl

module _ (sha1 : List ℕ → List ℕ) (inet_pton : List ℕ → Option ℕ) where
  pub add_nodes-Extends :
      (ip : List ℕ) (port s_addr count : ℕ) (l : NodeList)
      → inet_pton ip ≡ some s_addr
      → (o : Option NodeList) × (add_nodes sha1 inet_pton true ip port count (some l) ≡ some o)
        × Extends l (nodes_of sha1 s_addr ip port count) o
  unfolding add_nodes nodes_of
  add_nodes-Extends ip port s_addr zero l known =
      (some l, refl, (l, refl, sym (append-nil l.nodes)))
  add_nodes-Extends ip port s_addr (suc n) l known =
      let node : Node = record {
        addr = record { s_addr = s_addr; sin_port = htons port };
        id = suc n;
        sha = sha1 (node_name ip port (suc n));
      } in
      let init = node_init-known inet_pton sha1 ip port s_addr (suc n) known in
      let (l', added, bytes) = node_list_add-Extends l node in
      let (o, run, (l'', some_l, all)) = add_nodes-Extends ip port s_addr n l' known in
      (
        o,
        rw (add_nodes, init, init, added) run,
        (
          l'',
          some_l,
          all
              ∙ ap (λ x. x ++ nodes_of sha1 s_addr ip port n) bytes
              ∙ append_assoc l.nodes (copy_node node ∷ []) (nodes_of sha1 s_addr ip port n),
        ),
      )

-- A line of the file, with the address that its text stands for.
pub record Line : Type 0 where
  pub ip : List ℕ
  pub s_addr : ℕ
  pub port : ℕ
  pub count : ℕ

unfoldable pub file_of : List Line → List ℕ
file_of [] = []
file_of (l ∷ lines) =
    l.ip ++ 32 ∷ (decimal l.port ++ 32 ∷ (decimal l.count ++ b'\n' ∷ file_of lines))

unfoldable pub all_nodes : (List ℕ → List ℕ) → List Line → List Node
all_nodes sha1 [] = []
all_nodes sha1 (l ∷ lines) = nodes_of sha1 l.s_addr l.ip l.port l.count ++ all_nodes sha1 lines

abbrev pub IsVisible : List ℕ → Type 0
IsVisible [] = Unit
IsVisible (b ∷ s) = (0 < b) × (isspace b ≡ false) × IsVisible s

-- What a line is: an address of 1 to 16 bytes that are not blanks, which `inet_pton` reads, a port
-- of 16 bits, and a positive number of nodes of 64 bits.
pub record IsLine (inet_pton : List ℕ → Option ℕ) (l : Line) : Type 0 where
  pub visible : IsVisible l.ip
  pub some_bytes : 0 < length l.ip
  pub fits : length l.ip ≤ 16
  pub known : inet_pton l.ip ≡ some l.s_addr
  pub port_small : l.port < 2 ^ 16
  pub count_pos : 0 < l.count
  pub count_small : l.count < 2 ^ 64

abbrev pub AllLines : (List ℕ → Option ℕ) → List Line → Type 0
AllLines inet_pton [] = Unit
AllLines inet_pton (l ∷ lines) = IsLine inet_pton l × AllLines inet_pton lines
