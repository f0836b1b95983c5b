-- ===== src/NodeList/Rounds.antt =====
-- The rounds of `get_nodes` on one line of the file.
use distributed_hash_table.Prelude.{
  ℕ, suc, ◌+◌, ◌%◌, ◌^◌, ◌<◌, ◌≤◌, List, [], ◌∷◌, ◌++◌, true, false, ◌==◌, Option, some, Run, ok,
  fault, no_fuel, ◌>>=◌, length, take, store, store-append, length-append, arith, ◌≡◌, refl,
  Returns, ap, sym, ◌∙◌,
}
use mathlib.Core.List.{append_assoc, append-nil}
use distributed_hash_table.Text.{c_str}
use distributed_hash_table.Numbers.{isspace, isdigit, decimal}
use distributed_hash_table.NodeList.{NodeList}
use distributed_hash_table.NodeList.Lines.{
  rest_of, fscanf-decimal, fscanf-space, nodes_of, Extends, add_nodes-Extends, Line, IsVisible,
  IsLine,
}
use distributed_hash_table.NodeList.Reader.{
  File, fgetc, fscanf_unsigned, add_nodes, skip_to_newline, Reading, is_blank, read_line,
  store_char, read_char, read_loop,
}

c_str-visible : (s : List ℕ) → IsVisible s → c_str s ≡ s
unfolding c_str
c_str-visible [] h = refl
c_str-visible (b ∷ s) h = ground (arith, c_str-visible s h.2)

take-length-append : (s t : List ℕ) → take (length s) (s ++ t) ≡ s
take-length-append [] t = refl
take-length-append (b ∷ s) t = ap (λ r. b ∷ r) (take-length-append s t)

-- The variables before the text is read on.
abbrev pub at_text : List ℕ → List ℕ → ℕ → Option NodeList → Reading
at_text text ip index nodes = record {
  file = (fgetc (rest_of text)).1;
  current_char = (fgetc (rest_of text)).0;
  ip = ip;
  index = index;
  nodes = nodes;
}

pub store_char-visible :
    (c : ℕ) (text read slots : List ℕ) (s : ℕ) (nodes : Option NodeList)
    → store_char (at_text (c ∷ text) (read ++ s ∷ slots) (length read) nodes)
      ≡ ok (at_text text (read ++ c ∷ slots) (length read + 1) nodes)
unfolding store_char
store_char-visible c text read slots s nodes = rw (store-append read slots s c) refl

-- As many more rounds as there are bytes.
abbrev pub more : List ℕ → ℕ → ℕ
more [] fuel = fuel
more (b ∷ s) fuel = suc (more s fuel)

pub more-eq : (s : List ℕ) (fuel : ℕ) → more s fuel ≡ length s + fuel
more-eq [] fuel = omega arith
more-eq (b ∷ s) fuel = omega (arith, more-eq s fuel)

pub bind-Returns {ℓ κ μ} :
    {A : Type ℓ} {B : Type κ} (x : Run A) (f : A → Run B) (P : B → Type μ)
    → Returns (x >>= f) P
    → (a : A) × (x ≡ ok a) × Returns (f a) P
bind-Returns (ok a) f P r = (a, refl, r)
bind-Returns fault f P (b, run, p) = absurd (cc run)
bind-Returns no_fuel f P (b, run, p) = absurd (cc run)

pub first_visible :
    (ip text : List ℕ)
    → IsVisible ip
    → 0 < length ip
    → (is_blank (fgetc (rest_of (ip ++ text))).0 ≡ false)
      × ((fgetc (rest_of (ip ++ text))).1.eof ≡ false)
unfolding fgetc
first_visible [] text h pos = absurd (omega arith)
first_visible (c ∷ ip) text h pos = (h.1, refl)

module _ (sha1 : List ℕ → List ℕ) (inet_pton : List ℕ → Option ℕ) where
  one_byte :
      (fuel c : ℕ) (text read slots : List ℕ) (s : ℕ) (nodes : Option NodeList)
      → isspace c ≡ false
      → read_loop sha1 inet_pton true
          (suc fuel)
          (at_text (c ∷ text) (read ++ s ∷ slots) (length read) nodes)
        ≡ read_loop sha1 inet_pton true fuel
            (at_text text ((read ++ c ∷ []) ++ slots) (length (read ++ c ∷ [])) nodes)
  unfolding read_loop
  one_byte fuel c text read slots s nodes visible =
      let stored = store_char-visible c text read slots s nodes in
      let bytes : read ++ c ∷ slots ≡ (read ++ c ∷ []) ++ slots =
        sym (append_assoc read (c ∷ []) slots) in
      let index : length read + 1 ≡ length (read ++ c ∷ []) =
        omega (arith, length-append read (c ∷ [])) in
      rw (visible, stored, bytes, index) refl

  pub ip_bytes :
      (s : List ℕ) (fuel : ℕ) (text read slots : List ℕ) (nodes : Option NodeList)
      → IsVisible s
      → length s ≤ length slots
      → (slots' : List ℕ) × (length slots ≡ length s + length slots')
        × (read_loop sha1 inet_pton true
              (more s fuel)
              (at_text (s ++ text) (read ++ slots) (length read) nodes)
            ≡ read_loop sha1 inet_pton true fuel
                (at_text text ((read ++ s) ++ slots') (length (read ++ s)) nodes))
  ip_bytes [] fuel text read slots nodes h fits = (slots, omega arith, rw append-nil refl)
  ip_bytes (b ∷ s) fuel text read [] nodes h fits = absurd (omega arith)
  ip_bytes (b ∷ s) fuel text read (x ∷ slots) nodes h fits =
      let (slots', size, run) =
        ip_bytes s fuel text (read ++ b ∷ []) slots nodes h.2 (omega arith) in
      (
        slots',
        omega arith,
        one_byte (more s fuel) b (s ++ text) read slots x nodes h.1
            ∙ run
            ∙ ap
                (λ r.
                  read_loop sha1 inet_pton true fuel (at_text text (r ++ slots') (length r) nodes))
                (append_assoc read (b ∷ []) s),
      )

  pub read_line-steps :
      (r : Reading) (port count : ℕ × File) (o : Option NodeList) (file : File)
      → fscanf_unsigned r.file ≡ some port
      → fscanf_unsigned port.1 ≡ some count
      → count.0 == 0 ≡ false
      → add_nodes sha1 inet_pton true (c_str (take r.index r.ip)) (port.0 % 2 ^ 16) count.0 r.nodes
        ≡ some o
      → skip_to_newline (fgetc count.1).0 (fgetc count.1).1 ≡ ok file
      → read_line sha1 inet_pton true r
        ≡ ok (
            some (record {
              file = (fgetc file).1;
              current_char = (fgetc file).0;
              ip = r.ip;
              index = 0;
              nodes = o;
            }))
  unfolding read_line
  read_line-steps r port count o file p c some_nodes added skipped =
      rw (read_line, p, c, some_nodes, added, skipped) refl

  pub read_line-eq :
      (l : Line) (rest slots : List ℕ) (list : NodeList)
      → IsLine inet_pton l
      → (o : Option NodeList) × Extends list (nodes_of sha1 l.s_addr l.ip l.port l.count) o
        × (read_line sha1 inet_pton true (
              at_text
                (32 ∷ (decimal l.port ++ 32 ∷ (decimal l.count ++ b'\n' ∷ rest)))
                (l.ip ++ slots)
                (length l.ip)
                (some list))
            ≡ ok (some (at_text rest (l.ip ++ slots) 0 o)))
  read_line-eq l rest slots list h =
      let (o, added, extends) =
        add_nodes-Extends sha1 inet_pton l.ip l.port l.s_addr l.count list h.known in
      let port' =
        fscanf-decimal l.port 32 (decimal l.count ++ b'\n' ∷ rest) (omega arith)
          (unfold isdigit in refl) in
      let count' =
        fscanf-space (decimal l.count ++ b'\n' ∷ rest)
        ∙ fscanf-decimal l.count b'\n' rest h.count_small (unfold isdigit in refl) in
      let ip' : c_str (take (length l.ip) (l.ip ++ slots)) ≡ l.ip =
        ap c_str (take-length-append l.ip slots) ∙ c_str-visible l.ip h.visible in
      let port_same : l.port % 2 ^ 16 ≡ l.port = omega (arith, h.port_small) in
      let some_nodes : l.count == 0 ≡ false = ground (arith, h.count_pos) in
      let added' : add_nodes sha1 inet_pton true (c_str (take (length l.ip) (l.ip ++ slots)))
            (l.port % 2 ^ 16) l.count (some list)
          ≡ some o =
        rw (ip', port_same) added in
      (
        o,
        extends,
        read_line-steps
            (at_text (32 ∷ (decimal l.port ++ 32 ∷ (decimal l.count ++ b'\n' ∷ rest)))
              (l.ip ++ slots) (length l.ip) (some list))
            (l.port, rest_of (32 ∷ (decimal l.count ++ b'\n' ∷ rest)))
            (l.count, rest_of (b'\n' ∷ rest)) o (rest_of rest) (unfold fgetc in port') count'
            some_nodes added' (unfold fgetc skip_to_newline in refl),
      )

  pub blank_round :
      (fuel : ℕ) (r r1 r2 : Reading)
      → is_blank r.current_char ≡ true
      → r.file.eof ≡ false
      → read_line sha1 inet_pton true r ≡ ok (some r1)
      → store_char r1 ≡ ok r2
      → read_loop sha1 inet_pton true (suc fuel) r ≡ read_loop sha1 inet_pton true fuel r2
  unfolding read_loop read_char
  blank_round fuel r r1 r2 blank open_file line stored =
      rw (read_loop, read_char, blank, line, stored, open_file) refl

  pub char_round :
      (fuel : ℕ) (r r1 : Reading)
      → is_blank r.current_char ≡ false
      → r.file.eof ≡ false
      → store_char r ≡ ok r1
      → read_loop sha1 inet_pton true (suc fuel) r ≡ read_loop sha1 inet_pton true fuel r1
  unfolding read_loop read_char
  char_round fuel r r1 visible open_file stored =
      rw (read_loop, read_char, visible, stored, open_file) refl

  pub at_end :
      (s : ℕ) (mem : List ℕ) (list : NodeList) (fuel : ℕ)
      → (store_char (at_text [] (s ∷ mem) 0 (some list))
          >>= read_loop sha1 inet_pton true (suc fuel))
        ≡ ok (some list)
  unfolding read_loop store_char store fgetc
  at_end s mem list fuel = refl
