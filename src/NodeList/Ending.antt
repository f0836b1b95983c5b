-- ===== src/NodeList/Ending.antt =====
-- `get_nodes` does not wait for a newline for ever when the file ends in one.
use distributed_hash_table.Prelude.{
  ℕ, zero, suc, ◌+◌, ◌<◌, ◌%◌, ◌^◌, List, true, false, ◌==◌, Option, none, some, ok, fault, no_fuel,
  ◌>>=◌, length, arith, ◌≡◌, refl, ◌≢◌, ◌⊎◌, inl, inr, Bool-cases, sym, ◌∙◌, subst, take, replicate,
}
use distributed_hash_table.Text.{c_str}
use distributed_hash_table.NodeList.{node_list_new}
use distributed_hash_table.NodeList.Rounds.{read_line-steps}
use distributed_hash_table.NodeList.Reader.{
  fgetc, fscanf_unsigned, add_nodes, Reading, is_blank, read_line, store_char, char_of, read_char,
  read_loop, get_nodes,
}
use distributed_hash_table.NodeList.Scans.{
  IsWhole, Left, option-cases, fgetc-Left, fgetc-next, skip-Left, store-cases,
  fscanf_unsigned-Scanned,
}

module _ (sha1 : List ℕ → List ℕ) (inet_pton : List ℕ → Option ℕ) where
  -- The rest of a line ends in a result, or in less text.
  abbrev LineRead : Reading → Type 0
  LineRead r =
      (read_line sha1 inet_pton true r ≡ ok none)
      ⊎ ((r' : Reading) × (read_line sha1 inet_pton true r ≡ ok (some r'))
          × Left r.file.text r'.file.text)

  read_line-LineRead : (r : Reading) → IsWhole r.file.text → LineRead r
  unfolding read_line
  read_line-LineRead r h = elim (option-cases (fscanf_unsigned r.file)) [
    | inl e ↦ inl (rw (read_line, e) refl)
    | inr (port, e) ↦ elim (option-cases (fscanf_unsigned port.1)) [
      | inl f ↦ inl (rw (read_line, e, f) refl)
      | inr (count, f) ↦ elim (Bool-cases (count.0 == 0)) [
        | inl z ↦ inl (rw (read_line, e, f, z) refl)
        | inr some_nodes ↦
            elim (option-cases (
              add_nodes sha1 inet_pton true (c_str (take r.index r.ip)) (port.0 % 2 ^ 16) count.0
                r.nodes)) [
                  | inl a ↦ inl (rw (read_line, e, f, some_nodes, a) refl)
                  | inr (nodes, a) ↦
                      let (left, more) = fscanf_unsigned-Scanned r.file port h e in
                      let (left', more') = fscanf_unsigned-Scanned port.1 count left.0 f in
                      let (file, skipped, left'') =
                        skip-Left count.1.eof count.1.text left'.0 more' in
                      let last = fgetc-Left file.eof file.text left''.0 in
                      inr (
                        _,
                        read_line-steps sha1 inet_pton r port count nodes file e f some_nodes a
                            skipped,
                        (last.0, omega arith),
                      )
                ]
      ]
    ]
  ]

  -- A round before the byte is stored.
  read_char-cases :
      (r : Reading)
      → IsWhole r.file.text
      → (read_char sha1 inet_pton true r ≡ ok none)
        ⊎ ((r' : Reading) × (read_char sha1 inet_pton true r
              ≡ (store_char r' >>= λ r''. ok (some r'')))
            × Left r.file.text r'.file.text)
  unfolding read_char
  read_char-cases r h = elim (Bool-cases (is_blank r.current_char)) [
    | inl blank ↦ elim (read_line-LineRead r h) [
      | inl e ↦ inl (rw (read_char, blank, e) refl)
      | inr (r', e, left) ↦ inr (r', rw (read_char, blank, e) refl, left)
    ]
    | inr visible ↦ inr (r, rw (read_char, visible) refl, (h, omega arith))
  ]

  store_char-cases :
      (r : Reading)
      → IsWhole r.file.text
      → (store_char r ≡ fault)
        ⊎ ((r' : Reading) × (store_char r ≡ ok r')
            × IsWhole r'.file.text
            × ((r'.file.eof ≡ true) ⊎ (length r'.file.text < length r.file.text)))
  unfolding store_char
  store_char-cases r h = elim (store-cases r.ip r.index (char_of r.current_char)) [
    | inl e ↦ inl (rw (store_char, e) refl)
    | inr (ip, e) ↦ inr (
      record r {
        file = (fgetc r.file).1;
        current_char = (fgetc r.file).0;
        ip = ip;
        index = r.index + 1;
      },
      rw (store_char, e) refl,
      (fgetc-Left r.file.eof r.file.text h).0,
      fgetc-next r.file.eof r.file.text,
    )
  ]

  read_loop-at_end :
      (fuel : ℕ) (r : Reading)
      → r.file.eof ≡ true
      → read_loop sha1 inet_pton true (suc fuel) r ≢ no_fuel
  unfolding read_loop
  read_loop-at_end fuel r e stuck =
      let run : read_loop sha1 inet_pton true (suc fuel) r ≡ ok r.nodes = rw (read_loop, e) refl in
      cc (run, stuck)

  read_loop-ne-no_fuel :
      (fuel : ℕ) (r : Reading)
      → (r.file.eof ≡ true) ⊎ (length r.file.text < fuel)
      → IsWhole r.file.text
      → read_loop sha1 inet_pton true (suc fuel) r ≢ no_fuel
  unfolding read_loop
  read_loop-ne-no_fuel fuel r (inl e) h = read_loop-at_end fuel r e
  read_loop-ne-no_fuel zero r (inr enough) h = absurd (omega arith)
  read_loop-ne-no_fuel (suc fuel) r (inr enough) h = elim (Bool-cases r.file.eof) [
    | inl e ↦ read_loop-at_end (suc fuel) r e
    | inr more ↦ elim (read_char-cases r h) [
      | inl e ↦
          let run : read_loop sha1 inet_pton true (suc (suc fuel)) r ≡ ok none =
            rw (read_loop, e, more) refl in
          λ stuck. cc (run, stuck)
      | inr (r', e, left) ↦ elim (store_char-cases r' left.0) [
        | inl f ↦
            let run : read_loop sha1 inet_pton true (suc (suc fuel)) r ≡ fault =
              rw (read_loop, e, f, more) refl in
            λ stuck. cc (run, stuck)
        | inr (r'', f, whole, next) ↦
            let run : read_loop sha1 inet_pton true (suc (suc fuel)) r
                ≡ read_loop sha1 inet_pton true (suc fuel) r'' =
              rw (read_loop, e, f, more) refl in
            let fewer : (r''.file.eof ≡ true) ⊎ (length r''.file.text < fuel) = elim next [
              | inl end ↦ inl end
              | inr less ↦ inr (omega arith)
            ] in
            λ stuck. read_loop-ne-no_fuel fuel r'' fewer whole (sym run ∙ stuck)
      ]
    ]
  ]

  -- When memory is not short and the file of servers is empty or ends in a newline, the fuel is
  -- enough: reading it ends, in a list, in NULL, or in a write behind an array.
  pub get_nodes-ne-no_fuel :
      (text : List ℕ) → IsWhole text → get_nodes sha1 inet_pton true (some text) ≢ no_fuel
  unfolding get_nodes
  get_nodes-ne-no_fuel text h =
      let start = fgetc (record { text = text; eof = false }) in
      let r : Reading = record {
        file = start.1;
        current_char = start.0;
        ip = replicate 16 0;
        index = 0;
        nodes = node_list_new true;
      } in
      let enough : (r.file.eof ≡ true) ⊎ (length r.file.text < length text + 1) =
        elim (fgetc-next false text) [ inl end ↦ inl end | inr less ↦ inr (omega arith) ] in
      let fuel : suc (length text + 1) ≡ length text + 2 = omega arith in
      subst (λ f. read_loop sha1 inet_pton true f r ≢ no_fuel) fuel
        (read_loop-ne-no_fuel (length text + 1) r enough (fgetc-Left false text h).0)
