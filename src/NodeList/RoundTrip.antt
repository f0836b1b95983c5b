-- ===== src/NodeList/RoundTrip.antt =====
-- A file of servers is read back as the nodes of its lines.
use distributed_hash_table.Prelude.{
  ℕ, zero, suc, ◌+◌, ◌-◌, ◌<◌, ◌≤◌, List, [], ◌∷◌, ◌++◌, true, false, Option, some, ◌>>=◌, length,
  replicate, length-append, arith, ◌≡◌, refl, Returns, ap, sym, ◌∙◌,
}
use mathlib.Core.List.{append_assoc, append-nil}
use distributed_hash_table.Numbers.{isspace, decimal}
use distributed_hash_table.NodeList.{NodeList, node_list_new}
use distributed_hash_table.NodeList.Lines.{
  nodes_of, Extends, Line, file_of, all_nodes, IsVisible, IsLine, AllLines,
}
use distributed_hash_table.NodeList.Reader.{fgetc, is_blank, store_char, read_loop, get_nodes}
use distributed_hash_table.NodeList.Rounds.{
  at_text, more, more-eq, bind-Returns, first_visible, ip_bytes, read_line-eq, blank_round,
  char_round, at_end, store_char-visible,
}

module _ (sha1 : List ℕ → List ℕ) (inet_pton : List ℕ → Option ℕ) where
  module _ (P : Option NodeList → Type 0) where
    -- The round at the blank behind an address, and what the rounds behind it have to give.
    line_round :
        (l : Line) (rest slots : List ℕ) (list : NodeList) (fuel : ℕ)
        → IsLine inet_pton l
        → ((o : Option NodeList)
            → Extends list (nodes_of sha1 l.s_addr l.ip l.port l.count) o
            → Returns
                (store_char (at_text rest (l.ip ++ slots) 0 o)
                  >>= read_loop sha1 inet_pton true fuel)
                P)
        → Returns
            (read_loop sha1 inet_pton true (suc fuel) (
              at_text
                (32 ∷ (decimal l.port ++ 32 ∷ (decimal l.count ++ b'\n' ∷ rest)))
                (l.ip ++ slots)
                (length l.ip)
                (some list)))
            P
    line_round l rest slots list fuel h next =
        let (o, extends, line) = read_line-eq sha1 inet_pton l rest slots list h in
        let (r, stored, (v, run, p)) =
          bind-Returns (store_char (at_text rest (l.ip ++ slots) 0 o))
            (read_loop sha1 inet_pton true fuel) P (next o extends) in
        (
          v,
          blank_round sha1 inet_pton fuel
                (at_text (32 ∷ (decimal l.port ++ 32 ∷ (decimal l.count ++ b'\n' ∷ rest)))
                  (l.ip ++ slots) (length l.ip) (some list))
                (at_text rest (l.ip ++ slots) 0 o) r (unfold fgetc isspace in refl)
                (unfold fgetc in refl) line stored
              ∙ run,
          p,
        )

    -- The rounds of an address, from its first byte on.
    ip_rounds :
        (ip mem text : List ℕ) (nodes : Option NodeList) (fuel fuel' : ℕ)
        → IsVisible ip
        → 0 < length ip
        → length ip ≤ length mem
        → fuel' + 1 ≡ length ip + fuel
        → ((slots : List ℕ)
            → length mem ≡ length ip + length slots
            → Returns
                (read_loop sha1 inet_pton true fuel (at_text text (ip ++ slots) (length ip) nodes))
                P)
        → Returns
            (store_char (at_text (ip ++ text) mem 0 nodes) >>= read_loop sha1 inet_pton true fuel')
            P
    ip_rounds [] mem text nodes fuel fuel' h pos fits enough next = absurd (omega arith)
    ip_rounds (c ∷ ip) [] text nodes fuel fuel' h pos fits enough next = absurd (omega arith)
    ip_rounds (c ∷ ip) (m ∷ mem) text nodes fuel fuel' h pos fits enough next =
        let stored = store_char-visible c (ip ++ text) [] mem m nodes in
        let (slots, size, run) =
          ip_bytes sha1 inet_pton ip fuel text (c ∷ []) mem nodes h.2 (omega arith) in
        let same : more ip fuel ≡ fuel' = omega (arith, more-eq ip fuel) in
        let (v, run', p) = next slots (omega arith) in
        (
          v,
          ap (λ r. r >>= read_loop sha1 inet_pton true fuel') stored
              ∙ ap (λ f. read_loop sha1 inet_pton true f (at_text (ip ++ text) (c ∷ mem) 1 nodes))
                  (sym same)
              ∙ run
              ∙ run',
          p,
        )

  -- The lines from one on, whose first byte is to be stored at the array's first place.
  lines_read :
      (lines : List Line) (mem : List ℕ) (list : NodeList) (fuel : ℕ)
      → AllLines inet_pton lines
      → length mem ≡ 16
      → length (file_of lines) + 1 ≤ fuel
      → Returns
          (store_char (at_text (file_of lines) mem 0 (some list))
            >>= read_loop sha1 inet_pton true fuel)
          (Extends list (all_nodes sha1 lines))
  unfolding file_of all_nodes
  lines_read [] [] list fuel all size enough = absurd (omega arith)
  lines_read [] (s ∷ mem) list zero all size enough = absurd (omega arith)
  lines_read [] (s ∷ mem) list (suc fuel) all size enough =
      (some list, at_end sha1 inet_pton s mem list fuel, (list, refl, sym (append-nil list.nodes)))
  lines_read (l ∷ lines) mem list fuel (h, all) size enough =
      let text = 32 ∷ (decimal l.port ++ 32 ∷ (decimal l.count ++ b'\n' ∷ file_of lines)) in
      let P = Extends list (all_nodes sha1 (l ∷ lines)) in
      let long : length l.ip + length (file_of lines) + 3 ≤ fuel = omega (
        arith,
        length-append l.ip text,
        length-append (decimal l.port) (32 ∷ (decimal l.count ++ b'\n' ∷ file_of lines)),
        length-append (decimal l.count) (b'\n' ∷ file_of lines),
      ) in
      ip_rounds P l.ip mem text (some list) (suc (fuel - length l.ip)) fuel h.visible h.some_bytes
        (omega (arith, h.fits)) (omega arith)
        λ slots n. line_round P l (file_of lines) slots list (fuel - length l.ip) h λ o extends.
          let (l', e, nodes') = extends in
          let (v, run, (l'', e', nodes'')) =
            lines_read lines (l.ip ++ slots) l' (fuel - length l.ip) all
              (omega (arith, length-append l.ip slots)) (omega arith) in
          (
            v,
            rw e run,
            (
              l'',
              e',
              nodes''
                  ∙ ap (λ x. x ++ all_nodes sha1 lines) nodes'
                  ∙ append_assoc list.nodes (nodes_of sha1 l.s_addr l.ip l.port l.count)
                      (all_nodes sha1 lines),
            ),
          )

  -- When memory is not short, a file of lines is read to its end, as a list of just the nodes of its
  -- lines: for each number from a line's count down to 1, one with the line's address and port, and
  -- the digest of address, port and number, up to its first NUL.
  pub get_nodes-file_of :
      (lines : List Line)
      → AllLines inet_pton lines
      → Returns
          (get_nodes sha1 inet_pton true (some (file_of lines)))
          λ o. (l : NodeList) × (o ≡ some l) × (l.nodes ≡ all_nodes sha1 lines)
  unfolding get_nodes read_loop node_list_new
  get_nodes-file_of [] all = unfold file_of all_nodes fgetc in (_, refl, (_, refl, refl))
  get_nodes-file_of (l ∷ lines) (h, all) =
      let text = file_of (l ∷ lines) in
      let list : NodeList = record { allocated_size = 32; nodes = [] } in
      let start = at_text text (replicate 16 0) 0 (some list) in
      let (r, stored, (v, run, (l', e, nodes'))) =
        bind-Returns (store_char start) (read_loop sha1 inet_pton true (length text + 1))
          (Extends list (all_nodes sha1 (l ∷ lines)))
          (lines_read (l ∷ lines) (replicate 16 0) list (length text + 1) (h, all) refl
            (omega arith)) in
      let first : (is_blank start.current_char ≡ false) × (start.file.eof ≡ false) =
        unfold file_of in
        first_visible l.ip
          (32 ∷ (decimal l.port ++ 32 ∷ (decimal l.count ++ b'\n' ∷ file_of lines))) h.visible
          h.some_bytes in
      let fuel : length text + 2 ≡ suc (length text + 1) = omega arith in
      (
        v,
        ap (λ f. read_loop sha1 inet_pton true f start) fuel
            ∙ char_round sha1 inet_pton (length text + 1) start r first.0 first.1 stored
            ∙ run,
        (l', e, nodes'),
      )
