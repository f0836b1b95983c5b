-- ===== src/Client/Listing/Statuses.antt =====
-- Which servers pps-list-nodes reports.
use distributed_hash_table.Prelude.{
  ℕ, zero, suc, ◌+◌, List, [], ◌∷◌, map, Bool, true, false, ◌||◌, if◌then◌else◌, leb, Option, none,
  some, ok, length, take, arith, ◌≡◌, refl, Returns,
}
use distributed_hash_table.Text.{str_eq}
use distributed_hash_table.HashTable.{Htable, add_htable_value, get_htable_value}
use distributed_hash_table.HashTable.Tables.{IsValid}
use distributed_hash_table.HashTable.Lookup.{construct_htable-IsValid, get-add}
use distributed_hash_table.HashTable.Enumeration.{delete_htable_and_content_lem}
use distributed_hash_table.Node.{Address, Node}
use distributed_hash_table.Client.Listing.{
  ok_text, fail_text, address_text, create_key_from_sockaddr, ping_loop, status_loop, statuses,
}
use distributed_hash_table.Client.Listing.Addresses.{
  IsNtoa, IsShortAddress, AllShortAddress, heard, same-text,
}

-- Is one of the first answers printed like this?
heard_text : (ℕ → List ℕ) → List Address → List ℕ → Bool
heard_text inet_ntoa [] q = false
heard_text inet_ntoa (a ∷ answers) q =
    str_eq (address_text inet_ntoa a) q || heard_text inet_ntoa answers q

abbrev mark : Bool → Option (List ℕ)
mark b = if b then some ok_text else none

module _ {inet_ntoa : ℕ → List ℕ} (ntoa : IsNtoa inet_ntoa) where
  key-eq :
      (a : Address)
      → IsShortAddress inet_ntoa a
      → create_key_from_sockaddr inet_ntoa a ≡ ok (address_text inet_ntoa a)
  unfolding create_key_from_sockaddr
  key-eq a h =
      let fits : leb 20 (length (address_text inet_ntoa a)) ≡ false = ground (arith, h.short) in
      rw fits

  heard_text-eq :
      (answers : List Address) (n : ℕ) (b : Address)
      → AllShortAddress inet_ntoa answers
      → IsShortAddress inet_ntoa b
      → heard_text inet_ntoa (take n answers) (address_text inet_ntoa b) ≡ heard (take n answers) b
  unfolding heard_text heard
  heard_text-eq answers zero b all hb = refl
  heard_text-eq [] (suc n) b all hb = refl
  heard_text-eq (a ∷ answers) (suc n) b (ha, all) hb =
      rw (same-text ntoa a b ha hb, heard_text-eq answers n b all hb)

  -- The table knows the keys of `known`.
  abbrev Knows : (List ℕ → Bool) → Htable → Type 0
  Knows known t = IsValid t × ((q : List ℕ) → get_htable_value t (some q) ≡ ok (mark (known q)))

  Knows-same :
      (f g : List ℕ → Bool) (t : Htable) → ((q : List ℕ) → f q ≡ g q) → Knows f t → Knows g t
  Knows-same f g t same k = (k.0, λ q. rw (← same q) (k.1 q))

  -- The answers that the loop reads with `suc left` servers still to come.
  abbrev with_answers : (List ℕ → Bool) → ℕ → List Address → List ℕ → Bool
  with_answers known left answers q = known q || heard_text inet_ntoa (take (suc left) answers) q

  pinged :
      (known : List ℕ → Bool) (t : Htable) (a : Address)
      → Knows known t
      → Returns
          (add_htable_value true t (some (address_text inet_ntoa a)) (some ok_text))
          λ p. Knows (λ q. str_eq (address_text inet_ntoa a) q || known q) p.1
  pinged known t a k =
      let (p, run, r) = get-add k.0 (address_text inet_ntoa a) ok_text in
      (p, run, (r.1, λ q. rw (r.2 q, k.1 q) (ground arith)))

  ping_loop-Knows :
      (size count left : ℕ) (t : Htable) (known : List ℕ → Bool) (answers : List Address)
      → count + suc left ≡ size
      → AllShortAddress inet_ntoa answers
      → Knows known t
      → Returns (ping_loop inet_ntoa size count t answers) (Knows (with_answers known left answers))
  unfolding ping_loop heard_text
  ping_loop-Knows size count left t known [] more all k =
      (t, refl, Knows-same known (with_answers known left []) t (λ q. ground arith) k)
  ping_loop-Knows size count zero t known (a ∷ answers) more (ha, all) k =
      let (p, run, k') = pinged known t a k in
      let full : leb size (count + 1) ≡ true = ground arith in
      (
        p.1,
        rw (key-eq a ha, run, full),
        Knows-same _ (with_answers known 0 (a ∷ answers)) p.1 (λ q. ground arith) k',
      )
  ping_loop-Knows size count (suc left) t known (a ∷ answers) more (ha, all) k =
      let (p, run, k') = pinged known t a k in
      let few : leb size (count + 1) ≡ false = ground arith in
      let (t', run', k'') =
        ping_loop-Knows size (count + 1) left p.1 _ answers (omega arith) all k' in
      (
        t',
        rw (key-eq a ha, run, few) run',
        Knows-same _ (with_answers known (suc left) (a ∷ answers)) t' (λ q. ground arith) k'',
      )

  status_loop-eq :
      (t : Htable) (known : List ℕ → Bool) (up : Address → Bool) (nodes : List Node)
      → Knows known t
      → ((b : Address) → IsShortAddress inet_ntoa b → known (address_text inet_ntoa b) ≡ up b)
      → AllShortAddress inet_ntoa (map (λ node. node.addr) nodes)
      → status_loop inet_ntoa t nodes
        ≡ ok (map (λ node. (node, if up node.addr then ok_text else fail_text)) nodes)
  unfolding status_loop
  status_loop-eq t known up [] k same all = refl
  status_loop-eq t known up (n ∷ nodes) k same (hn, all) =
      rw (key-eq n.addr hn, k.1, same n.addr hn, status_loop-eq t known up nodes k same all)
        (ground arith)

  -- Where `inet_ntoa` writes different addresses of 32 bits differently and without spaces, and the
  -- nodes and the answers have such addresses, ports of 16 bits, and texts that fit in 20 bytes with
  -- their NUL: with at least one node, the program prints for each node OK if one of the first
  -- answers, as many as there are nodes, comes from the node's address and port, and FAIL if none
  -- does.
  pub statuses-eq :
      (answers : List Address) (n : Node) (nodes : List Node)
      → AllShortAddress inet_ntoa answers
      → AllShortAddress inet_ntoa (map (λ node. node.addr) (n ∷ nodes))
      → statuses inet_ntoa answers (n ∷ nodes)
        ≡ ok (
            map
              (λ node. (
                node,
                if heard (take (length (n ∷ nodes)) answers) node.addr then ok_text else fail_text,
              ))
              (n ∷ nodes))
  unfolding statuses
  statuses-eq answers n nodes all all' =
      let size = suc (length nodes) in
      let (new, made, valid, empty) = construct_htable-IsValid 10 (omega arith) in
      let (t, run, k) =
        ping_loop-Knows size 0 (length nodes) new (λ _. false) answers (omega arith) all
          (valid, empty) in
      let (freed, deleted, _) = delete_htable_and_content_lem k.0 in
      let printed =
        status_loop-eq t (with_answers (λ _. false) (length nodes) answers)
          (heard (take size answers)) (n ∷ nodes) k (λ b hb. heard_text-eq answers size b all hb)
          all' in
      rw (made, run, printed, deleted)
