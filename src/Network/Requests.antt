-- ===== src/Network/Requests.antt =====
-- What `network_put` sends, and when it succeeds.
use distributed_hash_table.Prelude.{
  ℕ, suc, ◌+◌, ◌<◌, ◌≤◌, List, [], ◌∷◌, ◌++◌, map, true, false, if◌then◌else◌, leb, ltb, some, ok,
  fault, ◌>>=◌, length, arith, ◌≡◌, refl, Returns, read-length, read-short, ap, ◌∙◌,
}
use distributed_hash_table.Text.{IsText}
use distributed_hash_table.Errors.{ErrorCode, err_none, err_network}
use distributed_hash_table.Args.{Args}
use distributed_hash_table.Node.{Node}
use distributed_hash_table.NodeList.{NodeList}
use distributed_hash_table.NetworkUtils.RoundTrip.{format_put_request-append}
use distributed_hash_table.Ring.{ring_get_nodes_for_key}
use distributed_hash_table.Ring.Storage.{IsStorage, ring_get_nodes_for_key-IsStorage}
use distributed_hash_table.Server.Dump.{Datagram, max_msg_elem_size}
use distributed_hash_table.Network.{put_loop, network_put, network_get, destinations}
use distributed_hash_table.Network.Quorum.{IsAnswer, get_replies-quorum}

-- The verdict on the number of replies.
abbrev pub acknowledged : ℕ → ℕ → ErrorCode
acknowledged w n = if leb w n then err_none else err_network

put_loop-acknowledged :
    (w n : ℕ) (replies : List Datagram)
    → n < w
    → put_loop w n replies ≡ acknowledged w (n + length replies)
unfolding put_loop
put_loop-acknowledged w n [] h = ground arith
put_loop-acknowledged w n (m ∷ replies) h = ground (arith, put_loop-acknowledged w (n + 1) replies)

-- A put is acknowledged when W replies come, however many more there are.
pub put_loop_lem :
    (w : ℕ) (replies : List Datagram)
    → 0 < w
    → put_loop w 0 replies ≡ acknowledged w (length replies)
put_loop_lem w replies h = put_loop-acknowledged w 0 replies h ∙ ap (acknowledged w) (omega arith)

destinations-all :
    (n : ℕ) (l : NodeList) → length l.nodes ≡ suc n → destinations (suc n) (some l) ≡ ok l.nodes
unfolding destinations
destinations-all n l h = rw (← h, read-length)

destinations-short :
    (n : ℕ) (l : NodeList) → length l.nodes < suc n → destinations (suc n) (some l) ≡ fault
unfolding destinations
destinations-short n l h = read-short (suc n) l.nodes h

-- The nodes that the ring gives for the key.
module _ (sha1 : List ℕ → List ℕ) (ring : NodeList) (left : ℕ) (args : Args) (key : List ℕ)
    (l : NodeList) (en : args.n ≡ suc left)
    (run : ring_get_nodes_for_key sha1 true ring (suc left) key ≡ ok (some l))
    (sk : length key ≤ max_msg_elem_size) where
  module _ (value : List ℕ) (replies : List Datagram) (sv : length value ≤ max_msg_elem_size) where
    pub put-full :
        0 < args.w
        → IsText key
        → IsText value
        → length l.nodes ≡ suc left
        → network_put sha1 true
            (record { server = ring; args = args })
            (some key)
            (some value)
            replies
          ≡ ok
              (acknowledged args.w (length replies), map (λ node. (key ++ 0 ∷ value, node)) l.nodes)
    unfolding network_put
    put-full hw hk hv full =
        let short_key : ltb max_msg_elem_size (length key) ≡ false = ground arith in
        let short_value : ltb max_msg_elem_size (length value) ≡ false = ground arith in
        rw
          (
            short_key,
            short_value,
            en,
            run,
            ◌>>=◌,
            destinations-all left l full,
            format_put_request-append key value [] [] hk hv,
            put_loop_lem args.w replies hw,
          )
          refl

    pub put-short :
        length l.nodes < suc left
        → network_put sha1 true
            (record { server = ring; args = args })
            (some key)
            (some value)
            replies
          ≡ fault
    unfolding network_put
    put-short few =
        let short_key : ltb max_msg_elem_size (length key) ≡ false = ground arith in
        let short_value : ltb max_msg_elem_size (length value) ≡ false = ground arith in
        rw (short_key, short_value, en, run, ◌>>=◌, destinations-short left l few) refl

  module _ (replies : List Datagram) where
    pub get-full :
        0 < args.r
        → args.r ≤ 127
        → length l.nodes ≡ suc left
        → Returns
            (network_get sha1 true (record { server = ring; args = args }) key replies)
            λ o. IsAnswer args.r replies o.0 × (o.1 ≡ map (λ node. (key, node)) l.nodes)
    unfolding network_get
    get-full hr small full =
        let (answer, loop, right) = get_replies-quorum args.r replies hr small in
        let short_key : ltb max_msg_elem_size (length key) ≡ false = ground arith in
        (
          (answer, map (λ node. (key, node)) l.nodes),
          rw (short_key, en, run, ◌>>=◌, destinations-all left l full, loop) refl,
          (right, refl),
        )

    pub get-short :
        length l.nodes < suc left
        → network_get sha1 true (record { server = ring; args = args }) key replies ≡ fault
    unfolding network_get
    get-short few =
        let short_key : ltb max_msg_elem_size (length key) ≡ false = ground arith in
        rw (short_key, en, run, ◌>>=◌, destinations-short left l few) refl

-- For a client whose ring is not empty, with N and W positive, and for a key and a value that are
-- not too long: there is a list of nodes for the key's digest such that, when it has N nodes, the
-- put sends each of them the key, a NUL and the value, and succeeds exactly when W replies come at
-- least. When it has fewer than N nodes, the code reads nodes behind its end.
pub network_put-sends :
    (sha1 : List ℕ → List ℕ) (allocated left : ℕ) (n : Node) (ring : List Node) (args : Args)
    (key value : List ℕ) (replies : List Datagram)
    → args.n ≡ suc left
    → 0 < args.w
    → IsText key
    → IsText value
    → length key ≤ max_msg_elem_size
    → length value ≤ max_msg_elem_size
    → (l : NodeList) × IsStorage (sha1 key) (n ∷ ring) n (suc left) l
      × (length l.nodes ≡ suc left
          → network_put sha1 true
              (record {
                server = record { allocated_size = allocated; nodes = n ∷ ring };
                args = args;
              })
              (some key)
              (some value)
              replies
            ≡ ok (
              acknowledged args.w (length replies),
              map (λ node. (key ++ 0 ∷ value, node)) l.nodes,
            ))
      × (length l.nodes < suc left
          → network_put sha1 true
              (record {
                server = record { allocated_size = allocated; nodes = n ∷ ring };
                args = args;
              })
              (some key)
              (some value)
              replies
            ≡ fault)
network_put-sends sha1 allocated left n ring args key value replies en hw hk hv sk sv =
    let (o, run, (l, some_l, storage)) =
      ring_get_nodes_for_key-IsStorage sha1 allocated n ring left key in
    let nodes : NodeList = record { allocated_size = allocated; nodes = n ∷ ring } in
    let found = run ∙ ap ok some_l in
    (
      l,
      storage,
      put-full sha1 nodes left args key l en found sk value replies sv hw hk hv,
      put-short sha1 nodes left args key l en found sk value replies sv,
    )

-- For a client whose ring is not empty, with N positive and R from 1 to 127, and for a key that is
-- not too long: there is a list of nodes for the key's digest such that, when it has N nodes, the
-- get sends the key to each of them and reports what the replies that come agree on. When it has
-- fewer than N nodes, the code reads nodes behind its end.
pub network_get-answers :
    (sha1 : List ℕ → List ℕ) (allocated left : ℕ) (n : Node) (ring : List Node) (args : Args)
    (key : List ℕ) (replies : List Datagram)
    → args.n ≡ suc left
    → 0 < args.r
    → args.r ≤ 127
    → length key ≤ max_msg_elem_size
    → (l : NodeList) × IsStorage (sha1 key) (n ∷ ring) n (suc left) l
      × (length l.nodes ≡ suc left
          → Returns
              (network_get sha1 true
                (record {
                  server = record { allocated_size = allocated; nodes = n ∷ ring };
                  args = args;
                })
                key
                replies)
              λ o. IsAnswer args.r replies o.0 × (o.1 ≡ map (λ node. (key, node)) l.nodes))
      × (length l.nodes < suc left
          → network_get sha1 true
              (record {
                server = record { allocated_size = allocated; nodes = n ∷ ring };
                args = args;
              })
              key
              replies
            ≡ fault)
network_get-answers sha1 allocated left n ring args key replies en hr small sk =
    let (o, run, (l, some_l, storage)) =
      ring_get_nodes_for_key-IsStorage sha1 allocated n ring left key in
    let nodes : NodeList = record { allocated_size = allocated; nodes = n ∷ ring } in
    let found = run ∙ ap ok some_l in
    (
      l,
      storage,
      get-full sha1 nodes left args key l en found sk replies hr small,
      get-short sha1 nodes left args key l en found sk replies,
    )
