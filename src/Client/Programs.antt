-- ===== src/Client/Programs.antt =====
-- What pps-client-put and pps-client-get report, by the replies that come.
use distributed_hash_table.Prelude.{
  ℕ, suc, ◌+◌, ◌<◌, ◌≤◌, List, [], ◌∷◌, ◌++◌, map, true, leb, if◌then◌else◌, some, ok, length, ◌≡◌,
  refl, ◌⊎◌, inl, inr, Returns, Bool-cases, ◌∙◌,
}
use distributed_hash_table.Text.{IsText}
use distributed_hash_table.Args.{Args, total_servers, get_needed, put_needed}
use distributed_hash_table.NodeList.{NodeList}
use distributed_hash_table.Ring.{ring_get_nodes_for_key}
use distributed_hash_table.Network.{Sent}
use distributed_hash_table.Network.Quorum.{agree, any_not_found}
use distributed_hash_table.Network.Requests.{put-full, get-full}
use distributed_hash_table.Server.Dump.{max_msg_elem_size}
use distributed_hash_table.Client.Commands.{
  World, failed, succeeded, done, value, started, get_value, put_value, pps_client_get,
  pps_client_put,
}

-- The client has started, and the ring gives N nodes for the key.
module _ (world : World) (argv : List (List ℕ)) (ring : NodeList) (args : Args) (left : ℕ)
    (key : List ℕ) (l : NodeList) (room : world.room ≡ true) (en : args.n ≡ suc left)
    (found : ring_get_nodes_for_key world.sha1 true ring (suc left) key ≡ ok (some l))
    (full : length l.nodes ≡ suc left) (short : length key ≤ max_msg_elem_size) where
  -- When the client has started with a key and a value that are strings and not too long, memory is
  -- not short, and the ring gives N nodes for the key, with N and W positive, pps-client-put sends
  -- each of them the key, a NUL and the value; it prints OK and returns 0 when W replies come, and
  -- it fails otherwise.
  pub pps_client_put-acknowledged :
      (text : List ℕ)
      → started world 2 (total_servers + put_needed) argv
        ≡ ok (some (record { server = ring; args = args }, key ∷ text ∷ []))
      → 0 < args.w
      → IsText key
      → IsText text
      → length text ≤ max_msg_elem_size
      → pps_client_put world argv ≡ (
          let sent : Sent = map (λ node. (key ++ 0 ∷ text, node)) l.nodes in
          ok (if leb args.w (length (world.replies 0)) then succeeded done sent else failed sent))
  unfolding pps_client_put
  pps_client_put-acknowledged text run hw hk ht fits =
      let put =
        put-full world.sha1 ring left args key l en found short text (world.replies 0) fits hw hk ht
          full in
      elim (Bool-cases (leb args.w (length (world.replies 0)))) [
        | inl enough ↦ rw (run, put_value, room, put, enough) refl
        | inr few ↦ rw (run, put_value, room, put, few) refl
      ]

  -- When the client has started with a key that is not too long, memory is not short, and the ring
  -- gives N nodes for the key, with N positive and R from 1 to 127, pps-client-get ends and sends
  -- each of them the key. Either it prints a value that R replies carry and returns 0, or no value
  -- is carried by R replies and it fails.
  pub pps_client_get-quorum :
      started world 1 (total_servers + get_needed) argv
        ≡ ok (some (record { server = ring; args = args }, key ∷ []))
      → 0 < args.r
      → args.r ≤ 127
      → Returns (pps_client_get world argv) λ o.
        let sent : Sent = map (λ node. (key, node)) l.nodes in
        ((v : List ℕ) × (o ≡ succeeded (value v) sent) × (args.r ≤ agree v (world.replies 0)))
        ⊎ ((o ≡ failed sent) × ((v : List ℕ) → agree v (world.replies 0) < args.r))
  unfolding pps_client_get
  pps_client_get-quorum run hr small =
      let (o, get, (right, sent)) =
        get-full world.sha1 ring left args key l en found short (world.replies 0) hr small full in
      elim right [
        | inl (v, e, h) ↦
            let get' = get ∙ (λ i. ok (e i, sent i)) in
            (_, rw (run, get_value, room, get') refl, inl (v, refl, h))
        | inr (e, h) ↦
            let get' = get ∙ (λ i. ok (e i, sent i)) in
            let missed =
              elim (Bool-cases (any_not_found (world.replies 0)))
                as (λ _.
                  pps_client_get world argv ≡ ok (failed (map (λ node. (key, node)) l.nodes))) [
                    | inl some_missing ↦ rw (run, get_value, room, get', some_missing) refl
                    | inr no_reply ↦ rw (run, get_value, room, get', no_reply) refl
                  ] in
            (_, missed, inr (refl, h))
      ]
