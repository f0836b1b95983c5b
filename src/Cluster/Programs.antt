-- ===== src/Cluster/Programs.antt =====
-- pps-client-put, pps-client-cat and pps-client-get, run one behind the other against servers.
use distributed_hash_table.Prelude.{
  ℕ, ◌+◌, ◌≤◌, List, [], ◌∷◌, ◌++◌, true, Option, none, some, Run, ok, fault, ◌>>=◌, non_null,
  ok_before, ◌≡◌, refl, length, ap, sym, ◌∙◌, subst,
}
use distributed_hash_table.Errors.{ErrorCode, err_none}
use distributed_hash_table.HashTable.{size_max}
use distributed_hash_table.Args.{total_servers, get_needed, put_needed}
use distributed_hash_table.Network.{Client, Sent, network_get, network_put}
use distributed_hash_table.Server.Dump.{Datagram}
use distributed_hash_table.Server.Refinement.{Request}
use distributed_hash_table.Server.Service.{Service}
use distributed_hash_table.Client.Commands.{
  World, Finished, Output, failed, succeeded, done, value, started, get_value, put_value,
  pps_client_get, pps_client_put, pps_client_cat, max_mandatory_arguments,
}
use distributed_hash_table.Client.Concatenation.{Reads, concatenation, pps_client_cat-Reads}
use distributed_hash_table.Cluster.{
  Cluster, Exchange, Arrives, Puts, put_exchange, Gets, get_exchange,
}

-- How a last put and a get end, by the error that is reported.
put_end :
    (error : ErrorCode) (before s sent : Sent)
    → ◌≡◌ {A = Run Finished}
        (elim error [
          | err_none ↦ ok (succeeded done (before ++ s))
          | _ ↦ ok (failed (before ++ s))
        ])
        (ok (succeeded done sent))
    → (error ≡ err_none) × (sent ≡ before ++ s)
put_end error before s sent =
    elim error
      as (λ error.
        ◌≡◌ {A = Run Finished}
          (elim error [
            | err_none ↦ ok (succeeded done (before ++ s))
            | _ ↦ ok (failed (before ++ s))
          ])
          (ok (succeeded done sent))
        → (error ≡ err_none) × (sent ≡ before ++ s)) [
          | err_none ↦ λ e. (refl, cc e)
          | _ ↦ λ e. absurd (cc e)
        ]

get_end :
    (error : ErrorCode) (text : Option (List ℕ)) (s sent : Sent) (v : List ℕ)
    → ◌≡◌ {A = Run (Option (List ℕ) × Sent)}
        (elim error [ err_none ↦ (non_null text >>= λ v. ok (some v, s)) | _ ↦ ok (none, s) ])
        (ok (some v, sent))
    → (error ≡ err_none) × (text ≡ some v) × (s ≡ sent)
get_end error none s sent v =
    elim error
      as (λ error.
        ◌≡◌ {A = Run (Option (List ℕ) × Sent)} (elim error [ err_none ↦ fault | _ ↦ ok (none, s) ])
          (ok (some v, sent))
        → (error ≡ err_none) × (none ≡ some v) × (s ≡ sent)) [
          | err_none ↦ λ e. absurd (cc e)
          | _ ↦ λ e. absurd (cc e)
        ]
get_end error (some t) s sent v =
    elim error
      as (λ error.
        ◌≡◌ {A = Run (Option (List ℕ) × Sent)}
          (elim error [ err_none ↦ ok (some t, s) | _ ↦ ok (none, s) ]) (ok (some v, sent))
        → (error ≡ err_none) × (some t ≡ some v) × (s ≡ sent)) [
          | err_none ↦ λ e. (refl, cc e, cc e)
          | _ ↦ λ e. absurd (cc e)
        ]

-- A program's last put reported no error.
put_value-done :
    (world : World) (client : Client) (request : ℕ) (key text : List ℕ) (before sent : Sent)
    → put_value world client request key text before ≡ ok (succeeded done sent)
    → (s : Sent) × (network_put world.sha1 world.room client
          (some key)
          (some text)
          (world.replies request)
        ≡ ok (err_none, s))
      × (sent ≡ before ++ s)
unfolding put_value
put_value-done world client request key text before sent e =
    let (r, run, e') =
      ok_before
        (network_put world.sha1 world.room client (some key) (some text) (world.replies request)) _
        (succeeded done sent) e in
    let (none_reported, same) = put_end r.0 before r.1 sent e' in
    (r.1, run ∙ ap (λ error. ok (error, r.1)) none_reported, same)

-- A get of a program returned a value.
get_value-some :
    (world : World) (client : Client) (request : ℕ) (key v : List ℕ) (sent : Sent)
    → get_value world client request key ≡ ok (some v, sent)
    → network_get world.sha1 world.room client key (world.replies request)
      ≡ ok ((err_none, some v), sent)
unfolding get_value
get_value-some world client request key v sent e =
    let (r, run, e') =
      ok_before (network_get world.sha1 world.room client key (world.replies request)) _
        (some v, sent) e in
    let (none_reported, found, same) = get_end r.0.0 r.0.1 r.1 sent v e' in
    let all : r ≡ ((err_none, some v), sent) = λ i. ((none_reported i, found i), same i) in
    run ∙ ap ok all

printed :
    (text : Option (List ℕ)) (s sent : Sent) (v : List ℕ)
    → ◌≡◌ {A = Run Finished}
        (elim text [ none ↦ ok (failed s) | some t ↦ ok (succeeded (value t) s) ])
        (ok (succeeded (value v) sent))
    → ◌≡◌ {A = Option (List ℕ) × Sent} (text, s) (some v, sent)
printed none s sent v e = absurd (cc e)
printed (some t) s sent v e = cc e

append-cancel : (xs ys zs : Sent) → xs ++ ys ≡ xs ++ zs → ys ≡ zs
append-cancel [] ys zs e = e
append-cancel (x ∷ xs) ys zs e = append-cancel xs ys zs (cc e)

module _ (service : Service) (Other : Request → Type 0) where
  -- A program ends well, and its last request is exchanged with the servers: `before` is what its
  -- requests before have sent.
  pub data Ends (run : Run Finished) (output : Output) (before : Sent) (replies : List Datagram)
      (c c' : Cluster service) : Type 0 where
    ends :
        {sent : Sent} {answers : List Datagram}
        → run ≡ ok (succeeded output (before ++ sent))
        → Exchange service Other c sent c' answers
        → Arrives answers replies
        → Ends run output before replies c c'

  put_value-Puts :
      (world : World) (client : Client) (request : ℕ) (key text : List ℕ) (before : Sent)
      (c c' : Cluster service)
      → world.room ≡ true
      → Ends
          (put_value world client request key text before)
          done
          before
          (world.replies request)
          c
          c'
      → Puts service Other world.sha1 client c key text err_none c'
  put_value-Puts world client request key text before c c' room
        (ends {sent} {answers} run exchange arrived) =
      let (s, reported, same) =
        put_value-done world client request key text before (before ++ sent) run in
      let reported' : network_put world.sha1 true client (some key) (some text)
            (world.replies request)
          ≡ ok (err_none, s) =
        rw room at reported in
      put_exchange reported'
        (subst (λ s. Exchange service Other c s c' answers) (append-cancel before sent s same)
          exchange)
        arrived

  pub pps_client_put-Puts :
      (world : World) (argv : List (List ℕ)) (client : Client) (key text : List ℕ)
      (c c' : Cluster service)
      → world.room ≡ true
      → started world 2 (total_servers + put_needed) argv ≡ ok (some (client, key ∷ text ∷ []))
      → Ends (pps_client_put world argv) done [] (world.replies 0) c c'
      → Puts service Other world.sha1 client c key text err_none c'
  pps_client_put-Puts world argv client key text c c' room run e =
      let program : pps_client_put world argv ≡ put_value world client 0 key text [] =
        unfold pps_client_put in rw run refl in
      put_value-Puts world client 0 key text [] c c' room
        (subst (λ p. Ends p done [] (world.replies 0) c c') program e)

  pub pps_client_cat-Puts :
      (world : World) (argv : List (List ℕ)) (client : Client) (key : List ℕ) (keys : List (List ℕ))
      (output : List ℕ) (texts : List (List ℕ)) (sent : Sent) (c c' : Cluster service)
      → world.room ≡ true
      → started world size_max (total_servers + put_needed + get_needed) argv
        ≡ ok (some (client, key ∷ (keys ++ output ∷ [])))
      → length keys + 2 ≤ max_mandatory_arguments
      → Reads world client 0 (key ∷ keys) texts sent
      → Ends (pps_client_cat world argv) done sent (world.replies (length (key ∷ keys))) c c'
      → Puts service Other world.sha1 client c output (concatenation texts) err_none c'
  pps_client_cat-Puts world argv client key keys output texts sent c c' room run few reads e =
      let program =
        pps_client_cat-Reads world argv client key keys output run few texts sent reads in
      put_value-Puts world client (length (key ∷ keys)) output (concatenation texts) sent c c' room
        (subst (λ p. Ends p done sent (world.replies (length (key ∷ keys))) c c') program e)

  pub pps_client_get-Gets :
      (world : World) (argv : List (List ℕ)) (client : Client) (key v : List ℕ)
      (c c' : Cluster service)
      → world.room ≡ true
      → started world 1 (total_servers + get_needed) argv ≡ ok (some (client, key ∷ []))
      → Ends (pps_client_get world argv) (value v) [] (world.replies 0) c c'
      → Gets service Other world.sha1 client c key (err_none, some v) c'
  pps_client_get-Gets world argv client key v c c' room run
        (ends {sent} done_run exchange arrived) =
      let program : pps_client_get world argv ≡ (
          get_value world client 0 key >>= λ r. elim r.0 [
            | none ↦ ok (failed r.1)
            | some t ↦ ok (succeeded (value t) r.1)
          ]) =
        unfold pps_client_get in rw run refl in
      let (r, got, e) = ok_before (get_value world client 0 key) _ _ (sym program ∙ done_run) in
      let same : r ≡ (some v, sent) = printed r.0 r.1 sent v e in
      let returned_v = get_value-some world client 0 key v sent (got ∙ ap ok same) in
      get_exchange (rw room at returned_v) exchange arrived
