-- ===== src/Client/Start.antt =====
-- What holds of a client that has started.
use distributed_hash_table.Prelude.{
  ℕ, ◌^◌, ◌<◌, ◌≤◌, List, [], ◌∷◌, Bool, false, if◌then◌else◌, ltb, Option, none, some, Run, ok,
  fault, no_fuel, ◌>>=◌, length, arith, ◌≡◌, refl, ◌≢◌, Bool-cases, if-cases, inl, inr,
}
use distributed_hash_table.Errors.{ErrorCode, err_none, err_network, err_bad_parameter}
use distributed_hash_table.HashTable.{size_max}
use distributed_hash_table.Args.{Args, Parsed, parse_opt_args}
use distributed_hash_table.Args.Options.{
  IsAccepted, parse_opt_args-IsAccepted, parse_opt_args-Leaves,
}
use distributed_hash_table.Node.{Node}
use distributed_hash_table.NodeList.{NodeList}
use distributed_hash_table.NetworkUtils.{sub_size}
use distributed_hash_table.Network.{Client}
use distributed_hash_table.Client.{argv_size, with_ring, too_few, not_exact, client_init}

pub argv_size-eq-length : (argv : List (List ℕ)) → argv_size argv ≡ length argv
unfolding argv_size
argv_size-eq-length [] = refl
argv_size-eq-length (s ∷ argv) = omega (arith, argv_size-eq-length argv)

-- N is at most the number of nodes, R and W are positive, and so is N unless the ring is empty.
pub record IsStarted (c : Client) : Type 0 where
  pub n_bound : c.args.n ≤ length c.server.nodes
  pub n_pos : 0 < length c.server.nodes → 0 < c.args.n
  pub r_pos : 0 < c.args.r
  pub w_pos : 0 < c.args.w

capped : NodeList → Args → Client
capped ring args =
    let size = length ring.nodes in
    record { server = ring; args = if ltb size args.n then record args { n = size } else args }

capped-IsStarted :
    (ring : NodeList) (flags : ℕ) (a : Args) → IsAccepted flags a → IsStarted (capped ring a)
unfolding capped
capped-IsStarted ring flags a h = elim (Bool-cases (ltb (length ring.nodes) a.n)) [
  | inl more ↦ rw more (record {
    n_bound = omega arith;
    n_pos = λ some_node. some_node;
    r_pos = h.r_pos;
    w_pos = h.w_pos;
  })
  | inr few ↦
      rw few
        (record { n_bound = ground arith; n_pos = λ _. h.n_pos; r_pos = h.r_pos; w_pos = h.w_pos })
]

with_ring-IsStarted :
    (sort : List Node → List Node) (get_nodes : Option NodeList) (flags : ℕ) (a : Args)
    → IsAccepted flags a
    → IsStarted (with_ring sort get_nodes a)
unfolding with_ring capped
with_ring-IsStarted sort get_nodes flags a h = capped-IsStarted _ flags a h

not_exact-length :
    (required : ℕ) (argv rest : List (List ℕ))
    → required ≢ size_max
    → length argv < 2 ^ 64
    → length rest ≤ length argv
    → not_exact required (length argv) (sub_size (argv_size argv) (argv_size rest)) ≡ false
    → length rest ≡ required
unfolding not_exact
not_exact-length required argv rest ne small few h =
    ground (arith, argv_size-eq-length argv, argv_size-eq-length rest)

-- What the start promises, where it reports no error.
abbrev Promise : ℕ → Run (ErrorCode × Option Client × List (List ℕ)) → Type 0
Promise required run =
    (c : Client) (rest : List (List ℕ))
    → run ≡ ok (err_none, some c, rest)
    → IsStarted c × (required ≢ size_max → length rest ≡ required)

module _ (sort : List Node → List Node) (get_nodes : Option NodeList) (socket : Bool) (required : ℕ)
    (flags : ℕ) (argv : List (List ℕ)) (h : flags < 8) (small : length argv < 2 ^ 64) where
  socket-Promise :
      (args : Args) (rest : List (List ℕ))
      → parse_opt_args flags argv ≡ ok (some args, rest)
      → not_exact required (length argv) (sub_size (argv_size argv) (argv_size rest)) ≡ false
      → Promise required (
          if socket
          then ok (err_none, some (with_ring sort get_nodes args), rest)
          else ok (err_network, none, rest))
  socket-Promise args rest parsed exact =
      if-cases (Promise required) socket _ _
        (λ c rest' e.
          let same : with_ring sort get_nodes args ≡ c = cc e in
          let left : rest ≡ rest' = cc e in
          rw (← same, ← left)
            (
              with_ring-IsStarted sort get_nodes flags args
                  (parse_opt_args-IsAccepted flags h argv args rest parsed),
              λ ne.
                  not_exact-length required argv rest ne small
                    (parse_opt_args-Leaves flags argv args rest parsed) exact,
            ))
        (λ c rest' e. cc)

  parsed-Promise :
      (x : Run Parsed)
      → parse_opt_args flags argv ≡ x
      → Promise required (
          x >>= λ p. elim p.0 [
            | none ↦ ok (err_bad_parameter, none, p.1)
            | some args ↦
                if not_exact required (length argv) (sub_size (argv_size argv) (argv_size p.1))
                then ok (err_bad_parameter, none, p.1)
                else if socket
                then ok (err_none, some (with_ring sort get_nodes args), p.1)
                else ok (err_network, none, p.1)
          ])
  parsed-Promise fault parsed = λ c rest e. cc
  parsed-Promise no_fuel parsed = λ c rest e. cc
  parsed-Promise (ok (none, left)) parsed = λ c rest e. cc
  parsed-Promise (ok (some args, left)) parsed =
      elim (Bool-cases
        (not_exact required (length argv) (sub_size (argv_size argv) (argv_size left)))) [
          | inl wrong ↦ rw wrong (λ c rest e. cc)
          | inr exact ↦ rw exact (socket-Promise args left parsed exact)
        ]

  -- A client that starts without an error has positive quorums and an N from 1 to the number of
  -- nodes, unless there are none; and exactly as many arguments are left as the program requires,
  -- unless it requires any number.
  pub client_init-IsStarted :
      (name : List ℕ) (c : Client) (rest : List (List ℕ))
      → client_init sort get_nodes socket required flags (name ∷ argv) ≡ ok (err_none, some c, rest)
      → IsStarted c × (required ≢ size_max → length rest ≡ required)
  unfolding client_init
  client_init-IsStarted name =
      if-cases (Promise required) (too_few required (length argv)) _ _ (λ c rest e. cc)
        (parsed-Promise (parse_opt_args flags argv) refl)
