-- ===== src/Server/Rounds.antt =====
-- The server's loop as a step relation on its table: every table that it reaches is valid.
use distributed_hash_table.Prelude.{
  ℕ, List, [], ◌∷◌, ◌++◌, Bool, true, if-cases, Option, none, some, Run, ok, fault, no_fuel, ◌>>=◌,
  arith, ◌≡◌, length, ltb, ◌==◌, read, subst, ap,
}
use distributed_hash_table.Text.{c_str, strlen}
use distributed_hash_table.HashTable.{Htable, htable_size, construct_htable, get_htable_value}
use distributed_hash_table.HashTable.Tables.{IsValid}
use distributed_hash_table.HashTable.Lookup.{construct_htable-IsValid}
use distributed_hash_table.HashTable.Memory.{add-IsValid}
use distributed_hash_table.NetworkUtils.{find_nul, parse_put_request}
use distributed_hash_table.Server.{Round, handle_put, handle_get, handle_message}
use distributed_hash_table.Server.Dump.{Datagram, max_msg_size, max_msg_elem_size, dump_node}

-- The table is valid wherever the round ends normally.
abbrev Keeps : Run Round → Type 0
Keeps run = (r : Round) → run ≡ ok r → IsValid r.0

bind-Keeps {ℓ} :
    {A : Type ℓ} (run : Run A) (next : A → Run Round)
    → ((a : A) → Keeps (next a))
    → Keeps (run >>= next)
bind-Keeps (ok a) next keeps = keeps a
bind-Keeps fault next keeps = λ r e. cc
bind-Keeps no_fuel next keeps = λ r e. cc

same-Keeps : {t : Htable} → IsValid t → (sent : List Datagram) → Keeps (ok (t, sent))
same-Keeps {t} valid sent r e =
    let same : (t, sent) ≡ r = cc e in subst IsValid (ap (λ (x : Round). x.0) same) valid

option-Keeps {ℓ} :
    {A : Type ℓ} (o : Option A) (x : Run Round) (f : A → Run Round)
    → Keeps x
    → ((a : A) → Keeps (f a))
    → Keeps (elim o [ none ↦ x | some a ↦ f a ])
option-Keeps none x f on_none on_some = on_none
option-Keeps (some a) x f on_none on_some = on_some a

module _ {t : Htable} (valid : IsValid t) where
  handle_get-Keeps : (in_msg beyond : List ℕ) → Keeps (handle_get t in_msg beyond)
  unfolding handle_get
  handle_get-Keeps in_msg beyond = bind-Keeps (strlen in_msg) _ λ size.
      bind-Keeps (read size in_msg) _ λ request.
        bind-Keeps (get_htable_value t (some request)) _ λ get.
          option-Keeps get _ _ (same-Keeps valid _) λ value.
            bind-Keeps (read max_msg_elem_size (value ++ 0 ∷ beyond)) _ λ answer. same-Keeps valid _

  handle_put-Keeps :
      (room : Bool) (in_msg : List ℕ) (in_msg_len : ℕ) → Keeps (handle_put room t in_msg in_msg_len)
  unfolding handle_put
  handle_put-Keeps room in_msg in_msg_len = bind-Keeps (parse_put_request in_msg in_msg_len) _ λ p.
      let (r, run, valid') = add-IsValid room valid (c_str p.1) (c_str p.2) in
      rw run (same-Keeps valid' _)

  handle_message-Keeps :
      (fuel : ℕ) (room : Bool) (msg junk beyond : List ℕ)
      → Keeps (handle_message fuel room t msg junk beyond)
  unfolding handle_message
  handle_message-Keeps fuel room msg junk beyond =
      if-cases Keeps (ltb max_msg_size (length msg)) _ _ (same-Keeps valid []) (
        if-cases Keeps (length msg == 0) _ _ (same-Keeps valid _) (
          bind-Keeps (find_nul (length msg) (msg ++ junk)) _ λ nul.
            option-Keeps nul _ _ (handle_get-Keeps (msg ++ junk) beyond) λ _.
              if-cases Keeps (length msg == 1) _ _
                (bind-Keeps (dump_node fuel t) _ λ sent. same-Keeps valid sent)
                (handle_put-Keeps room (msg ++ junk) (length msg))))

-- A round that ends: with some message, some memory behind it, and memory that may be short.
pub data Step (t u : Htable) : Type 0 where
  round :
      (fuel : ℕ) (room : Bool) (msg junk beyond : List ℕ) (sent : List Datagram)
      → handle_message fuel room t msg junk beyond ≡ ok (u, sent)
      → Step t u

-- The tables of a server that runs: the new one, and those that a round leaves.
pub data IsReached : Htable → Type 0 where
  start : {t : Htable} → construct_htable true htable_size ≡ some t → IsReached t
  step : {t u : Htable} → IsReached t → Step t u → IsReached u

-- Every table that a server reaches, whatever messages it gets and whenever memory is short, is
-- valid.
pub IsReached-IsValid : {t : Htable} → IsReached t → IsValid t
IsReached-IsValid (start {t} new) =
    let (made, run, valid, _) = construct_htable-IsValid htable_size (omega arith) in
    let same : made ≡ t = cc (run, new) in subst IsValid same valid
IsReached-IsValid (step before (round fuel room msg junk beyond sent run)) =
    handle_message-Keeps (IsReached-IsValid before) fuel room msg junk beyond _ run
