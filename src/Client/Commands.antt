-- ===== src/Client/Commands.antt =====
-- pps-client-get.c, -put.c, -cat.c, -find.c and -substr.c: what each program sends and prints.
-- `strtod_end` is the text that `strtod` of stdlib.h leaves. The byte that `strcat` of
-- pps-client-cat.c writes behind its buffer is taken to do no harm.
use distributed_hash_table.Prelude.{
  ℕ, ◌+◌, List, [], ◌∷◌, ◌++◌, Bool, true, false, ◌&&◌, if◌then◌else◌, ◌==◌, ltb, Option, none,
  some, Run, ok, fault, ◌>>=◌, non_null, at, length,
}
use distributed_hash_table.Errors.{err_none}
use distributed_hash_table.HashTable.{size_max}
use distributed_hash_table.Args.{total_servers, get_needed, put_needed}
use distributed_hash_table.Node.{Node}
use distributed_hash_table.NodeList.{NodeList}
use distributed_hash_table.Network.{Client, Sent, network_get, network_put}
use distributed_hash_table.Server.Dump.{Datagram}
use distributed_hash_table.Client.{argv_size, client_init}
use distributed_hash_table.Client.Substrings.{string_to_int, substring_of}

-- What a program meets: the list of servers, the socket, memory, and the replies to its requests,
-- in the order in which it makes them. `stack` is what an array finds that is not initialised.
pub record World : Type 0 where
  pub sha1 : List ℕ → List ℕ
  pub sort : List Node → List Node
  pub get_nodes : Option NodeList
  pub socket : Bool
  pub room : Bool
  pub replies : ℕ → List Datagram
  pub strtod_end : List ℕ → List ℕ
  pub stack : ℕ → ℕ

-- What is printed last: `none` is a place of -1.
pub data Output : Type 0 where
  fail : Output
  done : Output
  value : List ℕ → Output
  place : Option ℕ → Output

-- `exit_ok`: the program returns 0.
pub record Finished : Type 0 where
  pub output : Output
  pub exit_ok : Bool
  pub sent : Sent

abbrev pub failed : Sent → Finished
failed sent = record { output = fail; exit_ok = false; sent = sent }

abbrev pub succeeded : Output → Sent → Finished
succeeded output sent = record { output = output; exit_ok = true; sent = sent }

-- The client and the arguments that are left; `none` where the program says FAIL.
unfoldable pub started : World → ℕ → ℕ → List (List ℕ) → Run (Option (Client × List (List ℕ)))
started world required optionnal argv =
    client_init world.sort world.get_nodes world.socket required optionnal argv >>= λ r. elim r.0 [
      | err_none ↦ elim r.1 [ none ↦ fault | some client ↦ ok (some (client, r.2)) ]
      | _ ↦ ok none
    ]

-- The `request`-th request of the program is a get. `none` is an error.
unfoldable pub get_value : World → Client → ℕ → List ℕ → Run (Option (List ℕ) × Sent)
get_value world client request key =
    network_get world.sha1 world.room client key (world.replies request) >>= λ r. elim r.0.0 [
      | err_none ↦ (non_null r.0.1 >>= λ v. ok (some v, r.1))
      | _ ↦ ok (none, r.1)
    ]

-- The last put of a program.
unfoldable pub put_value : World → Client → ℕ → List ℕ → List ℕ → Sent → Run Finished
put_value world client request key text sent =
    network_put world.sha1 world.room client (some key) (some text) (world.replies request) >>= λ r.
    elim r.0 [ err_none ↦ ok (succeeded done (sent ++ r.1)) | _ ↦ ok (failed (sent ++ r.1)) ]

unfoldable pub pps_client_get : World → List (List ℕ) → Run Finished
unfolding started get_value
pps_client_get world argv = started world 1 (total_servers + get_needed) argv >>= λ s. elim s [
  | none ↦ ok (failed [])
  | some p ↦ do
    key ← at p.1 0
    (text, sent) ← get_value world p.0 0 key
    elim text [ none ↦ ok (failed sent) | some t ↦ ok (succeeded (value t) sent) ]
]

unfoldable pub pps_client_put : World → List (List ℕ) → Run Finished
unfolding started put_value
pps_client_put world argv = started world 2 (total_servers + put_needed) argv >>= λ s. elim s [
  | none ↦ ok (failed [])
  | some p ↦ do key ← at p.1 0; text ← at p.1 1; put_value world p.0 0 key text []
]

-- The loop over the keys from the second on, but the last: the text so far and what was sent.
unfoldable pub cat_loop :
    World → Client → ℕ → List (List ℕ) → List ℕ → Sent → Run (Option (List ℕ) × Sent)
cat_loop world client request [] concat sent = ok (some concat, sent)
cat_loop world client request (key ∷ keys) concat sent = get_value world client request key >>= λ r.
    elim r.0 [
      | none ↦ ok (none, sent ++ r.1)
      | some text ↦ cat_loop world client (request + 1) keys (concat ++ text) (sent ++ r.1)
    ]

abbrev pub max_mandatory_arguments : ℕ
max_mandatory_arguments = 300

-- The keys before the last one, and the last one.
unfoldable pub split_last : List ℕ → List (List ℕ) → List (List ℕ) × List ℕ
split_last key [] = ([], key)
split_last key (next ∷ keys) = let (front, output) = split_last next keys in (key ∷ front, output)

unfoldable pub pps_client_cat : World → List (List ℕ) → Run Finished
unfolding started cat_loop split_last
pps_client_cat world argv =
    started world size_max (total_servers + put_needed + get_needed) argv >>= λ s. elim s [
      | none ↦ ok (failed [])
      | some p ↦
          if ltb (argv_size p.1) 2
          then ok (failed [])
          else if ltb max_mandatory_arguments (argv_size p.1)
          then fault
          else elim p.1 [
            | [] ↦ fault
            | ◌∷◌ key keys ↦
                let (front, output_key) = split_last key keys in
                cat_loop world p.0 0 front [] [] >>= λ r. elim r.0 [
                  | none ↦ ok (failed r.1)
                  | some concat ↦ put_value world p.0 (length front) output_key concat r.1
                ]
          ]
    ]

unfoldable pub is_prefix : List ℕ → List ℕ → Bool
is_prefix [] text = true
is_prefix (b ∷ pattern) [] = false
is_prefix (b ∷ pattern) (c ∷ text) = b == c && is_prefix pattern text

-- `strstr(text, pattern) - text` of string.h, counted from `start`; `none` for NULL.
unfoldable pub strstr : ℕ → List ℕ → List ℕ → Option ℕ
unfolding is_prefix
strstr start [] pattern = if is_prefix pattern [] then some start else none
strstr start (c ∷ text) pattern =
    let rest = strstr (start + 1) text pattern in
    if is_prefix pattern (c ∷ text) then some start else rest

-- Where a get fails, the program frees a pointer that was never set.
unfoldable pub pps_client_find : World → List (List ℕ) → Run Finished
unfolding started get_value strstr
pps_client_find world argv = started world 2 (total_servers + get_needed + put_needed) argv >>= λ s.
    elim s [
      | none ↦ ok (failed [])
      | some p ↦ do
        key ← at p.1 0
        key' ← at p.1 1
        (first, sent) ← get_value world p.0 0 key
        (second, sent') ← get_value world p.0 1 key'
        text ← non_null first
        pattern ← non_null second
        ok (succeeded (place (strstr 0 text pattern)) (sent ++ sent'))
    ]

unfoldable pub pps_client_substr : World → List (List ℕ) → Run Finished
unfolding started get_value put_value
pps_client_substr world argv =
    started world 4 (total_servers + put_needed + get_needed) argv >>= λ s. elim s [
      | none ↦ ok (failed [])
      | some p ↦ do
        key_from ← at p.1 0
        position_text ← at p.1 1
        length_text ← at p.1 2
        key_to ← at p.1 3
        let position = string_to_int world.strtod_end position_text
        let size = string_to_int world.strtod_end length_text
        elim position.0 [
          | err_none ↦ elim size.0 [
            | err_none ↦ do
              position' ← non_null position.1
              size' ← non_null size.1
              (text, sent) ← get_value world p.0 0 key_from
              elim text [
                | none ↦ ok (failed sent)
                | some t ↦ substring_of world.stack t position' size' >>= λ substring.
                    elim substring [
                      | none ↦ ok (failed sent)
                      | some s ↦ put_value world p.0 1 key_to s sent
                    ]
              ]
            | _ ↦ ok (failed [])
          ]
          | _ ↦ ok (failed [])
        ]
    ]
