-- ===== src/Cluster/Commands.antt =====
-- What pps-client-get prints behind pps-client-put or pps-client-cat.
use mathlib.Core.List.{Memᴰ}
use distributed_hash_table.Prelude.{
  ℕ, suc, ◌+◌, ◌<◌, ◌≤◌, List, [], ◌∷◌, ◌++◌, true, some, ok, ◌≡◌, length,
}
use distributed_hash_table.HashTable.{size_max}
use distributed_hash_table.Args.{Args, total_servers, get_needed, put_needed}
use distributed_hash_table.Node.{Node}
use distributed_hash_table.Network.{Sent}
use distributed_hash_table.Server.Dump.{max_msg_elem_size}
use distributed_hash_table.Server.Refinement.{Request, put, IsFit}
use distributed_hash_table.Server.Service.{pps_server}
use distributed_hash_table.Client.Commands.{
  World, done, value, started, pps_client_get, pps_client_put, pps_client_cat,
  max_mandatory_arguments,
}
use distributed_hash_table.Client.Concatenation.{Reads, concatenation}
use distributed_hash_table.Cluster.{Cluster}
use distributed_hash_table.Cluster.Exchanges.{client_of}
use distributed_hash_table.Cluster.Provenance.{History}
use distributed_hash_table.Cluster.Regular.{IsWritten, read_back}
use distributed_hash_table.Cluster.Programs.{
  Ends, pps_client_put-Puts, pps_client_cat-Puts, pps_client_get-Gets,
}

-- Two programs are run one behind the other, each on a ring that is not empty and that is the same
-- for both, with memory enough, and the second is a get of the key that the first one writes.
module _ (fuel : ℕ) (junk beyond : List ℕ) (far : max_msg_elem_size ≤ length beyond)
    (writer reader : World) (argv argv' : List (List ℕ)) (allocated left : ℕ) (n : Node)
    (ring : List Node) (args args' : Args) (requests further : List Request)
    (c c' c'' : Cluster (pps_server fuel junk beyond far)) (same_sha1 : reader.sha1 ≡ writer.sha1)
    (writer_room : writer.room ≡ true) (reader_room : reader.room ≡ true) (en : args.n ≡ suc left)
    (en' : args'.n ≡ suc left) (hw : 0 < args.w) (hr : 0 < args'.r) (small : args'.r ≤ 127)
    (overlap : args.n < args'.r + args.w)
    (history : History (pps_server fuel junk beyond far) requests c) where
  abbrev Other : Request → Type 0
  Other r = Memᴰ r further

  -- Servers of pps-launch-server.c start with empty tables, and requests of strings that fit arrive
  -- at them in any order; memory is not short, a NUL is behind each message in a server's buffer,
  -- and behind a value there is enough memory to read. pps-client-put is started with a key and a
  -- value, strings that fit, and prints OK. Then pps-client-get is started with the key, on the same
  -- ring, which is not empty, and with the same positive N; the W of the first, positive, and the R
  -- of the second, from 1 to 127, are together more than N. While they run, further requests arrive.
  -- A value that pps-client-get prints is the one that pps-client-put was given, or one that a
  -- further request puts for the key.
  pub pps_client_get-pps_client_put :
      (key text v : List ℕ)
      → IsFit (put key text)
      → started writer 2 (total_servers + put_needed) argv
        ≡ ok (some (client_of allocated n ring args, key ∷ text ∷ []))
      → started reader 1 (total_servers + get_needed) argv'
        ≡ ok (some (client_of allocated n ring args', key ∷ []))
      → Ends
          (pps_server fuel junk beyond far)
          Other
          (pps_client_put writer argv)
          done
          []
          (writer.replies 0)
          c
          c'
      → Ends
          (pps_server fuel junk beyond far)
          Other
          (pps_client_get reader argv')
          (value v)
          []
          (reader.replies 0)
          c'
          c''
      → IsWritten key text further v
  pps_client_get-pps_client_put key text v fit run run' stored printed_v =
      let service = pps_server fuel junk beyond far in
      let puts =
        pps_client_put-Puts service Other writer argv (client_of allocated n ring args) key text c
          c' writer_room run stored in
      let gets =
        pps_client_get-Gets service Other reader argv' (client_of allocated n ring args') key v c'
          c'' reader_room run' printed_v in
      read_back service writer.sha1 allocated left n ring args args' requests further key text v c
        c' c'' en en' hw hr small overlap fit history puts (rw same_sha1 at gets)

  -- The same of pps-client-cat: servers, rings, N, W and R are as for pps-client-put. It is started
  -- with one key or more before the key that it writes, 300 in all at most, and reads a text for
  -- each of them; these texts one behind the other and the last key fit. It prints OK. A value that
  -- pps-client-get prints of the last key is these texts one behind the other, or one that a further
  -- request puts for that key.
  pub pps_client_get-pps_client_cat :
      (key : List ℕ) (keys : List (List ℕ)) (output : List ℕ) (texts : List (List ℕ)) (sent : Sent)
      (v : List ℕ)
      → IsFit (put output (concatenation texts))
      → length keys + 2 ≤ max_mandatory_arguments
      → started writer size_max (total_servers + put_needed + get_needed) argv
        ≡ ok (some (client_of allocated n ring args, key ∷ (keys ++ output ∷ [])))
      → Reads writer (client_of allocated n ring args) 0 (key ∷ keys) texts sent
      → started reader 1 (total_servers + get_needed) argv'
        ≡ ok (some (client_of allocated n ring args', output ∷ []))
      → Ends
          (pps_server fuel junk beyond far)
          Other
          (pps_client_cat writer argv)
          done
          sent
          (writer.replies (length (key ∷ keys)))
          c
          c'
      → Ends
          (pps_server fuel junk beyond far)
          Other
          (pps_client_get reader argv')
          (value v)
          []
          (reader.replies 0)
          c'
          c''
      → IsWritten output (concatenation texts) further v
  pps_client_get-pps_client_cat key keys output texts sent v fit few run reads run' stored
        printed_v =
      let service = pps_server fuel junk beyond far in
      let puts =
        pps_client_cat-Puts service Other writer argv (client_of allocated n ring args) key keys
          output texts sent c c' writer_room run few reads stored in
      let gets =
        pps_client_get-Gets service Other reader argv' (client_of allocated n ring args') output v
          c' c'' reader_room run' printed_v in
      read_back service writer.sha1 allocated left n ring args args' requests further output
        (concatenation texts) v c c' c'' en en' hw hr small overlap fit history puts
        (rw same_sha1 at gets)
