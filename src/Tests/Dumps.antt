-- ===== src/Tests/Dumps.antt =====
-- The content of a server with two pairs that do not fit in one packet, sent and read.
use distributed_hash_table.Prelude.{
  ℕ, zero, suc, List, [], ◌∷◌, true, none, some, ok, length, replicate, length-replicate, arith,
  ◌≡◌, Returns,
}
use distributed_hash_table.Text.{IsText}
use distributed_hash_table.HashTable.Tables.{table_of}
use distributed_hash_table.HashTable.{get_htable_content}
use distributed_hash_table.HashTable.Chains.{full}
use distributed_hash_table.HashTable.Content.{content-table_of}
use distributed_hash_table.Server.Dump.{dump_node, header_of}
use distributed_hash_table.Client.Dumps.{read_dump}
use distributed_hash_table.Client.Dumps.Packets.{joined}
use distributed_hash_table.Client.Dumps.TwoPackets.{dump_node-read_dump-none}
use distributed_hash_table.Tests.Data.{city, zip}

-- A value of which only one fits in a packet.
abbrev long : List ℕ
long = replicate 40000 b'a'

replicate-IsText : (n : ℕ) → IsText (replicate n b'a')
replicate-IsText zero = tt
replicate-IsText (suc n) = (omega arith, replicate-IsText n)

length-long : length long ≡ 40000
length-long = length-replicate {A = ℕ} 40000 b'a'

long-content :
    get_htable_content true (table_of (((city, long) ∷ (zip, long) ∷ []) ∷ []))
    ≡ ok (some (record { size = 2; list = full (city, long) ∷ full (zip, long) ∷ [] }))
long-content = content-table_of (((city, long) ∷ (zip, long) ∷ []) ∷ [])

dump_node-read_dump-none_example :
    Returns
      (dump_node 4 (table_of (((city, long) ∷ (zip, long) ∷ []) ∷ [])))
      λ packets. (length packets ≡ 2) × (read_dump packets ≡ ok none)
dump_node-read_dump-none_example =
    dump_node-read_dump-none (table_of (((city, long) ∷ (zip, long) ∷ []) ∷ [])) (city, long)
      (zip, long) [] [] 2 4 (omega arith) long-content
      (omega arith, replicate-IsText 40000, omega arith, omega (arith, length-long), tt)
      (omega arith, replicate-IsText 40000, omega arith, omega (arith, length-long), tt)
      (unfold header_of joined in omega (arith, length-long))
      (unfold header_of joined in omega (arith, length-long))
      (unfold joined in omega (arith, length-long)) (omega arith)
