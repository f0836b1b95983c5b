-- ===== src/Client/Ending.antt =====
-- `client_end` of client.c, and the memory of a client's ring from its start to its end.
use mathlib.Core.List.{Permᴰ}
use distributed_hash_table.Prelude.{ℕ, List, Run, ok, ◌>>=◌, ◌≡◌, refl, Returns}
use distributed_hash_table.Args.{Args}
use distributed_hash_table.Node.{Node}
use distributed_hash_table.NodeList.Lifetimes.{
  StoredNode, Memory, StoredList, stored_list_new, add_each, node_list_sort, ring_free, load_nodes,
}
use distributed_hash_table.NodeList.Loading.{Below}
use distributed_hash_table.NodeList.Ownership.{node_list_free-add_each}

-- `client_t` as it is stored: the socket's number, the options and the ring.
pub record StoredClient : Type 0 where
  pub socket : ℕ
  pub args : Args
  pub server : StoredList

-- What is closed and freed, the memory of digests behind it, and the client's ring.
pub record Ended : Type 0 where
  pub closed : ℕ
  pub freed : Args
  pub memory : Memory
  pub server : StoredList

unfoldable pub client_end : Memory → StoredClient → Run Ended
unfolding ring_free
client_end memory client = ring_free memory client.server >>= λ r.
    ok (record { closed = client.socket; freed = client.args; memory = r.0; server = r.1 })

-- A client whose ring is a sorted list of copies leaves no digest of it, and closes its socket.
client_end-add_each :
    (base : Memory) (sort : List StoredNode → List StoredNode) (nodes : List StoredNode)
    (copied : List Node) (socket : ℕ) (args : Args)
    → ((nodes : List StoredNode) → Permᴰ nodes (sort nodes))
    → Below base.next base.digests
    → load_nodes base.digests nodes ≡ ok copied
    → Returns (add_each (stored_list_new base).0 (stored_list_new base).1 nodes) λ made.
      Returns
        (client_end made.0
          (record { socket = socket; args = args; server = node_list_sort sort made.1 }))
        λ e. (e.closed ≡ socket) × (e.freed ≡ args) × (e.memory.digests ≡ base.digests)
unfolding client_end
client_end-add_each base sort nodes copied socket args sorts below e =
    let (made, run, (stored, nodes_are, counted, loads, (freed, run', (digests, arrays, gone)))) =
      node_list_free-add_each base sort nodes copied sorts below e in
    (
      made,
      run,
      (
        record { closed = socket; freed = args; memory = freed.0; server = freed.1 },
        rw run' refl,
        (refl, refl, digests),
      ),
    )
