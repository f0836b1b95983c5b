-- ===== src/Cluster.antt =====
-- Clients, their servers and the network between them: the requests of network.c reach servers, and
-- the answers come back. Every request and every answer may be lost, answers may come in any order,
-- and requests of other clients may reach the servers between any two of them.
pub mod Arrivals
pub mod Replicas
pub mod Votes
pub mod Exchanges
pub mod ReadYourWrites
pub mod Provenance
pub mod Regular
pub mod Programs
pub mod Commands
pub mod NoLoss
use distributed_hash_table.Prelude.{
  ℕ, List, [], ◌∷◌, ◌++◌, Bool, ◌&&◌, if◌then◌else◌, ◌==◌, some, ok, true, ◌≡◌,
}
use distributed_hash_table.Node.{Address, Node}
use distributed_hash_table.Errors.{ErrorCode}
use distributed_hash_table.Network.{Client, Answer, Sent, network_get, network_put}
use distributed_hash_table.Server.Dump.{Datagram}
use distributed_hash_table.Server.Refinement.{Request, bytes_of, IsFit}
use distributed_hash_table.Server.Service.{Service}

abbrev pub is_at : Node → Address → Bool
is_at node a = node.addr.s_addr == a.s_addr && node.addr.sin_port == a.sin_port

-- The replies that come are some of the answers, each at most once, in any order.
pub data Arrives : List Datagram → List Datagram → Type 0 where
  timeout : {answers : List Datagram} → Arrives answers []
  reply :
      {answers replies : List Datagram} (before behind : List Datagram) (d : Datagram)
      → answers ≡ before ++ d ∷ behind
      → Arrives (before ++ behind) replies
      → Arrives answers (d ∷ replies)

module _ (service : Service) where
  -- The state of the server at each address.
  abbrev pub Cluster : Type 0
  Cluster = Address → service.State

  abbrev pub update : Cluster → Node → service.State → Cluster
  update c node t = λ a. if is_at node a then t else c a

  -- What a client sends reaches the servers or is lost. In between, requests of other clients for
  -- which `Other` holds reach servers. The cluster before, what is sent, the cluster behind, and the
  -- answers to what is sent. The requests of one client go to distinct servers, so that the order
  -- among them tells nothing.
  pub data Exchange (Other : Request → Type 0)
      : Cluster → Sent → Cluster → List Datagram → Type 0 where
    done : {c : Cluster} → Exchange Other c [] c []
    lost :
        {c c' : Cluster} {msg : Datagram} {node : Node} {sent : Sent} {answers : List Datagram}
        → Exchange Other c sent c' answers
        → Exchange Other c ((msg, node) ∷ sent) c' answers
    arrived :
        {c c' : Cluster} {msg : Datagram} {node : Node} {sent : Sent}
        {answers now later : List Datagram} (t : service.State)
        → service.handle (c node.addr) msg ≡ ok (t, now)
        → Exchange Other (update c node t) sent c' later
        → answers ≡ now ++ later
        → Exchange Other c ((msg, node) ∷ sent) c' answers
    other_arrived :
        {c c' : Cluster} {sent : Sent} {answers now : List Datagram} (r : Request) (node : Node)
        (t : service.State)
        → IsFit r
        → Other r
        → service.handle (c node.addr) (bytes_of r) ≡ ok (t, now)
        → Exchange Other (update c node t) sent c' answers
        → Exchange Other c sent c' answers

  -- Between `network_put` and `network_get` on one side and the servers on the other: the replies
  -- are among the answers. What the client reports, and the cluster behind.
  module _ (Other : Request → Type 0) (sha1 : List ℕ → List ℕ) (client : Client) (c : Cluster)
      (key : List ℕ) where
    pub data Puts (value : List ℕ) : ErrorCode → Cluster → Type 0 where
      put_exchange :
          {error : ErrorCode} {c' : Cluster} {sent : Sent} {replies answers : List Datagram}
          → network_put sha1 true client (some key) (some value) replies ≡ ok (error, sent)
          → Exchange Other c sent c' answers
          → Arrives answers replies
          → Puts value error c'

    pub data Gets : Answer → Cluster → Type 0 where
      get_exchange :
          {answer : Answer} {c' : Cluster} {sent : Sent} {replies answers : List Datagram}
          → network_get sha1 true client key replies ≡ ok (answer, sent)
          → Exchange Other c sent c' answers
          → Arrives answers replies
          → Gets answer c'
