-- ===== src/Tests/Addresses.antt =====
-- The listing of three servers, with addresses as dotted numbers.
use distributed_hash_table.Prelude.{
  ℕ, ◌/◌, ◌%◌, ◌^◌, ◌<◌, List, [], ◌∷◌, ◌++◌, map, if◌then◌else◌, ok, take, arith, ◌≡◌, refl,
}
use distributed_hash_table.Numbers.{isdigit, decimal}
use distributed_hash_table.Node.{Address, htons}
use distributed_hash_table.Client.Listing.{ok_text, fail_text, statuses}
use distributed_hash_table.Client.Listing.Addresses.{
  IsNtoa, AllShortAddress, Without, append-Without, decimal-Without, decimal-inj, split_at, heard,
}
use distributed_hash_table.Client.Listing.Statuses.{statuses-eq}
use distributed_hash_table.Tests.Data.{first_node, other_nodes}

-- The byte of an address at a place.
abbrev octet : ℕ → ℕ → ℕ
octet a place = a / place % 256

abbrev dotted : ℕ → List ℕ
dotted a =
    decimal (octet a 1)
    ++ b'.'
      ∷ (decimal (octet a (2 ^ 8))
          ++ b'.' ∷ (decimal (octet a (2 ^ 16)) ++ b'.' ∷ decimal (octet a (2 ^ 24))))

octet-no_dot : (a place : ℕ) → Without b'.' (decimal (octet a place))
unfolding isdigit
octet-no_dot a place = decimal-Without b'.' (octet a place) refl

octet-no_space : (a place : ℕ) → Without 32 (decimal (octet a place))
unfolding isdigit
octet-no_space a place = decimal-Without 32 (octet a place) refl

octet-decimal :
    (a b place : ℕ)
    → decimal (octet a place) ≡ decimal (octet b place)
    → octet a place ≡ octet b place
octet-decimal a b place = decimal-inj (octet a place) (octet b place) (omega arith) (omega arith)

dotted-distinct : (a b : ℕ) → a < 2 ^ 32 → b < 2 ^ 32 → dotted a ≡ dotted b → a ≡ b
dotted-distinct a b ha hb e =
    let (first, rest) = split_at b'.' _ _ _ _ (octet-no_dot a 1) (octet-no_dot b 1) e in
    let (second, rest') =
      split_at b'.' _ _ _ _ (octet-no_dot a (2 ^ 8)) (octet-no_dot b (2 ^ 8)) rest in
    let (third, fourth) =
      split_at b'.' _ _ _ _ (octet-no_dot a (2 ^ 16)) (octet-no_dot b (2 ^ 16)) rest' in
    omega (
      arith,
      octet-decimal a b 1 first,
      octet-decimal a b (2 ^ 8) second,
      octet-decimal a b (2 ^ 16) third,
      octet-decimal a b (2 ^ 24) fourth,
    )

dotted-Without : (a : ℕ) → a < 2 ^ 32 → Without 32 (dotted a)
dotted-Without a h = append-Without 32 _ _ (octet-no_space a 1) (
  cc,
  append-Without 32 _ _ (octet-no_space a (2 ^ 8))
      (cc, append-Without 32 _ _ (octet-no_space a (2 ^ 16)) (cc, octet-no_space a (2 ^ 24))),
)

dotted-IsNtoa : IsNtoa dotted
dotted-IsNtoa = record { distinct = dotted-distinct; no_space = dotted-Without }

abbrev answers : List Address
answers = first_node.addr ∷ []

answers-short : AllShortAddress dotted answers
unfolding decimal htons
answers-short = (omega arith, tt)

nodes-short : AllShortAddress dotted (map (λ node. node.addr) (first_node ∷ other_nodes))
unfolding decimal htons
nodes-short = (omega arith, (omega arith, (omega arith, tt)))

statuses-eq_example :
    statuses dotted answers (first_node ∷ other_nodes)
    ≡ ok (
        map
          (λ node. (node, if heard (take 3 answers) node.addr then ok_text else fail_text))
          (first_node ∷ other_nodes))
statuses-eq_example =
    statuses-eq dotted-IsNtoa answers first_node other_nodes answers-short nodes-short
