-- ===== src/Client/Dumps/Packed.antt =====
-- The bytes of a packet in which a server sends pairs of its table.
use distributed_hash_table.Prelude.{
  ℕ, suc, ◌+◌, ◌<◌, ◌≤◌, List, [], ◌∷◌, ◌++◌, true, ltb, some, none, ok, non_null, ◌>>=◌, length,
  drop, read-append, read-length, length-append, arith, ◌≡◌, refl, ap, sym, ◌∙◌,
}
use mathlib.Core.List.{append_assoc, append-nil}
use distributed_hash_table.Text.{IsText, strlen-append}
use distributed_hash_table.HashTable.{KvPair}
use distributed_hash_table.HashTable.Chains.{Chain, full}
use distributed_hash_table.NetworkUtils.{format_put_request}
use distributed_hash_table.NetworkUtils.RoundTrip.{format_put_request-append}
use distributed_hash_table.Server.Dump.{max_msg_size, header_of, overwrite, add_pair, dump_loop}
use distributed_hash_table.Client.Dumps.Packets.{joined}

-- The pairs behind a first one.
unfoldable pub behind : Chain → List ℕ
behind [] = []
behind (e ∷ es) = 0 ∷ ((e.0 ++ 0 ∷ e.1) ++ behind es)

pub joined-behind :
    (e : List ℕ × List ℕ) (es : Chain) → joined (e ∷ es) ≡ (e.0 ++ 0 ∷ e.1) ++ behind es
unfolding joined behind
joined-behind e [] = sym (append-nil (e.0 ++ 0 ∷ e.1))
joined-behind e (d ∷ es) =
    sym (append_assoc e.0 (0 ∷ e.1) (0 ∷ joined (d ∷ es)))
    ∙ ap (λ m. (e.0 ++ 0 ∷ e.1) ++ 0 ∷ m) (joined-behind d es)

overwrite-drop :
    (bytes packet : List ℕ)
    → length bytes ≤ length packet
    → overwrite bytes packet ≡ ok (bytes ++ drop (length bytes) packet)
unfolding overwrite
overwrite-drop [] packet h = refl
overwrite-drop (b ∷ bytes) [] h = absurd (omega arith)
overwrite-drop (b ∷ bytes) (p ∷ packet) h = rw (overwrite-drop bytes packet (omega arith)) refl

format-packet :
    (done junk kv : List ℕ)
    → format_put_request (done ++ junk) kv (some (length done)) (some (length kv))
      ≡ ok (done ++ 0 ∷ kv)
unfolding format_put_request
format-packet done junk kv = rw (read-append done junk, read-length kv) refl

pub add_pair-next :
    (header done junk : List ℕ) (counter : ℕ) (e : List ℕ × List ℕ)
    → IsText e.0
    → IsText e.1
    → add_pair header (suc counter) e.0 e.1 (done ++ junk) (length done)
      ≡ ok (done ++ 0 ∷ (e.0 ++ 0 ∷ e.1), length (done ++ 0 ∷ (e.0 ++ 0 ∷ e.1)))
unfolding add_pair
add_pair-next header done junk counter e hk hv =
    let size : length e.0 + 1 + length e.1 ≡ length (e.0 ++ 0 ∷ e.1) =
      omega (arith, length-append e.0 (0 ∷ e.1)) in
    let total : length done + (length e.0 + 1 + length e.1 + 1)
        ≡ length (done ++ 0 ∷ (e.0 ++ 0 ∷ e.1)) =
      omega (arith, size, length-append done (0 ∷ (e.0 ++ 0 ∷ e.1))) in
    rw
      (
        format_put_request-append e.0 e.1 [] [] hk hv,
        total,
        size,
        format-packet done junk (e.0 ++ 0 ∷ e.1),
      )
      refl

pub dump_loop-step :
    (fuel counter : ℕ) (header packet : List ℕ) (size : ℕ) (e : List ℕ × List ℕ)
    (list : List KvPair) (p : List ℕ × ℕ)
    → size + (length e.0 + 1 + length e.1) < max_msg_size
    → add_pair header counter e.0 e.1 packet size ≡ ok p
    → dump_loop (suc fuel) header counter (full e ∷ list) packet size
      ≡ dump_loop fuel header (suc counter) list p.0 p.1
unfolding dump_loop
dump_loop-step fuel counter header packet size e list p h run =
    let room : ltb (size + (length e.0 + 1 + length e.1)) max_msg_size ≡ true = ground arith in
    rw (dump_loop, non_null, ◌>>=◌, room, run) refl

format-counted :
    (key value : List ℕ)
    → IsText value
    → format_put_request key (value ++ 0 ∷ []) (some (length key)) none ≡ ok (key ++ 0 ∷ value)
unfolding format_put_request
format-counted key value hv =
    rw (strlen-append value [] hv, read-length key, read-append value (0 ∷ [])) refl

pub header-length : (n : ℕ) → length (header_of n) ≡ 4
unfolding header_of
header-length n = refl

pub add_pair-first :
    (n : ℕ) (e : List ℕ × List ℕ) (packet : List ℕ)
    → IsText e.1
    → length (header_of n ++ (e.0 ++ 0 ∷ e.1)) ≤ length packet
    → add_pair (header_of n) 0 e.0 e.1 packet 0
      ≡ ok (
        (header_of n ++ (e.0 ++ 0 ∷ e.1)) ++ drop (length (header_of n ++ (e.0 ++ 0 ∷ e.1))) packet,
        length (header_of n ++ (e.0 ++ 0 ∷ e.1)),
      )
unfolding add_pair header_of
add_pair-first n e packet hv fits =
    let bytes = header_of n ++ (e.0 ++ 0 ∷ e.1) in
    let request : format_put_request (header_of n ++ e.0) (e.1 ++ 0 ∷ []) (some (4 + length e.0))
          none
        ≡ ok bytes =
      ap (λ size. format_put_request (header_of n ++ e.0) (e.1 ++ 0 ∷ []) (some size) none)
        (omega arith)
      ∙ format-counted (header_of n ++ e.0) e.1 hv in
    let size : 0 + (5 + length e.0 + length e.1) ≡ length bytes =
      omega (arith, length-append e.0 (0 ∷ e.1)) in
    rw (request, overwrite-drop bytes packet fits, size) refl
