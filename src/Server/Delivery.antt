-- ===== src/Server/Delivery.antt =====
-- What the server puts on a reliable connection, and the cache that it keeps of it.
use mathlib.Core.Path.{fun_ext}
use native.Mathlib.Nat.{le_refl}
use rabin_fingerprinting.Base.{
  ℕ, ◌≡◌, refl, sym, ap, ◌∙◌, Bool, true, false, some, List, [], ◌++◌, length, arith, if◌then◌else◌,
  ok, ℤ, pos, ==_refl, take_all, append_assoc, append-nil,
}
use rabin_fingerprinting.Wire.{to_bytes, host_desc}
use rabin_fingerprinting.Socket.Writes.{IsReliable, write-IsReliable}
use rabin_fingerprinting.Server.Hash.{block_number}
use rabin_fingerprinting.Server.Cache.{IsValid, Flags, block_of, insert_block_lem}
use rabin_fingerprinting.Server.{
  Block, BlockMap, put, Server, write_data, write_block_to_client, send_piece,
}

-- The bytes for a block on the wire: its descriptor, and its data if it is not old.
abbrev pub message : ℕ → List ℕ → Bool → List ℕ
message n p o = to_bytes (host_desc n (length p) o) ++ (if o then [] else p)

put-put : (n : ℕ) (a b : Block) (m : BlockMap) → put n b (put n a m) ≡ put n b m
put-put n a b m = fun_ext λ q. ground arith

write_block_to_client-message :
    (r : Server) (n : ℕ) (p : List ℕ) (o : Bool) (m : BlockMap)
    → IsReliable r.newsockfd
    → r.blocks ≡ put n (block_of n p o) m
    → (k : ℤ) × (write_block_to_client r n
        ≡ ok (
          k,
          record r {
            blocks = put n (block_of n p true) m;
            newsockfd = record { sent = r.newsockfd.sent ++ message n p o; outcomes = [] };
          },
        ))
unfolding write_block_to_client write_data
write_block_to_client-message r n p true m h e =
    let head = to_bytes (host_desc n (length p) true) in
    let found : r.blocks n ≡ some (block_of n p true) = rw (e, ==_refl n) in
    let w = write-IsReliable r.newsockfd head h in
    let unsent : r.newsockfd.sent ++ head ≡ r.newsockfd.sent ++ message n p true =
      ap (λ l. r.newsockfd.sent ++ l) (sym (append-nil head)) in
    (
      pos (length head),
      rw (found, write_block_to_client, w)
          (λ i. ok (
            pos (length head),
            record {
              blocks = e i;
              max_size = r.max_size;
              newsockfd = record { sent = unsent i; outcomes = [] };
            },
          )),
    )
write_block_to_client-message r n p false m h e =
    let found : r.blocks n ≡ some (block_of n p false) = rw (e, ==_refl n) in
    let head = to_bytes (host_desc n (length p) false) in
    let w = write-IsReliable r.newsockfd head h in
    let w' = write-IsReliable (record { sent = r.newsockfd.sent ++ head; outcomes = [] }) p refl in
    (
      pos (length p),
      rw (found, write_block_to_client, w, take_all p, w')
          (λ i. ok (
            pos (length p),
            record {
              blocks = (ap (put n (block_of n p true)) e ∙ put-put n _ _ m) i;
              max_size = r.max_size;
              newsockfd = record { sent = append_assoc r.newsockfd.sent head p i; outcomes = [] };
            },
          )),
    )

-- On a reliable connection the server sends a block's descriptor, with the data exactly if the cache
-- did not have these bytes under the block's number, and then the cache has them, marked as old.
pub send_piece-message :
    (r : Server) (p : List ℕ)
    → IsValid r
    → IsReliable r.newsockfd
    → let n = block_number r.max_size p in
      (o : Bool) × (send_piece r p (length p)
        ≡ ok (record r {
          blocks = put n (block_of n p true) r.blocks;
          newsockfd = record { sent = r.newsockfd.sent ++ message n p o; outcomes = [] };
        }))
      × Flags r.blocks n p o
unfolding send_piece
send_piece-message r p v h =
    let n = block_number r.max_size p in
    let (o, inserted, flags) =
      rw (take_all p) at (insert_block_lem r p (length p) v (le_refl (length p))) in
    let stored = record r { blocks = put n (block_of n p o) r.blocks } in
    let (k, run) = write_block_to_client-message stored n p o r.blocks h refl in
    (o, rw (inserted, run), flags)
