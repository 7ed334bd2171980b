-- ===== src/Transfer/Losses.antt =====
-- What happens once the caches are out of step: after a failed write, or with a client that has lost
-- its cache.
use rabin_fingerprinting.Base.{
  ℕ, negsuc, ◌<◌, ◌≡◌, refl, ap, Bool, true, none, some, List, [], ◌∷◌, ◌++◌, flatten, length,
  arith, ok, fault, out_of_range, inl, inr, ==_refl, take_all,
}
use native.Mathlib.Nat.{le_refl, mod-lt}
use rabin_fingerprinting.Socket.{OutSocket, WriteOutcome, failed}
use rabin_fingerprinting.Socket.Writes.{write_failed}
use rabin_fingerprinting.Socket.Segments.{IsFlowing}
use rabin_fingerprinting.Server.Hash.{block_number}
use rabin_fingerprinting.Server.Cache.{IsValid, Flags, block_of, put-IsValid, insert_block_lem}
use rabin_fingerprinting.Server.Pieces.{InBounds}
use rabin_fingerprinting.Server.Delivery.{message, send_piece-message}
use rabin_fingerprinting.Server.{Block, BlockMap, Server, put, write_block_to_client, send_piece}
use rabin_fingerprinting.Client.{Client, receive_block}
use rabin_fingerprinting.Client.Receive.{receive_missing}
use rabin_fingerprinting.Transfer.{IsReady}

flag_true :
    (m : BlockMap) (n : ℕ) (p : List ℕ) (o : Bool) (cur : Block)
    → m n ≡ some cur
    → cur.bytes ≡ p
    → Flags m n p o
    → o ≡ true
flag_true m n p o cur e same (inl (old, _)) = old
flag_true m n p o cur e same (inr (_, fresh)) = absurd (fresh cur e same)

-- When the server's cache has a block's bytes, the server sends its descriptor only, whether or not the
-- client has ever got the data; a client without the block ends by an exception.
pub cached_block-missing :
    (r : Server) (p : List ℕ) (cur : Block) (c : Client) (rest : List ℕ)
    → IsReady r
    → InBounds p
    → let n = block_number r.max_size p in
      r.blocks n ≡ some cur
      → cur.bytes ≡ p
      → c.blocks n ≡ none
      → IsFlowing c.sockfd
      → flatten c.sockfd ≡ message n p true ++ rest
      → (r' : Server) × (send_piece r p (length p) ≡ ok r')
        × (r'.newsockfd.sent ≡ r.newsockfd.sent ++ message n p true)
        × (receive_block c ≡ fault out_of_range)
cached_block-missing r p cur c rest ready bounds e same missing flow stream =
    let n = block_number r.max_size p in
    let v = ready.valid in
    let number : n < r.max_size = mod-lt _ v.positive in
    let (o, run, flags) = send_piece-message r p v ready.reliable in
    let old : o ≡ true = flag_true r.blocks n p o cur e same flags in
    (
      record r {
        blocks = put n (block_of n p true) r.blocks;
        newsockfd = record { sent = r.newsockfd.sent ++ message n p o; outcomes = [] };
      },
      run,
      ap (λ b. r.newsockfd.sent ++ message n p b) old,
      receive_missing c n p rest (omega (arith, v.small)) bounds.0 (omega arith) flow missing
          stream,
    )

-- A descriptor that the network refuses: nothing is sent, and the block stays as it was.
failed_header :
    (r : Server) (n : ℕ) (b : Block) (rest : List WriteOutcome)
    → r.blocks n ≡ some b
    → r.newsockfd.outcomes ≡ failed ∷ rest
    → write_block_to_client r n
      ≡ ok (negsuc 0, record r { newsockfd = record { sent = r.newsockfd.sent; outcomes = rest } })
unfolding write_block_to_client
failed_header r n b rest e h = rw (e, write_block_to_client, write_failed r.newsockfd _ rest h)

-- `send_file` drops what `write_block_to_client` returns, and `insert_block` takes a block that is in
-- the cache for one that the client has. So if the network refuses the descriptor of a fresh block,
-- the block is lost: when the same bytes come again, only a descriptor is sent, and a client that has
-- had no such block ends by an exception.
pub failed_write-lost :
    (r : Server) (p : List ℕ) (c : Client) (rest : List ℕ)
    → IsValid r
    → r.newsockfd.outcomes ≡ failed ∷ []
    → InBounds p
    → let n = block_number r.max_size p in
      r.blocks n ≡ none
      → c.blocks n ≡ none
      → IsFlowing c.sockfd
      → flatten c.sockfd ≡ message n p true ++ rest
      → (r₁ r₂ : Server) × (send_piece r p (length p) ≡ ok r₁)
        × (r₁.newsockfd.sent ≡ r.newsockfd.sent)
        × (send_piece r₁ p (length p) ≡ ok r₂)
        × (r₂.newsockfd.sent ≡ r.newsockfd.sent ++ message n p true)
        × (receive_block c ≡ fault out_of_range)
unfolding send_piece
failed_write-lost r p c rest v h bounds fresh missing flow stream =
    let n = block_number r.max_size p in
    let (o, inserted, flags) =
      rw (take_all p) at (insert_block_lem r p (length p) v (le_refl (length p))) in
    let stored : Server = record r { blocks = put n (block_of n p o) r.blocks } in
    let sock : OutSocket = record { sent = r.newsockfd.sent; outcomes = [] } in
    let r₁ : Server = record stored { newsockfd = sock } in
    let valid = put-IsValid n (block_of n p o) sock v (refl, refl, mod-lt _ v.positive) in
    let header = failed_header stored n (block_of n p o) [] (rw (==_refl n)) h in
    let (r₂, run, wire, lost) =
      cached_block-missing r₁ p (block_of n p o) c rest (record { valid = valid; reliable = refl })
        bounds (rw (==_refl n)) refl missing flow stream in
    (r₁, r₂, rw (inserted, header), refl, run, wire, lost)
