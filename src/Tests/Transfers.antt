-- ===== src/Tests/Transfers.antt =====
-- The theorems on whole transfers at the page of `Tests`.
use rabin_fingerprinting.Base.{
  ℕ, ◌+◌, ◌*◌, ◌≡◌, ◌≤◌, refl, true, none, List, [], ◌∷◌, ◌++◌, All, length, flatten, arith, ok,
  fault, out_of_range, ◌>>=◌,
}
use rabin_fingerprinting.Server.Cache.{IsValid, empty_server-IsValid}
use rabin_fingerprinting.Server.Pieces.{pieces, InBounds}
use rabin_fingerprinting.Server.Sending.{send_all, send_eof, send_file-pieces}
use rabin_fingerprinting.Server.Totality.{send_file-IsValid, send_file-InBounds}
use rabin_fingerprinting.Server.Delivery.{message}
use rabin_fingerprinting.Server.{Block, Server, send_file, send_piece}
use rabin_fingerprinting.Client.{Client, receive_block, receive_file}
use rabin_fingerprinting.Transfer.{IsReady, Synced}
use rabin_fingerprinting.Transfer.Files.{Receives, receive_file-send_file}
use rabin_fingerprinting.Transfer.Losses.{failed_write-lost, cached_block-missing}
use rabin_fingerprinting.Tests.{
  runs, connection, start, refused, page, page_block, page_bytes, old_header, served, listener,
  send_page,
}

pub start-IsValid : IsValid start
start-IsValid = empty_server-IsValid 1000 connection (omega arith) (omega arith)

pub start-IsReady : IsReady start
start-IsReady = record { valid = start-IsValid; reliable = refl }

pub start-Synced : Synced start listener
start-Synced = record { settled = λ n b e. cc; held = λ n b e. cc }

receive_file-send_file_example :
    (c' : Client) × (receive_file listener []
      ≡ ok (record { num_blocks = 2; file = page; client = c' }))
    × Receives served c' []
unfolding flatten
receive_file-send_file_example =
    receive_file-send_file start served listener page 6 2 page_bytes [] [] start-IsReady
      start-Synced (omega arith) (omega arith) send_page refl (omega arith) refl

send_file-pieces_example :
    send_file start page 6
    ≡ (send_all start (pieces 1000 page) >>= send_eof (length (pieces 1000 page)))
send_file-pieces_example = send_file-pieces start page 6 start-IsValid (omega arith) (omega arith)

send_file-IsValid_example :
    (k : ℕ) × (r' : Server) × (send_file refused page 6 ≡ ok (k + 1, r'))
    × IsValid r'
    × (k ≤ 6)
    × (6 ≤ 64 * k)
send_file-IsValid_example =
    send_file-IsValid refused page 6 (empty_server-IsValid 1000 _ (omega arith) (omega arith))
      (omega arith) (omega arith)

send_file-InBounds_example :
    (ps : List (List ℕ)) × (send_file start page 6 ≡ (send_all start ps >>= send_eof (length ps)))
    × All InBounds ps
    × (flatten ps ≡ page)
send_file-InBounds_example =
    send_file-InBounds start page 6 start-IsValid (omega arith) (omega arith)

-- A client that gets the old header of the page with an empty cache.
abbrev newcomer : Client
newcomer = record { blocks = λ _. none; sockfd = old_header ∷ [] }

page_number : rabin_fingerprinting.Server.Hash.block_number 1000 page ≡ 339
unfolding runs
page_number = refl

failed_write-lost_example :
    (r₁ r₂ : Server) × (send_piece refused page 6 ≡ ok r₁)
    × (r₁.newsockfd.sent ≡ [])
    × (send_piece r₁ page 6 ≡ ok r₂)
    × (r₂.newsockfd.sent ≡ message 339 page true)
    × (receive_block newcomer ≡ fault out_of_range)
unfolding runs
failed_write-lost_example =
    failed_write-lost refused page newcomer []
      (empty_server-IsValid 1000 _ (omega arith) (omega arith)) refl (omega arith) refl refl
      (omega arith) refl

pub served-IsReady : IsReady served
unfolding flatten
served-IsReady =
    (receive_file-send_file start served listener page 6 2 page_bytes [] [] start-IsReady
      start-Synced (omega arith) (omega arith) send_page refl (omega arith) refl).2.ready

cached_block-missing_example :
    (r' : Server) × (send_piece served page 6 ≡ ok r')
    × (r'.newsockfd.sent ≡ page_bytes ++ message 339 page true)
    × (receive_block newcomer ≡ fault out_of_range)
unfolding runs
cached_block-missing_example =
    cached_block-missing served page (page_block true) newcomer [] served-IsReady (omega arith) refl
      refl refl (omega arith) refl
