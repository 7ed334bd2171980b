-- ===== src/Tests.antt =====
-- The model of the file transfer at concrete inputs, and the theorems applied there.
pub mod BridgeEndings
pub mod BridgeRounds
pub mod Bridges
pub mod Interpreters
pub mod Lifetimes
pub mod Mains
pub mod Memories
pub mod Receivers
pub mod OldInterpreters
pub mod Parts
pub mod Plumbing
pub mod Proxies
pub mod Relays
pub mod Sessions
pub mod Transfers
use Prim.Native.Nat.{compare}
use rabin_fingerprinting.Base.{
  ℕ, ◌+◌, ◌%◌, ◌^◌, ◌≡◌, ◌≤◌, refl, true, false, none, some, List, [], ◌∷◌, ◌++◌, length, take,
  drop, flatten, replicate, arith, ok, Bool, Result, fault, pos, inl, inr,
}
use rabin_fingerprinting.Wire.{
  BlockDesc, to_bytes, from_bytes, host_desc, htonl, ntohl, le_bytes, of_le_bytes,
}
use rabin_fingerprinting.Socket.{
  InSocket, OutSocket, WriteOutcome, failed, accepts, write, read, read_loop, read_full,
}
use rabin_fingerprinting.Server.{
  Server, Progress, Block, put, hash_step, hash_loop, hash_function, rabin_func, memcmp_ne,
  store_block, insert_block, write_block_to_client, send_piece, send_until, send_round, send_loop,
  send_tail, send_file,
}
use rabin_fingerprinting.Client.{
  Client, Reception, get_block, insert_block as client_insert_block, receive_block, received,
  receive_loop, receive_file,
}
use rabin_fingerprinting.Server.Cache.{empty_server}
use rabin_fingerprinting.Server.Pieces.{split, pieces}

-- Everything that a run of the server and the client computes with.
runs : Unit {0}
unfolding to_bytes from_bytes host_desc htonl ntohl le_bytes of_le_bytes write read read_loop
    read_full hash_step hash_loop hash_function rabin_func memcmp_ne store_block insert_block
    write_block_to_client send_piece send_until send_round send_loop send_tail send_file get_block
    client_insert_block receive_block received receive_loop receive_file flatten split pieces
runs = tt

abbrev connection : OutSocket
connection = record { sent = []; outcomes = [] }

-- A server that loses nothing, and one whose next write is refused.
abbrev start : Server
start = empty_server 1000 connection

abbrev refused : Server
refused = empty_server 1000 (record { sent = []; outcomes = failed ∷ [] })

abbrev page : List ℕ
page = 104 ∷ 101 ∷ 108 ∷ 108 ∷ 111 ∷ 10 ∷ []

-- The descriptor of the page's only block, its data, and the end of the file.
abbrev header : List ℕ
header = 0 ∷ 0 ∷ 1 ∷ 83 ∷ 0 ∷ 0 ∷ 0 ∷ 6 ∷ 0 ∷ 0 ∷ 0 ∷ 0 ∷ 0 ∷ []

abbrev old_header : List ℕ
old_header = 0 ∷ 0 ∷ 1 ∷ 83 ∷ 0 ∷ 0 ∷ 0 ∷ 6 ∷ 0 ∷ 0 ∷ 0 ∷ 0 ∷ 1 ∷ []

abbrev end_of_file : List ℕ
end_of_file = replicate 13 0

abbrev page_bytes : List ℕ
page_bytes = header ++ (page ++ end_of_file)

-- The server after the page.
abbrev page_block : Bool → Block
page_block o = record { block_num = 339; data_size = 6; old = o; bytes = page }

abbrev served : Server
served = record {
  blocks = put 339 (page_block true) (put 339 (page_block false) (λ _. none));
  max_size = 1000;
  newsockfd = record { sent = page_bytes; outcomes = [] };
}

-- A client with an empty cache, before the page in three segments.
abbrev segments : InSocket
segments = take 5 page_bytes ∷ take 10 (drop 5 page_bytes) ∷ drop 15 page_bytes ∷ []

abbrev listener : Client
listener = record { blocks = λ _. none; sockfd = segments }

send_page : send_file start page 6 ≡ ok (2, served)
unfolding runs
send_page = refl

receive_page : elim (receive_file listener []) [ ok q ↦ q.file | fault e ↦ [] ] ≡ page
unfolding runs
receive_page = refl

-- The second time only the descriptors are sent.
send_page_again :
    elim (send_file served page 6) [ ok (k, r) ↦ drop 32 r.newsockfd.sent | fault e ↦ [] ]
    ≡ old_header ++ end_of_file
unfolding runs
send_page_again = refl
