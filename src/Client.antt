-- ===== src/Client.antt =====
-- `RabinClient` of Client/rabinclient.h and Client/rabinclient.cc (the copies under
-- Integration/tcpclient are the same text). Its `block` is a copy of the server's, so it is the same
-- record here. A file is the list of the bytes written to it.
pub mod Receive
pub mod Loop
use rabin_fingerprinting.Base.{
  ℕ, zero, suc, ◌+◌, ◌%◌, ◌^◌, Bool, true, false, Option, none, some, List, [], ◌++◌, take, flatten,
  length, ◌==◌, if◌then◌else◌, Result, ok, fault, out_of_range, out_of_fuel, exits, ◌>>=◌, ℤ,
  is_negative,
}
use rabin_fingerprinting.Wire.{BlockDesc, ntohl, from_bytes, sizeof_block_desc}
use rabin_fingerprinting.Socket.{InSocket, read_full}
use rabin_fingerprinting.Server.{Block, BlockMap, put}

pub record Client : Type 0 where
  pub blocks : BlockMap
  pub sockfd : InSocket

-- The constructor: `timeout_set` is what `setsockopt` returned, `host_found` whether `gethostbyname`
-- returned a host.
unfoldable pub new_client : ℤ → Bool → Result Client
new_client timeout_set host_found =
    if is_negative timeout_set
    then fault (exits 1)
    else (if host_found then ok (record { blocks = λ _. none; sockfd = [] }) else fault (exits 1))

-- `connect_to_server`: `connected` is what `connect` returned, `server` the stream from the server.
unfoldable pub connect_to_server : Client → ℤ → InSocket → ℤ × Client
connect_to_server c connected server =
    if is_negative connected then (connected, c) else (connected, record c { sockfd = server })

-- `insert_block` keeps the buffer itself as the block's data, and replaces an old block.
unfoldable pub insert_block : Client → List ℕ → ℕ → ℕ → ℕ × Client
insert_block c b size bno =
    let new_block : Block = record { block_num = bno; data_size = size; old = true; bytes = b } in
    (bno, record c { blocks = put bno new_block c.blocks })

-- `get_block` copies a block out of the map.
unfoldable pub get_block : Client → ℕ → Result Block
get_block c b = elim (c.blocks b) [
  | none ↦ fault out_of_range
  | some block_i ↦ ok (record block_i { bytes = take block_i.data_size block_i.bytes })
]

-- `return get_block(block_num)`, or the exception that leaves `receive_block`.
unfoldable pub return_block : Client → ℕ → Result (Option Block × Client)
return_block c block_num = do b ← get_block c block_num; ok (some b, c)

-- The part of `receive_block` for a block that is not old: `got` is what the loop of reads gave.
unfoldable pub receive_data :
    Client → ℕ → ℕ → Option (List ℕ) × InSocket → Result (Option Block × Client)
receive_data c block_num s (none, sock) = ok (none, record c { sockfd = sock })
receive_data c block_num s (some buf, sock) =
    return_block (insert_block (record c { sockfd = sock }) buf s block_num).1 block_num

-- The part of `receive_block` after the header.
unfoldable pub receive_body : Client → BlockDesc → Result (Option Block × Client)
unfolding receive_data return_block
receive_body c bd =
    let block_num : ℕ = ntohl bd.block_num in
    let s : ℕ = ntohl bd.data_size in
    if s == 0
    then ok (none, c)
    else (if bd.old
        then return_block c block_num
        else receive_data c block_num s (read_full s c.sockfd))

unfoldable pub receive_header : Client → Option (List ℕ) × InSocket → Result (Option Block × Client)
unfolding receive_body
receive_header c (none, sock) = ok (none, record c { sockfd = sock })
receive_header c (some bd_buf, sock) = receive_body (record c { sockfd = sock }) (from_bytes bd_buf)

-- `NULL` is `none`.
unfoldable pub receive_block : Client → Result (Option Block × Client)
unfolding receive_header
receive_block c = receive_header c (read_full sizeof_block_desc c.sockfd)

-- The variables of `receive_file`, and the file.
pub record Reception : Type 0 where
  pub num_blocks : ℕ
  pub file : List ℕ
  pub client : Client

-- One round of `do … while (b != NULL)`, after the call of `receive_block`.
unfoldable pub received : Reception → Option Block × Client → Reception
received q (none, c) = record q { num_blocks = (q.num_blocks + 1) % 2 ^ 32; client = c }
received q (some b, c) = record {
  num_blocks = (q.num_blocks + 1) % 2 ^ 32;
  file = q.file ++ take b.data_size b.bytes;
  client = c;
}

unfoldable pub receive_loop : ℕ → Reception → Result Reception
unfolding received
receive_loop zero q = fault out_of_fuel
receive_loop (suc fuel) q =
    let next : Reception → Result Reception = λ q'. receive_loop fuel q' in
    receive_block q.client >>= λ r. elim r.0 [
      | none ↦ ok (received q r)
      | some b ↦ next (received q r)
    ]

-- Every block takes a byte at least from the stream, so the fuel is enough.
unfoldable pub receive_file : Client → List ℕ → Result Reception
receive_file c file =
    receive_loop (suc (length (flatten c.sockfd)))
      (record { num_blocks = 0; file = file; client = c })
