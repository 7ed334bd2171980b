-- ===== src/Server.antt =====
-- `RabinServer` of Server/rabinserver.h and Server/rabinserver.cc (the copies under
-- Integration/tcpproxy are the same text). `char` is signed and `unsigned` has 32 bits, as on the
-- x86-64 hosts of the program. A buffer is the list of its bytes, and a pointer into it the rest of
-- the list from there on. The map holds the blocks by value; Memory has the pointers.
pub mod Hash
pub mod Cache
pub mod Pieces
pub mod Sending
pub mod Totality
pub mod Delivery
use rabin_fingerprinting.Base.{
  ℕ, zero, suc, ◌+◌, ◌-◌, ◌*◌, ◌/◌, ◌%◌, ◌^◌, Bool, true, false, not, ◌||◌, Option, none, some,
  List, [], ◌∷◌, ◌++◌, take, drop, length, get_or, ltb, leb, ◌==◌, if◌then◌else◌, Result, ok, fault,
  out_of_range, division_by_zero, out_of_fuel, exits, ◌>>=◌, ℤ, is_negative,
}
use rabin_fingerprinting.Wire.{to_bytes, host_desc}
use rabin_fingerprinting.Socket.{OutSocket, write}

pub record Block : Type 0 where
  pub block_num : ℕ
  pub data_size : ℕ
  pub old : Bool
  pub bytes : List ℕ

-- `std::unordered_map<unsigned, block *>`.
abbrev pub BlockMap : Type 0
BlockMap = ℕ → Option Block

-- `blocks[n] = b`.
abbrev pub put : ℕ → Block → BlockMap → BlockMap
put n b m q = if n == q then some b else m q

-- `newsockfd` is the connection to the client.
pub record Server : Type 0 where
  pub blocks : BlockMap
  pub max_size : ℕ
  pub newsockfd : OutSocket

abbrev pub max_bytes : ℕ
max_bytes = 64

-- The constructor: `bound` is what `bind` returned, `map_max_size` what `blocks.max_size()` returned.
unfoldable pub new_server : ℤ → ℕ → OutSocket → Result Server
new_server bound map_max_size unconnected =
    if is_negative bound
    then fault (exits 1)
    else ok (record {
      blocks = λ _. none;
      max_size = map_max_size / 10000 % 2 ^ 32;
      newsockfd = unconnected;
    })

-- `connect_to_client`: `accepted` is what `accept` returned, `client` the new connection.
unfoldable pub connect_to_client : Server → ℤ → OutSocket → Result (ℤ × Server)
connect_to_client r accepted client =
    if is_negative accepted then fault (exits 1) else ok (accepted, record r { newsockfd = client })

-- A `char` converted to `unsigned` by way of `int`.
abbrev pub widen : ℕ → ℕ
widen c = if ltb c 128 then c else c + (2 ^ 32 - 256)

-- `hash = ((hash << 5) + hash) + c` on 32 bits.
unfoldable pub hash_step : ℕ → ℕ → ℕ
hash_step hash c = ((hash * 2 ^ 5 % 2 ^ 32 + hash) % 2 ^ 32 + widen c) % 2 ^ 32

-- `while ((c = (*str)))`: from the pointer `str`, up to the first zero byte.
unfoldable pub hash_loop : ℕ → List ℕ → ℕ
hash_loop hash [] = hash
hash_loop hash (c ∷ str) =
    let rest : ℕ = hash_loop (hash_step hash c) str in if c == 0 then hash else rest

-- `x % m`, which traps at zero.
unfoldable pub remainder : ℕ → ℕ → Result ℕ
remainder x m = if m == 0 then fault division_by_zero else ok (x % m)

-- The copy `str` is the first `size` bytes and a terminating zero.
unfoldable pub hash_function : Server → List ℕ → ℕ → Result ℕ
unfolding remainder
hash_function r b size = remainder (hash_loop 5381 (take size b ++ 0 ∷ [])) r.max_size

unfoldable pub rabin_func : Server → ℕ → ℕ → ℕ → Result ℕ
rabin_func r b0 b1 b2 = do h ← hash_function r (b0 ∷ b1 ∷ b2 ∷ []) 3; ok (h % (max_bytes / 2))

-- `memcmp(xs, ys, n) != 0`. A buffer that is shorter than `n` counts as different; the code never
-- asks.
unfoldable pub memcmp_ne : List ℕ → List ℕ → ℕ → Bool
memcmp_ne xs ys zero = false
memcmp_ne [] ys (suc n) = true
memcmp_ne (x ∷ xs) [] (suc n) = true
memcmp_ne (x ∷ xs) (y ∷ ys) (suc n) = not (x == y) || memcmp_ne xs ys n

-- What `insert_block` does with the map once the block's number is known.
unfoldable pub store_block : ℕ → List ℕ → ℕ → BlockMap → BlockMap
store_block n b size blocks =
    let new_block : Block = record {
      block_num = n;
      data_size = size;
      old = false;
      bytes = take size b;
    } in
    elim (blocks n) [
      | none ↦ put n new_block blocks
      | some cur ↦
          if not (cur.data_size == size) || memcmp_ne cur.bytes b size
          then put n new_block blocks
          else put n (record cur { old = true }) blocks
    ]

unfoldable pub insert_block : Server → List ℕ → ℕ → Result (ℕ × Server)
insert_block r b size = do
  n ← hash_function r b size
  ok (n, record r { blocks = store_block n b size r.blocks })

-- The rest of `write_block_to_client` after the descriptor: `n` is what its `write` returned.
unfoldable pub write_data : Server → ℕ → Block → ℤ × OutSocket → ℤ × Server
write_data r i block_i (n, sock) =
    let data_write : ℤ × OutSocket = write sock (take block_i.data_size block_i.bytes) in
    if is_negative n
    then (n, record r { newsockfd = sock })
    else (if block_i.old then (n, record r { newsockfd = sock }) else (
      data_write.0,
      record r {
        blocks = put i (record block_i { old = true }) r.blocks;
        newsockfd = data_write.1;
      },
    ))

unfoldable pub write_block_to_client : Server → ℕ → Result (ℤ × Server)
unfolding write_data
write_block_to_client r i = elim (r.blocks i) [
  | none ↦ fault out_of_range
  | some block_i ↦ ok (
      write_data r i block_i
        (write r.newsockfd (to_bytes (host_desc block_i.block_num block_i.data_size block_i.old))))
]

-- The three lines of `send_file` that send the `width` bytes at `prev`; what `write_block_to_client`
-- returns is dropped.
unfoldable pub send_piece : Server → List ℕ → ℕ → Result Server
send_piece r prev width = do
  (block_num, r') ← insert_block r prev width
  (_, r'') ← write_block_to_client r' block_num
  ok r''

-- The variables of the loop in `send_file`; `prev` is an offset into `file`.
pub record Progress : Type 0 where
  pub prev : ℕ
  pub num_blocks : ℕ
  pub server : Server

-- Sends the bytes from `prev` up to `until` and counts the block.
unfoldable pub send_until : List ℕ → ℕ → Progress → Result Progress
send_until file until p = do
  r ← send_piece p.server (drop p.prev file) (until - p.prev)
  ok (record p { num_blocks = p.num_blocks + 1; server = r })

-- The body of the loop at `i`.
unfoldable pub send_round : List ℕ → ℕ → Progress → Result Progress
send_round file i p = do
  h ← rabin_func p.server (get_or file (i - 2) 0) (get_or file (i - 1) 0) (get_or file i 0)
  let too_large = leb max_bytes (i - p.prev)
  let cut = send_until file i p >>= λ q. ok (record q { prev = i })
  if h == 0 || too_large then cut else ok p

-- `for(i = 2; i < s; i++)`, where `i` has 32 bits and `s` has 64.
unfoldable pub send_loop : ℕ → List ℕ → ℕ → ℕ → Progress → Result Progress
send_loop zero file s i p = if ltb i s then fault out_of_fuel else ok p
send_loop (suc fuel) file s i p =
    let rest : Progress → Result Progress = λ q. send_loop fuel file s ((i + 1) % 2 ^ 32) q in
    if ltb i s then (send_round file i p >>= rest) else ok p

-- The last piece, and the descriptor of size 0 that denotes the end of the file.
unfoldable pub send_tail : List ℕ → ℕ → Progress → Result (ℕ × Server)
send_tail file s p = do
  q ← if p.prev == s then ok p else send_until file s p
  let eof : ℤ × OutSocket = write q.server.newsockfd (to_bytes (host_desc 0 0 false))
  ok (q.num_blocks + 1, record q.server { newsockfd = eof.1 })

-- `s` rounds are enough for the loop when `s` fits in 32 bits.
unfoldable pub send_file : Server → List ℕ → ℕ → Result (ℕ × Server)
send_file r file s = do
  p ← send_loop s file s 2 (record { prev = 0; num_blocks = 0; server = r })
  send_tail file s p

-- `get_block` copies a block's bytes out of the map.
unfoldable pub get_block : Server → ℕ → Result (List ℕ)
get_block r b = elim (r.blocks b) [
  | none ↦ fault out_of_range
  | some block_i ↦ ok (take block_i.data_size block_i.bytes)
]
