-- ===== src/Memory.antt =====
-- Server/rabinserver.cc with its pointers: the map has pointers to blocks, and a block a pointer to its
-- bytes. What is allocated gets an address that was not in use before; the copy that `hash_function`
-- makes is an array like any other. Memory/Files has `send_file`, and Memory/Receiver the client.
pub mod Cells
pub mod Blocks
pub mod Inserts
pub mod Writes
pub mod Files
pub mod Rounds
pub mod Leaks
pub mod Receiver
pub mod Replacements
pub mod Receptions
pub mod Copies
use rabin_fingerprinting.Base.{
  ℕ, suc, ◌+◌, Bool, true, false, ◌||◌, not, Option, none, some, List, [], ◌∷◌, ◌++◌, take, ◌==◌,
  if◌then◌else◌, Result, ok, fault, out_of_range, dangling, ◌>>=◌, ℤ, is_negative,
}
use rabin_fingerprinting.Wire.{to_bytes, host_desc}
use rabin_fingerprinting.Socket.{OutSocket, write}
use rabin_fingerprinting.Server.{hash_loop, remainder, memcmp_ne}

-- The struct `block`.
pub record Struct : Type 0 where
  pub block_num : ℕ
  pub data_size : ℕ
  pub old : Bool
  pub data_ptr : ℕ

-- What is allocated: blocks, and arrays of `char` with their number.
pub record Memory : Type 0 where
  pub next : ℕ
  pub structs : ℕ → Option Struct
  pub arrays : ℕ → Option (List ℕ)
  pub array_count : ℕ

abbrev pub at_address {ℓ} : {A : Type ℓ} → ℕ → Option A → (ℕ → Option A) → ℕ → Option A
at_address p a cells q = if p == q then a else cells q

-- `new block` and `new char[…]`, with what is written into them at once.
abbrev pub new_struct : Struct → Memory → Memory
new_struct c m = record m { next = suc m.next; structs = at_address m.next (some c) m.structs }

abbrev pub new_array : List ℕ → Memory → Memory
new_array bytes m = record m {
  next = suc m.next;
  arrays = at_address m.next (some bytes) m.arrays;
  array_count = suc m.array_count;
}

unfoldable pub load_struct : ℕ → Memory → Result Struct
load_struct p m = elim (m.structs p) [ none ↦ fault dangling | some c ↦ ok c ]

unfoldable pub load_array : ℕ → Memory → Result (List ℕ)
load_array p m = elim (m.arrays p) [ none ↦ fault dangling | some bytes ↦ ok bytes ]

-- A write through a pointer, and `delete` of a block; both need one that is there.
abbrev pub put_struct : ℕ → Option Struct → Memory → Memory
put_struct p c m = record m { structs = at_address p c m.structs }

unfoldable pub store_struct : ℕ → Struct → Memory → Result Memory
store_struct p c m = load_struct p m >>= λ before. ok (put_struct p (some c) m)

unfoldable pub delete_struct : ℕ → Memory → Result Memory
delete_struct p m = load_struct p m >>= λ before. ok (put_struct p none m)

-- The server, with pointers in its map.
pub record Owner : Type 0 where
  pub blocks : ℕ → Option ℕ
  pub max_size : ℕ
  pub newsockfd : OutSocket
  pub memory : Memory

-- `hash_function`: the copy is never deleted.
unfoldable pub hash_block : ℕ → List ℕ → ℕ → Memory → Result (ℕ × Memory)
hash_block max_size b size m =
    let str : List ℕ = take size b ++ 0 ∷ [] in
    remainder (hash_loop 5381 str) max_size >>= λ n. ok (n, new_array str m)

-- `cur->data_size != size || memcmp(cur->data, b, size)`.
unfoldable pub differs : Struct → List ℕ → ℕ → Memory → Result Bool
differs cur b size m =
    if not (cur.data_size == size)
    then ok true
    else (load_array cur.data_ptr m >>= λ bytes. ok (memcmp_ne bytes b size))

-- The block that was in the map is deleted, or marked and the new one deleted; `p` is the new block.
unfoldable pub replace_block :
    ℕ → ℕ → ℕ → Struct → Bool → (ℕ → Option ℕ) → Memory → Result ((ℕ → Option ℕ) × Memory)
replace_block n p q cur true blocks m =
    delete_struct q m >>= λ m'. ok (at_address n (some p) blocks, m')
replace_block n p q cur false blocks m = do
  m' ← store_struct q (record cur { old = true }) m
  m'' ← delete_struct p m'
  ok (blocks, m'')

-- `blocks.at(n)` and the two branches behind it, or the exception's handler.
unfoldable pub enter_block :
    ℕ → ℕ → List ℕ → ℕ → (ℕ → Option ℕ) → Memory → Result ((ℕ → Option ℕ) × Memory)
enter_block n p b size blocks m = elim (blocks n) [
  | none ↦ ok (at_address n (some p) blocks, m)
  | some q ↦
      load_struct q m >>= λ cur. differs cur b size m >>= λ d. replace_block n p q cur d blocks m
]

-- `insert_block`: the block is allocated first, its fields set once the number is known.
unfoldable pub insert_block : Owner → List ℕ → ℕ → Result (ℕ × Owner)
insert_block s b size =
    let blank : Struct = record { block_num = 0; data_size = 0; old = false; data_ptr = 0 } in
    let p : ℕ = s.memory.next in
    hash_block s.max_size b size (new_struct blank s.memory) >>= λ h.
    (let c : Struct = record {
      block_num = h.0;
      data_size = size;
      old = false;
      data_ptr = h.1.next;
    } in
      store_struct p c (new_array (take size b) h.1) >>= λ m.
      enter_block h.0 p b size s.blocks m >>= λ e.
      ok (h.0, record s { blocks = e.0; memory = e.1 }))

-- `write_block_to_client` behind the write of the descriptor, which returned `n`.
unfoldable pub write_array : Owner → ℕ → Struct → ℤ × OutSocket → Result (ℤ × Owner)
write_array s p block_i (n, sock) =
    if is_negative n
    then ok (n, record s { newsockfd = sock })
    else if block_i.old
    then ok (n, record s { newsockfd = sock })
    else (do
      bytes ← load_array block_i.data_ptr s.memory
      let w = write sock (take block_i.data_size bytes)
      m ← store_struct p (record block_i { old = true }) s.memory
      ok (w.0, record s { newsockfd = w.1; memory = m }))

unfoldable pub write_block_to_client : Owner → ℕ → Result (ℤ × Owner)
write_block_to_client s i = elim (s.blocks i) [
  | none ↦ fault out_of_range
  | some p ↦ load_struct p s.memory >>= λ block_i.
      write_array s p block_i
        (write s.newsockfd (to_bytes (host_desc block_i.block_num block_i.data_size block_i.old)))
]

-- The lines of `send_file` that send `width` bytes at `prev`.
unfoldable pub send_piece : Owner → List ℕ → ℕ → Result Owner
send_piece s prev width = do
  (block_num, s') ← insert_block s prev width
  (_, s'') ← write_block_to_client s' block_num
  ok s''
