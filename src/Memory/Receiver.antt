-- ===== src/Memory/Receiver.antt =====
-- Client/rabinclient.cc with its pointers, from `insert_block` up to `receive_file`. An array is
-- allocated with the bytes that come to stand in it; what a read that fails leaves there is not kept.
use rabin_fingerprinting.Base.{
  ℕ, zero, suc, ◌+◌, ◌-◌, ◌%◌, ◌^◌, Option, none, some, List, [], ◌++◌, take, flatten, length, ◌==◌,
  true, if◌then◌else◌, Result, ok, fault, out_of_range, out_of_fuel, ◌>>=◌,
}
use rabin_fingerprinting.Wire.{BlockDesc, ntohl, from_bytes, sizeof_block_desc}
use rabin_fingerprinting.Socket.{InSocket, read_full}
use rabin_fingerprinting.Memory.{
  Struct, Memory, at_address, new_struct, new_array, load_struct, load_array, delete_struct,
}

-- The client, with pointers in its map.
pub record Receiver : Type 0 where
  pub blocks : ℕ → Option ℕ
  pub sockfd : InSocket
  pub memory : Memory

-- `delete` of an array.
abbrev pub put_array : ℕ → Option (List ℕ) → Memory → Memory
put_array p a m = record m { arrays = at_address p a m.arrays }

unfoldable pub delete_array : ℕ → Memory → Result Memory
delete_array p m =
    load_array p m >>= λ bytes. ok (record (put_array p none m) { array_count = m.array_count - 1 })

-- `blocks.at(n)` and `delete cur`, or the exception's handler: the block goes, its data stays.
unfoldable pub drop_block : Option ℕ → Memory → Result Memory
drop_block none m = ok m
drop_block (some cur) m = delete_struct cur m

-- `insert_block` with a pointer to the data.
unfoldable pub insert_block : Receiver → ℕ → ℕ → ℕ → Result Receiver
insert_block s b size bno =
    let c : Struct = record { block_num = bno; data_size = size; old = true; data_ptr = b } in
    drop_block (s.blocks bno) (new_struct c s.memory) >>= λ m.
    ok (record s { blocks = at_address bno (some s.memory.next) s.blocks; memory = m })

-- The copy `to_return` of a block, and of its data.
unfoldable pub copy_block : Struct → Memory → Result Memory
copy_block c m =
    let to_return : Memory = new_struct (record c { data_ptr = suc m.next }) m in
    load_array c.data_ptr to_return >>= λ bytes. ok (new_array (take c.data_size bytes) to_return)

unfoldable pub get_block : Receiver → ℕ → Result (ℕ × Receiver)
get_block s b = elim (s.blocks b) [
  | none ↦ fault out_of_range
  | some p ↦ load_struct p s.memory >>= λ block_i.
      copy_block block_i s.memory >>= λ m. ok (s.memory.next, record s { memory = m })
]

-- The end of `receive_block`: `delete bd`, whose array was made by `new char[]`, and `get_block`.
unfoldable pub return_block : ℕ → ℕ → Receiver → Result (Option ℕ × Receiver)
return_block bd block_num s = do
  m ← delete_array bd s.memory
  (b, s') ← get_block (record s { memory = m }) block_num
  ok (some b, s')

-- The part for a block that is not old, with what the loop of reads gave.
unfoldable pub receive_data :
    ℕ → Receiver → ℕ → ℕ → Option (List ℕ) × InSocket → Result (Option ℕ × Receiver)
receive_data bd s block_num size (none, sock) =
    ok (none, record s { sockfd = sock; memory = new_array [] s.memory })
receive_data bd s block_num size (some buf, sock) =
    insert_block (record s { sockfd = sock; memory = new_array buf s.memory }) s.memory.next size
      block_num
    >>= return_block bd block_num

-- The part behind the header.
unfoldable pub receive_body : ℕ → Receiver → BlockDesc → Result (Option ℕ × Receiver)
receive_body bd s header =
    let block_num : ℕ = ntohl header.block_num in
    let size : ℕ = ntohl header.data_size in
    if size == 0
    then ok (none, s)
    else (if header.old
        then return_block bd block_num s
        else receive_data bd s block_num size (read_full size s.sockfd))

unfoldable pub receive_header : Receiver → Option (List ℕ) × InSocket → Result (Option ℕ × Receiver)
receive_header s (none, sock) =
    ok (none, record s { sockfd = sock; memory = new_array [] s.memory })
receive_header s (some bd_buf, sock) =
    receive_body s.memory.next (record s { sockfd = sock; memory = new_array bd_buf s.memory })
      (from_bytes bd_buf)

unfoldable pub receive_block : Receiver → Result (Option ℕ × Receiver)
receive_block s = receive_header s (read_full sizeof_block_desc s.sockfd)

-- The variables of `receive_file`, and the file.
pub record Reception : Type 0 where
  pub num_blocks : ℕ
  pub file : List ℕ
  pub receiver : Receiver

-- `fwrite(b->data, b->data_size, 1, file)`: the block that `b` points to is not deleted.
unfoldable pub write_file : Reception → ℕ → Receiver → Result Reception
write_file q b s = load_struct b s.memory >>= λ c. load_array c.data_ptr s.memory >>= λ bytes.
    ok (record {
      num_blocks = (q.num_blocks + 1) % 2 ^ 32;
      file = q.file ++ take c.data_size bytes;
      receiver = s;
    })

unfoldable pub receive_loop : ℕ → Reception → Result Reception
receive_loop zero q = fault out_of_fuel
receive_loop (suc fuel) q =
    let next : Reception → Result Reception = λ q'. receive_loop fuel q' in
    receive_block q.receiver >>= λ r. elim r.0 [
      | none ↦ ok (record q { num_blocks = (q.num_blocks + 1) % 2 ^ 32; receiver = r.1 })
      | some b ↦ write_file q b r.1 >>= next
    ]

-- As many rounds as the model without pointers has.
unfoldable pub receive_file : Receiver → List ℕ → Result Reception
receive_file s file =
    receive_loop (suc (length (flatten s.sockfd)))
      (record { num_blocks = 0; file = file; receiver = s })
