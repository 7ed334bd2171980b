-- ===== src/Tests/Memories.antt =====
-- The server with its pointers at the page of `Tests`.
use rabin_fingerprinting.Base.{ℕ, ◌+◌, ◌-◌, ◌*◌, ◌≡◌, refl, none, arith, ok, fault}
use rabin_fingerprinting.Server
use rabin_fingerprinting.Server.{Server}
use rabin_fingerprinting.Memory.{
  Owner, load_struct, store_struct, load_array, delete_struct, hash_block, differs, replace_block,
  enter_block, insert_block, write_array, write_block_to_client, send_piece,
}
use rabin_fingerprinting.Memory.Files.{
  rabin_func, send_until, send_round, send_loop, send_tail, send_file,
}
use rabin_fingerprinting.Memory.Inserts.{Represents}
use rabin_fingerprinting.Memory.Leaks.{send_file-Represents}
use rabin_fingerprinting.Tests.{runs, start, page}
use rabin_fingerprinting.Tests.Transfers.{start-IsValid}

-- A new server, nothing allocated.
abbrev fresh_owner : Owner
fresh_owner = record {
  blocks = λ _. none;
  max_size = 1000;
  newsockfd = start.newsockfd;
  memory = record { next = 1; structs = λ _. none; arrays = λ _. none; array_count = 0 };
}

fresh_owner-Represents : Represents fresh_owner start
fresh_owner-Represents = record {
  maps = record { entry = λ n. tt; apart = λ i j p e e'. cc };
  owned = λ q c e. cc;
  positive = start-IsValid.positive;
  same_size = refl;
  same_socket = refl;
}

send_file-Represents_example :
    (k : ℕ) × (s' : Owner) × (r' : Server) × (send_file fresh_owner page 6 ≡ ok (k + 1, s'))
    × (Server.send_file start page 6 ≡ ok (k + 1, r'))
    × Represents s' r'
    × (s'.memory.array_count ≡ 0 + (6 - 2) + 2 * k)
send_file-Represents_example =
    send_file-Represents fresh_owner start page 6 fresh_owner-Represents start-IsValid (omega arith)
      (omega arith)

-- The page sent twice: twice four arrays for the windows and two for the block, and one block.
arrays_left : ℕ
unfolding runs load_struct store_struct load_array delete_struct hash_block differs replace_block
    enter_block insert_block write_array write_block_to_client send_piece rabin_func send_until
    send_round send_loop send_tail send_file
arrays_left = elim (send_file fresh_owner page 6) [
  | fault e ↦ 0
  | ok (k, s) ↦ elim (send_file s page 6) [ fault e ↦ 0 | ok (k', s') ↦ s'.memory.array_count ]
]

arrays_left_lem : arrays_left ≡ 12
unfolding arrays_left
arrays_left_lem = refl
