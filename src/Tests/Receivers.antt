-- ===== src/Tests/Receivers.antt =====
-- The client with its pointers at the page of `Tests`.
use rabin_fingerprinting.Base.{
  ℕ, ◌+◌, ◌%◌, ◌^◌, ◌≡◌, ◌≤◌, ◌⊎◌, refl, none, [], ok, fault, out_of_range,
}
use rabin_fingerprinting.Client
use rabin_fingerprinting.Memory.{load_struct, load_array, delete_struct}
use rabin_fingerprinting.Memory.Receiver.{
  Receiver, Reception, delete_array, drop_block, insert_block, copy_block, get_block, return_block,
  receive_data, receive_body, receive_header, receive_block, write_file, receive_loop, receive_file,
}
use rabin_fingerprinting.Memory.Receptions.{Follows}
use rabin_fingerprinting.Memory.Copies.{receive_file-Follows}
use rabin_fingerprinting.Tests.{runs, listener}

-- A new client, nothing allocated.
abbrev fresh_receiver : Receiver
fresh_receiver = record {
  blocks = λ _. none;
  sockfd = listener.sockfd;
  memory = record { next = 1; structs = λ _. none; arrays = λ _. none; array_count = 0 };
}

fresh_receiver-Follows : Follows fresh_receiver listener
fresh_receiver-Follows = record {
  maps = record { entry = λ n. tt; apart = λ i j p e e'. cc };
  same_stream = refl;
}

receive_file-Follows_example :
    ((k : ℕ) × (q : Reception) × (r : Client.Reception) × (receive_file fresh_receiver [] ≡ ok q)
      × (Client.receive_file listener [] ≡ ok r)
      × (q.file ≡ r.file)
      × (q.num_blocks ≡ (k + 1) % 2 ^ 32)
      × (q.num_blocks ≡ r.num_blocks)
      × Follows q.receiver r.client
      × (0 + k + 1 ≤ q.receiver.memory.array_count))
    ⊎ ((receive_file fresh_receiver [] ≡ fault out_of_range)
        × (Client.receive_file listener [] ≡ fault out_of_range))
receive_file-Follows_example =
    receive_file-Follows fresh_receiver listener [] fresh_receiver-Follows

-- The page: the data and its copy stay, and the header of the end.
arrays_left : ℕ
unfolding runs load_struct load_array delete_struct delete_array drop_block insert_block copy_block
    get_block return_block receive_data receive_body receive_header receive_block write_file
    receive_loop receive_file
arrays_left = elim (receive_file fresh_receiver []) [
  | fault e ↦ 0
  | ok q ↦ q.receiver.memory.array_count
]

arrays_left_lem : arrays_left ≡ 3
unfolding arrays_left
arrays_left_lem = refl
