-- ===== src/Memory/Writes.antt =====
-- `write_block_to_client` with pointers and by value, and the two calls that send a block.
use rabin_fingerprinting.Base.{
  ℕ, suc, ◌≡◌, refl, ap, subst, ◌∙◌, true, some, List, take, ok, >>=-eq-ok, ℤ, is_negative,
  Bool-cases, Option-cases, inl, inr,
}
use rabin_fingerprinting.Server
use rabin_fingerprinting.Server.{
  Block, BlockMap, put, Server, store_block, write_data, hash_loop, remainder,
}
use rabin_fingerprinting.Socket.{OutSocket, write}
use rabin_fingerprinting.Wire.{to_bytes, host_desc}
use rabin_fingerprinting.Memory.{Owner, put_struct, write_array, send_piece, write_block_to_client}
use rabin_fingerprinting.Memory.Cells.{
  as_block, Holds, Holds-mark, load_struct-Holds, load_array-Holds, store_struct-Holds, Maps-mark,
  Maps-others, Entry-none, Entry-some, at_address-cases,
}
use rabin_fingerprinting.Memory.Inserts.{Represents, insert_block-Represents}

pub sock_Represents :
    {s : Owner} {r : Server} (sock : OutSocket)
    → Represents s r
    → Represents (record s { newsockfd = sock }) (record r { newsockfd = sock })
sock_Represents sock rep = record {
  maps = rep.maps;
  owned = rep.owned;
  positive = rep.positive;
  same_size = rep.same_size;
  same_socket = refl;
}

-- Behind the write of the descriptor.
write_array-Represents :
    {s : Owner} {r : Server} (n p : ℕ) (x : Block) (h : Holds s.memory p x)
    → s.blocks n ≡ some p
    → Represents s r
    → (w : ℤ × OutSocket)
    → (s' : Owner) × (write_array s p h.cell w ≡ ok ((write_data r n x w).0, s'))
      × Represents s' (write_data r n x w).1
      × (s'.memory.array_count ≡ s.memory.array_count)
unfolding write_array write_data
write_array-Represents {s} {r} n p x h e rep (k, sock) =
    let held : Holds s.memory p (as_block h.cell h.data_bytes) = record {
      cell = h.cell;
      data_bytes = h.data_bytes;
      at_cell = h.at_cell;
      at_data = h.at_data;
      same = refl;
      below = h.below;
      data_below = h.data_below;
    } in
    rw (← h.same) (elim (Bool-cases (is_negative k)) [
      | inl neg ↦ rw neg (record s { newsockfd = sock }, refl, sock_Represents sock rep, refl)
      | inr not_neg ↦ elim (Bool-cases h.cell.old) [
        | inl old ↦
            rw (not_neg, old) (record s { newsockfd = sock }, refl, sock_Represents sock rep, refl)
        | inr new ↦
            let w = write sock (take h.cell.data_size h.data_bytes) in
            rw
              (
                not_neg,
                new,
                load_array-Holds h,
                store_struct-Holds (record h.cell { old = true }) h,
              )
              (
                record s {
                  newsockfd = w.1;
                  memory = put_struct p (some (record h.cell { old = true })) s.memory;
                },
                refl,
                record {
                  maps =
                      Maps-mark n p _ rep.maps e (Maps-others n p _ rep.maps e)
                        (Holds-mark held true);
                  owned = λ q c hq. elim (at_address-cases p q _ s.memory.structs c hq) [
                    | inl (z, u) ↦ (n, e ∙ ap some z)
                    | inr (ne, u) ↦ rep.owned q c u
                  ];
                  positive = rep.positive;
                  same_size = rep.same_size;
                  same_socket = refl;
                },
                refl,
              )
      ]
    ])

write_present :
    {s : Owner} {r r' : Server} (n p : ℕ) (k : ℤ) (x : Block) (h : Holds s.memory p x)
    → s.blocks n ≡ some p
    → r.blocks n ≡ some x
    → Represents s r
    → Server.write_block_to_client r n ≡ ok (k, r')
    → (s' : Owner) × (write_block_to_client s n ≡ ok (k, s'))
      × Represents s' r'
      × (s'.memory.array_count ≡ s.memory.array_count)
unfolding write_block_to_client Server.write_block_to_client
write_present {s} {r} {r'} n p k x h e held rep run =
    let w = write r.newsockfd (to_bytes (host_desc x.block_num x.data_size x.old)) in
    let (s', run', rep', count) = write_array-Represents n p x h e rep w in
    let done : write_data r n x w ≡ (k, r') = cc (rw (Server.write_block_to_client, held) at run) in
    let same_write : write s.newsockfd
          (to_bytes (host_desc h.cell.block_num h.cell.data_size h.cell.old))
        ≡ w =
      rw rep.same_socket (
        ap (λ (y : Block). write r.newsockfd (to_bytes (host_desc y.block_num y.data_size y.old)))
          h.same) in
    (
      s',
      rw (write_block_to_client, e, load_struct-Holds h, same_write) run'
          ∙ ap (λ (y : ℤ × Server). ok (y.0, s')) done,
      subst (λ (y : ℤ × Server). Represents s' y.1) done rep',
      count,
    )

-- What one writes, the other does.
pub write_block_to_client-Represents :
    {s : Owner} {r r' : Server} (n : ℕ) (k : ℤ)
    → Represents s r
    → Server.write_block_to_client r n ≡ ok (k, r')
    → (s' : Owner) × (write_block_to_client s n ≡ ok (k, s'))
      × Represents s' r'
      × (s'.memory.array_count ≡ s.memory.array_count)
unfolding Server.write_block_to_client
write_block_to_client-Represents {s} {r} {r'} n k rep run = elim (Option-cases (s.blocks n)) [
  | inl e ↦
      let gone = Entry-none s.memory (s.blocks n) (r.blocks n) e (rep.maps.entry n) in
      cc (rw (Server.write_block_to_client, gone) at run)
  | inr (p, e) ↦
      let (x, held, h) = Entry-some s.memory (s.blocks n) (r.blocks n) p e (rep.maps.entry n) in
      write_present n p k x h e held rep run
]

-- One block sent: two arrays more.
pub send_piece-Represents :
    {s : Owner} {r r' : Server} (b : List ℕ) (size : ℕ)
    → Represents s r
    → Server.send_piece r b size ≡ ok r'
    → (s' : Owner) × (send_piece s b size ≡ ok s')
      × Represents s' r'
      × (s'.memory.array_count ≡ suc (suc s.memory.array_count))
unfolding send_piece Server.send_piece
send_piece-Represents {s} {r} {r'} b size rep run =
    let (n, s₁, r₁, run₁, inserted, rep₁, count₁) = insert_block-Represents b size rep in
    let (w, written, last) =
      >>=-eq-ok (Server.write_block_to_client r₁ n) _ (rw (Server.send_piece, inserted) at run) in
    let (s₂, run₂, rep₂, count₂) = write_block_to_client-Represents n w.0 rep₁ written in
    (s₂, rw (run₁, run₂) refl, subst (Represents s₂) (cc last) rep₂, count₂ ∙ count₁)
