-- ===== src/Memory/Copies.antt =====
-- `receive_file` with pointers and by value, and the copies of blocks that it leaves behind.
use rabin_fingerprinting.Base.{
  ℕ, zero, suc, ◌+◌, ◌%◌, ◌^◌, ◌≤◌, ◌≡◌, refl, sym, ap, subst, ◌∙◌, some, List, ◌++◌, take, flatten,
  length, Result, Fault, ok, fault, out_of_range, arith, ◌⊎◌, inl, inr,
}
use rabin_fingerprinting.Server.{Block}
use rabin_fingerprinting.Client
use rabin_fingerprinting.Client.{Client}
use rabin_fingerprinting.Client.Loop.{receive_file-ends}
use rabin_fingerprinting.Memory.Cells.{Holds, load_struct-Holds, load_array-Holds}
use rabin_fingerprinting.Memory.Receiver.{
  Receiver, Reception, receive_block, write_file, receive_loop, receive_file,
}
use rabin_fingerprinting.Memory.Receptions.{Follows, Agrees-cases, receive_block-Follows}

-- The variables of `receive_file` with pointers and by value.
record Matches (q : Reception) (r : Client.Reception) : Type 0 where
  same_count : q.num_blocks ≡ r.num_blocks
  same_file : q.file ≡ r.file
  follows : Follows q.receiver r.client

-- Both return, after `k` blocks and with `k + 1` arrays more at least, or both end by the same fault.
abbrev Both : ℕ → Reception → Result Reception → Result Client.Reception → Type 0
Both start q x y =
    ((k : ℕ) × (q' : Reception) × (r' : Client.Reception) × (x ≡ ok q')
      × (y ≡ ok r')
      × Matches q' r'
      × (q'.num_blocks ≡ (q.num_blocks + k + 1) % 2 ^ 32)
      × (start + k + 1 ≤ q'.receiver.memory.array_count))
    ⊎ ((e : Fault) × (x ≡ fault e) × (y ≡ fault e))

write_file-Holds :
    (q : Reception) (r : Client.Reception) (p : ℕ) (b : Block) (s : Receiver) (c : Client)
    → Matches q r
    → Follows s c
    → Holds s.memory p b
    → (q' : Reception) × (write_file q p s ≡ ok q')
      × Matches q' (Client.received r (some b, c))
      × (q'.num_blocks ≡ (q.num_blocks + 1) % 2 ^ 32)
      × (q'.receiver.memory.array_count ≡ s.memory.array_count)
unfolding write_file Client.received
write_file-Holds q r p b s c m f h = (
  record {
    num_blocks = (q.num_blocks + 1) % 2 ^ 32;
    file = q.file ++ take h.cell.data_size h.data_bytes;
    receiver = s;
  },
  rw (load_struct-Holds h, load_array-Holds h) refl,
  record {
    same_count = ap (λ n. (n + 1) % 2 ^ 32) m.same_count;
    same_file = rw m.same_file (ap (λ (x : Block). r.file ++ take x.data_size x.bytes) h.same);
    follows = f;
  },
  refl,
  refl,
)

receive_loop-Matches :
    (fuel : ℕ) (q : Reception) (r : Client.Reception)
    → Matches q r
    → Both q.receiver.memory.array_count q (receive_loop fuel q) (Client.receive_loop fuel r)
unfolding receive_loop Client.receive_loop
receive_loop-Matches zero q r m = inr (_, refl, refl)
receive_loop-Matches (suc fuel) q r m =
    elim (Agrees-cases (receive_block q.receiver) (Client.receive_block r.client)
      (receive_block-Follows q.receiver r.client m.follows)) [
        | inl (s, c, run, run', f, more) ↦
            rw (run, run')
              (inl (
                0,
                record { num_blocks = (q.num_blocks + 1) % 2 ^ 32; file = q.file; receiver = s },
                record { num_blocks = (r.num_blocks + 1) % 2 ^ 32; file = r.file; client = c },
                refl,
                refl,
                record {
                  same_count = ap (λ n. (n + 1) % 2 ^ 32) m.same_count;
                  same_file = m.same_file;
                  follows = f;
                },
                omega arith,
                omega arith,
              ))
        | inr (inl (p, s, b, c, run, run', f, h, more)) ↦
            let (q', written, m', counted, kept) = write_file-Holds q r p b s c m f h in
            rw (run, run', written)
              (elim (receive_loop-Matches fuel q' (Client.received r (some b, c)) m') [
                | inl (k, q'', r'', rest, rest', m'', total, left) ↦ inl (
                  suc k,
                  q'',
                  r'',
                  rest,
                  rest',
                  m'',
                  total ∙ omega (arith, counted),
                  omega (arith, kept, left),
                )
                | inr e ↦ inr e
              ])
        | inr (inr (e, run, run')) ↦ rw (run, run') (inr (e, refl, refl))
      ]

-- `receive_file` with the pointers that a client's map stands for does what it does by value, and so
-- never reads, writes or deletes a block that is not allocated or was deleted. Either it returns
-- after `k` blocks with the same file, the count `k + 1` in 32 bits and pointers that stand for the
-- client's map, and has at least `k + 1` arrays more in memory than before; or both end by the
-- exception for an old block that the cache does not have.
pub receive_file-Follows :
    (s : Receiver) (c : Client) (file : List ℕ)
    → Follows s c
    → ((k : ℕ) × (q : Reception) × (r : Client.Reception) × (receive_file s file ≡ ok q)
        × (Client.receive_file c file ≡ ok r)
        × (q.file ≡ r.file)
        × (q.num_blocks ≡ (k + 1) % 2 ^ 32)
        × (q.num_blocks ≡ r.num_blocks)
        × Follows q.receiver r.client
        × (s.memory.array_count + k + 1 ≤ q.receiver.memory.array_count))
      ⊎ ((receive_file s file ≡ fault out_of_range)
          × (Client.receive_file c file ≡ fault out_of_range))
unfolding receive_file Client.receive_file
receive_file-Follows s c file f =
    let q₀ : Reception = record { num_blocks = 0; file = file; receiver = s } in
    let start : Matches q₀ (record { num_blocks = 0; file = file; client = c }) = record {
      same_count = refl;
      same_file = refl;
      follows = f;
    } in
    let fuel : suc (length (flatten s.sockfd)) ≡ suc (length (flatten c.sockfd)) =
      ap (λ x. suc (length (flatten x))) f.same_stream in
    let both =
      subst (λ n. Both s.memory.array_count q₀ (receive_loop n q₀) (Client.receive_file c file))
        (sym fuel) (receive_loop-Matches _ q₀ _ start) in
    elim both [
      | inl (k, q, r, run, run', m, total, more) ↦
          inl (k, q, r, run, run', m.same_file, total ∙ omega arith, m.same_count, m.follows, more)
      | inr (e, run, run') ↦ elim (receive_file-ends c file) [
        | inl (r, returned) ↦ cc (run', returned)
        | inr thrown ↦
            let same : e ≡ out_of_range = cc (run', thrown) in inr (run ∙ ap fault same, thrown)
      ]
    ]
