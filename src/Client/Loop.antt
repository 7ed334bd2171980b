-- ===== src/Client/Loop.antt =====
-- `receive_file` over any network: it ends, and what it returns comes from the blocks that
-- `receive_block` gave it.
use rabin_fingerprinting.Base.{
  ℕ, zero, suc, ◌+◌, ◌%◌, ◌^◌, ◌≤◌, ◌<◌, ◌≡◌, sym, ap, subst, ◌∙◌, ◌⊎◌, inl, inr, Option, none,
  some, List, [], ◌∷◌, ◌++◌, flatten, length, take, arith, ◌==◌, Result, ok, fault, out_of_range,
  length-append, Bool-cases, Option-cases, append_assoc, append-nil,
}
use rabin_fingerprinting.Wire.{BlockDesc, ntohl, from_bytes}
use rabin_fingerprinting.Socket.{InSocket, read_full}
use rabin_fingerprinting.Socket.Segments.{read_full_sound}
use rabin_fingerprinting.Server.{Block}
use rabin_fingerprinting.Client.{
  Client, Reception, get_block, insert_block, return_block, receive_data, receive_body,
  receive_header, receive_block, received, receive_loop, receive_file,
}

abbrev left : Client → ℕ
left c = length (flatten c.sockfd)

-- How a call may end: with no block, with a block and `k` bytes at least of the `n` in the stream gone, or
-- by the exception of `blocks.at`.
abbrev Ends : ℕ → ℕ → Result (Option Block × Client) → Type 0
Ends k n r =
    ((c : Client) × (r ≡ ok (none, c)))
    ⊎ ((b : Block) × (c : Client) × (r ≡ ok (some b, c)) × (left c + k ≤ n))
    ⊎ (r ≡ fault out_of_range)

return_block-Ends : (c : Client) (n : ℕ) → Ends 0 (left c) (return_block c n)
unfolding return_block get_block
return_block-Ends c n = elim (Option-cases (c.blocks n)) [
  | inl e ↦ inr (inr (rw (e, get_block)))
  | inr (b, e) ↦
      inr (inl (record b { bytes = take b.data_size b.bytes }, c, rw (e, get_block), omega arith))
]

-- The bytes of a full read are gone from the stream.
read_left :
    (want : ℕ) (s : InSocket) (bs : List ℕ)
    → (read_full want s).0 ≡ some bs
    → length (flatten s) ≡ want + length (flatten (read_full want s).1)
read_left want s bs h =
    let (split, size) = read_full_sound want s bs h in
    omega (arith, ap length split ∙ length-append bs (flatten (read_full want s).1))

Ends-mono :
    {m n : ℕ} (k : ℕ) (r : Result (Option Block × Client)) → m + k ≤ n → Ends 0 m r → Ends k n r
Ends-mono k r h (inl e) = inl e
Ends-mono k r h (inr (inl (b, c, e, l))) = inr (inl (b, c, e, omega arith))
Ends-mono k r h (inr (inr e)) = inr (inr e)

receive_data-Ends :
    (c : Client) (n want : ℕ) → Ends 0 (left c) (receive_data c n want (read_full want c.sockfd))
unfolding receive_data insert_block
receive_data-Ends c n want = elim (Option-cases (read_full want c.sockfd).0) [
  | inl e ↦ inl (_, ap (λ o. receive_data c n want (o, (read_full want c.sockfd).1)) e)
  | inr (buf, e) ↦
      let sock = (read_full want c.sockfd).1 in
      let stored = (insert_block (record c { sockfd = sock }) buf want n).1 in
      subst (Ends 0 (left c)) (sym (ap (λ o. receive_data c n want (o, sock)) e)) (
        Ends-mono 0 (return_block stored n) (omega (arith, read_left want c.sockfd buf e))
          (return_block-Ends stored n))
]

receive_body-Ends : (c : Client) (bd : BlockDesc) → Ends 0 (left c) (receive_body c bd)
unfolding receive_body
receive_body-Ends c bd = elim (Bool-cases (ntohl bd.data_size == 0)) [
  | inl z ↦ inl (c, rw z)
  | inr s ↦ elim (Bool-cases bd.old) [
    | inl o ↦ rw (s, o) (return_block-Ends c (ntohl bd.block_num))
    | inr o ↦ rw (s, o) (receive_data-Ends c (ntohl bd.block_num) (ntohl bd.data_size))
  ]
]

-- A block takes the bytes of its header at least.
receive_block-Ends : (c : Client) → Ends 13 (left c) (receive_block c)
unfolding receive_block receive_header
receive_block-Ends c = elim (Option-cases (read_full 13 c.sockfd).0) [
  | inl e ↦ inl (_, ap (λ o. receive_header c (o, (read_full 13 c.sockfd).1)) e)
  | inr (bs, e) ↦
      let sock = (read_full 13 c.sockfd).1 in
      let next : Client = record c { sockfd = sock } in
      subst (Ends 13 (left c)) (sym (ap (λ o. receive_header c (o, sock)) e)) (
        Ends-mono 13 (receive_body next (from_bytes bs)) (omega (arith, read_left 13 c.sockfd bs e))
          (receive_body-Ends next (from_bytes bs)))
]

receive_loop-ends :
    (fuel : ℕ) (q : Reception)
    → left q.client < fuel
    → ((q' : Reception) × (receive_loop fuel q ≡ ok q'))
      ⊎ (receive_loop fuel q ≡ fault out_of_range)
unfolding receive_loop received
receive_loop-ends zero q h = absurd (omega arith)
receive_loop-ends (suc fuel) q h = elim (receive_block-Ends q.client) [
  | inl (c, e) ↦ inl (received q (none, c), rw e)
  | inr (inl (b, c, e, less)) ↦ rw e (receive_loop-ends fuel (received q (some b, c)) (omega arith))
  | inr (inr e) ↦ inr (rw e)
]

-- Over any network, also one that stalls or breaks off, `receive_file` ends: with a file, or by the
-- exception for an old block that the cache does not have.
pub receive_file-ends :
    (c : Client) (out : List ℕ)
    → ((q : Reception) × (receive_file c out ≡ ok q)) ⊎ (receive_file c out ≡ fault out_of_range)
unfolding receive_file
receive_file-ends c out =
    receive_loop-ends (suc (left c)) (record { num_blocks = 0; file = out; client = c })
      (omega arith)

-- `receive_block` gives the blocks `bs` and then none.
pub data Arrives : Client → List Block → Client → Type 0 where
  stops : {c c' : Client} → receive_block c ≡ ok (none, c') → Arrives c [] c'
  comes :
      {c c' c'' : Client} {b : Block} {bs : List Block}
      → receive_block c ≡ ok (some b, c')
      → Arrives c' bs c''
      → Arrives c (b ∷ bs) c''

-- The data of the blocks, as `fwrite` puts them into the file.
abbrev pub contents : List Block → List ℕ
contents [] = []
contents (b ∷ bs) = take b.data_size b.bytes ++ contents bs

abbrev Collects : Reception → Reception → Type 0
Collects q q' =
    (bs : List Block) × Arrives q.client bs q'.client
    × (q'.file ≡ q.file ++ contents bs)
    × (q'.num_blocks ≡ (q.num_blocks + length bs + 1) % 2 ^ 32)

receive_loop-Collects : (fuel : ℕ) (q q' : Reception) → receive_loop fuel q ≡ ok q' → Collects q q'
unfolding receive_loop received
receive_loop-Collects zero q q' h = absurd (cc)
receive_loop-Collects (suc fuel) q q' h = elim (receive_block-Ends q.client) [
  | inl (c, e) ↦
      let e' : ok (received q (none, c)) ≡ ok q' = rw e at h in
      let same : received q (none, c) ≡ q' = cc in
      subst (Collects q) same ([], stops e, sym (append-nil q.file), omega arith)
  | inr (inl (b, c, e, less)) ↦
      let h' : receive_loop fuel (received q (some b, c)) ≡ ok q' = rw e at h in
      let (bs, arrives, file, count) = receive_loop-Collects fuel (received q (some b, c)) q' h' in
      (
        b ∷ bs,
        comes e arrives,
        file ∙ append_assoc q.file (take b.data_size b.bytes) (contents bs),
        count ∙ omega arith,
      )
  | inr (inr e) ↦
      absurd (let e' : ◌≡◌ {A = Result Reception} (fault out_of_range) (ok q') = rw e at h in cc)
]

-- When `receive_file` returns, the file has grown by the data of the blocks that `receive_block` gave
-- until it gave none, in order, and the count is one more than the number of these blocks.
pub receive_file-Collects :
    (c : Client) (out : List ℕ) (q : Reception)
    → receive_file c out ≡ ok q
    → (bs : List Block) × Arrives c bs q.client
      × (q.file ≡ out ++ contents bs)
      × (q.num_blocks ≡ (length bs + 1) % 2 ^ 32)
unfolding receive_file
receive_file-Collects c out q h =
    let (bs, arrives, file, count) = receive_loop-Collects (suc (left c)) _ q h in
    (bs, arrives, file, count ∙ omega arith)
