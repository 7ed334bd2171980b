-- ===== src/Server/Cache.antt =====
-- The block cache of the server: `insert_block` and `write_block_to_client`.
use rabin_fingerprinting.Base.{
  ℕ, zero, suc, ◌%◌, ◌/◌, ◌^◌, ◌≤◌, ◌<◌, ◌≡◌, ◌≢◌, refl, sym, ap, ◌∙◌, Bool, true, false, not, ◌||◌,
  none, some, List, [], ◌∷◌, take, length, arith, ◌==◌, ok, fault, exits, ℤ, is_negative,
  Bool-cases, Option-cases, ◌⊎◌, inl, inr, ==_refl, take_twice, length-take,
}
use native.Mathlib.Nat.{mod-lt}
use rabin_fingerprinting.Wire.{to_bytes, host_desc}
use rabin_fingerprinting.Socket.{OutSocket, write}
use rabin_fingerprinting.Server.Hash.{block_number, hash_function_lem}
use rabin_fingerprinting.Server.{
  Block, BlockMap, put, Server, new_server, memcmp_ne, store_block, insert_block, write_data,
  write_block_to_client, send_piece,
}

-- `memcmp` finds no difference exactly in the case of equal bytes.
memcmp_ne-eq : (xs ys : List ℕ) (n : ℕ) → length xs ≡ n → memcmp_ne xs ys n ≡ false → take n ys ≡ xs
unfolding memcmp_ne
memcmp_ne-eq [] ys zero e h = refl
memcmp_ne-eq (x ∷ xs) ys zero e h = absurd (omega arith)
memcmp_ne-eq [] ys (suc n) e h = absurd (omega arith)
memcmp_ne-eq (x ∷ xs) [] (suc n) e h = cc
memcmp_ne-eq (x ∷ xs) (y ∷ ys) (suc n) e h = ground (arith, memcmp_ne-eq xs ys n)

memcmp_ne_self :
    (xs ys : List ℕ) (n : ℕ) → length xs ≡ n → take n ys ≡ xs → memcmp_ne xs ys n ≡ false
unfolding memcmp_ne
memcmp_ne_self [] ys zero e h = refl
memcmp_ne_self (x ∷ xs) ys zero e h = absurd (omega arith)
memcmp_ne_self [] ys (suc n) e h = absurd (omega arith)
memcmp_ne_self (x ∷ xs) [] (suc n) e h = cc
memcmp_ne_self (x ∷ xs) (y ∷ ys) (suc n) e h = ground (arith, memcmp_ne_self xs ys n)

memcmp_ne-take : (xs ys : List ℕ) (n : ℕ) → memcmp_ne xs (take n ys) n ≡ memcmp_ne xs ys n
unfolding memcmp_ne
memcmp_ne-take xs ys zero = refl
memcmp_ne-take [] ys (suc n) = refl
memcmp_ne-take (x ∷ xs) [] (suc n) = refl
memcmp_ne-take (x ∷ xs) (y ∷ ys) (suc n) = rw (memcmp_ne-take xs ys n)

pub store_block-take :
    (n : ℕ) (b : List ℕ) (size : ℕ) (m : BlockMap)
    → store_block n b size m ≡ store_block n (take size b) size m
unfolding store_block
store_block-take n b size m = elim (Option-cases (m n)) [
  | inl e ↦ rw (e, store_block, take_twice size b)
  | inr (cur, e) ↦ rw (e, store_block, take_twice size b, memcmp_ne-take cur.bytes b size)
]

-- The map's entry at `n` is a block of that number with as many bytes as it says.
abbrev pub IsBlock : ℕ → ℕ → Block → Type 0
IsBlock m n b = (b.block_num ≡ n) × (b.data_size ≡ length b.bytes) × (n < m)

pub record IsValid (r : Server) : Type 0 where
  pub positive : 0 < r.max_size
  pub small : r.max_size < 2 ^ 32
  pub numbered : (n : ℕ) (b : Block) → r.blocks n ≡ some b → IsBlock r.max_size n b

-- The block of these bytes, as the map holds it.
abbrev pub block_of : ℕ → List ℕ → Bool → Block
block_of n p o = record { block_num = n; data_size = length p; old = o; bytes = p }

-- The flag says whether the map had exactly these bytes under the number.
abbrev pub Flags : BlockMap → ℕ → List ℕ → Bool → Type 0
Flags m n p o =
    ((o ≡ true) × ((cur : Block) × (m n ≡ some cur) × (cur.bytes ≡ p)))
    ⊎ ((o ≡ false) × ((cur : Block) → m n ≡ some cur → cur.bytes ≢ p))

-- A block that the test of `insert_block` finds to be different has other bytes.
other_bytes :
    (cur cur' : Block) (m : BlockMap) (n size : ℕ) (b : List ℕ)
    → m n ≡ some cur
    → cur.data_size ≡ length cur.bytes
    → length (take size b) ≡ size
    → (not (cur.data_size == size) || memcmp_ne cur.bytes b size) ≡ true
    → m n ≡ some cur'
    → cur'.bytes ≢ take size b
other_bytes cur cur' m n size b e sized full test e' q =
    let same_block : cur ≡ cur' = cc in
    let same : cur.bytes ≡ take size b = ap (λ (x : Block). x.bytes) same_block ∙ q in
    let size_eq : cur.data_size ≡ size = sized ∙ ap length same ∙ full in
    ground (arith, memcmp_ne_self cur.bytes b size (ap length same ∙ full) (sym same), ==_refl size)

store_block-Flags :
    (n size : ℕ) (b : List ℕ) (m : BlockMap)
    → ((cur : Block) → m n ≡ some cur → (cur.block_num ≡ n) × (cur.data_size ≡ length cur.bytes))
    → length (take size b) ≡ size
    → (o : Bool) × (store_block n b size m ≡ put n (block_of n (take size b) o) m)
      × Flags m n (take size b) o
unfolding store_block
store_block-Flags n size b m valid full = elim (Option-cases (m n)) [
  | inl e ↦ (false, rw (e, store_block, full), inr (refl, λ cur h. cc))
  | inr (cur, e) ↦
      let (num, sized) = valid cur e in
      elim (Bool-cases (not (cur.data_size == size) || memcmp_ne cur.bytes b size)) [
        | inl d ↦ (
          false,
          rw (e, store_block, d, full),
          inr (refl, λ cur' h. other_bytes cur cur' m n size b e sized full d h),
        )
        | inr d ↦
            let size_eq : cur.data_size ≡ size = ground (arith, d) in
            let same : cur.bytes ≡ take size b =
              sym (memcmp_ne-eq cur.bytes b size (sym sized ∙ size_eq) (ground (arith, d))) in
            (
              true,
              rw (e, store_block, d)
                  (λ i.
                    put n
                      (record {
                        block_num = num i;
                        data_size = (size_eq ∙ sym full) i;
                        old = true;
                        bytes = same i;
                      })
                      m),
              inl (refl, (cur, e, same)),
            )
      ]
]

pub put-IsValid :
    {r : Server} (n : ℕ) (b : Block) (s : OutSocket)
    → IsValid r
    → IsBlock r.max_size n b
    → IsValid (record r { blocks = put n b r.blocks; newsockfd = s })
put-IsValid {r} n b s v t = record {
  positive = v.positive;
  small = v.small;
  numbered = λ q c h. elim (Bool-cases (n == q)) [
    | inl e ↦ ground (arith, e, h)
    | inr d ↦ v.numbered q c (rw d at h)
  ];
}

pub sock-IsValid : {r : Server} (s : OutSocket) → IsValid r → IsValid (record r { newsockfd = s })
sock-IsValid s v = record { positive = v.positive; small = v.small; numbered = v.numbered }

abbrev pub empty_server : ℕ → OutSocket → Server
empty_server size s = record { blocks = λ _. none; max_size = size; newsockfd = s }

pub empty_server-IsValid :
    (size : ℕ) (s : OutSocket) → 0 < size → size < 2 ^ 32 → IsValid (empty_server size s)
empty_server-IsValid size s h k = record { positive = h; small = k; numbered = λ n b e. cc }

-- The constructor ends the program if the port cannot be bound, and otherwise leaves an empty and
-- valid cache, provided that the hash map's limit gives a table size at all.
new_server-IsValid :
    (map_max_size : ℕ) (bound : ℤ) (s : OutSocket)
    → 0 < map_max_size / 10000 % 2 ^ 32
    → ((is_negative bound ≡ true) × (new_server bound map_max_size s ≡ fault (exits 1)))
      ⊎ ((is_negative bound ≡ false)
          × ((r : Server) × (new_server bound map_max_size s ≡ ok r)
              × IsValid r
              × (r.blocks ≡ λ _. none)
              × (r.newsockfd ≡ s)))
unfolding new_server
new_server-IsValid m bound s h = elim (Bool-cases (is_negative bound)) [
  | inl t ↦ inl (t, rw t)
  | inr t ↦
      let size = m / 10000 % 2 ^ 32 in
      inr (t, (empty_server size s, rw t, empty_server-IsValid size s h (omega arith), refl, refl))
]

-- With a valid cache `insert_block` does not fault. It stores the bytes under their number and changes no other entry,
-- and marks the block as old if the map had these very bytes there and as new otherwise.
pub insert_block_lem :
    (r : Server) (b : List ℕ) (size : ℕ)
    → IsValid r
    → size ≤ length b
    → let p = take size b in
      let n = block_number r.max_size p in
      (o : Bool) × (insert_block r b size
        ≡ ok (n, record r { blocks = put n (block_of n p o) r.blocks }))
      × Flags r.blocks n p o
unfolding insert_block
insert_block_lem r b size v le =
    let n = block_number r.max_size (take size b) in
    let (o, stored, flags) =
      store_block-Flags n size b r.blocks
        (λ cur h. ((v.numbered n cur h).0, (v.numbered n cur h).1))
        (omega (arith, length-take size b)) in
    (o, rw (hash_function_lem r b size v.positive, stored), flags)

-- Whatever the writes return, `write_block_to_client` finds a block that is there and
-- leaves a valid cache valid.
write_block_to_client-IsValid :
    (r : Server) (i : ℕ) (b : Block)
    → IsValid r
    → r.blocks i ≡ some b
    → (n : ℤ) × (r' : Server) × (write_block_to_client r i ≡ ok (n, r'))
      × (r'.max_size ≡ r.max_size)
      × IsValid r'
unfolding write_block_to_client write_data
write_block_to_client-IsValid r i b v e =
    let header = write r.newsockfd (to_bytes (host_desc b.block_num b.data_size b.old)) in
    let here = v.numbered i b e in
    let out = write_data r i b header in
    elim (Bool-cases (is_negative header.0)) [
      | inl neg ↦ (
        header.0,
        record r { newsockfd = header.1 },
        rw (e, write_block_to_client, neg),
        refl,
        sock-IsValid header.1 v,
      )
      | inr sent ↦ elim (Bool-cases b.old) [
        | inl o ↦ (
          header.0,
          record r { newsockfd = header.1 },
          rw (e, write_block_to_client, sent, o),
          refl,
          sock-IsValid header.1 v,
        )
        | inr o ↦
            let body = write header.1 (take b.data_size b.bytes) in
            (
              body.0,
              record r { blocks = put i (record b { old = true }) r.blocks; newsockfd = body.1 },
              rw (e, write_block_to_client, sent, o),
              refl,
              put-IsValid i (record b { old = true }) body.1 v here,
            )
      ]
    ]

-- One block sent, also when its writes fail with -1: the cache stays valid.
pub send_piece-IsValid :
    (r : Server) (b : List ℕ) (size : ℕ)
    → IsValid r
    → size ≤ length b
    → (r' : Server) × (send_piece r b size ≡ ok r') × (r'.max_size ≡ r.max_size) × IsValid r'
unfolding send_piece
send_piece-IsValid r b size v le =
    let p = take size b in
    let n = block_number r.max_size p in
    let (o, inserted, flags) = insert_block_lem r b size v le in
    let v' = put-IsValid n (block_of n p o) r.newsockfd v (refl, refl, mod-lt _ v.positive) in
    let (_, r', run, same, w) =
      write_block_to_client-IsValid _ n (block_of n p o) v' (rw ==_refl) in
    (r', rw (inserted, run), same, w)
