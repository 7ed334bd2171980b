-- ===== src/Memory/Inserts.antt =====
-- What stands for a server, and `insert_block` on both.
use rabin_fingerprinting.Base.{
  ℕ, suc, ◌<◌, ◌%◌, ◌≡◌, ◌≢◌, refl, false, Option, some, List, [], ◌∷◌, ◌++◌, take, ==_ne, ==_refl,
  ok, arith, inl, inr,
}
use rabin_fingerprinting.Server
use rabin_fingerprinting.Server.{
  Block, BlockMap, put, Server, store_block, write_data, hash_loop, remainder,
}
use rabin_fingerprinting.Memory.{
  Struct, Memory, Owner, at_address, new_struct, new_array, put_struct, hash_block, load_struct,
  store_struct, insert_block,
}
use rabin_fingerprinting.Memory.Cells.{
  Holds, Holds-frame, Maps, Entry-map, fresh_pointer, at_address-cases,
}
use rabin_fingerprinting.Memory.Blocks.{Owned, OwnedBut, enter_block-Entered}

-- The server with pointers stands for the one that holds its blocks by value.
pub record Represents (s : Owner) (r : Server) : Type 0 where
  pub maps : Maps s.blocks s.memory r.blocks
  pub owned : Owned s.blocks s.memory
  pub positive : 0 < r.max_size
  pub same_size : s.max_size ≡ r.max_size
  pub same_socket : s.newsockfd ≡ r.newsockfd

abbrev block_at : ℕ → ℕ → ℕ → Struct
block_at n size d = record { block_num = n; data_size = size; old = false; data_ptr = d }

-- The memory once the new block has its fields.
abbrev staged : ℕ → List ℕ → ℕ → Memory → Memory
staged n b size m =
    put_struct m.next (some (block_at n size (suc (suc m.next))))
      (new_array (take size b) (new_array (take size b ++ 0 ∷ []) (new_struct (block_at 0 0 0) m)))

module _ (n : ℕ) (b : List ℕ) (size : ℕ) (m : Memory) where
  staged-Holds : (q : ℕ) (x : Block) → Holds m q x → Holds (staged n b size m) q x
  staged-Holds q x h =
      let ne : m.next ≢ q = λ z. absurd (omega (arith, h.below)) in
      Holds-frame h (omega arith) (rw (==_ne m.next q ne) refl) (λ d below.
        rw
          (
            ==_ne (suc m.next) d (λ z. absurd (omega arith)),
            ==_ne (suc (suc m.next)) d (λ z. absurd (omega arith)),
          )
          refl)

  staged_new :
      Holds
        (staged n b size m)
        m.next
        (record { block_num = n; data_size = size; old = false; bytes = take size b })
  staged_new = record {
    cell = block_at n size (suc (suc m.next));
    data_bytes = take size b;
    at_cell = rw (==_refl m.next) refl;
    at_data = rw (==_refl (suc (suc m.next))) refl;
    same = refl;
    below = omega arith;
    data_below = omega arith;
  }

  staged-Maps :
      {ptrs : ℕ → Option ℕ} {blocks : BlockMap}
      → Maps ptrs m blocks
      → Maps ptrs (staged n b size m) blocks
  staged-Maps {ptrs} {blocks} maps = record {
    entry = λ k. Entry-map (ptrs k) (blocks k) (λ q x e h. staged-Holds q x h) (maps.entry k);
    apart = maps.apart;
  }

  staged-Owned : {ptrs : ℕ → Option ℕ} → Owned ptrs m → OwnedBut m.next ptrs (staged n b size m)
  staged-Owned owned q c h =
      elim (at_address-cases m.next q (some (block_at n size (suc (suc m.next))))
        (at_address m.next (some (block_at 0 0 0)) m.structs) c h) [
          | inl (z, e) ↦ inl z
          | inr (ne, e) ↦ inr (owned q c (rw (==_ne m.next q ne) at e))
        ]

  staged_store :
      store_struct m.next (block_at n size (suc (suc m.next))) (
        new_array (take size b) (new_array (take size b ++ 0 ∷ []) (new_struct (block_at 0 0 0) m)))
      ≡ ok (staged n b size m)
  unfolding store_struct load_struct
  staged_store = rw (store_struct, load_struct, ==_refl m.next) refl

pub remainder_lem : (x m : ℕ) → 0 < m → remainder x m ≡ ok (x % m)
unfolding remainder
remainder_lem x m h = rw (==_ne m 0 (λ z. absurd (omega arith))) refl

-- Both insert under the same number.
pub insert_block-Represents :
    {s : Owner} {r : Server} (b : List ℕ) (size : ℕ)
    → Represents s r
    → (n : ℕ) × (s' : Owner) × (r' : Server) × (insert_block s b size ≡ ok (n, s'))
      × (Server.insert_block r b size ≡ ok (n, r'))
      × Represents s' r'
      × (s'.memory.array_count ≡ suc (suc s.memory.array_count))
unfolding insert_block hash_block Server.insert_block Server.hash_function
insert_block-Represents {s} {r} b size rep =
    let n = hash_loop 5381 (take size b ++ 0 ∷ []) % r.max_size in
    let m = s.memory in
    let hash : remainder (hash_loop 5381 (take size b ++ 0 ∷ [])) r.max_size ≡ ok n =
      remainder_lem _ r.max_size rep.positive in
    let e =
      enter_block-Entered n m.next b size s.blocks (staged n b size m) r.blocks
        (staged-Maps n b size m rep.maps) (fresh_pointer s.memory.next rep.maps (omega arith))
        (staged-Owned n b size m rep.owned) (staged_new n b size m) in
    (
      n,
      record s { blocks = e.ptrs_after; memory = e.after },
      record r { blocks = store_block n b size r.blocks },
      rw (rep.same_size, hash, staged_store n b size m, e.run) refl,
      rw hash refl,
      record {
        maps = e.maps;
        owned = e.owned;
        positive = rep.positive;
        same_size = rep.same_size;
        same_socket = rep.same_socket;
      },
      e.count,
    )
