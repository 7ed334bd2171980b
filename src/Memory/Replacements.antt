-- ===== src/Memory/Replacements.antt =====
-- The client's `insert_block` in memory: the new block, and the one that it replaces.
use rabin_fingerprinting.Base.{
  ℕ, suc, ◌-◌, ◌<◌, ◌≡◌, refl, ap, ◌∙◌, true, Option, none, some, List, ==_ne, ==_refl, ok, arith,
}
use rabin_fingerprinting.Server.{Block, BlockMap, put}
use rabin_fingerprinting.Memory.{Memory, at_address, new_struct, new_array, put_struct}
use rabin_fingerprinting.Memory.Cells.{
  Holds, Holds-frame, Holds-put, delete_struct-Holds, Entry, Maps, Maps-put, Entry-map, Entry-some,
  fresh_pointer,
}
use rabin_fingerprinting.Memory.Receiver.{put_array, drop_block}

-- The memory once `bd` is deleted.
abbrev pub without : ℕ → Memory → Memory
without bd m = record (put_array bd none m) { array_count = m.array_count - 1 }

-- The memory with the header, the data and the new block, and without the block that it replaces.
abbrev pub dropped : Option ℕ → Memory → Memory
dropped none m = m
dropped (some q) m = put_struct q none m

module _ (n size : ℕ) (header buf : List ℕ) (m : Memory) where
  abbrev pub filled : Memory
  filled =
      new_struct (record { block_num = n; data_size = size; old = true; data_ptr = suc m.next })
        (new_array buf (new_array header m))

  abbrev pub new_block : Block
  new_block = record { block_num = n; data_size = size; old = true; bytes = buf }

  filled_arrays : (d : ℕ) → d < m.next → (without m.next filled).arrays d ≡ m.arrays d
  filled_arrays d le =
      rw
        (
          ==_ne m.next d (λ z. absurd (omega arith)),
          ==_ne (suc m.next) d (λ z. absurd (omega arith)),
        )
        refl

  filled_struct : (p : ℕ) → p < m.next → filled.structs p ≡ m.structs p
  filled_struct p le = rw (==_ne (suc (suc m.next)) p (λ z. absurd (omega arith))) refl

  pub filled_header : filled.arrays m.next ≡ some header
  filled_header = rw (==_ne (suc m.next) m.next (λ z. absurd (omega arith)), ==_refl m.next) refl

  filled-Holds : {q : ℕ} {x : Block} → Holds m q x → Holds filled q x
  filled-Holds {q} {x} h = Holds-frame h (omega arith) (filled_struct q h.below) (λ d le.
      rw
        (
          ==_ne m.next d (λ z. absurd (omega arith)),
          ==_ne (suc m.next) d (λ z. absurd (omega arith)),
        )
        refl)

  pub drop_block-Holds :
      (o : Option ℕ) (x : Option Block) → Entry m o x → drop_block o filled ≡ ok (dropped o filled)
  unfolding drop_block
  drop_block-Holds none x e = refl
  drop_block-Holds (some q) none e = absurd e
  drop_block-Holds (some q) (some b) e = delete_struct-Holds (filled-Holds e)

  filled_new : Holds (without m.next filled) (suc (suc m.next)) new_block
  filled_new = record {
    cell = record { block_num = n; data_size = size; old = true; data_ptr = suc m.next };
    data_bytes = buf;
    at_cell = rw (==_refl (suc (suc m.next))) refl;
    at_data = rw (==_ne m.next (suc m.next) (λ z. absurd (omega arith)), ==_refl (suc m.next)) refl;
    same = refl;
    below = omega arith;
    data_below = omega arith;
  }

  pub inserted-Maps :
      {ptrs : ℕ → Option ℕ} {blocks : BlockMap} (o : Option ℕ)
      → ptrs n ≡ o
      → Maps ptrs m blocks
      → Maps
          (at_address n (some (suc (suc m.next))) ptrs)
          (without m.next (dropped o filled))
          (put n new_block blocks)
  inserted-Maps {ptrs} {blocks} none e maps =
      Maps-put n _ new_block maps
        (λ k ne.
          Entry-map (ptrs k) (blocks k)
            (λ p x at_k h. Holds-frame h (omega arith) (filled_struct p h.below) filled_arrays)
            (maps.entry k))
        filled_new (fresh_pointer _ maps (omega arith))
  inserted-Maps {ptrs} {blocks} (some q) e maps =
      let (x, held, h) = Entry-some m (ptrs n) (blocks n) q e (maps.entry n) in
      Maps-put n _ new_block maps
        (λ k ne.
          Entry-map (ptrs k) (blocks k)
            (λ p x at_k h.
              Holds-put q none (λ z. ne (maps.apart n k p (e ∙ ap some z) at_k))
                (Holds-frame h (omega arith) (filled_struct p h.below) filled_arrays))
            (maps.entry k))
        (Holds-put q none (λ z. absurd (omega (arith, h.below))) filled_new)
        (fresh_pointer _ maps (omega arith))

pub dropped_count : (o : Option ℕ) (m : Memory) → (dropped o m).array_count ≡ m.array_count
dropped_count none m = refl
dropped_count (some q) m = refl

pub dropped_arrays : (o : Option ℕ) (m : Memory) (d : ℕ) → (dropped o m).arrays d ≡ m.arrays d
dropped_arrays none m d = refl
dropped_arrays (some q) m d = refl
