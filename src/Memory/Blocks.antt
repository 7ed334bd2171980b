-- ===== src/Memory/Blocks.antt =====
-- `insert_block` with its pointers: the new block's memory, and the three ways it enters the map.
use rabin_fingerprinting.Base.{
  ℕ, ◌≡◌, ◌≢◌, refl, sym, ap, ◌∙◌, true, false, not, ◌||◌, Option, none, some, List, take, ◌==◌,
  ==_ne, ==_refl, ok, Bool-cases, Option-cases, ◌⊎◌, inl, inr,
}
use rabin_fingerprinting.Server.{Block, BlockMap, store_block, memcmp_ne}
use rabin_fingerprinting.Memory.{
  Struct, Memory, at_address, put_struct, differs, replace_block, enter_block,
}
use rabin_fingerprinting.Memory.Cells.{
  Holds, Holds-put, Holds-mark, load_struct-Holds, load_array-Holds, store_struct-Holds,
  delete_struct-Holds, Maps, Maps-put, Maps-mark, Entry-map, Entry-none, Entry-some, Maps-others,
  at_address-cases,
}

-- Every block that is allocated is in the map.
abbrev pub Owned : (ℕ → Option ℕ) → Memory → Type 0
Owned ptrs m = (q : ℕ) (c : Struct) → m.structs q ≡ some c → (k : ℕ) × (ptrs k ≡ some q)

-- The same but for the new block.
abbrev pub OwnedBut : ℕ → (ℕ → Option ℕ) → Memory → Type 0
OwnedBut p ptrs m =
    (q : ℕ) (c : Struct) → m.structs q ≡ some c → (p ≡ q) ⊎ ((k : ℕ) × (ptrs k ≡ some q))

-- What entering a block comes to.
pub record Entered (n p : ℕ) (b : List ℕ) (size : ℕ) (ptrs : ℕ → Option ℕ) (m : Memory)
    (blocks : BlockMap) : Type 0 where
  pub ptrs_after : ℕ → Option ℕ
  pub after : Memory
  pub run : enter_block n p b size ptrs m ≡ ok (ptrs_after, after)
  pub maps : Maps ptrs_after after (store_block n b size blocks)
  pub owned : Owned ptrs_after after
  pub count : after.array_count ≡ m.array_count

differs-Holds :
    {m : Memory} {q : ℕ} {x : Block} (h : Holds m q x) (b : List ℕ) (size : ℕ)
    → differs h.cell b size m ≡ ok (not (x.data_size == size) || memcmp_ne x.bytes b size)
unfolding differs
differs-Holds h b size = rw (← h.same) (elim (Bool-cases (h.cell.data_size == size)) [
  | inl e ↦ rw (e, load_array-Holds h) refl
  | inr e ↦ rw e refl
])

module _ (n p : ℕ) (b : List ℕ) (size : ℕ) (ptrs : ℕ → Option ℕ) (m : Memory) (blocks : BlockMap)
    (maps : Maps ptrs m blocks) (fresh : (k : ℕ) → ptrs k ≢ some p) (owned : OwnedBut p ptrs m)
    (new : Holds m p
      (record { block_num = n; data_size = size; old = false; bytes = take size b })) where
  owned_elsewhere :
      (q : ℕ) (o : Option ℕ)
      → ptrs n ≡ o
      → o ≢ some q
      → (k : ℕ) → ptrs k ≡ some q
      → (k : ℕ) × (at_address n (some p) ptrs k ≡ some q)
  owned_elsewhere q o e ne k h = (k, rw (==_ne n k (λ z. ne (sym e ∙ ap ptrs z ∙ h))) h)

  enter_first : ptrs n ≡ none → Entered n p b size ptrs m blocks
  unfolding enter_block store_block
  enter_first e = record {
    ptrs_after = at_address n (some p) ptrs;
    after = m;
    run = rw (enter_block, e) refl;
    maps =
        rw (store_block, Entry-none m (ptrs n) (blocks n) e (maps.entry n))
          (Maps-put n p _ maps (λ k ne. maps.entry k) new fresh);
    owned = λ q c h. elim (owned q c h) [
      | inl z ↦ (n, rw (==_refl n) (ap some z))
      | inr (k, hk) ↦ owned_elsewhere q none e (λ z. cc z) k hk
    ];
    count = refl;
  }

  module _ (q : ℕ) (at_n : ptrs n ≡ some q) (cur : Block) (held : blocks n ≡ some cur)
      (h : Holds m q cur) where
    p_apart : p ≢ q
    p_apart z = fresh n (at_n ∙ ap some (sym z))

    enter_replaced :
        (not (cur.data_size == size) || memcmp_ne cur.bytes b size) ≡ true
        → Entered n p b size ptrs m blocks
    unfolding enter_block replace_block store_block
    enter_replaced test = record {
      ptrs_after = at_address n (some p) ptrs;
      after = put_struct q none m;
      run =
          rw
            (
              enter_block,
              at_n,
              load_struct-Holds h,
              differs-Holds h b size,
              test,
              delete_struct-Holds h,
            )
            refl;
      maps =
          rw (store_block, held, test)
            (Maps-put n p _ maps (Maps-others n q none maps at_n)
              (Holds-put q none (λ z. p_apart (sym z)) new) fresh);
      owned = λ o c hc. elim (at_address-cases q o none m.structs c hc) [
        | inl (z, w) ↦ cc w
        | inr (ne, w) ↦ elim (owned o c w) [
          | inl z ↦ (n, rw (==_refl n) (ap some z))
          | inr (k, hk) ↦ owned_elsewhere o (some q) at_n (λ z. ne (cc z)) k hk
        ]
      ];
      count = refl;
    }

    enter_same :
        (not (cur.data_size == size) || memcmp_ne cur.bytes b size) ≡ false
        → Entered n p b size ptrs m blocks
    unfolding enter_block replace_block store_block
    enter_same test =
        let marked = put_struct q (some (record h.cell { old = true })) m in
        let new_marked =
          Holds-put q (some (record h.cell { old = true })) (λ z. p_apart (sym z)) new in
        record {
          ptrs_after = ptrs;
          after = put_struct p none marked;
          run =
              rw
                (
                  enter_block,
                  at_n,
                  load_struct-Holds h,
                  differs-Holds h b size,
                  test,
                  store_struct-Holds (record h.cell { old = true }) h,
                  delete_struct-Holds new_marked,
                )
                refl;
          maps =
              rw (store_block, held, test)
                (Maps-mark n q (record cur { old = true }) maps at_n
                  (λ k ne.
                    Entry-map (ptrs k) (blocks k)
                      (λ o x hk held_x.
                        Holds-put p none (λ z. fresh k (hk ∙ ap some (sym z))) held_x)
                      (Maps-others n q _ maps at_n k ne))
                  (Holds-put p none p_apart (Holds-mark h true)));
          owned = λ o c hc. elim (at_address-cases p o none marked.structs c hc) [
            | inl (z, w) ↦ cc w
            | inr (ne, w) ↦ elim (at_address-cases q o _ m.structs c w) [
              | inl (z, u) ↦ (n, at_n ∙ ap some z)
              | inr (apart, u) ↦ elim (owned o c u) [ inl z ↦ absurd (ne z) | inr k ↦ k ]
            ]
          ];
          count = refl;
        }

  pub enter_block-Entered : Entered n p b size ptrs m blocks
  enter_block-Entered = elim (Option-cases (ptrs n)) [
    | inl e ↦ enter_first e
    | inr (q, e) ↦
        let (cur, held, h) = Entry-some m (ptrs n) (blocks n) q e (maps.entry n) in
        elim (Bool-cases (not (cur.data_size == size) || memcmp_ne cur.bytes b size)) [
          | inl test ↦ enter_replaced q e cur held h test
          | inr test ↦ enter_same q e cur held h test
        ]
  ]
