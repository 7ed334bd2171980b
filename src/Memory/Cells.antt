-- ===== src/Memory/Cells.antt =====
-- Blocks in memory: what stands behind a pointer, and which steps leave it alone.
use rabin_fingerprinting.Base.{
  ℕ, ◌≤◌, ◌<◌, ◌≡◌, ◌≢◌, refl, sym, ap, ◌∙◌, Bool, Option, none, some, List, ◌==◌, ==_eq, ==_ne,
  ==_refl, ok, arith, Bool-cases, ◌⊎◌, inl, inr,
}
use rabin_fingerprinting.Server.{Block, BlockMap, put}
use rabin_fingerprinting.Memory.{
  Struct, Memory, at_address, put_struct, load_struct, load_array, store_struct, delete_struct,
}

-- The block of a struct with its bytes.
abbrev pub as_block : Struct → List ℕ → Block
as_block c bytes = record {
  block_num = c.block_num;
  data_size = c.data_size;
  old = c.old;
  bytes = bytes;
}

-- A pointer to a block that is allocated, with its bytes.
pub record Holds (m : Memory) (p : ℕ) (b : Block) : Type 0 where
  pub cell : Struct
  pub data_bytes : List ℕ
  pub at_cell : m.structs p ≡ some cell
  pub at_data : m.arrays cell.data_ptr ≡ some data_bytes
  pub same : as_block cell data_bytes ≡ b
  pub below : p < m.next
  pub data_below : cell.data_ptr < m.next

-- What a step leaves alone.
pub Holds-frame :
    {m m' : Memory} {p : ℕ} {b : Block}
    → Holds m p b
    → m.next ≤ m'.next
    → m'.structs p ≡ m.structs p
    → ((d : ℕ) → d < m.next → m'.arrays d ≡ m.arrays d)
    → Holds m' p b
Holds-frame h le cells arrays = record {
  cell = h.cell;
  data_bytes = h.data_bytes;
  at_cell = cells ∙ h.at_cell;
  at_data = arrays h.cell.data_ptr h.data_below ∙ h.at_data;
  same = h.same;
  below = omega (arith, h.below);
  data_below = omega (arith, h.data_below);
}

pub Holds-put :
    {m : Memory} {p : ℕ} {b : Block} (q : ℕ) (c : Option Struct)
    → q ≢ p
    → Holds m p b
    → Holds (put_struct q c m) p b
Holds-put {p = p} q c ne h = Holds-frame h (omega arith) (rw (==_ne q p ne) refl) (λ d le. refl)

-- The block that a pointer stands for, with another flag.
pub Holds-mark :
    {m : Memory} {p : ℕ} {b : Block} (h : Holds m p b) (flag : Bool)
    → Holds (put_struct p (some (record h.cell { old = flag })) m) p (record b { old = flag })
Holds-mark {p = p} h flag = record {
  cell = record h.cell { old = flag };
  data_bytes = h.data_bytes;
  at_cell = rw (==_refl p) refl;
  at_data = h.at_data;
  same = ap (λ (x : Block). record x { old = flag }) h.same;
  below = h.below;
  data_below = h.data_below;
}

pub load_struct-Holds :
    {m : Memory} {p : ℕ} {b : Block} (h : Holds m p b) → load_struct p m ≡ ok h.cell
unfolding load_struct
load_struct-Holds h = rw (h.at_cell, load_struct) refl

pub load_array-Holds :
    {m : Memory} {p : ℕ} {b : Block} (h : Holds m p b)
    → load_array h.cell.data_ptr m ≡ ok h.data_bytes
unfolding load_array
load_array-Holds h = rw (h.at_data, load_array) refl

pub store_struct-Holds :
    {m : Memory} {p : ℕ} {b : Block} (c : Struct)
    → Holds m p b
    → store_struct p c m ≡ ok (put_struct p (some c) m)
unfolding store_struct
store_struct-Holds c h = rw (load_struct-Holds h) refl

pub delete_struct-Holds :
    {m : Memory} {p : ℕ} {b : Block} → Holds m p b → delete_struct p m ≡ ok (put_struct p none m)
unfolding delete_struct
delete_struct-Holds h = rw (load_struct-Holds h) refl

-- An entry of the map with pointers, and of the map with blocks.
abbrev pub Entry : Memory → Option ℕ → Option Block → Type 0
Entry m none none = Unit {0}
Entry m none (some b) = ⊥
Entry m (some p) none = ⊥
Entry m (some p) (some b) = Holds m p b

-- The map with pointers stands for the map with blocks, and no two numbers share a pointer.
pub record Maps (ptrs : ℕ → Option ℕ) (m : Memory) (blocks : BlockMap) : Type 0 where
  pub entry : (n : ℕ) → Entry m (ptrs n) (blocks n)
  pub apart : (i j p : ℕ) → ptrs i ≡ some p → ptrs j ≡ some p → i ≡ j

put_apart :
    (n p i j q : ℕ) (ptrs : ℕ → Option ℕ)
    → ((i j q : ℕ) → ptrs i ≡ some q → ptrs j ≡ some q → i ≡ j)
    → ((k : ℕ) → ptrs k ≢ some p)
    → at_address n (some p) ptrs i ≡ some q
    → at_address n (some p) ptrs j ≡ some q
    → i ≡ j
put_apart n p i j q ptrs apart fresh hi hj = elim (Bool-cases (n == i)) [
  | inl a ↦ elim (Bool-cases (n == j)) [
    | inl b ↦ sym (==_eq n i a) ∙ ==_eq n j b
    | inr b ↦ absurd (fresh j (rw b at hj ∙ sym (rw a at hi)))
  ]
  | inr a ↦ elim (Bool-cases (n == j)) [
    | inl b ↦ absurd (fresh i (rw a at hi ∙ sym (rw b at hj)))
    | inr b ↦ apart i j q (rw a at hi) (rw b at hj)
  ]
]

-- A new pointer under a number.
pub Maps-put :
    {ptrs : ℕ → Option ℕ} {m m' : Memory} {blocks : BlockMap} (n p : ℕ) (b : Block)
    → Maps ptrs m blocks
    → ((k : ℕ) → n ≢ k → Entry m' (ptrs k) (blocks k))
    → Holds m' p b
    → ((k : ℕ) → ptrs k ≢ some p)
    → Maps (at_address n (some p) ptrs) m' (put n b blocks)
Maps-put {ptrs} {m} {m'} {blocks} n p b maps others new fresh = record {
  entry = λ k. elim (Bool-cases (n == k)) [
    | inl e ↦ rw e new
    | inr e ↦ rw e (others k (λ z. cc (rw z at (==_refl n), e, z)))
  ];
  apart = λ i j q hi hj. put_apart n p i j q ptrs maps.apart fresh hi hj;
}

-- Another block behind the pointer of a number.
pub Maps-mark :
    {ptrs : ℕ → Option ℕ} {m m' : Memory} {blocks : BlockMap} (n p : ℕ) (b : Block)
    → Maps ptrs m blocks
    → ptrs n ≡ some p
    → ((k : ℕ) → n ≢ k → Entry m' (ptrs k) (blocks k))
    → Holds m' p b
    → Maps ptrs m' (put n b blocks)
Maps-mark {ptrs} {m} {m'} {blocks} n p b maps e others new = record {
  entry = λ k. elim (Bool-cases (n == k)) [
    | inl e' ↦ rw (← ==_eq n k e', e, ==_refl n) new
    | inr e' ↦ rw e' (others k (λ z. cc (rw z at (==_refl n), e', z)))
  ];
  apart = maps.apart;
}

-- An entry whose pointers are left alone.
pub Entry-map :
    {m m' : Memory} (o : Option ℕ) (x : Option Block)
    → ((p : ℕ) (b : Block) → o ≡ some p → Holds m p b → Holds m' p b)
    → Entry m o x
    → Entry m' o x
Entry-map none none keep e = e
Entry-map none (some b) keep e = e
Entry-map (some p) none keep e = e
Entry-map (some p) (some b) keep e = keep p b refl e

-- What the maps have under the same number.
pub Entry-none : (m : Memory) (o : Option ℕ) (x : Option Block) → o ≡ none → Entry m o x → x ≡ none
Entry-none m none none e h = refl
Entry-none m none (some b) e h = absurd h
Entry-none m (some p) x e h = cc

pub Entry-some :
    (m : Memory) (o : Option ℕ) (x : Option Block) (p : ℕ)
    → o ≡ some p
    → Entry m o x
    → (b : Block) × (x ≡ some b) × Holds m p b
Entry-some m none x p e h = cc
Entry-some m (some q) none p e h = absurd h
Entry-some m (some q) (some b) p e h = let same : q ≡ p = cc in rw (← same) (b, refl, h)

-- The cell that an update touches, and the others.
pub at_address-cases {ℓ} :
    {A : Type ℓ} (p q : ℕ) (a : Option A) (cells : ℕ → Option A) (c : A)
    → at_address p a cells q ≡ some c
    → ((p ≡ q) × (a ≡ some c)) ⊎ ((p ≢ q) × (cells q ≡ some c))
at_address-cases p q a cells c h = elim (Bool-cases (p == q)) [
  | inl e ↦ inl (==_eq p q e, rw e at h)
  | inr e ↦ inr (λ z. cc (rw z at (==_refl p), e, z), rw e at h)
]

-- The entries of the other numbers, once a number's block is written or deleted.
pub Maps-others :
    {ptrs : ℕ → Option ℕ} {m : Memory} {blocks : BlockMap} (n q : ℕ) (c : Option Struct)
    → Maps ptrs m blocks
    → ptrs n ≡ some q
    → (k : ℕ) → n ≢ k
    → Entry (put_struct q c m) (ptrs k) (blocks k)
Maps-others {ptrs} {m} {blocks} n q c maps at_n k ne =
    Entry-map (ptrs k) (blocks k)
      (λ o x hk held. Holds-put q c (λ z. ne (maps.apart n k o (at_n ∙ ap some z) hk)) held)
      (maps.entry k)

-- The maps over a memory that has more, and the same below.
pub Maps-frame :
    {ptrs : ℕ → Option ℕ} {m m' : Memory} {blocks : BlockMap}
    → Maps ptrs m blocks
    → m.next ≤ m'.next
    → ((p : ℕ) → p < m.next → m'.structs p ≡ m.structs p)
    → ((d : ℕ) → d < m.next → m'.arrays d ≡ m.arrays d)
    → Maps ptrs m' blocks
Maps-frame {ptrs} {m} {m'} {blocks} maps le cells arrays = record {
  entry = λ k.
      Entry-map (ptrs k) (blocks k) (λ p x e h. Holds-frame h le (cells p h.below) arrays)
        (maps.entry k);
  apart = maps.apart;
}

-- The next address is in no map.
pub fresh_pointer :
    {ptrs : ℕ → Option ℕ} {m : Memory} {blocks : BlockMap} (p : ℕ)
    → Maps ptrs m blocks
    → m.next ≤ p
    → (k : ℕ) → ptrs k ≢ some p
fresh_pointer {ptrs} {m} {blocks} p maps le k e =
    let (x, held, h) = Entry-some m (ptrs k) (blocks k) p e (maps.entry k) in
    absurd (omega (arith, h.below))
