-- ===== src/Server/Pieces.antt =====
-- The reference for the loop of `send_file` in Server/rabinserver.cc: how a file falls into blocks,
-- written over the bytes with no index, no pointer and no server.
use rabin_fingerprinting.Base.{
  ℕ, ◌≤◌, ◌<◌, ◌≡◌, refl, Bool, true, false, ◌||◌, List, [], ◌∷◌, ◌++◌, All, length, flatten, arith,
  leb, ◌==◌, length-append, append_assoc, Bool-cases, inl, inr,
}
use rabin_fingerprinting.Server.Hash.{fingerprint}

-- A block ends before the byte `b2` if the fingerprint of `b2` and the two bytes before it is zero,
-- or if the block has 64 bytes.
abbrev pub ends_before : ℕ → List ℕ → ℕ → ℕ → ℕ → Bool
ends_before m block b0 b1 b2 = fingerprint m b0 b1 b2 == 0 || leb 64 (length block)

-- The blocks of the rest of a file, after the bytes of the open block, the last two bytes being `b0`
-- and `b1`.
unfoldable pub split : ℕ → List ℕ → ℕ → ℕ → List ℕ → List (List ℕ)
split m block b0 b1 [] = block ∷ []
split m block b0 b1 (b2 ∷ rest) = elim (ends_before m block b0 b1 b2) [
  | true ↦ block ∷ split m (b2 ∷ []) b1 b2 rest
  | false ↦ split m (block ++ b2 ∷ []) b1 b2 rest
]

unfoldable pub pieces : ℕ → List ℕ → List (List ℕ)
pieces m [] = []
pieces m (b0 ∷ []) = (b0 ∷ []) ∷ []
pieces m (b0 ∷ b1 ∷ rest) = split m (b0 ∷ b1 ∷ []) b0 b1 rest

pub split_cut :
    (m : ℕ) (block : List ℕ) (b0 b1 b2 : ℕ) (rest : List ℕ)
    → ends_before m block b0 b1 b2 ≡ true
    → split m block b0 b1 (b2 ∷ rest) ≡ block ∷ split m (b2 ∷ []) b1 b2 rest
unfolding split
split_cut m block b0 b1 b2 rest e = rw (e, split)

pub split_go :
    (m : ℕ) (block : List ℕ) (b0 b1 b2 : ℕ) (rest : List ℕ)
    → ends_before m block b0 b1 b2 ≡ false
    → split m block b0 b1 (b2 ∷ rest) ≡ split m (block ++ b2 ∷ []) b1 b2 rest
unfolding split
split_go m block b0 b1 b2 rest e = rw (e, split)

flatten-split :
    (m : ℕ) (block : List ℕ) (b0 b1 : ℕ) (rest : List ℕ)
    → flatten (split m block b0 b1 rest) ≡ block ++ rest
unfolding flatten
flatten-split m block b0 b1 [] = unfold split in refl
flatten-split m block b0 b1 (b2 ∷ rest) = elim (Bool-cases (ends_before m block b0 b1 b2)) [
  | inl e ↦ rw (split_cut m block b0 b1 b2 rest e, flatten-split m (b2 ∷ []) b1 b2 rest)
  | inr e ↦
      rw (split_go m block b0 b1 b2 rest e, flatten-split m (block ++ b2 ∷ []) b1 b2 rest)
        (append_assoc block (b2 ∷ []) rest)
]

-- The pieces, put together in order, are the file.
pub flatten-pieces : (m : ℕ) (file : List ℕ) → flatten (pieces m file) ≡ file
unfolding pieces flatten
flatten-pieces m [] = refl
flatten-pieces m (b0 ∷ []) = refl
flatten-pieces m (b0 ∷ b1 ∷ rest) = flatten-split m (b0 ∷ b1 ∷ []) b0 b1 rest

-- A block has a byte at least, and no more than `max_bytes`.
abbrev pub InBounds : List ℕ → Type 0
InBounds p = (1 ≤ length p) × (length p ≤ 64)

split-InBounds :
    (m : ℕ) (block : List ℕ) (b0 b1 : ℕ) (rest : List ℕ)
    → InBounds block
    → All InBounds (split m block b0 b1 rest)
split-InBounds m block b0 b1 [] h = unfold split in (h, tt)
split-InBounds m block b0 b1 (b2 ∷ rest) h = elim (Bool-cases (ends_before m block b0 b1 b2)) [
  | inl e ↦
      rw (split_cut m block b0 b1 b2 rest e)
        (h, split-InBounds m (b2 ∷ []) b1 b2 rest (omega arith))
  | inr e ↦
      let open_block : length block < 64 = ground (arith, e) in
      rw (split_go m block b0 b1 b2 rest e) (
        split-InBounds m (block ++ b2 ∷ []) b1 b2 rest
          (omega (arith, length-append block (b2 ∷ []))))
]

pub pieces-InBounds : (m : ℕ) (file : List ℕ) → All InBounds (pieces m file)
unfolding pieces
pieces-InBounds m [] = tt
pieces-InBounds m (b0 ∷ []) = (omega arith, tt)
pieces-InBounds m (b0 ∷ b1 ∷ rest) = split-InBounds m (b0 ∷ b1 ∷ []) b0 b1 rest (omega arith)
