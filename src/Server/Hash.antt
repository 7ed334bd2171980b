-- ===== src/Server/Hash.antt =====
-- The djb2 hash of `hash_function` and the block numbers that it gives.
use rabin_fingerprinting.Base.{
  ℕ, ◌+◌, ◌*◌, ◌%◌, ◌^◌, ◌<◌, ◌≡◌, refl, ap, List, [], ◌∷◌, ◌++◌, take, arith, ◌==◌, if◌then◌else◌,
  ok, fault, division_by_zero, Bool-cases, ==_ne, append_assoc, inl, inr,
}
use rabin_fingerprinting.Server.{
  Server, widen, hash_step, hash_loop, remainder, hash_function, rabin_func,
}

-- The bytes up to the first zero, as a C string reads them.
unfoldable pub c_string : List ℕ → List ℕ
c_string [] = []
c_string (c ∷ str) = if c == 0 then [] else c ∷ c_string str

-- djb2 on numbers of any size: `hash * 33 + c` for each byte.
unfoldable pub horner : ℕ → List ℕ → ℕ
horner h [] = h
horner h (c ∷ str) = horner (h * 33 + widen c) str

wrapped_33 :
    (h k w : ℕ)
    → h ≡ k % 2 ^ 32
    → ((h * 2 ^ 5 % 2 ^ 32 + h) % 2 ^ 32 + w) % 2 ^ 32 ≡ (k * 33 + w) % 2 ^ 32
wrapped_33 h k w e = omega arith

hash_step-horner : (h k c : ℕ) → h ≡ k % 2 ^ 32 → hash_step h c ≡ (k * 33 + widen c) % 2 ^ 32
unfolding hash_step
hash_step-horner h k c e = wrapped_33 h k (widen c) e

hash_loop-mod :
    (h k : ℕ) (str : List ℕ) → h ≡ k % 2 ^ 32 → hash_loop h str ≡ horner k (c_string str) % 2 ^ 32
unfolding hash_loop horner c_string
hash_loop-mod h k [] e = e
hash_loop-mod h k (c ∷ str) e = elim (Bool-cases (c == 0)) [
  | inl z ↦ rw z e
  | inr nz ↦ rw nz (hash_loop-mod (hash_step h c) (k * 33 + widen c) str (hash_step-horner h k c e))
]

-- The loop of shifts and wrapping additions computes the djb2 polynomial modulo 2^32, over the bytes
-- before the first zero, each read as a signed char.
pub hash_loop-horner : (str : List ℕ) → hash_loop 5381 str ≡ horner 5381 (c_string str) % 2 ^ 32
hash_loop-horner str = hash_loop-mod 5381 5381 str (omega arith)

-- The number of a block with these bytes in a server with this `max_size`.
abbrev pub block_number : ℕ → List ℕ → ℕ
block_number m bytes = hash_loop 5381 (bytes ++ 0 ∷ []) % m

pub hash_function_lem :
    (r : Server) (b : List ℕ) (size : ℕ)
    → 0 < r.max_size
    → hash_function r b size ≡ ok (block_number r.max_size (take size b))
unfolding hash_function remainder
hash_function_lem r b size h = rw (==_ne r.max_size 0 (omega arith))

-- The fingerprint of three bytes.
abbrev pub fingerprint : ℕ → ℕ → ℕ → ℕ → ℕ
fingerprint m b0 b1 b2 = block_number m (b0 ∷ b1 ∷ b2 ∷ []) % 32

pub rabin_func_lem :
    (r : Server) (b0 b1 b2 : ℕ)
    → 0 < r.max_size
    → rabin_func r b0 b1 b2 ≡ ok (fingerprint r.max_size b0 b1 b2)
unfolding rabin_func
rabin_func_lem r b0 b1 b2 h = rw (hash_function_lem r (b0 ∷ b1 ∷ b2 ∷ []) 3 h)

hash_loop-zero :
    (h : ℕ) (xs ys zs : List ℕ) → hash_loop h (xs ++ 0 ∷ ys) ≡ hash_loop h (xs ++ 0 ∷ zs)
unfolding hash_loop
hash_loop-zero h [] ys zs = refl
hash_loop-zero h (x ∷ xs) ys zs = ground (arith, hash_loop-zero (hash_step h x) xs ys zs)

-- Blocks that agree up to and with a zero byte have the same number, whatever follows: the hash of
-- binary data ends at its first zero byte.
block_number-zero :
    (m : ℕ) (xs ys zs : List ℕ) → block_number m (xs ++ 0 ∷ ys) ≡ block_number m (xs ++ 0 ∷ zs)
block_number-zero m xs ys zs =
    rw (append_assoc xs (0 ∷ ys) (0 ∷ []), append_assoc xs (0 ∷ zs) (0 ∷ []))
      (ap (λ t. t % m) (hash_loop-zero 5381 xs _ _))

-- Without a table size the hash traps.
pub hash_function_zero :
    (r : Server) (b : List ℕ) (size : ℕ)
    → r.max_size ≡ 0
    → hash_function r b size ≡ fault division_by_zero
unfolding hash_function remainder
hash_function_zero r b size e = rw e
