-- ===== src/Memory/Files.antt =====
-- `send_file` with the memory that it allocates.
use rabin_fingerprinting.Base.{
  ℕ, zero, suc, ◌+◌, ◌-◌, ◌/◌, ◌%◌, ◌^◌, ◌||◌, List, [], ◌∷◌, drop, get_or, ltb, leb, ◌==◌, false,
  if◌then◌else◌, Result, ok, fault, out_of_fuel, ◌>>=◌, ℤ,
}
use rabin_fingerprinting.Wire.{to_bytes, host_desc}
use rabin_fingerprinting.Socket.{OutSocket, write}
use rabin_fingerprinting.Server.{max_bytes}
use rabin_fingerprinting.Memory.{Owner, hash_block, send_piece}

unfoldable pub rabin_func : Owner → ℕ → ℕ → ℕ → Result (ℕ × Owner)
rabin_func s b0 b1 b2 = do
  h ← hash_block s.max_size (b0 ∷ b1 ∷ b2 ∷ []) 3 s.memory
  ok (h.0 % (max_bytes / 2), record s { memory = h.1 })

-- The variables of `send_file`.
pub record Progress : Type 0 where
  pub prev : ℕ
  pub num_blocks : ℕ
  pub owner : Owner

unfoldable pub send_until : List ℕ → ℕ → Progress → Result Progress
send_until file until p = do
  s ← send_piece p.owner (drop p.prev file) (until - p.prev)
  ok (record p { num_blocks = p.num_blocks + 1; owner = s })

unfoldable pub send_round : List ℕ → ℕ → Progress → Result Progress
send_round file i p = do
  h ← rabin_func p.owner (get_or file (i - 2) 0) (get_or file (i - 1) 0) (get_or file i 0)
  let too_large = leb max_bytes (i - p.prev)
  let hashed = record p { owner = h.1 }
  let cut = send_until file i hashed >>= λ q. ok (record q { prev = i })
  if h.0 == 0 || too_large then cut else ok hashed

unfoldable pub send_loop : ℕ → List ℕ → ℕ → ℕ → Progress → Result Progress
send_loop zero file s i p = if ltb i s then fault out_of_fuel else ok p
send_loop (suc fuel) file s i p =
    let rest : Progress → Result Progress = λ q. send_loop fuel file s ((i + 1) % 2 ^ 32) q in
    if ltb i s then (send_round file i p >>= rest) else ok p

unfoldable pub send_tail : List ℕ → ℕ → Progress → Result (ℕ × Owner)
send_tail file s p = do
  q ← if p.prev == s then ok p else send_until file s p
  let eof : ℤ × OutSocket = write q.owner.newsockfd (to_bytes (host_desc 0 0 false))
  ok (q.num_blocks + 1, record q.owner { newsockfd = eof.1 })

unfoldable pub send_file : Owner → List ℕ → ℕ → Result (ℕ × Owner)
send_file r file s = do
  p ← send_loop s file s 2 (record { prev = 0; num_blocks = 0; owner = r })
  send_tail file s p
