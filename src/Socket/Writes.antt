-- ===== src/Socket/Writes.antt =====
-- What a write leaves behind.
use rabin_fingerprinting.Base.{
  ℕ, ◌≡◌, ◌∷◌, negsuc, List, [], ◌++◌, length, take_all, arith, pos, min,
}
use rabin_fingerprinting.Socket.{OutSocket, WriteOutcome, failed, write}

-- A socket whose writes are all taken whole.
abbrev pub IsReliable : OutSocket → Type 0
IsReliable s = s.outcomes ≡ []

pub write-IsReliable :
    (s : OutSocket) (bytes : List ℕ)
    → IsReliable s
    → write s bytes ≡ (pos (length bytes), record { sent = s.sent ++ bytes; outcomes = [] })
unfolding write
write-IsReliable s bytes h =
    let e : min (length bytes) (length bytes) ≡ length bytes = omega arith in
    rw (h, write, take_all bytes, e)

pub write_failed :
    (s : OutSocket) (bytes : List ℕ) (rest : List WriteOutcome)
    → s.outcomes ≡ failed ∷ rest
    → write s bytes ≡ (negsuc 0, record { sent = s.sent; outcomes = rest })
unfolding write
write_failed s bytes rest h = rw (h, write)
