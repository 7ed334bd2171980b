-- ===== src/Socket.antt =====
-- The two ends of a connection, as the `write` and `read` calls of Server/rabinserver.cc and
-- Client/rabinclient.cc see them. The network is free to take a part of a write, to refuse it, and to
-- deliver the bytes in any segments.
pub mod Segments
pub mod Writes
use rabin_fingerprinting.Base.{
  ℕ, zero, suc, ◌-◌, ◌≤◌, Bool, true, false, Option, none, some, List, [], ◌∷◌, ◌++◌, min, length,
  take, drop, leb, ◌==◌, if◌then◌else◌, ℤ, pos, negsuc,
}

-- What the system does with one `write` that returns: it fails with -1, or takes at most so many bytes.
-- Not among these are a `write` that blocks for ever, and SIGPIPE, the signal for a write to a closed
-- peer, which no part of the program handles and which ends the process. A run over a list of outcomes
-- is one in which every write returns.
pub data WriteOutcome : Type 0 where
  failed : WriteOutcome
  accepts : ℕ → WriteOutcome

-- The sending end: the bytes taken so far, and the outcomes of the writes to come. Past the end of
-- that list every write is taken whole.
pub record OutSocket : Type 0 where
  pub sent : List ℕ
  pub outcomes : List WriteOutcome

taken : List ℕ → ℕ → List ℕ → List WriteOutcome → ℤ × OutSocket
taken bytes k sent rest =
    (pos (min k (length bytes)), record { sent = sent ++ take k bytes; outcomes = rest })

write_next : List ℕ → List ℕ → List WriteOutcome → ℤ × OutSocket
unfolding taken
write_next bytes sent [] = taken bytes (length bytes) sent []
write_next bytes sent (failed ∷ rest) = (negsuc 0, record { sent = sent; outcomes = rest })
write_next bytes sent (accepts k ∷ rest) = taken bytes k sent rest

unfoldable pub write : OutSocket → List ℕ → ℤ × OutSocket
unfolding write_next taken
write s bytes = write_next bytes s.sent s.outcomes

-- The receiving end: the segments still to come. An empty segment, or none, is a `read` that returns
-- 0 or -1, as at the end of the stream or when the timeout runs out.
abbrev pub InSocket : Type 0
InSocket = List (List ℕ)

-- One `read` of at most `cap` bytes: the rest of a longer segment stays for the next call.
unfoldable pub read : InSocket → ℕ → List ℕ × InSocket
read [] cap = ([], [])
read (seg ∷ segs) cap =
    if leb (length seg) cap then (seg, segs) else (take cap seg, drop cap seg ∷ segs)

-- `while(br < size)` of `receive_block`: reads until `want` bytes are in, or a read returns none.
unfoldable pub read_loop : ℕ → ℕ → List ℕ → InSocket → Option (List ℕ) × InSocket
read_loop zero want buf s = if want == 0 then (some buf, s) else (none, s)
read_loop (suc fuel) want buf s =
    let r : List ℕ × InSocket = read s want in
    let rest : Option (List ℕ) × InSocket = read_loop fuel (want - length r.0) (buf ++ r.0) r.1 in
    if want == 0 then (some buf, s) else (if length r.0 == 0 then (none, r.1) else rest)

-- Every round that goes on reads a byte, so `size` rounds are enough.
unfoldable pub read_full : ℕ → InSocket → Option (List ℕ) × InSocket
read_full size s = read_loop size size [] s
