-- ===== src/Transfer/Files.antt =====
-- Whole files, from `send_file` of the server to `receive_file` of the client.
use mathlib.Core.List.{append_assoc}
use rabin_fingerprinting.Base.{
  ℕ, suc, ◌+◌, ◌-◌, ◌%◌, ◌^◌, ◌≤◌, ◌<◌, ◌≡◌, refl, sym, ap, ◌∙◌, subst, false, none, List, [], ◌++◌,
  flatten, length, take, arith, ok, append_cancel, length-append,
}
use rabin_fingerprinting.Wire.{to_bytes, host_desc}
use rabin_fingerprinting.Wire.Roundtrip.{length-to_bytes}
use rabin_fingerprinting.Socket.{OutSocket}
use rabin_fingerprinting.Socket.Segments.{IsFlowing}
use rabin_fingerprinting.Socket.Writes.{write-IsReliable}
use rabin_fingerprinting.Server.Cache.{sock-IsValid}
use rabin_fingerprinting.Server.Pieces.{pieces, pieces-InBounds, flatten-pieces}
use rabin_fingerprinting.Server.Sending.{send_eof, send_file-pieces}
use rabin_fingerprinting.Server.{Server, send_file}
use rabin_fingerprinting.Client.{Client, receive_block, receive_loop, receive_file}
use rabin_fingerprinting.Client.Receive.{receive_eof}
use rabin_fingerprinting.Transfer.{Synced, IsReady, Sends, Takes}
use rabin_fingerprinting.Transfer.Rounds.{so_far, loop_eof, Loops, send_all-Takes}

-- The end of a file, from `send_eof` to the round of the client that gets no block.
eof_Takes :
    (k : ℕ) (r : Server)
    → IsReady r
    → (r' : Server) × (msg : List ℕ) × (send_eof k r ≡ ok (k + 1, r'))
      × Sends r r' msg
      × (1 ≤ length msg)
      × Takes r r' msg (λ before after. receive_block before ≡ ok (none, after))
unfolding send_eof
eof_Takes k r ready =
    let msg = to_bytes (host_desc 0 0 false) in
    let sock : OutSocket = record { sent = r.newsockfd.sent ++ msg; outcomes = [] } in
    (
      record r { newsockfd = sock },
      msg,
      rw (write-IsReliable r.newsockfd msg ready.reliable),
      record {
        ready = record { valid = sock-IsValid sock ready.valid; reliable = refl };
        same_size = refl;
        wire = refl;
      },
      omega (arith, length-to_bytes (host_desc 0 0 false)),
      λ c rest sync flow stream.
          let (s, run, left, flow') = receive_eof c rest flow stream in
          (
            record c { sockfd = s },
            run,
            record { settled = sync.settled; held = sync.held },
            left,
            flow',
          ),
    )

file_received :
    (ps : List (List ℕ)) (bytes out : List ℕ) (c c' c'' : Client)
    → flatten ps ≡ bytes
    → Loops (length ps) (flatten ps) c c'
    → receive_block c' ≡ ok (none, c'')
    → receive_file c out
      ≡ ok (record { num_blocks = (length ps + 1) % 2 ^ 32; file = out ++ bytes; client = c'' })
unfolding receive_file
file_received ps bytes out c c' c'' whole loops eof =
    let (fuel, same, enough) = loops (suc (length (flatten c.sockfd))) 0 out (omega arith) in
    let more : fuel ≡ suc (fuel - 1) = omega (arith, enough) in
    let count : 0 + length ps ≡ length ps = omega arith in
    same
    ∙ ap (λ f. receive_loop f (so_far (0 + length ps) (out ++ flatten ps) c')) more
    ∙ loop_eof (fuel - 1) (0 + length ps) (out ++ flatten ps) c' c'' eof
    ∙ rw (count, whole)

-- A server whose connection loses nothing sends a file without a fault, and a client in step with it
-- takes the messages.
pub transfer_file :
    (r : Server) (file : List ℕ) (s : ℕ)
    → IsReady r
    → s ≤ length file
    → s < 2 ^ 32
    → let blocks = length (pieces r.max_size (take s file)) in
      (r' : Server) × (msg : List ℕ) × (send_file r file s ≡ ok (blocks + 1, r'))
      × Sends r r' msg
      × (1 ≤ length msg)
      × Takes r r' msg (λ c c'.
        (out : List ℕ)
        → receive_file c out
          ≡ ok (record {
            num_blocks = (blocks + 1) % 2 ^ 32;
            file = out ++ take s file;
            client = c';
          }))
transfer_file r file s ready le fits =
    let ps = pieces r.max_size (take s file) in
    let (r₁, msg₁, run₁, sends₁, takes₁) =
      send_all-Takes ps r ready (pieces-InBounds r.max_size (take s file)) in
    let (r₂, msg₂, run₂, sends₂, some_bytes, takes₂) = eof_Takes (length ps) r₁ sends₁.ready in
    (
      r₂,
      msg₁ ++ msg₂,
      send_file-pieces r file s ready.valid le fits ∙ rw (run₁, run₂),
      record {
        ready = sends₂.ready;
        same_size = sends₂.same_size ∙ sends₁.same_size;
        wire =
            sends₂.wire ∙ ap (λ l. l ++ msg₂) sends₁.wire ∙ append_assoc r.newsockfd.sent msg₁ msg₂;
      },
      omega (arith, length-append msg₁ msg₂, some_bytes),
      λ c rest sync flow stream.
          let (c₁, loops, sync₁, left₁, flow₁) =
            takes₁ c (msg₂ ++ rest) sync flow (stream ∙ append_assoc msg₁ msg₂ rest) in
          let (c₂, eof, sync₂, left₂, flow₂) = takes₂ c₁ rest sync₁ flow₁ left₁ in
          (
            c₂,
            λ out.
                file_received ps (take s file) out c c₁ c₂ (flatten-pieces r.max_size (take s file))
                  loops eof,
            sync₂,
            left₂,
            flow₂,
          ),
    )

-- What the client's reception of a whole file comes to: it has the bytes, it counted the blocks that
-- the server counted, the rest of its stream is still there, and it is in step with the server.
pub record Receives (r' : Server) (c' : Client) (rest : List ℕ) : Type 0 where
  pub ready : IsReady r'
  pub synced : Synced r' c'
  pub left : flatten c'.sockfd ≡ rest
  pub flowing : IsFlowing c'.sockfd

-- A server with a valid cache, whose connection loses nothing, sends a file of `s` bytes, `s` in
-- 32 bits, from the head of a buffer. A client in step with the server that finds the bytes sent
-- at the head of its stream, in segments of any sizes but none empty, appends exactly the file's
-- bytes to its own file and returns the server's count of blocks modulo 2^32. The rest of its
-- stream is left alone, the server can send again, and the two are in step.
pub receive_file-send_file :
    (r r' : Server) (c : Client) (file : List ℕ) (s k : ℕ) (msg rest out : List ℕ)
    → IsReady r
    → Synced r c
    → s ≤ length file
    → s < 2 ^ 32
    → send_file r file s ≡ ok (k, r')
    → r'.newsockfd.sent ≡ r.newsockfd.sent ++ msg
    → IsFlowing c.sockfd
    → flatten c.sockfd ≡ msg ++ rest
    → (c' : Client) × (receive_file c out
        ≡ ok (record { num_blocks = k % 2 ^ 32; file = out ++ take s file; client = c' }))
      × Receives r' c' rest
receive_file-send_file r r' c file s k msg rest out ready sync le fits sent wire flow stream =
    let (r₁, msg₁, run, sends, _, takes) = transfer_file r file s ready le fits in
    let blocks = length (pieces r.max_size (take s file)) in
    let same : r₁ ≡ r' = cc (run, sent) in
    let count : blocks + 1 ≡ k = cc (run, sent) in
    let same_msg : msg ≡ msg₁ =
      append_cancel r.newsockfd.sent msg msg₁
        (sym wire ∙ ap (λ (x : Server). x.newsockfd.sent) (sym same) ∙ sends.wire) in
    let (c', received_all, sync', left, flow') =
      takes c rest sync flow (stream ∙ ap (λ l. l ++ rest) same_msg) in
    (
      c',
      received_all out ∙ rw count,
      record {
        ready = subst IsReady same sends.ready;
        synced = subst (λ x. Synced x c') same sync';
        left = left;
        flowing = flow';
      },
    )
