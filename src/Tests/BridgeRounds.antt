-- ===== src/Tests/BridgeRounds.antt =====
-- Both bridges over two rounds with the page of `Tests`, and two bridges at either end.
use rabin_fingerprinting.Base.{ℕ, ◌≡◌, ◌≤◌, refl, none, List, [], ◌∷◌, length, flatten, arith, ok}
use rabin_fingerprinting.Server.{Server}
use rabin_fingerprinting.Client.{Client}
use rabin_fingerprinting.Transfer.Files.{Receives}
use rabin_fingerprinting.Programs.Mains.{sent_by}
use rabin_fingerprinting.Bridge.{Operation, Bridge, downstream_read, upstream_write}
use rabin_fingerprinting.Bridge.ProxyServer.{handle, handle_upstream_read, handle_downstream_write}
use rabin_fingerprinting.Bridge.ProxyClient.{ClientBridge}
use rabin_fingerprinting.Bridge.Sessions.{server_rounds, Rounds, server_rounds-Rounds}
use rabin_fingerprinting.Bridge.Crossing.{server_reads, Handouts, server_reads-Handouts}
use rabin_fingerprinting.Tests.{runs, start, page}
use rabin_fingerprinting.Tests.Bridges.{small_bridge, fresh}
use rabin_fingerprinting.Tests.Transfers.{start-IsReady}

-- The other operations of the two bridges.
abbrev reading : List Operation
reading = downstream_read 8192 ∷ []

abbrev writing : List Operation
writing = upstream_write page ∷ []

abbrev two_reads : List (List ℕ)
two_reads = page ∷ page ∷ []

written : List ℕ
unfolding runs server_rounds handle handle_upstream_read handle_downstream_write
written = sent_by (server_rounds reading start (small_bridge []) two_reads)

written_some : 1 ≤ length written
unfolding runs written server_rounds handle handle_upstream_read handle_downstream_write
written_some = omega arith

abbrev receiver : Client
receiver = record { blocks = λ _. none; sockfd = written ∷ [] }

server_rounds-Rounds_example :
    (r' : Server) × (b' : Bridge) × (k' : Client) × (s' : ClientBridge) × (server_rounds reading
        start
        (small_bridge [])
        two_reads
      ≡ ok (b', r'))
    × Rounds writing receiver fresh two_reads k' s'
    × Receives r' k' []
unfolding written flatten
server_rounds-Rounds_example =
    server_rounds-Rounds reading writing two_reads start (small_bridge []) receiver fresh []
      start-IsReady refl (record { settled = λ n b e. cc; held = λ n b e. cc }) (omega arith)
      (written_some, tt) refl

-- Two connections, and a client whose bridge for the second one is done with its write first.
abbrev crossing : List (Bridge × List ℕ)
crossing = (small_bridge reading, page) ∷ (small_bridge writing, 66 ∷ []) ∷ []

abbrev done_writing : List ClientBridge
done_writing = record fresh { n = 2 } ∷ record fresh { n = 1 } ∷ []

both_sent : List ℕ
unfolding runs server_reads handle handle_upstream_read
both_sent = sent_by (server_reads start crossing)

both_sent_some : 1 ≤ length both_sent
unfolding runs both_sent server_reads handle handle_upstream_read
both_sent_some = omega arith

abbrev both_waiting : Client
both_waiting = record { blocks = λ _. none; sockfd = both_sent ∷ [] }

server_reads-Handouts_example :
    (r' : Server) × (bs : List Bridge) × (k' : Client) × (server_reads start crossing ≡ ok (bs, r'))
    × Handouts both_waiting done_writing (page ∷ (66 ∷ []) ∷ []) k'
    × Receives r' k' []
unfolding both_sent flatten
server_reads-Handouts_example =
    server_reads-Handouts crossing done_writing start both_waiting [] start-IsReady refl
      (record { settled = λ n b e. cc; held = λ n b e. cc }) (omega arith) refl (both_sent_some, tt)
      refl
