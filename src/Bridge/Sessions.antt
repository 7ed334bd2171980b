-- ===== src/Bridge/Sessions.antt =====
-- Any number of rounds through both bridges.
use rabin_fingerprinting.Base.{
  ℕ, ◌≤◌, ◌≡◌, refl, sym, ap, ◌∙◌, true, false, List, [], ◌∷◌, ◌++◌, All, flatten, length, Result,
  ok, ◌>>=◌, append_assoc, append-nil, arith, drop, length-append,
}
use rabin_fingerprinting.Socket.Segments.{IsFlowing}
use rabin_fingerprinting.Server.{Server}
use rabin_fingerprinting.Client.{Client}
use rabin_fingerprinting.Transfer.{IsReady, Synced, Sends, Sends-trans, Takes}
use rabin_fingerprinting.Transfer.Files.{Receives, transfer_file}
use rabin_fingerprinting.Programs.Mains.{sent_by}
use rabin_fingerprinting.Bridge.{
  Operation, Bridge, upstream_got, downstream_written, upstream_read, downstream_write, async, into,
}
use rabin_fingerprinting.Bridge.ProxyServer.{
  handle as server_handle, handle_upstream_read, handle_downstream_write,
}
use rabin_fingerprinting.Bridge.ProxyClient.{ClientBridge, handle as client_handle}
use rabin_fingerprinting.Bridge.Rounds.{resume, client_handle-server_handle}

-- The bridge at the server reads each of the texts from upstream, and its write of nothing downstream
-- ends; meanwhile the operations `ops` go on.
unfoldable pub server_rounds :
    List Operation → Server → Bridge → List (List ℕ) → Result (Bridge × Server)
server_rounds ops r b [] = ok (b, r)
server_rounds ops r b (bytes ∷ reads) = do
  (r', b') ← server_handle (upstream_got false bytes) r (record b { started = ops })
  (r'', b'') ← server_handle (downstream_written false) r' (record b' { started = ops })
  server_rounds ops r'' b'' reads

-- The bridge at the client, whose write downstream has ended, receives and starts to write each of the
-- texts in turn, each write ending before the next round.
pub data Rounds (ops : List Operation)
    : Client → ClientBridge → List (List ℕ) → Client → ClientBridge → Type 0 where
  done : {k : Client} {s : ClientBridge} → Rounds ops k s [] k s
  round :
      {k k₁ k₂ : Client} {s s₁ s₂ s₃ : ClientBridge} {bytes : List ℕ} {writes : List (List ℕ)}
      → client_handle true (downstream_written false) k (resume ops s) ≡ ok (k₁, s₁)
      → s₁.bridge.started ≡ ops ++ upstream_read 0 ∷ []
      → client_handle true (upstream_got false []) k₁ (resume ops s₁) ≡ ok (k₁, s₂)
      → s₂.bridge.started ≡ ops ++ downstream_write bytes ∷ []
      → Rounds ops k₁ s₂ writes k₂ s₃
      → Rounds ops k s (bytes ∷ writes) k₂ s₃

-- What one round is at the client.
abbrev pub Writes : List Operation → List ℕ → ClientBridge → Client → Client → Type 0
Writes ops bytes s k k' =
    (s₁ s₂ : ClientBridge) × (client_handle true (downstream_written false) k (resume ops s)
      ≡ ok (k', s₁))
    × (s₁.bridge.started ≡ ops ++ upstream_read 0 ∷ [])
    × (client_handle true (upstream_got false []) k' (resume ops s₁) ≡ ok (k', s₂))
    × (s₂.bridge.started ≡ ops ++ downstream_write bytes ∷ [])

pub round-Takes :
    (r : Server) (b : Bridge) (bytes : List ℕ)
    → IsReady r
    → 1 ≤ length bytes
    → length bytes ≤ 8192
    → (r' : Server) × (b' : Bridge) × (msg : List ℕ) × (server_handle (upstream_got false bytes) r b
        ≡ ok (r', b'))
      × Sends r r' msg
      × ((ops : List Operation) (s : ClientBridge) → Takes r r' msg (Writes ops bytes s))
unfolding server_handle handle_upstream_read
round-Takes r b bytes ready lo hi =
    let file = into bytes b.upstream_data in
    let room : length bytes ≤ length file =
      omega (arith, length-append bytes (drop (length bytes) b.upstream_data)) in
    let (r', msg, run, sends, _, _) =
      transfer_file r file (length bytes) ready room (omega arith) in
    let b' = async (downstream_write []) (record b { upstream_data = file }) in
    let handled : server_handle (upstream_got false bytes) r b ≡ ok (r', b') = rw run refl in
    (
      r',
      b',
      msg,
      handled,
      sends,
      λ ops s k rest sync flow stream.
          let (k', s₁, s₂, got, reading, passed, writing, _, _, receives) =
            client_handle-server_handle r r' b b' k (resume ops s) bytes msg rest ready sync lo hi
              handled sends.wire flow stream in
          (
            k',
            (s₁, s₂, got, reading, passed, writing),
            receives.synced,
            receives.left,
            receives.flowing,
          ),
    )

-- What an upstream read may give.
abbrev pub AreReads : List (List ℕ) → Type 0
AreReads reads = All (λ bytes. (1 ≤ length bytes) × (length bytes ≤ 8192)) reads

rounds-Takes :
    (ops : List Operation) (reads : List (List ℕ)) (r : Server) (b : Bridge)
    → IsReady r
    → AreReads reads
    → (r' : Server) × (b' : Bridge) × (msg : List ℕ) × (server_rounds ops r b reads ≡ ok (b', r'))
      × Sends r r' msg
      × ((ops' : List Operation) (s : ClientBridge)
          → Takes r r' msg (λ k k'. (s' : ClientBridge) × Rounds ops' k s reads k' s'))
unfolding server_rounds server_handle handle_downstream_write
rounds-Takes ops [] r b ready are = (
  r,
  b,
  [],
  refl,
  record { ready = ready; same_size = refl; wire = sym (append-nil _) },
  λ ops' s k rest sync flow stream. (k, (s, done), sync, stream, flow),
)
rounds-Takes ops (bytes ∷ reads) r b ready are =
    let b₀ = record b { started = ops } in
    let (r₁, b₁, msg₁, run₁, sends₁, takes₁) = round-Takes r b₀ bytes ready are.0.0 are.0.1 in
    let b₂ = async (upstream_read 8192) (record b₁ { started = ops }) in
    let (r₂, b₃, msg₂, run₂, sends₂, takes₂) = rounds-Takes ops reads r₁ b₂ sends₁.ready are.1 in
    (
      r₂,
      b₃,
      msg₁ ++ msg₂,
      ap
            (λ m. m >>= λ a.
              server_handle (downstream_written false) a.0 (record a.1 { started = ops }) >>= λ d.
              server_rounds ops d.0 d.1 reads)
            run₁
          ∙ run₂,
      Sends-trans r r₁ r₂ msg₁ msg₂ sends₁ sends₂,
      λ ops' s k rest sync flow stream.
          let (k₁, (s₁, s₂, got, reading, passed, writing), sync₁, left₁, flow₁) =
            takes₁ ops' s k (msg₂ ++ rest) sync flow (stream ∙ append_assoc msg₁ msg₂ rest) in
          let (k₂, (s', rounds), sync₂, left₂, flow₂) = takes₂ ops' s₂ k₁ rest sync₁ flow₁ left₁ in
          (k₂, (s', round got reading passed writing rounds), sync₂, left₂, flow₂),
    )

-- Whatever texts of 1 to 8192 bytes the bridge at the server reads from upstream, one after the other,
-- with a valid cache and over a fresh connection that loses nothing, and whatever other operations
-- both bridges have going: the bridge at the server handles every read and every end of its writes of
-- nothing, and the bridge at the client, its client in step with the server, whose stream begins with
-- the bytes sent, in segments none of which is empty, and which can open its file in every round,
-- starts to write exactly these texts downstream, each in a round of its own and in their order. At the end the rest of the stream is left, and server
-- and client are in step.
pub server_rounds-Rounds :
    (ops ops' : List Operation) (reads : List (List ℕ)) (r : Server) (b : Bridge) (k : Client)
    (s : ClientBridge) (rest : List ℕ)
    → IsReady r
    → r.newsockfd.sent ≡ []
    → Synced r k
    → AreReads reads
    → IsFlowing k.sockfd
    → flatten k.sockfd ≡ sent_by (server_rounds ops r b reads) ++ rest
    → (r' : Server) × (b' : Bridge) × (k' : Client) × (s' : ClientBridge) × (server_rounds ops r b
          reads
        ≡ ok (b', r'))
      × Rounds ops' k s reads k' s'
      × Receives r' k' rest
server_rounds-Rounds ops ops' reads r b k s rest ready fresh sync are flow stream =
    let (r', b', msg, run, sends, takes) = rounds-Takes ops reads r b ready are in
    let written : sent_by (server_rounds ops r b reads) ≡ msg =
      ap sent_by run ∙ sends.wire ∙ ap (λ l. l ++ msg) fresh in
    let (k', (s', rounds), sync', left, flow') =
      takes ops' s k rest sync flow (stream ∙ ap (λ l. l ++ rest) written) in
    (
      r',
      b',
      k',
      s',
      run,
      rounds,
      record { ready = sends.ready; synced = sync'; left = left; flowing = flow' },
    )
