-- ===== src/Bridge/Crossing.antt =====
-- Several bridges over the one Rabin connection: which bridge at the client gets which text.
use rabin_fingerprinting.Base.{
  ℕ, ◌≡◌, refl, sym, ap, ◌∙◌, true, false, List, [], ◌∷◌, ◌++◌, flatten, length, Result, ok, ◌>>=◌,
  append_assoc, append-nil, arith,
}
use rabin_fingerprinting.Socket.Segments.{IsFlowing}
use rabin_fingerprinting.Server.{Server}
use rabin_fingerprinting.Client.{Client}
use rabin_fingerprinting.Transfer.{IsReady, Synced, Sends, Sends-trans, Takes}
use rabin_fingerprinting.Transfer.Files.{Receives}
use rabin_fingerprinting.Programs.Mains.{sent_by}
use rabin_fingerprinting.Bridge.{Bridge, upstream_got, downstream_written, downstream_write}
use rabin_fingerprinting.Bridge.ProxyServer.{handle as server_handle}
use rabin_fingerprinting.Bridge.ProxyClient.{ClientBridge, handle as client_handle}
use rabin_fingerprinting.Bridge.Rounds.{resume}
use rabin_fingerprinting.Bridge.Sessions.{round-Takes, AreReads}

-- Bridges at the server read a text from upstream, one after the other.
unfoldable pub server_reads : Server → List (Bridge × List ℕ) → Result (List Bridge × Server)
server_reads r [] = ok ([], r)
server_reads r ((b, bytes) ∷ reads) = do
  (r', b') ← server_handle (upstream_got false bytes) r b
  (bs, r'') ← server_reads r' reads
  ok (b' ∷ bs, r'')

-- Bridges at the client, whose writes downstream end in this order, each receive a file and start to
-- write it.
pub data Handouts : Client → List ClientBridge → List (List ℕ) → Client → Type 0 where
  done : {k : Client} → Handouts k [] [] k
  handout :
      {k k₁ k₂ : Client} {s s₁ s₂ : ClientBridge} {bridges : List ClientBridge} {bytes : List ℕ}
      {texts : List (List ℕ)}
      → client_handle true (downstream_written false) k s ≡ ok (k₁, s₁)
      → client_handle true (upstream_got false []) k₁ (resume s.bridge.started s₁) ≡ ok (k₁, s₂)
      → s₂.bridge.started ≡ s.bridge.started ++ downstream_write bytes ∷ []
      → Handouts k₁ bridges texts k₂
      → Handouts k (s ∷ bridges) (bytes ∷ texts) k₂

-- The texts that are read.
abbrev pub texts_of : List (Bridge × List ℕ) → List (List ℕ)
texts_of [] = []
texts_of ((b, bytes) ∷ reads) = bytes ∷ texts_of reads

reads-Takes :
    (reads : List (Bridge × List ℕ)) (bridges : List ClientBridge) (r : Server)
    → IsReady r
    → AreReads (texts_of reads)
    → length bridges ≡ length reads
    → (r' : Server) × (bs : List Bridge) × (msg : List ℕ) × (server_reads r reads ≡ ok (bs, r'))
      × Sends r r' msg
      × Takes r r' msg (λ k k'. Handouts k bridges (texts_of reads) k')
unfolding server_reads
reads-Takes [] [] r ready are size = (
  r,
  [],
  [],
  refl,
  record { ready = ready; same_size = refl; wire = sym (append-nil _) },
  λ k rest sync flow stream. (k, done, sync, stream, flow),
)
reads-Takes [] (s ∷ ss) r ready are size = absurd (omega arith)
reads-Takes ((b, bytes) ∷ reads) [] r ready are size = absurd (omega arith)
reads-Takes ((b, bytes) ∷ reads) (s ∷ bridges) r ready are size =
    let (r₁, b₁, msg₁, run₁, sends₁, takes₁) = round-Takes r b bytes ready are.0.0 are.0.1 in
    let (r₂, bs, msg₂, run₂, sends₂, takes₂) =
      reads-Takes reads bridges r₁ sends₁.ready are.1 (omega (arith, size)) in
    (
      r₂,
      b₁ ∷ bs,
      msg₁ ++ msg₂,
      rw (run₁, run₂) refl,
      Sends-trans r r₁ r₂ msg₁ msg₂ sends₁ sends₂,
      λ k rest sync flow stream.
          let (k₁, (s₁, s₂, got, reading, passed, writing), sync₁, left₁, flow₁) =
            takes₁ s.bridge.started s k (msg₂ ++ rest) sync flow
              (stream ∙ append_assoc msg₁ msg₂ rest) in
          let (k₂, handouts, sync₂, left₂, flow₂) = takes₂ k₁ rest sync₁ flow₁ left₁ in
          (k₂, handout got passed writing handouts, sync₂, left₂, flow₂),
    )

-- Bridges at the server that read texts of 1 to 8192 bytes from upstream, one after the other, with a
-- valid cache and over a fresh connection that loses nothing, and as many bridges at the client, in
-- the order in which their writes downstream end, their client in step with the server and with the
-- bytes sent at the head of its stream, in segments none of which is empty: the first of these gets
-- the first text, the second the second, and so on, whichever connections the bridges serve. So the
-- browsers get each other's texts, if their bridges' writes end in another order than the reads of
-- the bridges at the server. Each starts to write just its text downstream.
pub server_reads-Handouts :
    (reads : List (Bridge × List ℕ)) (bridges : List ClientBridge) (r : Server) (k : Client)
    (rest : List ℕ)
    → IsReady r
    → r.newsockfd.sent ≡ []
    → Synced r k
    → AreReads (texts_of reads)
    → length bridges ≡ length reads
    → IsFlowing k.sockfd
    → flatten k.sockfd ≡ sent_by (server_reads r reads) ++ rest
    → (r' : Server) × (bs : List Bridge) × (k' : Client) × (server_reads r reads ≡ ok (bs, r'))
      × Handouts k bridges (texts_of reads) k'
      × Receives r' k' rest
server_reads-Handouts reads bridges r k rest ready fresh sync are size flow stream =
    let (r', bs, msg, run, sends, takes) = reads-Takes reads bridges r ready are size in
    let written : sent_by (server_reads r reads) ≡ msg =
      ap sent_by run ∙ sends.wire ∙ ap (λ l. l ++ msg) fresh in
    let (k', handouts, sync', left, flow') =
      takes k rest sync flow (stream ∙ ap (λ l. l ++ rest) written) in
    (
      r',
      bs,
      k',
      run,
      handouts,
      record { ready = sends.ready; synced = sync'; left = left; flowing = flow' },
    )
