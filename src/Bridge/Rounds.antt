-- ===== src/Bridge/Rounds.antt =====
-- A round through both bridges: what the one reads from upstream, the other writes downstream.
use rabin_fingerprinting.Base.{
  ℕ, ◌+◌, ◌%◌, ◌^◌, ◌≤◌, ◌<◌, ◌≡◌, refl, true, false, none, some, List, [], ◌∷◌, ◌++◌, flatten,
  length, drop, arith, ok, fault, out_of_bounds, lt→ltb, if◌then◌else◌, ltb-false, length-append,
  take-append, take_all,
}
use rabin_fingerprinting.Socket.Segments.{IsFlowing}
use rabin_fingerprinting.Server.{Server, send_file}
use rabin_fingerprinting.Server.Totality.{send_file-IsValid}
use rabin_fingerprinting.Client.{Client, Reception, receive_file}
use rabin_fingerprinting.Transfer.{IsReady, Synced}
use rabin_fingerprinting.Transfer.Files.{Receives, receive_file-send_file}
use rabin_fingerprinting.Bridge.{
  Operation, Bridge, close, upstream_got, downstream_written, upstream_read, downstream_write,
  async, into,
}
use rabin_fingerprinting.Bridge.ProxyServer.{
  handle as server_handle, handle_upstream_read as server_read,
}
use rabin_fingerprinting.Bridge.ProxyClient.{
  ClientBridge, handle as client_handle, handle_downstream_write, handle_upstream_read, fetch,
  copy_file, is_end,
}

-- A file of 1 to 8192 bytes has from 1 to 8192 blocks, and is not taken for the end.
counted :
    (r r' : Server) (file : List ℕ) (s k : ℕ)
    → IsReady r
    → s ≤ length file
    → 1 ≤ s
    → s ≤ 8192
    → send_file r file s ≡ ok (k, r')
    → (2 ≤ k) × (k ≤ 8193)
counted r r' file s k ready le lo hi sent =
    let (k₀, r₀, run, _, few, many) = send_file-IsValid r file s ready.valid le (omega arith) in
    let same : k₀ + 1 ≡ k = cc (run, sent) in (omega (arith, same), omega (arith, same))

goes_on : (k : ℕ) → 2 ≤ k → k ≤ 8193 → is_end (k % 2 ^ 32) ≡ false
unfolding is_end
goes_on k lo hi = ground arith

-- The bridge with an operation that has ended taken out again.
abbrev pub resume : List Operation → ClientBridge → ClientBridge
resume ops s = record s { bridge = record s.bridge { started = ops } }

-- The bridge at the client with the file that it has received.
holds : List ℕ → ClientBridge → ClientBridge
holds bytes s = record {
  bridge = async (upstream_read 0) s.bridge;
  c = some bytes;
  n = length bytes;
}

-- The bridge at the client once that file is in its buffer and on its way downstream.
passes : List ℕ → ClientBridge → ClientBridge
passes bytes s = record {
  bridge =
      async (downstream_write bytes)
        (record s.bridge { upstream_data = into bytes s.bridge.upstream_data });
  c = none;
  n = length bytes;
}

received_file :
    (k k' : Client) (s : ClientBridge) (bytes : List ℕ) (a : ℕ)
    → is_end a ≡ false
    → receive_file k [] ≡ ok (record { num_blocks = a; file = bytes; client = k' })
    → client_handle true (downstream_written false) k s ≡ ok (k', holds bytes s)
unfolding client_handle handle_downstream_write holds
received_file k k' s bytes a go run = rw (run, go)

passed_file :
    (k : Client) (s : ClientBridge) (bytes : List ℕ)
    → length bytes ≤ 8192
    → client_handle true (upstream_got false []) k (resume s.bridge.started (holds bytes s))
      ≡ ok (k, passes bytes s)
unfolding client_handle handle_upstream_read fetch copy_file holds passes
passed_file k s bytes le = rw (
  ltb-false 8192 (length bytes) le,
  take_all bytes,
  take-append bytes (drop (length bytes) s.bridge.upstream_data),
)

-- When the server's bridge has read 1 to 8192 bytes from upstream, and has handled this with a
-- valid cache and over a connection that loses nothing, the client's bridge, its client in step
-- with the server, at the end of a write downstream receives the bytes sent, which stand at the
-- head of its stream in segments none of which is empty; when its read into no room ends, it
-- starts to write exactly the bytes read downstream and nothing else. The rest of the stream is
-- left alone, its sockets stay as they were, and server and client are in step for the next round.
pub client_handle-server_handle :
    (r r' : Server) (b b' : Bridge) (k : Client) (s : ClientBridge) (bytes msg rest : List ℕ)
    → IsReady r
    → Synced r k
    → 1 ≤ length bytes
    → length bytes ≤ 8192
    → server_handle (upstream_got false bytes) r b ≡ ok (r', b')
    → r'.newsockfd.sent ≡ r.newsockfd.sent ++ msg
    → IsFlowing k.sockfd
    → flatten k.sockfd ≡ msg ++ rest
    → (k' : Client) × (s₁ s₂ : ClientBridge) × (client_handle true (downstream_written false) k s
        ≡ ok (k', s₁))
      × (s₁.bridge.started ≡ s.bridge.started ++ upstream_read 0 ∷ [])
      × (client_handle true (upstream_got false []) k' (resume s.bridge.started s₁) ≡ ok (k', s₂))
      × (s₂.bridge.started ≡ s.bridge.started ++ downstream_write bytes ∷ [])
      × (s₂.bridge.downstream_open ≡ s.bridge.downstream_open)
      × (s₂.bridge.upstream_open ≡ s.bridge.upstream_open)
      × Receives r' k' rest
unfolding server_handle server_read holds passes
client_handle-server_handle r r' b b' k s bytes msg rest ready sync lo hi handled wire flow stream =
    let file = into bytes b.upstream_data in
    let room : length bytes ≤ length file =
      omega (arith, length-append bytes (drop (length bytes) b.upstream_data)) in
    let (k₀, r₀, run, _, _, _) =
      send_file-IsValid r file (length bytes) ready.valid room (omega arith) in
    let handled' = rw run at handled in
    let same : r₀ ≡ r' = cc handled' in
    let sent : send_file r file (length bytes) ≡ ok (k₀ + 1, r') = rw run (rw same) in
    let (few, many) = counted r r' file (length bytes) (k₀ + 1) ready room lo hi sent in
    let (k', got, receives) =
      receive_file-send_file r r' k file (length bytes) (k₀ + 1) msg rest [] ready sync room
        (omega arith) sent wire flow stream in
    let got_bytes = rw (take-append bytes (drop (length bytes) b.upstream_data)) at got in
    (
      k',
      holds bytes s,
      passes bytes s,
      received_file k k' s bytes ((k₀ + 1) % 2 ^ 32) (goes_on (k₀ + 1) few many) got_bytes,
      refl,
      passed_file k' s bytes hi,
      refl,
      refl,
      refl,
      receives,
    )

-- A file of more than 8192 bytes, which the client receives from any server once a write
-- downstream has ended, is copied past the end of the bridge's buffer when the read into no room
-- ends.
pub long_file_overflows :
    (k : Client) (s : ClientBridge) (q : Reception)
    → receive_file k [] ≡ ok q
    → 8192 < length q.file
    → (s₁ : ClientBridge) × (client_handle true (downstream_written false) k s ≡ ok (q.client, s₁))
      × (client_handle true (upstream_got false []) q.client (resume s.bridge.started s₁)
          ≡ fault out_of_bounds)
unfolding client_handle handle_downstream_write handle_upstream_read fetch copy_file
long_file_overflows k s q run long =
    let b : Bridge = if is_end q.num_blocks then close s.bridge else s.bridge in
    let s₁ : ClientBridge = record {
      bridge = async (upstream_read 0) b;
      c = some q.file;
      n = length q.file;
    } in
    (s₁, rw run, rw (lt→ltb 8192 (length q.file) long))
