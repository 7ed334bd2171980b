-- ===== src/Relay/Turns.antt =====
-- Whole turns of the two relays.
use rabin_fingerprinting.Base.{
  ℕ, ◌+◌, ◌≤◌, ◌<◌, ◌≡◌, sym, ap, ◌∙◌, subst, true, List, [], ◌++◌, flatten, ok, append_cancel,
}
use rabin_fingerprinting.Socket.{InSocket}
use rabin_fingerprinting.Socket.Segments.{IsFlowing}
use rabin_fingerprinting.Server.{Server}
use rabin_fingerprinting.Client.{Client}
use rabin_fingerprinting.Transfer.{Synced, IsReady}
use rabin_fingerprinting.Transfer.Files.{Receives}
use rabin_fingerprinting.Relay.Chain.{parts, relay-Takes}
use rabin_fingerprinting.Relay.{
  Visit, Turn, passed, forward, psb_serve, psb_turn, hrd_serve, hrd_turn,
}

-- A turn that has written its bytes to the proxy and to the browser, has closed both connections, and
-- has left so many files open.
abbrev pub full_turn : List ℕ → List ℕ → ℕ → Turn
full_turn header response files = record {
  to_proxy = header;
  to_browser = response;
  proxy_closed = true;
  browser_closed = true;
  files = files;
}

-- When psb.cc has forwarded a request, the answer of the proxy comes in segments none of which is
-- empty, and the server has a valid cache and a connection that loses nothing, psb.cc ends its
-- turn with both its sockets closed, and returns to a server that is ready for the next turn.
psb_serve-IsReady :
    (r : Server) (v : Visit) (proxy : InSocket) (header : List ℕ)
    → IsReady r
    → IsFlowing proxy
    → forward v ≡ ok (passed header)
    → (r' : Server) × (msg : List ℕ) × (psb_serve r v proxy ≡ ok (full_turn header [] 0, r'))
      × IsReady r'
      × (r'.newsockfd.sent ≡ r.newsockfd.sent ++ msg)
unfolding psb_serve psb_turn
psb_serve-IsReady r v proxy header ready flow pass =
    let (r', msg, run, sends, _) = relay-Takes r proxy ready flow in
    (r', msg, rw (pass, run), sends.ready, sends.wire)

-- The browser at hrd.cc gets exactly what the proxy at psb.cc answered, however the answer and the
-- Rabin stream are cut into segments, none of them empty. Both relays have forwarded the request,
-- psb.cc has relayed the answer `proxy` with a valid cache over a connection that loses nothing,
-- and the client of hrd.cc, in step with the server, finds the bytes sent at the head of its
-- stream. If the stack has room for 1000 bytes, and `fopen` works for each part of the answer that one
-- `recv` of psb.cc gives, and once more, then hrd.cc ends its turn with the answer handed to the
-- browser, both sockets closed and these files left open, leaves the rest of the stream, and server and
-- client are in step for the next turn.
pub hrd_serve-psb_serve :
    (r r' : Server) (c : Client) (v w : Visit) (proxy : InSocket) (turn : Turn)
    (header request msg rest : List ℕ)
    → IsReady r
    → Synced r c
    → IsFlowing proxy
    → 1000 ≤ w.stack
    → parts proxy < w.opens
    → forward v ≡ ok (passed header)
    → forward w ≡ ok (passed request)
    → psb_serve r v proxy ≡ ok (turn, r')
    → r'.newsockfd.sent ≡ r.newsockfd.sent ++ msg
    → IsFlowing c.sockfd
    → flatten c.sockfd ≡ msg ++ rest
    → (c' : Client) × (hrd_serve c w ≡ ok (full_turn request (flatten proxy) (parts proxy + 1), c'))
      × Receives r' c' rest
unfolding psb_serve psb_turn hrd_serve hrd_turn
hrd_serve-psb_serve r r' c v w proxy turn header request msg rest ready sync pflow room can pv pw
      served wire flow stream =
    let (r₁, msg₁, run, sends, takes) = relay-Takes r proxy ready pflow in
    let served' : ok (full_turn header [] 0, r₁) ≡ ok (turn, r') = rw (pv, run) at served in
    let same : r₁ ≡ r' = cc served' in
    let same_msg : msg ≡ msg₁ =
      append_cancel r.newsockfd.sent msg msg₁
        (sym wire ∙ ap (λ (x : Server). x.newsockfd.sent) (sym same) ∙ sends.wire) in
    let (c', delivered, sync', left, flow') =
      takes c rest sync flow (stream ∙ ap (λ l. l ++ rest) same_msg) in
    (
      c',
      rw (pw, delivered w.opens w.stack room can),
      record {
        ready = subst IsReady same sends.ready;
        synced = subst (λ x. Synced x c') same sync';
        left = left;
        flowing = flow';
      },
    )
