-- ===== src/Relay/Delays.antt =====
-- What hrd.cc does when the answer comes after its timeout.
use rabin_fingerprinting.Base.{
  ℕ, ◌+◌, ◌≤◌, ◌<◌, ◌≡◌, refl, List, [], ◌∷◌, ◌++◌, flatten, ok, leb-false,
}
use rabin_fingerprinting.Socket.{InSocket, read, read_loop, read_full}
use rabin_fingerprinting.Socket.Segments.{IsFlowing}
use rabin_fingerprinting.Server.{Server}
use rabin_fingerprinting.Client.{Client, receive_block, received, receive_loop, receive_file}
use rabin_fingerprinting.Transfer.{IsReady, Synced}
use rabin_fingerprinting.Transfer.Files.{Receives}
use rabin_fingerprinting.Relay.{
  Visit, Turn, passed, forward, psb_serve, deliver_loop, deliver_responses, hrd_serve, hrd_turn,
}
use rabin_fingerprinting.Relay.Chain.{parts}
use rabin_fingerprinting.Relay.Mains.{hrd_loop}
use rabin_fingerprinting.Relay.Turns.{full_turn, hrd_serve-psb_serve}

-- A read that gives nothing ends the responses at once, with the stream behind it untouched.
deliver_nothing :
    (c : Client) (segs : InSocket) (opens stack : ℕ)
    → 1 ≤ opens
    → c.sockfd ≡ [] ∷ segs
    → deliver_responses opens stack c
      ≡ ok (record { sent = []; client = record c { sockfd = segs }; files = 1 })
unfolding deliver_responses deliver_loop receive_file receive_loop receive_block received read_full
    read_loop read
deliver_nothing c segs opens stack can e = rw (leb-false opens 0 can, e) refl

-- If the timeout ends hrd.cc's wait for the answer of one turn, this browser gets nothing, and the
-- browser of the next turn, whatever it has asked for, gets the answer to the earlier request: the
-- client's first read returns -1, and what psb.cc has relayed then stands at the head of its stream.
-- This is so while `fopen` works, once in the first turn, and in the second for each part of the answer
-- that one `recv` gives, and once more, and the stack has room for 1000 bytes. Both requests are
-- forwarded, and psb.cc has relayed the answer `proxy` to the first, in segments none of which is
-- empty, with a valid cache over a connection that loses nothing, the client being in step with its
-- server.
pub late_answer-misdelivered :
    (r r' : Server) (c : Client) (v w w' : Visit) (proxy segs : InSocket) (turn : Turn)
    (header first second msg rest : List ℕ)
    → IsReady r
    → Synced r c
    → IsFlowing proxy
    → 1 ≤ w.opens
    → 1000 ≤ w'.stack
    → parts proxy < w'.opens
    → forward v ≡ ok (passed header)
    → forward w ≡ ok (passed first)
    → forward w' ≡ ok (passed second)
    → psb_serve r v proxy ≡ ok (turn, r')
    → r'.newsockfd.sent ≡ r.newsockfd.sent ++ msg
    → c.sockfd ≡ [] ∷ segs
    → IsFlowing segs
    → flatten segs ≡ msg ++ rest
    → (c' : Client) × (hrd_loop c (w ∷ w' ∷ [])
        ≡ ok (full_turn first [] 1 ∷ full_turn second (flatten proxy) (parts proxy + 1) ∷ [], c'))
      × Receives r' c' rest
unfolding hrd_loop
late_answer-misdelivered r r' c v w w' proxy segs turn header first second msg rest ready sync pflow
      once room can pv pw pw' served wire stalled flow stream =
    let after : Client = record c { sockfd = segs } in
    let lost : hrd_serve c w ≡ ok (full_turn first [] 1, after) =
      unfold hrd_serve hrd_turn in
      rw (pw, deliver_nothing c segs w.opens w.stack once stalled) refl in
    let (c', got, receives) =
      hrd_serve-psb_serve r r' after v w' proxy turn header second msg rest ready
        (record { settled = sync.settled; held = sync.held }) pflow room can pv pw' served wire flow
        stream in
    (c', rw (lost, got) refl, receives)
