-- ===== src/Relay/Sessions.antt =====
-- Both relays over any number of turns.
use rabin_fingerprinting.Base.{
  ℕ, ◌+◌, ◌≤◌, ◌<◌, ◌≡◌, refl, sym, ap, ◌∙◌, none, some, List, [], ◌∷◌, ◌++◌, flatten, ok,
  append_assoc, append-nil, ℤ, is_negative, true, false,
}
use rabin_fingerprinting.Socket.{InSocket, OutSocket}
use rabin_fingerprinting.Socket.Segments.{IsFlowing}
use rabin_fingerprinting.Server.{Server, new_server, connect_to_client}
use rabin_fingerprinting.Client.{Client, new_client, connect_to_server}
use rabin_fingerprinting.Transfer.{Synced, IsReady, Sends, Sends-trans, Takes}
use rabin_fingerprinting.Programs.{ServerCalls}
use rabin_fingerprinting.Programs.Mains.{Starts, fresh_server, fresh_server-IsReady, sent_by}
use rabin_fingerprinting.Relay.{
  Startup, psb_startup, hrd_startup, Visit, Turn, refused, passed, forward, psb_serve, psb_turn,
  hrd_serve, hrd_turn,
}
use rabin_fingerprinting.Relay.Chain.{parts, relay-Takes}
use rabin_fingerprinting.Relay.Mains.{psb_loop, hrd_loop, psb_main, hrd_main}
use rabin_fingerprinting.Relay.Turns.{full_turn}

-- The turns of hrd.cc and of psb.cc that belong together, and what each does in them. A request that
-- hrd.cc refuses does not reach psb.cc; one that it forwards is what psb.cc reads in its next turn,
-- and psb.cc forwards it too, and relays the answer. In this turn of hrd.cc the stack has room for 1000
-- bytes, and `fopen` works for each part of the answer, and once more.
pub data Chain : List Visit → List (Visit × InSocket) → List Turn → List Turn → Type 0 where
  ended : Chain [] [] [] []
  not_forwarded :
      {w : Visit} {ws : List Visit} {vs : List (Visit × InSocket)} {turn : Turn} {hs ps : List Turn}
      → forward w ≡ ok (refused turn)
      → Chain ws vs hs ps
      → Chain (w ∷ ws) vs (turn ∷ hs) ps
  answered :
      {w v : Visit} {proxy : InSocket} {header request : List ℕ} {ws : List Visit}
      {vs : List (Visit × InSocket)} {hs ps : List Turn}
      → forward w ≡ ok (passed header)
      → v.request ≡ some header
      → forward v ≡ ok (passed request)
      → IsFlowing proxy
      → 1000 ≤ w.stack
      → parts proxy < w.opens
      → Chain ws vs hs ps
      → Chain
          (w ∷ ws)
          ((v, proxy) ∷ vs)
          (full_turn header (flatten proxy) (parts proxy + 1) ∷ hs)
          (full_turn request [] 0 ∷ ps)

pub chain-Takes :
    {ws : List Visit} {vs : List (Visit × InSocket)} {hs ps : List Turn}
    → Chain ws vs hs ps
    → (r : Server) → IsReady r
    → (r' : Server) × (msg : List ℕ) × (psb_loop r vs ≡ ok (ps, r'))
      × Sends r r' msg
      × Takes r r' msg (λ c c'. hrd_loop c ws ≡ ok (hs, c'))
unfolding psb_loop hrd_loop psb_serve psb_turn hrd_serve hrd_turn
chain-Takes ended r ready = (
  r,
  [],
  refl,
  record { ready = ready; same_size = refl; wire = sym (append-nil _) },
  λ c rest sync flow stream. (c, refl, sync, stream, flow),
)
chain-Takes (not_forwarded pass chain) r ready =
    let (r', msg, run, sends, takes) = chain-Takes chain r ready in
    (
      r',
      msg,
      run,
      sends,
      λ c rest sync flow stream.
          let (c', turns, sync', left, flow') = takes c rest sync flow stream in
          (c', rw (pass, turns) refl, sync', left, flow'),
    )
chain-Takes (answered {w = w} {proxy = proxy} pw asked pv pflow room can chain) r ready =
    let (r₁, msg₁, run₁, sends₁, takes₁) = relay-Takes r proxy ready pflow in
    let (r₂, msg₂, run₂, sends₂, takes₂) = chain-Takes chain r₁ sends₁.ready in
    (
      r₂,
      msg₁ ++ msg₂,
      rw (pv, run₁, run₂) refl,
      Sends-trans r r₁ r₂ msg₁ msg₂ sends₁ sends₂,
      λ c rest sync flow stream.
          let (c₁, delivered, sync₁, left₁, flow₁) =
            takes₁ c (msg₂ ++ rest) sync flow (stream ∙ append_assoc msg₁ msg₂ rest) in
          let (c₂, turns, sync₂, left₂, flow₂) = takes₂ c₁ rest sync₁ flow₁ left₁ in
          (c₂, rw (pw, delivered w.opens w.stack room can, turns) refl, sync₂, left₂, flow₂),
    )

psb_main-Starts :
    (a : Startup) (calls : ServerCalls) (visits : List (Visit × InSocket))
    → psb_startup a ≡ ok tt
    → Starts calls
    → psb_main a calls visits ≡ psb_loop (fresh_server calls) visits
unfolding psb_main new_server connect_to_client fresh_server
psb_main-Starts a calls visits begin s = rw (begin, s.binds, s.accepts)

hrd_main_starts :
    (b : Startup) (timeout_set connected : ℤ) (server : InSocket) (visits : List Visit)
    → hrd_startup b ≡ ok tt
    → is_negative timeout_set ≡ false
    → is_negative connected ≡ false
    → hrd_main b timeout_set true connected server visits
      ≡ hrd_loop (record { blocks = λ _. none; sockfd = server }) visits
unfolding hrd_main new_client connect_to_server
hrd_main_starts b timeout_set connected server visits begin t e = rw (begin, t, e)

-- psb.cc and hrd.cc, from the start of both programs: if the calls of the start succeed, the Rabin
-- connection loses nothing, and the client of hrd.cc finds at the head of its stream what psb.cc has
-- written, in segments none of which is empty, then over any turns that belong together both programs
-- run through, and every browser whose request was forwarded has got exactly the bytes with which the
-- proxy answered this request, in the order of the turns; one whose request was not has got a page
-- that says so. That turns belong together asks of each turn of hrd.cc that forwards its request that
-- its stack has room for 1000 bytes, and that `fopen` works in it for each part of the answer that one
-- `recv` of psb.cc gives, and once more; so many files the turn leaves open. At the end server and
-- client are in step.
pub hrd_main-psb_main :
    (a b : Startup) (calls : ServerCalls) (timeout_set connected : ℤ) {ws : List Visit}
    {vs : List (Visit × InSocket)} {hs ps : List Turn} (server : InSocket) (rest : List ℕ)
    → psb_startup a ≡ ok tt
    → hrd_startup b ≡ ok tt
    → Starts calls
    → is_negative timeout_set ≡ false
    → is_negative connected ≡ false
    → Chain ws vs hs ps
    → IsFlowing server
    → flatten server ≡ sent_by (psb_main a calls vs) ++ rest
    → (r : Server) × (c : Client) × (psb_main a calls vs ≡ ok (ps, r))
      × (hrd_main b timeout_set true connected server ws ≡ ok (hs, c))
      × Synced r c
unfolding fresh_server
hrd_main-psb_main a b calls timeout_set connected {ws} {vs} server rest begin begin' starts t e
      chain flow stream =
    let (r, msg, run, sends, takes) =
      chain-Takes chain (fresh_server calls) (fresh_server-IsReady calls starts) in
    let whole = psb_main-Starts a calls vs begin starts ∙ run in
    let written : sent_by (psb_main a calls vs) ≡ msg =
      ap sent_by whole ∙ sends.wire ∙ ap (λ (o : OutSocket). o.sent ++ msg) starts.fresh in
    let listener : Client = record { blocks = λ _. none; sockfd = server } in
    let (c, turns, sync, _, _) =
      takes listener rest (record { settled = λ n x p. cc; held = λ n x p. cc }) flow
        (stream ∙ ap (λ l. l ++ rest) written) in
    (r, c, whole, hrd_main_starts b timeout_set connected server ws begin' t e ∙ turns, sync)
