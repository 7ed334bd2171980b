-- ===== src/Relay/Chain.antt =====
-- The relays at the two ends of the Rabin connection: the browser gets what the proxy answered.
use mathlib.Core.List.{append_assoc, append-nil}
use rabin_fingerprinting.Base.{
  nil_of_length, ℕ, zero, suc, ◌+◌, ◌-◌, ◌%◌, ◌^◌, ◌≤◌, ◌<◌, ◌≡◌, refl, sym, ap, ◌∙◌, subst, List,
  [], ◌++◌, flatten, length, replicate, arith, ok, ◌==◌, if◌then◌else◌, lt→ltb, ltb-false,
  leb-false, length-append, take-append, Bool-cases, inl, inr,
}
use rabin_fingerprinting.Socket.{InSocket, read}
use rabin_fingerprinting.Socket.Segments.{IsFlowing, read_splits}
use rabin_fingerprinting.Server.Pieces.{pieces, pieces-InBounds, flatten-pieces}
use rabin_fingerprinting.Server.Totality.{blocks_count}
use rabin_fingerprinting.Server.{Server}
use rabin_fingerprinting.Client.{Client, receive_file}
use rabin_fingerprinting.Transfer.{IsReady, Sends, Sends-trans, Takes}
use rabin_fingerprinting.Transfer.Files.{transfer_file}
use rabin_fingerprinting.Relay.{
  buffer_size, filled, recv_loop, relay_responses, hand_over, deliver_loop, deliver_responses,
}

-- From `before` the loop of hrd.cc gets to `after` in `n` passes, having handed `bytes` to the browser,
-- with fuel for the rest of the stream left, if as many files can be opened and the stack has room for
-- what one `recv` gives.
abbrev Delivers : List ℕ → ℕ → Client → Client → Type 0
Delivers bytes n before after =
    (fuel opens stack files : ℕ) (sent : List ℕ)
    → 1000 ≤ stack
    → files + n ≤ opens
    → length (flatten before.sockfd) < fuel
    → (fuel' : ℕ) × (deliver_loop fuel opens stack
          (record { sent = sent; client = before; files = files })
        ≡ deliver_loop fuel' opens stack
            (record { sent = sent ++ bytes; client = after; files = files + n }))
      × (length (flatten after.sockfd) < fuel')

recv_count : ℕ → InSocket → ℕ
recv_count zero proxy = 0
recv_count (suc fuel) proxy =
    let got : List ℕ × InSocket = read proxy buffer_size in
    let rest : ℕ = recv_count fuel got.1 in if length got.0 == 0 then 0 else suc rest

-- How many calls of `recv` in psb.cc give a part of the proxy's answer. Each makes a file for hrd.cc.
unfoldable pub parts : InSocket → ℕ
unfolding recv_count
parts proxy = recv_count (suc (length (flatten proxy))) proxy

-- A turn of that loop on a file of at least one block.
deliver_step :
    (bytes more msg : List ℕ) (n blocks : ℕ) (c c' c'' : Client)
    → length bytes ≤ 1000
    → 1 ≤ blocks
    → blocks ≤ 1000
    → receive_file c []
      ≡ ok (record { num_blocks = (blocks + 1) % 2 ^ 32; file = bytes; client = c' })
    → flatten c.sockfd ≡ msg ++ flatten c'.sockfd
    → 1 ≤ length msg
    → Delivers more n c' c''
    → Delivers (bytes ++ more) (suc n) c c''
unfolding deliver_loop hand_over
deliver_step bytes more msg n blocks c c' c'' fits lo hi run stream some_bytes delivers zero opens
      stack files sent room can h =
    absurd (omega arith)
deliver_step bytes more msg n blocks c c' c'' fits lo hi run stream some_bytes delivers (suc fuel)
      opens stack files sent room can h =
    let total : length (flatten c.sockfd) ≡ length msg + length (flatten c'.sockfd) =
      ap length stream ∙ length-append msg (flatten c'.sockfd) in
    let (fuel', same, enough) =
      delivers fuel opens stack (files + 1) (sent ++ bytes) room (omega arith) (omega arith) in
    let passes : files + 1 + n ≡ files + suc n = omega arith in
    (
      fuel',
      rw
          (
            leb-false opens files (omega arith),
            run,
            lt→ltb 1 ((blocks + 1) % 2 ^ 32) (omega arith),
            ltb-false stack (length bytes) (omega arith),
            ← append_assoc sent bytes more,
            ← passes,
          )
          same,
      enough,
    )

-- The number of blocks of what one `recv` gives.
recv_blocks :
    (m : ℕ) (bytes : List ℕ)
    → 1 ≤ length bytes
    → length bytes ≤ 1000
    → (1 ≤ length (pieces m bytes)) × (length (pieces m bytes) ≤ 1000)
recv_blocks m bytes lo hi =
    let (low, high) = blocks_count (pieces m bytes) (pieces-InBounds m bytes) in
    let whole = ap length (flatten-pieces m bytes) in (omega (arith, whole), omega (arith, whole))

-- A file of at least one block, and then what follows it.
Takes-step :
    (r r₁ r₂ : Server) (msg₁ msg₂ bytes more : List ℕ) (n blocks : ℕ)
    → length bytes ≤ 1000
    → 1 ≤ blocks
    → blocks ≤ 1000
    → 1 ≤ length msg₁
    → Takes r r₁ msg₁ (λ c c'.
      (out : List ℕ)
      → receive_file c out
        ≡ ok (record { num_blocks = (blocks + 1) % 2 ^ 32; file = out ++ bytes; client = c' }))
    → Takes r₁ r₂ msg₂ (Delivers more n)
    → Takes r r₂ (msg₁ ++ msg₂) (Delivers (bytes ++ more) (suc n))
Takes-step r r₁ r₂ msg₁ msg₂ bytes more n blocks fits lo hi some₁ takes₁ takes₂ c rest sync flow
      stream =
    let stream' : flatten c.sockfd ≡ msg₁ ++ (msg₂ ++ rest) =
      stream ∙ append_assoc msg₁ msg₂ rest in
    let (c₁, file, sync₁, left₁, flow₁) = takes₁ c (msg₂ ++ rest) sync flow stream' in
    let (c₂, delivers, sync₂, left₂, flow₂) = takes₂ c₁ rest sync₁ flow₁ left₁ in
    let gone : flatten c.sockfd ≡ msg₁ ++ flatten c₁.sockfd =
      stream' ∙ ap (λ l. msg₁ ++ l) (sym left₁) in
    (
      c₂,
      deliver_step bytes more msg₁ n blocks c c₁ c₂ fits lo hi (file []) gone some₁ delivers,
      sync₂,
      left₂,
      flow₂,
    )

-- The loop of psb.cc on the stream from the proxy.
recv_loop-Takes :
    (fuel : ℕ) (r : Server) (proxy : InSocket)
    → IsReady r
    → IsFlowing proxy
    → length (flatten proxy) < fuel
    → (r' : Server) × (proxy' : InSocket) × (msg : List ℕ) × (recv_loop fuel r proxy
        ≡ ok (r', proxy'))
      × Sends r r' msg
      × Takes r r' msg (Delivers (flatten proxy) (recv_count fuel proxy))
unfolding recv_loop recv_count
recv_loop-Takes zero r proxy ready flow h = absurd (omega arith)
recv_loop-Takes (suc fuel) r proxy ready flow h =
    let got = (read proxy 1000).0 in
    let (split, small, some_bytes, flow') = read_splits proxy 1000 flow in
    let total : length (flatten proxy) ≡ length got + length (flatten (read proxy 1000).1) =
      ap length split ∙ length-append got (flatten (read proxy 1000).1) in
    elim (Bool-cases (length got == 0)) [
      | inl none_left ↦
          let empty : flatten proxy ≡ [] =
            nil_of_length (flatten proxy) (ground (arith, some_bytes, none_left)) in
          (
            r,
            (read proxy 1000).1,
            [],
            rw none_left,
            record { ready = ready; same_size = refl; wire = sym (append-nil _) },
            λ c rest sync cflow stream. (
              c,
              λ f opens stack files sent room can k.
                  let still : files + 0 ≡ files = omega arith in
                  (f, rw (none_left, empty, append-nil sent, still), k),
              sync,
              stream,
              cflow,
            ),
          )
      | inr more ↦
          let got_some : 1 ≤ length got = ground (arith, more) in
          let (r₁, msg₁, run₁, sends₁, some₁, takes₁) =
            rw (take-append got (replicate (1000 - length got) 0)) at (
              transfer_file r (filled got) (length got) ready
                (omega (arith, length-append got (replicate (1000 - length got) 0)))
                (omega arith)) in
          let (r₂, proxy₂, msg₂, run₂, sends₂, takes₂) =
            recv_loop-Takes fuel r₁ (read proxy 1000).1 sends₁.ready (flow' (omega arith))
              (omega arith) in
          let (lo, hi) = recv_blocks r.max_size got got_some small in
          let count : ℕ = recv_count fuel (read proxy 1000).1 in
          let step : Takes r r₂ (msg₁ ++ msg₂) (Delivers (flatten proxy) (suc count)) =
            subst (λ l. Takes r r₂ (msg₁ ++ msg₂) (Delivers l (suc count))) (sym split)
              (Takes-step r r₁ r₂ msg₁ msg₂ got (flatten (read proxy 1000).1) count
                (length (pieces r.max_size got)) small lo hi some₁ takes₁ takes₂) in
          (
            r₂,
            proxy₂,
            msg₁ ++ msg₂,
            rw (more, run₁) run₂,
            Sends-trans r r₁ r₂ msg₁ msg₂ sends₁ sends₂,
            rw more step,
          )
    ]

-- The loop of hrd.cc ends at an empty file.
delivered :
    (c c₁ c₂ : Client) (bytes : List ℕ) (n opens stack : ℕ)
    → 1000 ≤ stack
    → n < opens
    → Delivers bytes n c c₁
    → receive_file c₁ []
      ≡ ok (record { num_blocks = (length (pieces 0 []) + 1) % 2 ^ 32; file = []; client = c₂ })
    → deliver_responses opens stack c ≡ ok (record { sent = bytes; client = c₂; files = n + 1 })
unfolding deliver_responses deliver_loop pieces
delivered c c₁ c₂ bytes n opens stack room can delivers eof =
    let (fuel, same, enough) =
      delivers (suc (length (flatten c.sockfd))) opens stack 0 [] room (omega arith)
        (omega arith) in
    let start : 0 + n ≡ n = omega arith in
    let more : fuel ≡ suc (fuel - 1) = omega (arith, enough) in
    rw start at same
    ∙ ap (λ f. deliver_loop f opens stack (record { sent = bytes; client = c₁; files = n })) more
    ∙ rw (leb-false opens n can, eof)

-- The empty file that ends the responses.
pub relay-Takes :
    (r : Server) (proxy : InSocket)
    → IsReady r
    → IsFlowing proxy
    → (r' : Server) × (msg : List ℕ) × (relay_responses r proxy ≡ ok r')
      × Sends r r' msg
      × Takes r r' msg (λ c c'.
        (opens stack : ℕ)
        → 1000 ≤ stack
        → parts proxy < opens
        → deliver_responses opens stack c
          ≡ ok (record { sent = flatten proxy; client = c'; files = parts proxy + 1 }))
unfolding relay_responses parts
relay-Takes r proxy ready flow =
    let (r₁, proxy₁, msg₁, run₁, sends₁, takes₁) =
      recv_loop-Takes (suc (length (flatten proxy))) r proxy ready flow (omega arith) in
    let (r₂, msg₂, run₂, sends₂, _, takes₂) =
      transfer_file r₁ (replicate 1000 0) 0 sends₁.ready (omega arith) (omega arith) in
    (
      r₂,
      msg₁ ++ msg₂,
      rw (run₁, run₂),
      Sends-trans r r₁ r₂ msg₁ msg₂ sends₁ sends₂,
      λ c rest sync cflow stream.
          let (c₁, delivers, sync₁, left₁, flow₁) =
            takes₁ c (msg₂ ++ rest) sync cflow (stream ∙ append_assoc msg₁ msg₂ rest) in
          let (c₂, file, sync₂, left₂, flow₂) = takes₂ c₁ rest sync₁ flow₁ left₁ in
          (
            c₂,
            λ opens stack room can.
                delivered c c₁ c₂ (flatten proxy) (parts proxy) opens stack room can delivers
                  (unfold pieces in file []),
            sync₂,
            left₂,
            flow₂,
          ),
    )
