-- ===== src/Transfer/Rounds.antt =====
-- The client's loop on the messages of a list of blocks.
use mathlib.Core.List.{append_assoc, append-nil}
use rabin_fingerprinting.Base.{
  ℕ, zero, suc, ◌+◌, ◌%◌, ◌^◌, ◌≤◌, ◌<◌, ◌≡◌, refl, sym, ap, ◌∙◌, true, none, some, List, [], ◌∷◌,
  ◌++◌, All, flatten, length, arith, ok, take_all, length-append,
}
use rabin_fingerprinting.Server.Hash.{block_number}
use rabin_fingerprinting.Server.Cache.{block_of}
use rabin_fingerprinting.Server.Pieces.{InBounds}
use rabin_fingerprinting.Server.Sending.{send_all}
use rabin_fingerprinting.Server.{Server}
use rabin_fingerprinting.Client.{Client, Reception, received, receive_block, receive_loop}
use rabin_fingerprinting.Transfer.{IsReady, Sends, Takes}
use rabin_fingerprinting.Transfer.Blocks.{transfer_block}

-- The state of `receive_file` after `k` blocks.
abbrev pub so_far : ℕ → List ℕ → Client → Reception
so_far k out c = record { num_blocks = k % 2 ^ 32; file = out; client = c }

-- A round of the client's loop that gets a block.
loop_block :
    (fuel k : ℕ) (out p : List ℕ) (n : ℕ) (c c' : Client)
    → receive_block c ≡ ok (some (block_of n p true), c')
    → receive_loop (suc fuel) (so_far k out c) ≡ receive_loop fuel (so_far (k + 1) (out ++ p) c')
unfolding receive_loop received
loop_block fuel k out p n c c' run =
    let count : (k % 2 ^ 32 + 1) % 2 ^ 32 ≡ (k + 1) % 2 ^ 32 = omega arith in
    rw (run, count, take_all p)

pub loop_eof :
    (fuel k : ℕ) (out : List ℕ) (c c' : Client)
    → receive_block c ≡ ok (none, c')
    → receive_loop (suc fuel) (so_far k out c) ≡ ok (so_far (k + 1) out c')
unfolding receive_loop received
loop_eof fuel k out c c' run =
    let count : (k % 2 ^ 32 + 1) % 2 ^ 32 ≡ (k + 1) % 2 ^ 32 = omega arith in rw (run, count)

-- From `before` the client's loop gets to `after`, having appended `bytes` in `blocks` rounds, with
-- fuel for the rest of the stream left.
abbrev pub Loops : ℕ → List ℕ → Client → Client → Type 0
Loops blocks bytes before after =
    (fuel k : ℕ) (out : List ℕ)
    → length (flatten before.sockfd) < fuel
    → (fuel' : ℕ) × (receive_loop fuel (so_far k out before)
        ≡ receive_loop fuel' (so_far (k + blocks) (out ++ bytes) after))
      × (length (flatten after.sockfd) < fuel')

loop_step :
    (n blocks : ℕ) (p bytes msg : List ℕ) (c c' c'' : Client)
    → receive_block c ≡ ok (some (block_of n p true), c')
    → flatten c.sockfd ≡ msg ++ flatten c'.sockfd
    → 1 ≤ length msg
    → Loops blocks bytes c' c''
    → Loops (suc blocks) (p ++ bytes) c c''
loop_step n blocks p bytes msg c c' c'' run stream some_bytes loops zero k out h =
    absurd (omega arith)
loop_step n blocks p bytes msg c c' c'' run stream some_bytes loops (suc fuel) k out h =
    let total : length (flatten c.sockfd) ≡ length msg + length (flatten c'.sockfd) =
      ap length stream ∙ length-append msg (flatten c'.sockfd) in
    let (fuel', same, enough) = loops fuel (k + 1) (out ++ p) (omega arith) in
    let count : k + 1 + blocks ≡ k + suc blocks = omega arith in
    (
      fuel',
      loop_block fuel k out p n c c' run ∙ same ∙ rw (count, append_assoc out p bytes),
      enough,
    )

pub send_all-Takes :
    (ps : List (List ℕ)) (r : Server)
    → IsReady r
    → All InBounds ps
    → (r' : Server) × (msg : List ℕ) × (send_all r ps ≡ ok r')
      × Sends r r' msg
      × Takes r r' msg (Loops (length ps) (flatten ps))
unfolding send_all flatten
send_all-Takes [] r ready bounds = (
  r,
  [],
  refl,
  record { ready = ready; same_size = refl; wire = sym (append-nil _) },
  λ c rest sync flow stream. (
    c,
    λ fuel k out h. let e : k + 0 ≡ k = omega arith in (fuel, rw (e, append-nil out), h),
    sync,
    stream,
    flow,
  ),
)
send_all-Takes (p ∷ ps) r ready bounds =
    let (r₁, msg₁, run₁, sends₁, some_bytes, takes₁) = transfer_block r p ready bounds.0 in
    let (r₂, msg₂, run₂, sends₂, takes₂) = send_all-Takes ps r₁ sends₁.ready bounds.1 in
    (
      r₂,
      msg₁ ++ msg₂,
      rw (run₁, run₂),
      record {
        ready = sends₂.ready;
        same_size = sends₂.same_size ∙ sends₁.same_size;
        wire =
            sends₂.wire ∙ ap (λ l. l ++ msg₂) sends₁.wire ∙ append_assoc r.newsockfd.sent msg₁ msg₂;
      },
      λ c rest sync flow stream.
          let (c₁, got, sync₁, left₁, flow₁) =
            takes₁ c (msg₂ ++ rest) sync flow (stream ∙ append_assoc msg₁ msg₂ rest) in
          let (c₂, loops, sync₂, left₂, flow₂) = takes₂ c₁ rest sync₁ flow₁ left₁ in
          (
            c₂,
            loop_step (block_number r.max_size p) (length ps) p (flatten ps) msg₁ c c₁ c₂ got
                (stream ∙ append_assoc msg₁ msg₂ rest ∙ ap (λ l. msg₁ ++ l) (sym left₁)) some_bytes
                loops,
            sync₂,
            left₂,
            flow₂,
          ),
    )
