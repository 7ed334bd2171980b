-- ===== src/Programs/Sessions.antt =====
-- A session of the two programs: several files over one connection.
use rabin_fingerprinting.Base.{
  ℕ, ◌+◌, ◌^◌, ◌<◌, ◌≤◌, ◌≡◌, true, sym, ap, ◌∙◌, subst, some, List, [], ◌∷◌, ◌++◌, All, flatten,
  length, replicate, arith, ok, take_all, ltb-false, append_cancel, append_assoc,
}
use mathlib.Core.List.{map}
use native.Mathlib.Nat.{le_refl}
use rabin_fingerprinting.Socket.Segments.{IsFlowing}
use rabin_fingerprinting.Server.{Server}
use rabin_fingerprinting.Server.Pieces.{pieces}
use rabin_fingerprinting.Client.{Client}
use rabin_fingerprinting.Transfer.{Synced, IsReady, Sends, Sends-trans, Takes}
use rabin_fingerprinting.Transfer.Files.{Receives, transfer_file}
use rabin_fingerprinting.Programs.{send_args, send_array, receive_round, receive_rounds}

-- Files whose size `ftell` gives as an `int`, and an array on the stack has room for.
abbrev pub AreFiles : ℕ → List (List ℕ) → Type 0
AreFiles stack files = All (λ f. (length f < 2 ^ 31) × (length f ≤ stack)) files

pub args-Takes :
    (stack : ℕ) (f : List ℕ) (files : List (List ℕ)) (r : Server)
    → IsReady r
    → AreFiles stack (f ∷ files)
    → (counts : List ℕ) × (r' : Server) × (msg : List ℕ) × (send_args stack r (map some (f ∷ files))
        ≡ ok (counts, r'))
      × Sends r r' msg
      × Takes r r' msg
          (λ c c'. receive_rounds c true (replicate (length files) (1, true)) ≡ ok (f ∷ files, c'))
unfolding send_args send_array receive_rounds receive_round
args-Takes stack f [] r ready small =
    let (r₁, msg₁, run₁, sends₁, _, takes₁) =
      rw (take_all f) at
        (transfer_file r f (length f) ready (le_refl (length f)) (omega (arith, small.0.0))) in
    (
      (length (pieces r.max_size f) + 1) ∷ [],
      r₁,
      msg₁,
      rw (ltb-false stack (length f) small.0.1, run₁, send_args),
      sends₁,
      λ c rest sync flow stream.
          let (c₁, file, sync₁, left₁, flow₁) = takes₁ c rest sync flow stream in
          (c₁, rw (file []), sync₁, left₁, flow₁),
    )
args-Takes stack f (g ∷ files) r ready small =
    let (r₁, msg₁, run₁, sends₁, _, takes₁) =
      rw (take_all f) at
        (transfer_file r f (length f) ready (le_refl (length f)) (omega (arith, small.0.0))) in
    let (counts, r₂, msg₂, run₂, sends₂, takes₂) =
      args-Takes stack g files r₁ sends₁.ready small.1 in
    (
      (length (pieces r.max_size f) + 1) ∷ counts,
      r₂,
      msg₁ ++ msg₂,
      rw (ltb-false stack (length f) small.0.1, run₁, run₂, send_args),
      Sends-trans r r₁ r₂ msg₁ msg₂ sends₁ sends₂,
      λ c rest sync flow stream.
          let (c₁, file, sync₁, left₁, flow₁) =
            takes₁ c (msg₂ ++ rest) sync flow (stream ∙ append_assoc msg₁ msg₂ rest) in
          let (c₂, rounds, sync₂, left₂, flow₂) = takes₂ c₁ rest sync₁ flow₁ left₁ in
          (c₂, rw (file [], rounds), sync₂, left₂, flow₂),
    )

-- main of Server/main.cc sends the files of its arguments, each of less than 2^31 bytes and no larger
-- than the stack has room for, one after the other, with a valid cache and over a connection that loses nothing. A client in step with
-- the server that finds the bytes sent at the head of its stream, in segments of any sizes but
-- none empty, can open its file in every round, and is answered 1 after each file but the last,
-- receives exactly these files in their order, one in a round. The rest of its stream is left alone,
-- the server can send again, and the two are in step.
receive_rounds-send_args :
    (stack : ℕ) (r r' : Server) (c : Client) (f : List ℕ) (files : List (List ℕ))
    (counts msg rest : List ℕ)
    → IsReady r
    → Synced r c
    → AreFiles stack (f ∷ files)
    → send_args stack r (map some (f ∷ files)) ≡ ok (counts, r')
    → r'.newsockfd.sent ≡ r.newsockfd.sent ++ msg
    → IsFlowing c.sockfd
    → flatten c.sockfd ≡ msg ++ rest
    → (c' : Client) × (receive_rounds c true (replicate (length files) (1, true))
        ≡ ok (f ∷ files, c'))
      × Receives r' c' rest
receive_rounds-send_args stack r r' c f files counts msg rest ready sync small sent wire flow
      stream =
    let (_, r₁, msg₁, run, sends, takes) = args-Takes stack f files r ready small in
    let same : r₁ ≡ r' = cc (run, sent) in
    let same_msg : msg ≡ msg₁ =
      append_cancel r.newsockfd.sent msg msg₁
        (sym wire ∙ ap (λ (x : Server). x.newsockfd.sent) (sym same) ∙ sends.wire) in
    let (c', received_all, sync', left, flow') =
      takes c rest sync flow (stream ∙ ap (λ l. l ++ rest) same_msg) in
    (
      c',
      received_all,
      record {
        ready = subst IsReady same sends.ready;
        synced = subst (λ x. Synced x c') same sync';
        left = left;
        flowing = flow';
      },
    )
