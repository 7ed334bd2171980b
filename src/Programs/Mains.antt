-- ===== src/Programs/Mains.antt =====
-- The two programs from their start.
use rabin_fingerprinting.Base.{
  ℕ, ◌/◌, ◌%◌, ◌^◌, ◌≤◌, ◌<◌, ◌≡◌, ap, ◌∙◌, Bool, true, false, Option, none, some, List, [], ◌∷◌,
  ◌++◌, flatten, length, replicate, ltb-false, ==_ne, Result, ok, fault, ℤ, is_negative, arith,
}
use mathlib.Core.List.{map}
use rabin_fingerprinting.Socket.{InSocket, OutSocket}
use rabin_fingerprinting.Socket.Segments.{IsFlowing}
use rabin_fingerprinting.Server.{Server, new_server, connect_to_client}
use rabin_fingerprinting.Server.Cache.{empty_server, empty_server-IsValid}
use rabin_fingerprinting.Client.{Client, new_client, connect_to_server}
use rabin_fingerprinting.Transfer.{IsReady, Synced}
use rabin_fingerprinting.Programs.{ServerCalls, send_args, server_main, receive_rounds, client_main}
use rabin_fingerprinting.Programs.Sessions.{AreFiles, args-Takes}

-- What a program has written to its Rabin client when it ends.
abbrev pub sent_by : {A : Type 0} → Result (A × Server) → List ℕ
sent_by (ok (result, r)) = r.newsockfd.sent
sent_by (fault e) = []

-- The calls of a start of the server that succeeds, with a hash map that can hold something, and a
-- connection that loses nothing.
pub record Starts (calls : ServerCalls) : Type 0 where
  pub binds : is_negative calls.bound ≡ false
  pub has_room : 0 < calls.map_max_size / 10000 % 2 ^ 32
  pub accepts : is_negative calls.accepted ≡ false
  pub fresh : calls.client ≡ record { sent = []; outcomes = [] }

-- The server behind the constructor and `connect_to_client`.
unfoldable pub fresh_server : ServerCalls → Server
fresh_server calls = empty_server (calls.map_max_size / 10000 % 2 ^ 32) calls.client

pub fresh_server-IsReady : (calls : ServerCalls) → Starts calls → IsReady (fresh_server calls)
unfolding fresh_server
fresh_server-IsReady calls s = record {
  valid = empty_server-IsValid _ calls.client s.has_room (omega arith);
  reliable = ap (λ (o : OutSocket). o.outcomes) s.fresh;
}

server_main-Starts :
    (argc : ℕ) (calls : ServerCalls) (files : List (Option (List ℕ)))
    → 3 ≤ argc
    → Starts calls
    → server_main argc calls files ≡ send_args calls.stack (fresh_server calls) files
unfolding server_main new_server connect_to_client fresh_server
server_main-Starts argc calls files enough s =
    rw (ltb-false argc 2 (omega arith), s.binds, s.accepts, ==_ne argc 2 (omega arith))

client_main_starts :
    (argc : ℕ) (timeout_set connected : ℤ) (server : InSocket) (opened : Bool)
    (answers : List (ℕ × Bool))
    → 4 ≤ argc
    → is_negative timeout_set ≡ false
    → is_negative connected ≡ false
    → client_main argc timeout_set true connected server opened answers
      ≡ receive_rounds (record { blocks = λ _. none; sockfd = server }) opened answers
unfolding client_main new_client connect_to_server
client_main_starts argc timeout_set connected server opened answers enough t c =
    rw (ltb-false argc 4 enough, t, c, c)

-- Server/main.cc, started with the names of files of less than 2^31 bytes each, none larger than the
-- stack has room for, and Client/main.cc: if all system calls of the start succeed, the connection loses nothing, and the client finds at the
-- head of its stream what the server has written, in segments none of which is empty, can open its file
-- in every round, and is answered 1 after each file but the last, then both programs run through, and
-- the client has received exactly the server's files, in their order.
pub client_main-server_main :
    (argc argc' : ℕ) (calls : ServerCalls) (timeout_set connected : ℤ) (f : List ℕ)
    (files : List (List ℕ)) (server : InSocket) (rest : List ℕ)
    → 3 ≤ argc
    → 4 ≤ argc'
    → Starts calls
    → is_negative timeout_set ≡ false
    → is_negative connected ≡ false
    → AreFiles calls.stack (f ∷ files)
    → IsFlowing server
    → flatten server ≡ sent_by (server_main argc calls (map some (f ∷ files))) ++ rest
    → (counts : List ℕ) × (r : Server) × (c : Client) × (server_main argc calls
          (map some (f ∷ files))
        ≡ ok (counts, r))
      × (client_main argc' timeout_set true connected server true
            (replicate (length files) (1, true))
          ≡ ok (f ∷ files, c))
      × Synced r c
unfolding fresh_server
client_main-server_main argc argc' calls timeout_set connected f files server rest enough enough'
      starts t c small flow stream =
    let ready = fresh_server-IsReady calls starts in
    let (counts, r, msg, run, sends, takes) =
      args-Takes calls.stack f files (fresh_server calls) ready small in
    let whole = server_main-Starts argc calls (map some (f ∷ files)) enough starts ∙ run in
    let written : sent_by (server_main argc calls (map some (f ∷ files))) ≡ msg =
      ap sent_by whole ∙ sends.wire ∙ ap (λ (o : OutSocket). o.sent ++ msg) starts.fresh in
    let listener : Client = record { blocks = λ _. none; sockfd = server } in
    let (c', got, sync, _, _) =
      takes listener rest (record { settled = λ n b e. cc; held = λ n b e. cc }) flow
        (stream ∙ ap (λ l. l ++ rest) written) in
    (
      counts,
      r,
      c',
      whole,
      client_main_starts argc' timeout_set connected server true
            (replicate (length files) (1, true)) enough' t c
          ∙ got,
      sync,
    )
