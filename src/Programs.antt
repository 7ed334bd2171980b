-- ===== src/Programs.antt =====
-- The example programs Server/main.cc and Client/main.cc. A file that `fopen` cannot open is `none`;
-- what is typed at the programs and what the system calls return are arguments.
pub mod Mains
pub mod Sessions
use rabin_fingerprinting.Base.{
  ℕ, ◌+◌, Bool, true, false, Option, none, some, List, [], ◌∷◌, length, ltb, ◌==◌, if◌then◌else◌,
  Result, ok, fault, null_pointer, stack_overflow, exits, ◌>>=◌, ℤ, is_negative,
}
use rabin_fingerprinting.Socket.{InSocket, OutSocket}
use rabin_fingerprinting.Server.{Server, new_server, connect_to_client, send_file}
use rabin_fingerprinting.Client.{Client, Reception, new_client, connect_to_server, receive_file}

-- `char c[n]; fread(c, …); a = r->send_file(c, n)` of both loops: the stack has room for an array of
-- `stack` bytes.
unfoldable pub send_array : ℕ → Server → List ℕ → Result (ℕ × Server)
send_array stack r c =
    if ltb stack (length c) then fault stack_overflow else send_file r c (length c)

-- The loop over the arguments in main of Server/main.cc. Whether `fopen` worked is not checked. The
-- result has the counts that are printed.
unfoldable pub send_args : ℕ → Server → List (Option (List ℕ)) → Result (List ℕ × Server)
send_args stack r [] = ok ([], r)
send_args stack r (none ∷ files) = fault null_pointer
send_args stack r (some c ∷ files) = do
  (a, r') ← send_array stack r c
  (counts, r'') ← send_args stack r' files
  ok (a ∷ counts, r'')

-- The loop over the names that are typed: a file that cannot be opened is passed over. The source goes
-- on for ever; here it ends with the list of names.
unfoldable pub send_typed : ℕ → Server → List (Option (List ℕ)) → Result (List ℕ × Server)
send_typed stack r [] = ok ([], r)
send_typed stack r (none ∷ files) = send_typed stack r files
send_typed stack r (some c ∷ files) = do
  (a, r') ← send_array stack r c
  (counts, r'') ← send_typed stack r' files
  ok (a ∷ counts, r'')

-- What the system calls of Server/main.cc return: `bind`, `blocks.max_size()` and `accept`, and the
-- connection to the client; and how many bytes the stack has room for.
pub record ServerCalls : Type 0 where
  pub bound : ℤ
  pub map_max_size : ℕ
  pub accepted : ℤ
  pub client : OutSocket
  pub stack : ℕ

-- main of Server/main.cc: the files are those of the arguments behind the port, or the typed ones.
unfoldable pub server_main : ℕ → ServerCalls → List (Option (List ℕ)) → Result (List ℕ × Server)
server_main argc calls files =
    if ltb argc 2
    then fault (exits 0)
    else (new_server calls.bound calls.map_max_size calls.client >>= λ r.
        connect_to_client r calls.accepted calls.client >>= λ a.
        if argc == 2 then send_typed calls.stack a.1 files else send_args calls.stack a.1 files)

-- One round of Client/main.cc: `fopen` empties the file. A file that cannot be opened is null at the
-- assertion in front of `receive_file`.
unfoldable pub receive_round : Client → Bool → Result Reception
receive_round c true = receive_file c []
receive_round c false = fault null_pointer

-- `while(go)` of Client/main.cc: every round receives one file, and `cin >> go` reads the next answer,
-- 0 to stop. `opened` is whether `fopen` works in the coming round, and each answer comes with whether
-- it works in the round behind it. Behind the last answer given, the program waits for another one; the
-- result has the file after each round up to there.
unfoldable pub receive_rounds : Client → Bool → List (ℕ × Bool) → Result (List (List ℕ) × Client)
receive_rounds c opened [] = do q ← receive_round c opened; ok (q.file ∷ [], q.client)
receive_rounds c opened ((go, opens) ∷ answers) = do
  q ← receive_round c opened
  let more = receive_rounds q.client opens answers >>= λ s. ok (q.file ∷ s.0, s.1)
  if go == 0 then ok (q.file ∷ [], q.client) else more

-- main of Client/main.cc, with what `setsockopt`, `gethostbyname` and `connect` return.
unfoldable pub client_main :
    ℕ → ℤ → Bool → ℤ → InSocket → Bool → List (ℕ × Bool) → Result (List (List ℕ) × Client)
client_main argc timeout_set host_found connected server opened answers =
    if ltb argc 4
    then fault (exits 1)
    else (new_client timeout_set host_found >>= λ c.
        let r : ℤ × Client = connect_to_server c connected server in
        if is_negative r.0 then fault (exits 1) else receive_rounds r.1 opened answers)
