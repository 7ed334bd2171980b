-- ===== src/Interpreter/Service.antt =====
-- `service_client` and the main loop of Files/C/NewIServ.c.
use Prim.Native.String.{String}
use rabin_fingerprinting.Base.{
  ℕ, zero, suc, ◌+◌, ◌^◌, Bool, false, ◌||◌, Option, none, some, List, [], ◌∷◌, ◌++◌, length, take,
  drop, replicate, ltb, leb, ◌==◌, if◌then◌else◌, Result, ok, fault, exits, out_of_bounds, ◌>>=◌, ℤ,
  pos, negsuc, is_negative,
}
use rabin_fingerprinting.Wire.{ntohl, of_le_bytes}
use rabin_fingerprinting.Socket.{InSocket, read, read_full}
use rabin_fingerprinting.Interpreter.{
  Peer, IServ, clsize, hsize, htons, header, slot, on_peer, write_fd, close_fd, set, send_ack,
  write_to_all, build_sel_list, new_connection,
}
use rabin_fingerprinting.Interpreter.Parens.{paren_check}

-- What one call of `service_client` meets outside: the last line of the child's output, and what
-- `FILE_SEND` does: for the interpreter, by the path that it is given, whether it returns 0 and what it
-- writes, and what it writes for the log.
pub record Outside : Type 0 where
  pub line : List ℕ
  pub interpreter_sent : String → Bool
  pub interpreter_bytes : String → List ℕ
  pub log_bytes : List ℕ

-- A lost or finished connection: `close(connectlist[index]); connectlist[index] = 0`.
unfoldable pub drop_slot : ℕ → IServ → IServ
drop_slot index s =
    let s' = close_fd (slot s index) s in record s' { connectlist = set s'.connectlist index 0 }

-- `strcat(msg, "\n")` in the buffer of `hd.len` bytes, and the text that it then holds.
unfoldable pub append_newline : List ℕ → Result (List ℕ)
append_newline [] = fault out_of_bounds
append_newline (c ∷ msg) =
    let rest : Result (List ℕ) = append_newline msg >>= λ text. ok (c ∷ text) in
    if c == 0 then (if length msg == 0 then fault out_of_bounds else ok (b'\n' ∷ [])) else rest

abbrev pub mismatch : List ℕ
mismatch =
    77 ∷ 105 ∷ 115 ∷ 109 ∷ 97 ∷ 116 ∷ 99 ∷ 104 ∷ 101 ∷ 100 ∷ 32 ∷ 112 ∷ 97 ∷ 114 ∷ 101 ∷ 110 ∷ 116
    ∷ 104 ∷ 101 ∷ 115 ∷ 101 ∷ 115 ∷ 10 ∷ 0 ∷ []

-- A command whose parentheses match goes to the child and to the log, and the answer to everyone.
unfoldable pub pass_command : List ℕ → List ℕ → IServ → Result IServ
pass_command line msg s = do
  final ← append_newline msg
  ok (write_to_all line (record s { child_in = s.child_in ++ final; ilog = s.ilog ++ final }))

-- Type 3: a command, from a slot that is still in use.
unfoldable pub interpret : List ℕ → ℕ → List ℕ → IServ → Result IServ
interpret line index msg s =
    let fd : ℕ = slot s index in
    let acked : IServ = write_fd fd (header 4 0) s in
    if fd == 0
    then ok s
    else (if paren_check msg
        then pass_command line msg acked
        else ok (write_fd fd mismatch (write_fd fd (header 2 24) acked)))

abbrev pub interpreter_address : String
interpreter_address = "interpreters/uscheme"

-- Type 5: the end of a session, with a copy of the interpreter at a path, and of the log.
unfoldable pub send_files : String → Outside → ℕ → IServ → IServ
send_files path o fd s =
    let greeted : IServ = write_fd fd (o.interpreter_bytes path) (write_fd fd (header 6 0) s) in
    if o.interpreter_sent path
    then write_fd fd o.log_bytes (write_fd fd (header 7 0) greeted)
    else greeted

-- What a message of a type and a length does; `msg` has its bytes.
unfoldable pub dispatch : Outside → ℕ → ℕ → List ℕ → IServ → Result IServ
dispatch o index type msg s =
    if type == 1
    then ok (send_ack index s)
    else if type == 3
    then (if length msg == 0 then ok s else interpret o.line index msg s)
    else if type == 5
    then (if slot s index == 0
        then ok s
        else ok (drop_slot index (send_files interpreter_address o (slot s index) s)))
    else ok s

abbrev pub advance : ℕ → InSocket → IServ → IServ
advance fd rest s = on_peer fd (λ p. record p { incoming = rest }) s

-- `readMsg`, which ends the program if a read gives nothing. `totalBytes` is an `int`: a length of
-- 2 ^ 31 or more is negative there, and nothing is read.
unfoldable pub read_msg : ℕ → ℕ → IServ → Result (List ℕ × IServ)
read_msg fd len s =
    if leb (2 ^ 31) len
    then ok ([], s)
    else (let got : Option (List ℕ) × InSocket = read_full len (s.peers fd).incoming in
        elim got.0 [ none ↦ fault (exits 1) | some msg ↦ ok (msg, advance fd got.1 s) ])

-- The header has been read: `type` and `len` in host order. A message of another length is dropped.
unfoldable pub service_message : Outside → ℕ → ℕ → ℕ → IServ → Result IServ
service_message o index type len s = do
  r ← if len == 0 then ok ([], s) else read_msg (slot s index) len s
  if length r.0 == len then dispatch o index type r.0 r.1 else ok r.1

unfoldable pub service_client : Outside → ℕ → IServ → Result IServ
service_client o index s =
    let got : List ℕ × InSocket = read (s.peers (slot s index)).incoming hsize in
    let s' : IServ = advance (slot s index) got.1 s in
    if ltb (length got.0) hsize
    then ok (drop_slot index s')
    else service_message o index (htons (of_le_bytes (take 2 got.0)))
        (ntohl (of_le_bytes (drop 2 got.0))) s'

-- What a round of the main loop meets: the descriptors on which a read fails, the result of `select`
-- and the descriptors that it leaves in `socks`, a new connection, and what each slot's service meets.
pub record Round : Type 0 where
  pub broken : ℕ → Bool
  pub num_socks : ℤ
  pub ready : List ℕ
  pub accepted : ℤ
  pub newcomer : Peer
  pub outside : ℕ → Outside

-- `FD_ISSET`.
abbrev pub is_set : ℕ → List ℕ → Bool
is_set fd [] = false
is_set fd (x ∷ xs) = fd == x || is_set fd xs

-- The loop of `read_socks`, with `n` slots left from `i` on.
unfoldable pub serve_slots : (ℕ → Outside) → ℕ → ℕ → IServ → Result IServ
serve_slots o zero i s = ok s
serve_slots o (suc n) i s =
    (if is_set (slot s i) s.socks then service_client (o i) i s else ok s)
    >>= serve_slots o n (i + 1)

unfoldable pub read_socks : Round → IServ → Result IServ
read_socks e s =
    (if is_set s.sockfd s.socks then new_connection e.accepted e.newcomer s else ok s)
    >>= serve_slots e.outside clsize 0

abbrev pub is_zero : ℤ → Bool
is_zero (pos n) = n == 0
is_zero (negsuc n) = false

-- One round of `while(1)`.
unfoldable pub round : Round → IServ → Result IServ
round e s =
    let s' : IServ = build_sel_list e.broken s in
    if is_negative e.num_socks
    then fault (exits 1)
    else (if is_zero e.num_socks then ok s' else read_socks e (record s' { socks = e.ready }))

unfoldable pub rounds : List Round → IServ → Result IServ
rounds [] s = ok s
rounds (e ∷ es) s = round e s >>= rounds es

-- The state before the loop.
unfoldable pub initial : ℕ → (ℕ → Peer) → IServ
initial sockfd peers = record {
  sockfd = sockfd;
  hisockfd = sockfd;
  connectlist = replicate clsize 0;
  socks = [];
  peers = peers;
  child_in = [];
  ilog = [];
}

-- `main` behind the test of the arguments, with what `socket` and `bind` return.
unfoldable pub listen_on : ℤ → ℤ → (ℕ → Peer) → List Round → Result IServ
listen_on (negsuc n) bound peers es = fault (exits 1)
listen_on (pos sockfd) bound peers es =
    if is_negative bound then fault (exits 1) else rounds es (initial sockfd peers)

-- `main` in the parent, over the rounds that it meets: the source goes on for ever.
unfoldable pub iserv_main : ℕ → ℤ → ℤ → (ℕ → Peer) → List Round → Result IServ
iserv_main argc socket bound peers es =
    if ltb argc 2 then fault (exits 1) else listen_on socket bound peers es
