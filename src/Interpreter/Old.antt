-- ===== src/Interpreter/Old.antt =====
-- Files/C/OldIServ.c, the earlier text of the interpreter server. Most of its functions are those of
-- Files/C/NewIServ.c; here are the ones that differ, and what calls them.
pub mod Runs
pub mod Same
use Prim.Native.String.{String}
use rabin_fingerprinting.Base.{
  ℕ, zero, suc, ◌+◌, List, [], ◌∷◌, length, take, drop, ltb, ◌==◌, if◌then◌else◌, Result, ok, fault,
  exits, ◌>>=◌, ℤ, pos, negsuc, is_negative,
}
use rabin_fingerprinting.Wire.{ntohl, of_le_bytes}
use rabin_fingerprinting.Socket.{InSocket, read}
use rabin_fingerprinting.Interpreter.{
  Peer, IServ, clsize, hsize, htons, slot, send_ack, build_sel_list, new_connection,
}
use rabin_fingerprinting.Interpreter.Service.{
  Outside, drop_slot, interpret, send_files, advance, read_msg, Round, is_set, is_zero, initial,
}

-- The path of the interpreter that the end of a session sends.
abbrev pub interpreter_path : String
interpreter_path = "/intepreters/uscheme"

-- The types of messages. Type 5 does not ask whether the slot is in use.
unfoldable pub dispatch : Outside → ℕ → ℕ → List ℕ → IServ → Result IServ
dispatch o index type msg s =
    if type == 1
    then ok (send_ack index s)
    else if type == 3
    then (if length msg == 0 then ok s else interpret o.line index msg s)
    else if type == 5
    then ok (drop_slot index (send_files interpreter_path o (slot s index) s))
    else ok s

unfoldable pub service_message : Outside → ℕ → ℕ → ℕ → IServ → Result IServ
service_message o index type len s = do
  r ← if len == 0 then ok ([], s) else read_msg (slot s index) len s
  if length r.0 == len then dispatch o index type r.0 r.1 else ok r.1

unfoldable pub service_client : Outside → ℕ → IServ → Result IServ
service_client o index s =
    let got : List ℕ × InSocket = read (s.peers (slot s index)).incoming hsize in
    let s' : IServ = advance (slot s index) got.1 s in
    if ltb (length got.0) hsize
    then ok (drop_slot index s')
    else service_message o index (htons (of_le_bytes (take 2 got.0)))
        (ntohl (of_le_bytes (drop 2 got.0))) s'

unfoldable pub serve_slots : (ℕ → Outside) → ℕ → ℕ → IServ → Result IServ
serve_slots o zero i s = ok s
serve_slots o (suc n) i s =
    (if is_set (slot s i) s.socks then service_client (o i) i s else ok s)
    >>= serve_slots o n (i + 1)

unfoldable pub read_socks : Round → IServ → Result IServ
read_socks e s =
    (if is_set s.sockfd s.socks then new_connection e.accepted e.newcomer s else ok s)
    >>= serve_slots e.outside clsize 0

-- A round of `while(1)`, and any number of them.
unfoldable pub round : Round → IServ → Result IServ
round e s =
    let s' : IServ = build_sel_list e.broken s in
    if is_negative e.num_socks
    then fault (exits 1)
    else (if is_zero e.num_socks then ok s' else read_socks e (record s' { socks = e.ready }))

unfoldable pub rounds : List Round → IServ → Result IServ
rounds [] s = ok s
rounds (e ∷ es) s = round e s >>= rounds es

unfoldable pub listen_on : ℤ → ℤ → (ℕ → Peer) → List Round → Result IServ
listen_on (negsuc n) bound peers es = fault (exits 1)
listen_on (pos sockfd) bound peers es =
    if is_negative bound then fault (exits 1) else rounds es (initial sockfd peers)

unfoldable pub iserv_main : ℕ → ℤ → ℤ → (ℕ → Peer) → List Round → Result IServ
iserv_main argc socket bound peers es =
    if ltb argc 2 then fault (exits 1) else listen_on socket bound peers es
