-- ===== src/Interpreter.antt =====
-- The network interpreter of Files/C/NewIServ.c: a table of connections, served one after the other,
-- whose balanced commands go to a Scheme interpreter in a child process. What the system calls return
-- and what the child prints are arguments.
pub mod Service
pub mod Signals
pub mod Old
pub mod Parens
pub mod Plumbing
pub mod Leaks
pub mod Answers
pub mod Commands
pub mod Invariant
pub mod Keeping
pub mod Reading
pub mod Replies
pub mod Runs
pub mod Table
pub mod Turns
use rabin_fingerprinting.Base.{
  ℕ, zero, suc, ◌+◌, ◌-◌, ◌*◌, ◌/◌, ◌%◌, ◌<◌, Bool, true, false, ◌&&◌, ◌||◌, not, List, [], ◌∷◌,
  ◌++◌, length, get_or, replicate, ltb, ◌==◌, if◌then◌else◌, Result, ok, fault, exits, ◌>>=◌, ℤ,
  pos, negsuc,
}
use rabin_fingerprinting.Wire.{htonl, le_bytes}
use rabin_fingerprinting.Socket.{InSocket, OutSocket, write}

-- The other end of a connection, by its descriptor: what it will send, what was written to it, and
-- whether the descriptor is open.
pub record Peer : Type 0 where
  pub incoming : InSocket
  pub outgoing : OutSocket
  pub is_open : Bool

-- The global variables. A slot of `connectlist` that is 0 is free; `child_in` and `ilog` are the bytes
-- written to these files.
pub record IServ : Type 0 where
  pub sockfd : ℕ
  pub hisockfd : ℕ
  pub connectlist : List ℕ
  pub socks : List ℕ
  pub peers : ℕ → Peer
  pub child_in : List ℕ
  pub ilog : List ℕ

abbrev pub clsize : ℕ
clsize = 200

abbrev pub hsize : ℕ
hsize = 6

-- `htons` on a little-endian host.
unfoldable pub htons : ℕ → ℕ
htons x = x % 256 * 256 + x / 256 % 256

-- The packed `header` as it is written.
unfoldable pub header : ℕ → ℕ → List ℕ
header type len = le_bytes 2 (htons type) ++ le_bytes 4 (htonl len)

abbrev pub slot : IServ → ℕ → ℕ
slot s i = get_or s.connectlist i 0

abbrev pub on_peer : ℕ → (Peer → Peer) → IServ → IServ
on_peer fd f s = record s { peers = λ q. if fd == q then f (s.peers fd) else s.peers q }

-- `write(fd, …)`, its result being dropped, and `close(fd)`.
unfoldable pub write_fd : ℕ → List ℕ → IServ → IServ
write_fd fd bytes s = on_peer fd (λ p. record p { outgoing = (write p.outgoing bytes).1 }) s

unfoldable pub close_fd : ℕ → IServ → IServ
close_fd fd s = on_peer fd (λ p. record p { is_open = false }) s

-- `connectlist[i] = fd`.
abbrev pub set : List ℕ → ℕ → ℕ → List ℕ
set [] i fd = []
set (c ∷ cs) zero fd = fd ∷ cs
set (c ∷ cs) (suc i) fd = c ∷ set cs i fd

unfoldable pub send_ack : ℕ → IServ → IServ
send_ack i s = write_fd (slot s i) (header 8 0) s

-- The text up to the first zero byte.
abbrev pub c_string : List ℕ → List ℕ
c_string [] = []
c_string (c ∷ cs) = if c == 0 then [] else c ∷ c_string cs

-- The loop of `write_to_all` over the slots.
unfoldable pub write_to_slots : List ℕ → List ℕ → IServ → IServ
write_to_slots out [] s = s
write_to_slots out (fd ∷ fds) s =
    write_to_slots out fds
      (if fd == 0 then s else write_fd fd out (write_fd fd (header 2 (length out)) s))

-- `line` is what `getline` gives of the last line that the child has printed.
unfoldable pub write_to_all : List ℕ → IServ → IServ
write_to_all line s = write_to_slots (c_string line) s.connectlist s

-- The first loop of `build_sel_list`: `broken` says on which descriptors a read of nothing fails.
unfoldable pub drop_broken : (ℕ → Bool) → List ℕ → IServ → List ℕ × IServ
drop_broken broken [] s = ([], s)
drop_broken broken (fd ∷ fds) s =
    let lost : Bool = not (fd == 0) && broken fd in
    let (rest, s') = drop_broken broken fds (if lost then close_fd fd s else s) in
    ((if lost then 0 else fd) ∷ rest, s')

-- Its second loop: `FD_SET`, and the highest descriptor.
unfoldable pub add_socks : List ℕ → IServ → IServ
add_socks [] s = s
add_socks (fd ∷ fds) s = add_socks fds (
    if fd == 0
    then s
    else record s { socks = fd ∷ s.socks; hisockfd = if ltb s.hisockfd fd then fd else s.hisockfd })

unfoldable pub build_sel_list : (ℕ → Bool) → IServ → IServ
build_sel_list broken s =
    let (slots, s') = drop_broken broken s.connectlist s in
    add_socks slots (record s' { connectlist = slots; socks = s.sockfd ∷ [] })

-- The loop of `new_connection`: whether a slot was free, and the table.
unfoldable pub take_slot : ℕ → List ℕ → Bool × List ℕ
take_slot confd [] = (false, [])
take_slot confd (c ∷ cs) =
    let (taken, rest) = take_slot confd cs in
    if c == 0 then (true, confd ∷ cs) else (taken, c ∷ rest)

-- `accepted` is what `accept` returns, and `peer` the other end.
unfoldable pub new_connection : ℤ → Peer → IServ → Result IServ
new_connection (negsuc n) peer s = fault (exits 1)
new_connection (pos confd) peer s =
    let (taken, slots) = take_slot confd s.connectlist in
    let s' : IServ = on_peer confd (λ _. peer) (record s { connectlist = slots }) in
    ok (if taken then s' else close_fd confd s')
