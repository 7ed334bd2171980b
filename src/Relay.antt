-- ===== src/Relay.antt =====
-- The two relays of the proxy chain: Integration/psb.cc passes the proxy's responses on through a
-- `RabinServer`, and Integration/hrd.cc hands the browser what its `RabinClient` receives. What the
-- system calls return is an argument.
pub mod Delays
pub mod Exhaustion
pub mod Forward
pub mod Chain
pub mod Leaks
pub mod Mains
pub mod Sessions
pub mod Turns
use Prim.Native.Char.{Char, code}
use Prim.Native.String.{String}
use rabin_fingerprinting.Base.{
  ℕ, zero, suc, ◌+◌, ◌-◌, Bool, true, false, Option, none, some, List, [], ◌∷◌, ◌++◌, flatten,
  length, not, take, replicate, ltb, leb, ◌==◌, if◌then◌else◌, Result, ok, fault, null_pointer,
  stack_overflow, out_of_bounds, out_of_fuel, exits, ◌>>=◌, ◌>>◌, ℤ, is_negative,
}
use rabin_fingerprinting.Socket.{InSocket, read}
use rabin_fingerprinting.Server.{Server, send_file}
use rabin_fingerprinting.Client.{Client, Reception, receive_file}

-- What the calls before the loop of `main` return: `socket`, `bind` and `gethostbyname(argv[2])`.
pub record Startup : Type 0 where
  pub argc : ℕ
  pub socket : ℤ
  pub bound : ℤ
  pub host_found : Bool

abbrev pub require : Bool → Result (Unit {0}) → Result (Unit {0})
require true next = next
require false next = fault (exits 0)

-- The part of `main` in hrd.cc before the connection to the Rabin server. `error` exits with 0, and
-- `argv[argc]` is a null pointer.
unfoldable pub hrd_startup : Startup → Result (Unit {0})
hrd_startup a = require (not (ltb a.argc 2)) (
    require (not (is_negative a.socket)) (
      require (not (is_negative a.bound)) (
        if a.argc == 2
        then fault null_pointer
        else require a.host_found (if ltb a.argc 5 then fault null_pointer else ok tt))))

-- The same part of psb.cc.
unfoldable pub psb_startup : Startup → Result (Unit {0})
psb_startup a = require (not (ltb a.argc 2)) (
    require (not (is_negative a.socket)) (
      require (not (is_negative a.bound)) (
        if a.argc == 2
        then fault null_pointer
        else require a.host_found (if ltb a.argc 5 then fault null_pointer else ok tt))))

abbrev pub codes : String → List ℕ
codes String.[] = []
codes (String.◌∷◌ c s) = code c ∷ codes s

abbrev pub connect_error : List ℕ
connect_error = codes "<html><h1> Could not connect to the proxy </h1></html>"

abbrev pub write_error : List ℕ
write_error = codes "<html><h1> Could not write to the proxy </h1></html>"

-- What one turn of the loop meets: the result of `accept`, the bytes that `read` puts into the buffer
-- (none if it fails), whether `connect` succeeds, and how many bytes `write` takes at most (none if it
-- fails); in hrd.cc, also how many times `fopen` works, and how many bytes the stack has room for.
pub record Visit : Type 0 where
  pub accepted : ℤ
  pub request : Option (List ℕ)
  pub connected : Bool
  pub taken : Option ℕ
  pub opens : ℕ
  pub stack : ℕ

-- What a turn does to the two connections, the bytes written to each and whether it is closed, and how
-- many files it has opened and not closed.
pub record Turn : Type 0 where
  pub to_proxy : List ℕ
  pub to_browser : List ℕ
  pub proxy_closed : Bool
  pub browser_closed : Bool
  pub files : ℕ

-- The size of `buffer`.
abbrev pub buffer_size : ℕ
buffer_size = 1000

-- The buffer after `bzero` and a read of `bytes` into it.
abbrev pub filled : List ℕ → List ℕ
filled bytes = bytes ++ replicate (buffer_size - length bytes) 0

-- The bytes before the first zero, as `strlen` counts them; without one it reads past the buffer.
unfoldable pub c_bytes : List ℕ → Result (List ℕ)
c_bytes [] = fault out_of_bounds
c_bytes (c ∷ cs) =
    let rest : Result (List ℕ) = c_bytes cs in
    if c == 0 then ok [] else (rest >>= λ bs. ok (c ∷ bs))

-- `write(proxy_sock_fd, buffer, strlen(buffer))`: the bytes taken, none of them if it returns 0 or -1.
unfoldable pub forwarded : Option ℕ → List ℕ → List ℕ
forwarded none bytes = []
forwarded (some k) bytes = take k bytes

-- How a turn goes on after the request: failed, with the turn's effects, or with the request
-- forwarded.
pub data Forwarding : Type 0 where
  refused : Turn → Forwarding
  passed : List ℕ → Forwarding

abbrev pub refusal : List ℕ → Bool → Forwarding
refusal message closed = refused (record {
  to_proxy = [];
  to_browser = message;
  proxy_closed = false;
  browser_closed = closed;
  files = 0;
})

-- The write of the request, once the proxy is connected.
unfoldable pub pass_on : Option ℕ → List ℕ → Result Forwarding
pass_on taken bytes = do
  header ← c_bytes (filled bytes)
  let sent = forwarded taken header
  ok (if length sent == 0 then refusal write_error false else passed sent)

-- The turn from `accept` to the write of the request; `continue` leaves it.
unfoldable pub forward : Visit → Result Forwarding
forward v = if is_negative v.accepted then fault (exits 0) else elim v.request [
  | none ↦ fault (exits 0)
  | some bytes ↦ if v.connected then pass_on v.taken bytes else ok (refusal connect_error true)
]

-- `do { bzero; n = recv(…); if(n > 0) send_file(buffer, n); } while(n > 0)` of psb.cc.
unfoldable pub recv_loop : ℕ → Server → InSocket → Result (Server × InSocket)
recv_loop zero r proxy = fault out_of_fuel
recv_loop (suc fuel) r proxy =
    let got : List ℕ × InSocket = read proxy buffer_size in
    let next : Server → Result (Server × InSocket) = λ r'. recv_loop fuel r' got.1 in
    if length got.0 == 0
    then ok (r, got.1)
    else (send_file r (filled got.0) (length got.0) >>= λ a. next a.1)

-- The end of psb.cc's turn: the responses of the proxy, and the empty file that denotes the end. Each
-- round of the loop takes a byte at least, so the fuel is enough.
unfoldable pub relay_responses : Server → InSocket → Result Server
relay_responses r proxy = do
  (r', _) ← recv_loop (suc (length (flatten proxy))) r proxy
  (_, r'') ← send_file r' (replicate buffer_size 0) 0
  ok r''

-- What the loop of hrd.cc has come to: what the browser has got, the client, and how many times
-- `temporary.file` was opened. None of these files is closed.
pub record Delivery : Type 0 where
  pub sent : List ℕ
  pub client : Client
  pub files : ℕ

-- `char c[n]` and `send(newsockfd, c, n, …)`, for a file of at least two blocks.
unfoldable pub hand_over : ℕ → Reception → Delivery → Result Delivery
hand_over stack q d =
    if ltb stack (length q.file)
    then fault stack_overflow
    else ok (record { sent = d.sent ++ q.file; client = q.client; files = d.files + 1 })

-- `do { tmp = fopen(…); blocks_recvd = receive_file(tmp); … } while (blocks_recvd > 1)` of hrd.cc.
-- `fopen` works `opens` times; what it returns is not looked at, and a null pointer ends the program at
-- the assertion in `receive_file`. The stack has room for an array of `stack` bytes.
unfoldable pub deliver_loop : ℕ → ℕ → ℕ → Delivery → Result Delivery
deliver_loop zero opens stack d = fault out_of_fuel
deliver_loop (suc fuel) opens stack d =
    let next : Delivery → Result Delivery = λ d'. deliver_loop fuel opens stack d' in
    if leb opens d.files
    then fault null_pointer
    else (receive_file d.client [] >>= λ q.
        if ltb 1 q.num_blocks
        then (hand_over stack q d >>= next)
        else ok (record d { client = q.client; files = d.files + 1 }))

unfoldable pub deliver_responses : ℕ → ℕ → Client → Result Delivery
deliver_responses opens stack c =
    deliver_loop (suc (length (flatten c.sockfd))) opens stack
      (record { sent = []; client = c; files = 0 })

-- What follows the write of the request in psb.cc.
psb_turn : Server → InSocket → Forwarding → Result (Turn × Server)
psb_turn r proxy (refused t) = ok (t, r)
psb_turn r proxy (passed header) = relay_responses r proxy >>= λ r'. ok (
  record {
    to_proxy = header;
    to_browser = [];
    proxy_closed = true;
    browser_closed = true;
    files = 0;
  },
  r',
)

-- One turn of the loop of psb.cc; `proxy` is what the proxy answers.
unfoldable pub psb_serve : Server → Visit → InSocket → Result (Turn × Server)
unfolding psb_turn
psb_serve r v proxy = forward v >>= psb_turn r proxy

-- What follows the write of the request in hrd.cc.
hrd_turn : Visit → Client → Forwarding → Result (Turn × Client)
hrd_turn v c (refused t) = ok (t, c)
hrd_turn v c (passed header) = deliver_responses v.opens v.stack c >>= λ d. ok (
  record {
    to_proxy = header;
    to_browser = d.sent;
    proxy_closed = true;
    browser_closed = true;
    files = d.files;
  },
  d.client,
)

-- One turn of the loop of hrd.cc.
unfoldable pub hrd_serve : Client → Visit → Result (Turn × Client)
unfolding hrd_turn
hrd_serve c v = forward v >>= hrd_turn v c
