-- ===== src/Proxy/Mains.antt =====
-- main of Integration/normalproxy.c: a child process for every connection, over the connections that
-- come in; the source goes on for ever.
use rabin_fingerprinting.Base.{
  ℕ, zero, suc, ◌-◌, ◌≤◌, ◌<◌, ◌≡◌, refl, Bool, true, false, Option, none, some, List, [], ◌∷◌,
  ◌++◌, All, flatten, length, take, replicate, ltb, ltb-false, if◌then◌else◌, Result, ok, fault,
  exits, ℤ, pos, is_negative, arith,
}
use mathlib.Core.List.{map}
use rabin_fingerprinting.Socket.{InSocket}
use rabin_fingerprinting.Socket.Segments.{IsFlowing}
use rabin_fingerprinting.Relay.Forward.{IsText}
use rabin_fingerprinting.Proxy.{Words, serve}
use rabin_fingerprinting.Proxy.Urls.{IsHost, IsPath, url_of, request_text}
use rabin_fingerprinting.Proxy.Requests.{serve-url}

-- What a connection meets: the result of `accept`, and for its child the old contents of the arrays,
-- what `recv` gives, whether the remote server can be reached and written to, and what it answers.
pub record Connection : Type 0 where
  pub accepted : ℤ
  pub old : Words
  pub received : List ℕ
  pub connects : Bool
  pub writes : Bool
  pub remote : InSocket

abbrev pub child : (List ℕ → Bool) → Connection → Result (List ℕ)
child resolves c = serve resolves c.connects c.writes c.old c.received c.remote

-- `fork` with so many processes left. If it fails, its -1 is not 0, and the connection is closed.
abbrev pub forked : (List ℕ → Bool) → ℕ → Connection → Option (Result (List ℕ))
forked resolves zero c = none
forked resolves (suc processes) c = some (child resolves c)

-- The loop of `accept` and `fork`: what becomes of the connections, and how the program ends, if it
-- does. Nothing waits for a child, so that one that has ended still counts as a process.
unfoldable pub accepting :
    (List ℕ → Bool) → ℕ → List Connection → List (Option (Result (List ℕ))) × Result (Unit {0})
accepting resolves processes [] = ([], ok tt)
accepting resolves processes (c ∷ cs) =
    let (rest, end) = accepting resolves (processes - 1) cs in
    if is_negative c.accepted
    then ([], fault (exits 0))
    else (forked resolves processes c ∷ rest, end)

unfoldable pub lproxy_main :
    ℕ
    → ℤ
    → ℤ
    → (List ℕ → Bool)
    → ℕ
    → List Connection
    → List (Option (Result (List ℕ))) × Result (Unit {0})
lproxy_main argc socket bound resolves processes cs =
    if ltb argc 2
    then ([], fault (exits 0))
    else if is_negative socket
    then ([], fault (exits 0))
    else if is_negative bound
    then ([], fault (exits 0))
    else accepting resolves processes cs

-- A connection with a request for a path on a known host, as `serve-url` wants it.
pub record IsPlain (resolves : List ℕ → Bool) (c : Connection) : Type 0 where
  pub host : List ℕ
  pub path : List ℕ
  pub more : List ℕ
  pub one_one : Bool
  pub accepts : is_negative c.accepted ≡ false
  pub is_host : IsHost host
  pub is_path : IsPath path
  pub room : length (url_of host path) < 298
  pub text : IsText (request_text (url_of host path) one_one more)
  pub fits_in : length (request_text (url_of host path) one_one more) < 500
  pub found : resolves host ≡ true
  pub request : c.received ≡ request_text (url_of host path) one_one more
  pub reached : c.connects ≡ true
  pub written : c.writes ≡ true
  pub flowing : IsFlowing c.remote

child-IsPlain :
    (resolves : List ℕ → Bool) (c : Connection)
    → IsPlain resolves c
    → child resolves c ≡ ok (flatten c.remote)
child-IsPlain resolves c p =
    rw (p.reached, p.written, p.request)
      (serve-url resolves c.old p.host p.path p.more p.one_one c.remote p.is_host p.is_path p.room
        p.text p.fits_in p.found p.flowing).1

-- Browsers that get the whole answer, and browsers whose connection is closed at once.
abbrev pub answers : List Connection → List (Option (Result (List ℕ)))
answers cs = map (λ c. some (ok (flatten c.remote))) cs

accepting-IsPlain :
    (resolves : List ℕ → Bool) (processes : ℕ) (cs : List Connection)
    → All (IsPlain resolves) cs
    → accepting resolves processes cs
      ≡ (answers (take processes cs) ++ replicate (length cs - processes) none, ok tt)
unfolding accepting
accepting-IsPlain resolves zero [] p = refl
accepting-IsPlain resolves (suc processes) [] p =
    let none_left : 0 - suc processes ≡ 0 = omega arith in rw none_left refl
accepting-IsPlain resolves zero (c ∷ cs) p =
    let one_more : suc (length cs) - 0 ≡ suc (length cs - 0) = omega arith in
    rw (p.0.accepts, accepting-IsPlain resolves zero cs p.1, one_more) refl
accepting-IsPlain resolves (suc processes) (c ∷ cs) p =
    let one_less : suc processes - 1 ≡ processes = omega arith in
    let others : suc (length cs) - suc processes ≡ length cs - processes = omega arith in
    rw
      (
        p.0.accepts,
        one_less,
        accepting-IsPlain resolves processes cs p.1,
        child-IsPlain resolves c p.0,
        others,
      )
      refl

-- The forward proxy, started with a port, whose calls of the start succeed, over connections that are
-- accepted and have each a request for `http://HOST/PATH` from a host that the resolver finds: the host
-- and the path are not empty and have no white space, colon, `^` or `]`, the host no slash, and the URL
-- has less than 298 bytes, the request less than 500, none of them zero. The remote server is reached
-- and written to, and answers in segments none of which is empty. As many connections as the system
-- lets the program have processes get all the bytes of the answer, and every later one is closed
-- without an answer, since nothing waits for the children that have ended; the program goes on.
pub lproxy_main-IsPlain :
    (argc socket bound : ℕ) (resolves : List ℕ → Bool) (processes : ℕ) (cs : List Connection)
    → 2 ≤ argc
    → All (IsPlain resolves) cs
    → lproxy_main argc (pos socket) (pos bound) resolves processes cs
      ≡ (answers (take processes cs) ++ replicate (length cs - processes) none, ok tt)
unfolding lproxy_main
lproxy_main-IsPlain argc socket bound resolves processes cs enough plain =
    rw (ltb-false argc 2 enough) (accepting-IsPlain resolves processes cs plain)
