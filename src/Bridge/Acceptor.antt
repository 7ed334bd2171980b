-- ===== src/Bridge/Acceptor.antt =====
-- The class `acceptor` of Integration/tcpproxy/tcpproxy_server.cpp and
-- Integration/tcpclient/tcpproxy_client.cpp, and the two `main` functions up to the run of the events.
use rabin_fingerprinting.Base.{
  ℕ, ◌≡◌, Bool, true, false, not, Option, none, some, List, [], ◌∷◌, ◌++◌, append_assoc, append-nil,
  ◌==◌, if◌then◌else◌, Result, ok, fault, null_pointer, exits, ◌>>=◌, ℤ, is_negative,
}
use mathlib.Core.List.{map}
use rabin_fingerprinting.Socket.{InSocket}
use rabin_fingerprinting.Server.{Server, connect_to_client}
use rabin_fingerprinting.Socket.{OutSocket}
use rabin_fingerprinting.Client.{Client, connect_to_server}
use rabin_fingerprinting.Bridge.{Bridge, start}

-- What `accept_connections` meets: an exception on the new bridge or on the start of the accept, or
-- none.
pub data Attempt : Type 0 where
  accepts no_session no_accept : Attempt

-- `session_`, whether an accept has been started for it, and the bridges that have been started.
pub record Acceptor : Type 0 where
  pub session : Option Bridge
  pub accepting : Bool
  pub sessions : List Bridge

unfoldable pub accept_connections : Attempt → Bridge → Acceptor → Bool × Acceptor
accept_connections accepts fresh a = (true, record a { session = some fresh; accepting = true })
accept_connections no_session fresh a = (false, a)
accept_connections no_accept fresh a = (false, record a { session = some fresh })

-- `host_valid` says whether `start` can read the upstream address; if not, its exception leaves
-- `ios.run()`, and `main` returns 1.
unfoldable pub handle_accept : Bool → Bool → Attempt → Bridge → Acceptor → Result Acceptor
handle_accept error host_valid attempt fresh a = if error then ok a else elim a.session [
  | none ↦ fault null_pointer
  | some s ↦
      if host_valid
      then ok
          (accept_connections attempt fresh (record a { sessions = a.sessions ++ start s ∷ [] })).1
      else fault (exits 1)
]

abbrev pub idle : Acceptor
idle = record { session = none; accepting = false; sessions = [] }

-- main of tcpproxy_server.cpp: `local_valid` says whether the acceptor can be constructed.
unfoldable pub proxy_server_main :
    ℕ → Bool → Server → ℤ → OutSocket → Attempt → Bridge → Result (Server × Acceptor)
proxy_server_main argc local_valid r accepted client attempt fresh =
    if not (argc == 5)
    then fault (exits 1)
    else if local_valid
    then (connect_to_client r accepted client >>= λ a.
        ok (a.1, (accept_connections attempt fresh idle).1))
    else fault (exits 1)

-- main of tcpproxy_client.cpp.
unfoldable pub proxy_client_main :
    ℕ → Bool → Client → ℤ → InSocket → Attempt → Bridge → Result (Client × Acceptor)
proxy_client_main argc local_valid r connected server attempt fresh =
    let a : ℤ × Client = connect_to_server r connected server in
    if not (argc == 5)
    then fault (exits 1)
    else if local_valid
    then (if is_negative a.0
        then fault (exits 1)
        else ok (a.1, (accept_connections attempt fresh idle).1))
    else fault (exits 1)

-- Connections that come in one after the other, each with the bridge made for the next one. The
-- accept that has ended is no longer under way when its handler runs.
unfoldable pub serve_all : List Bridge → Acceptor → Result Acceptor
serve_all [] a = ok a
serve_all (fresh ∷ more) a =
    handle_accept false true accepts fresh (record a { accepting = false }) >>= serve_all more

-- The last of a first bridge and more.
abbrev pub last_of : Bridge → List Bridge → Bridge
last_of b [] = b
last_of b (c ∷ bs) = last_of c bs

abbrev pub all_but_last : Bridge → List Bridge → List Bridge
all_but_last b [] = []
all_but_last b (c ∷ bs) = b ∷ all_but_last c bs

serve_all_from :
    (more : List Bridge) (b : Bridge) (done : List Bridge)
    → serve_all more (record { session = some b; accepting = true; sessions = done })
      ≡ ok (record {
        session = some (last_of b more);
        accepting = true;
        sessions = done ++ map start (all_but_last b more);
      })
unfolding serve_all handle_accept accept_connections
serve_all_from [] b done = rw (append-nil done)
serve_all_from (c ∷ more) b done = rw (
  serve_all_from more c (done ++ start b ∷ []),
  append_assoc done (start b ∷ []) (map start (all_but_last c more)),
)

-- From the first `accept_connections`, connections that come in without an error and without an
-- exception each get a bridge of their own: each bridge but the last is started, once and in order,
-- and the last one waits, with an accept under way for it.
pub serve_all-accept_connections :
    (first : Bridge) (more : List Bridge)
    → serve_all more (accept_connections accepts first idle).1
      ≡ ok (record {
        session = some (last_of first more);
        accepting = true;
        sessions = map start (all_but_last first more);
      })
unfolding accept_connections
serve_all-accept_connections first more = serve_all_from more first []
