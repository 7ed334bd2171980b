-- ===== src/Relay/Mains.antt =====
-- main of Integration/psb.cc and of Integration/hrd.cc, over the turns that their loops meet: the
-- sources go on for ever.
use rabin_fingerprinting.Base.{Bool, List, [], ◌∷◌, Result, ok, ◌>>=◌, ◌>>◌, ℤ}
use rabin_fingerprinting.Socket.{InSocket}
use rabin_fingerprinting.Server.{Server, new_server, connect_to_client}
use rabin_fingerprinting.Client.{Client, new_client, connect_to_server}
use rabin_fingerprinting.Programs.{ServerCalls}
use rabin_fingerprinting.Relay.{
  Startup, hrd_startup, psb_startup, Visit, Turn, psb_serve, hrd_serve,
}

-- `while(1)` of psb.cc: every turn with what the proxy answers in it.
unfoldable pub psb_loop : Server → List (Visit × InSocket) → Result (List Turn × Server)
psb_loop r [] = ok ([], r)
psb_loop r ((v, proxy) ∷ visits) = do
  (turn, r') ← psb_serve r v proxy
  (turns, r'') ← psb_loop r' visits
  ok (turn ∷ turns, r'')

-- `while(1)` of hrd.cc.
unfoldable pub hrd_loop : Client → List Visit → Result (List Turn × Client)
hrd_loop c [] = ok ([], c)
hrd_loop c (v ∷ visits) = do
  (turn, c') ← hrd_serve c v
  (turns, c'') ← hrd_loop c' visits
  ok (turn ∷ turns, c'')

-- main of psb.cc: the Rabin server is constructed and connected before the loop.
unfoldable pub psb_main :
    Startup → ServerCalls → List (Visit × InSocket) → Result (List Turn × Server)
psb_main a calls visits = psb_startup a >> (do
  r ← new_server calls.bound calls.map_max_size calls.client
  (_, r') ← connect_to_client r calls.accepted calls.client
  psb_loop r' visits)

-- main of hrd.cc: what `connect_to_server` returns is not looked at.
unfoldable pub hrd_main :
    Startup → ℤ → Bool → ℤ → InSocket → List Visit → Result (List Turn × Client)
hrd_main a timeout_set host_found connected server visits = hrd_startup a >> (do
  c ← new_client timeout_set host_found
  hrd_loop (connect_to_server c connected server).1 visits)
