-- ===== src/Bridge/Runs.antt =====
-- Runs of the bridge of tcpproxy_server.cpp: the events that end its operations, in any order.
use rabin_fingerprinting.Base.{
  ℕ, ◌≤◌, ◌≡◌, refl, subst, true, false, List, [], ◌∷◌, ◌++◌, length, arith, ok,
}
use rabin_fingerprinting.Server.{Server}
use rabin_fingerprinting.Server.Cache.{IsValid}
use rabin_fingerprinting.Server.Totality.{send_file-IsValid}
use rabin_fingerprinting.Bridge.{
  Operation, Event, Bridge, upstream_read, downstream_read, upstream_write, downstream_write, async,
  close, into, start, handle_downstream_read, handle_upstream_write,
}
use rabin_fingerprinting.Bridge.ProxyServer.{
  handle_upstream_connect, handle_downstream_write, handle_upstream_read, handle,
}
use rabin_fingerprinting.Bridge.Rooms.{
  uses_upstream, uses_downstream, InRoom, Spare, IsTidy, Ends, connect_ends, upstream_read_ends,
  downstream_read_ends, upstream_write_ends, downstream_write_ends, async-Spare, close-IsTidy,
  freed, length-into,
}

-- An event is handled, to a valid server and a tidy bridge.
abbrev Handles : Event → Server → Bridge → Type 0
Handles ev r b =
    (r' : Server) × (b' : Bridge) × (handle ev r b ≡ ok (r', b')) × IsValid r' × IsTidy b'

pub upstream_filled :
    (u d : ℕ) (b : Bridge) (bytes : List ℕ)
    → length bytes ≤ 8192
    → Spare u d b
    → Spare u d (record b { upstream_data = into bytes b.upstream_data })
upstream_filled u d b bytes le s = record {
  upstream = s.upstream;
  downstream = s.downstream;
  rooms = s.rooms;
  upstream_size = length-into bytes b.upstream_data le s.upstream_size;
  downstream_size = s.downstream_size;
}

pub downstream_filled :
    (u d : ℕ) (b : Bridge) (bytes : List ℕ)
    → length bytes ≤ 8192
    → Spare u d b
    → Spare u d (record b { downstream_data = into bytes b.downstream_data })
downstream_filled u d b bytes le s = record {
  upstream = s.upstream;
  downstream = s.downstream;
  rooms = s.rooms;
  upstream_size = s.upstream_size;
  downstream_size = length-into bytes b.downstream_data le s.downstream_size;
}

read_handled :
    (r : Server) (b : Bridge) (n : ℕ)
    → IsValid r
    → n ≤ 8192
    → Spare 1 0 b
    → (r' : Server) × (b' : Bridge) × (handle_upstream_read false n r b ≡ ok (r', b'))
      × IsValid r'
      × IsTidy b'
unfolding handle_upstream_read
read_handled r b n v le s =
    let (k, r', run, v', _, _) =
      send_file-IsValid r b.upstream_data n v (omega (arith, s.upstream_size)) (omega arith) in
    (r', async (downstream_write []) b, rw run, v', async-Spare (downstream_write []) 0 0 b tt s)

handled :
    (r : Server) (b : Bridge) (op : Operation) (ev : Event)
    → IsValid r
    → InRoom op
    → Spare (uses_upstream op) (uses_downstream op) b
    → Ends op ev
    → Handles ev r b
unfolding handle handle_upstream_connect handle_downstream_write handle_upstream_read
    handle_downstream_read handle_upstream_write
handled r b op ev v room s (connect_ends true) = (r, close b, refl, v, close-IsTidy 1 1 b s)
handled r b op ev v room s (connect_ends false) =
    let reading : Bridge = async (upstream_read 8192) b in
    (
      r,
      async (downstream_read 8192) reading,
      refl,
      v,
      async-Spare (downstream_read 8192) 0 0 reading (omega arith)
          (async-Spare (upstream_read 8192) 0 1 b (omega arith) s),
    )
handled r b op ev v room s (upstream_read_ends size true bytes le) =
    (r, _, refl, v, close-IsTidy 1 0 _ (upstream_filled 1 0 b bytes (omega (arith, room)) s))
handled r b op ev v room s (upstream_read_ends size false bytes le) =
    read_handled r _ (length bytes) v (omega (arith, room))
      (upstream_filled 1 0 b bytes (omega (arith, room)) s)
handled r b op ev v room s (downstream_read_ends size true bytes le) =
    (r, _, refl, v, close-IsTidy 0 1 _ (downstream_filled 0 1 b bytes (omega (arith, room)) s))
handled r b op ev v room s (downstream_read_ends size false bytes le) = (
  r,
  _,
  refl,
  v,
  async-Spare (upstream_write _) 0 0 _ tt (downstream_filled 0 1 b bytes (omega (arith, room)) s),
)
handled r b op ev v room s (upstream_write_ends out true) =
    (r, close b, refl, v, close-IsTidy 0 1 b s)
handled r b op ev v room s (upstream_write_ends out false) =
    (r, _, refl, v, async-Spare (downstream_read 8192) 0 0 b (omega arith) s)
handled r b op ev v room s (downstream_write_ends out true) =
    (r, close b, refl, v, close-IsTidy 1 0 b s)
handled r b op ev v room s (downstream_write_ends out false) =
    (r, _, refl, v, async-Spare (upstream_read 8192) 0 0 b (omega arith) s)

-- Whichever of the operations that a tidy bridge has started ends, and however it ends, the bridge
-- at a server with a valid cache handles it without a fault, as long as every `write` to the Rabin
-- client returns, with -1 or having taken any number of bytes, and neither blocks for ever nor ends the
-- process by SIGPIPE. The cache stays valid and the bridge tidy: each buffer is in use by one operation
-- at most, and no read goes past its buffer.
pub handle-IsTidy :
    (r : Server) (b : Bridge) (before after : List Operation) (op : Operation) (ev : Event)
    → IsValid r
    → IsTidy b
    → b.started ≡ before ++ op ∷ after
    → Ends op ev
    → (r' : Server) × (b' : Bridge) × (handle ev r (record b { started = before ++ after })
        ≡ ok (r', b'))
      × IsValid r'
      × IsTidy b'
handle-IsTidy r b before after op ev v s e ends =
    let (room, spare) = freed b before after op s e in handled r _ op ev v room spare ends

-- One operation of a bridge ends.
pub data Step (r : Server) (b : Bridge) : Server → Bridge → Type 0 where
  ended :
      (before after : List Operation) (op : Operation) (ev : Event) {r' : Server} {b' : Bridge}
      → b.started ≡ before ++ op ∷ after
      → Ends op ev
      → handle ev r (record b { started = before ++ after }) ≡ ok (r', b')
      → Step r b r' b'

-- What a bridge gets to from its start.
pub data Reaches (r : Server) (b : Bridge) : Server → Bridge → Type 0 where
  begin : Reaches r b r (start b)
  later :
      {r₁ r₂ : Server} {b₁ b₂ : Bridge} → Reaches r b r₁ b₁ → Step r₁ b₁ r₂ b₂ → Reaches r b r₂ b₂

pub start-IsTidy :
    (b : Bridge)
    → b.started ≡ []
    → length b.upstream_data ≡ 8192
    → length b.downstream_data ≡ 8192
    → IsTidy (start b)
unfolding start
start-IsTidy b none_started up down = record {
  upstream = rw none_started (omega arith);
  downstream = rw none_started (omega arith);
  rooms = rw none_started (tt, tt);
  upstream_size = up;
  downstream_size = down;
}

-- From the start of a bridge with buffers of their size and no operation, with a valid server, every
-- state that is reached, in whatever order the operations end, has a valid cache and a tidy bridge.
pub Reaches-IsTidy :
    (r : Server) (b : Bridge)
    → IsValid r
    → b.started ≡ []
    → length b.upstream_data ≡ 8192
    → length b.downstream_data ≡ 8192
    → (r' : Server) (b' : Bridge) → Reaches r b r' b'
    → IsValid r' × IsTidy b'
Reaches-IsTidy r b v none_started up down r' b' begin = (v, start-IsTidy b none_started up down)
Reaches-IsTidy r b v none_started up down r' b' (later run (ended before after op ev e ends h)) =
    let (v₁, s₁) = Reaches-IsTidy r b v none_started up down _ _ run in
    let (r₂, b₂, h₂, v₂, s₂) = handle-IsTidy _ _ before after op ev v₁ s₁ e ends in
    let server : r₂ ≡ r' = cc (h, h₂) in
    let bridge : b₂ ≡ b' = cc (h, h₂) in (subst IsValid server v₂, subst IsTidy bridge s₂)
