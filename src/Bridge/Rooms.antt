-- ===== src/Bridge/Rooms.antt =====
-- The bridge of tcpproxy_server.cpp over any run: no two operations share a buffer, and every event
-- is handled.
use rabin_fingerprinting.Base.{
  ℕ, ◌+◌, ◌≤◌, ◌≡◌, ap, Bool, List, [], ◌∷◌, ◌++◌, All, subst, All-append, All-split, length, drop,
  arith, length-append, length-drop,
}
use rabin_fingerprinting.Bridge.{
  Operation, Event, Bridge, connect, upstream_read, downstream_read, upstream_write,
  downstream_write, upstream_connected, upstream_written, downstream_written, upstream_got,
  downstream_got, async, close, into,
}

-- Whether an operation uses the buffer from upstream, or is to be followed by one that does.
abbrev pub uses_upstream : Operation → ℕ
uses_upstream connect = 1
uses_upstream (upstream_read room) = 1
uses_upstream (downstream_read room) = 0
uses_upstream (upstream_write bytes) = 0
uses_upstream (downstream_write bytes) = 1

abbrev pub uses_downstream : Operation → ℕ
uses_downstream connect = 1
uses_downstream (upstream_read room) = 0
uses_downstream (downstream_read room) = 1
uses_downstream (upstream_write bytes) = 1
uses_downstream (downstream_write bytes) = 0

abbrev pub total : (Operation → ℕ) → List Operation → ℕ
total weight [] = 0
total weight (op ∷ ops) = weight op + total weight ops

-- A read stays in its buffer.
abbrev pub InRoom : Operation → Type 0
InRoom (upstream_read room) = room ≤ 8192
InRoom (downstream_read room) = room ≤ 8192
InRoom connect = Unit {0}
InRoom (upstream_write bytes) = Unit {0}
InRoom (downstream_write bytes) = Unit {0}

-- A bridge whose buffers have their size, whose reads stay in them, and that can start operations
-- which use the buffers `u` and `d` times, so that each buffer is in use once at most.
pub record Spare (u d : ℕ) (b : Bridge) : Type 0 where
  pub upstream : total uses_upstream b.started + u ≤ 1
  pub downstream : total uses_downstream b.started + d ≤ 1
  pub rooms : All InRoom b.started
  pub upstream_size : length b.upstream_data ≡ 8192
  pub downstream_size : length b.downstream_data ≡ 8192

abbrev pub IsTidy : Bridge → Type 0
IsTidy b = Spare 0 0 b

-- The events that can end an operation: a read gives at most what there is room for.
pub data Ends : Operation → Event → Type 0 where
  connect_ends : (error : Bool) → Ends connect (upstream_connected error)
  upstream_read_ends :
      (room : ℕ) (error : Bool) (bytes : List ℕ)
      → length bytes ≤ room
      → Ends (upstream_read room) (upstream_got error bytes)
  downstream_read_ends :
      (room : ℕ) (error : Bool) (bytes : List ℕ)
      → length bytes ≤ room
      → Ends (downstream_read room) (downstream_got error bytes)
  upstream_write_ends :
      (out : List ℕ) (error : Bool) → Ends (upstream_write out) (upstream_written error)
  downstream_write_ends :
      (out : List ℕ) (error : Bool) → Ends (downstream_write out) (downstream_written error)

pub total-append :
    (weight : Operation → ℕ) (xs ys : List Operation)
    → total weight (xs ++ ys) ≡ total weight xs + total weight ys
total-append weight [] ys = omega arith
total-append weight (x ∷ xs) ys = omega (arith, total-append weight xs ys)

pub async-Spare :
    (op : Operation) (u d : ℕ) (b : Bridge)
    → InRoom op
    → Spare (uses_upstream op + u) (uses_downstream op + d) b
    → Spare u d (async op b)
async-Spare op u d b room s = record {
  upstream = omega (arith, s.upstream, total-append uses_upstream b.started (op ∷ []));
  downstream = omega (arith, s.downstream, total-append uses_downstream b.started (op ∷ []));
  rooms = All-append InRoom b.started (op ∷ []) s.rooms (room, tt);
  upstream_size = s.upstream_size;
  downstream_size = s.downstream_size;
}

pub close-IsTidy : (u d : ℕ) (b : Bridge) → Spare u d b → IsTidy (close b)
unfolding close
close-IsTidy u d b s = record {
  upstream = omega (arith, s.upstream);
  downstream = omega (arith, s.downstream);
  rooms = s.rooms;
  upstream_size = s.upstream_size;
  downstream_size = s.downstream_size;
}

-- The bridge once an operation has ended.
pub freed :
    (b : Bridge) (before after : List Operation) (op : Operation)
    → IsTidy b
    → b.started ≡ before ++ op ∷ after
    → InRoom op
      × Spare (uses_upstream op) (uses_downstream op) (record b { started = before ++ after })
freed b before after op s e =
    let parts = All-split InRoom before (op ∷ after) (subst (All InRoom) e s.rooms) in
    let up = ap (total uses_upstream) e in
    let down = ap (total uses_downstream) e in
    (
      parts.1.0,
      record {
        upstream = omega (
          arith,
          s.upstream,
          up,
          total-append uses_upstream before (op ∷ after),
          total-append uses_upstream before after,
        );
        downstream = omega (
          arith,
          s.downstream,
          down,
          total-append uses_downstream before (op ∷ after),
          total-append uses_downstream before after,
        );
        rooms = All-append InRoom before after parts.0 parts.1.1;
        upstream_size = s.upstream_size;
        downstream_size = s.downstream_size;
      },
    )

pub length-into :
    (bytes buffer : List ℕ)
    → length bytes ≤ 8192
    → length buffer ≡ 8192
    → length (into bytes buffer) ≡ 8192
length-into bytes buffer le size =
    omega
      (arith, length-append bytes (drop (length bytes) buffer), length-drop (length bytes) buffer)
