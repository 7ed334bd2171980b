-- ===== src/Bridge/Reception.antt =====
-- Runs of the bridge of tcpproxy_client.cpp, the events that end its operations coming in any order.
use rabin_fingerprinting.Base.{
  ℕ, ◌≤◌, ◌≡◌, subst, Bool, true, false, some, List, [], ◌∷◌, ◌++◌, length, take, arith, Result, ok,
  fault, ◌>>=◌, if◌then◌else◌, ltb, Bool-cases, Option-cases, inl, inr, length-take,
}
use rabin_fingerprinting.Client.{Client, Reception, receive_file}
use rabin_fingerprinting.Bridge.{
  Operation, Event, Bridge, upstream_read, downstream_read, upstream_write, downstream_write, async,
  close, start, handle_downstream_read, handle_upstream_write,
}
use rabin_fingerprinting.Bridge.ProxyClient.{
  ClientBridge, handle_upstream_connect, is_end, handle_downstream_write, copy_file, fetch,
  handle_upstream_read, handle,
}
use rabin_fingerprinting.Bridge.Rooms.{
  uses_upstream, uses_downstream, InRoom, Spare, IsTidy, Ends, connect_ends, upstream_read_ends,
  downstream_read_ends, upstream_write_ends, downstream_write_ends, async-Spare, close-IsTidy,
  freed,
}
use rabin_fingerprinting.Bridge.Runs.{start-IsTidy, upstream_filled, downstream_filled}
use rabin_fingerprinting.Bridge.Rounds.{resume}

-- `close` before the next operation, or not.
ends-Spare : (end : Bool) (b : Bridge) → Spare 1 0 b → Spare 1 0 (if end then close b else b)
unfolding close
ends-Spare true b s = record {
  upstream = s.upstream;
  downstream = s.downstream;
  rooms = s.rooms;
  upstream_size = s.upstream_size;
  downstream_size = s.downstream_size;
}
ends-Spare false b s = s

-- What is said of the bridge, if the code returns one.
abbrev Kept : (Bridge → Type 0) → Result ClientBridge → Type 0
Kept P (ok s) = P s.bridge
Kept P (fault e) = Unit {0}

abbrev KeptWith : Result (Client × ClientBridge) → Type 0
KeptWith (ok (k, s)) = IsTidy s.bridge
KeptWith (fault e) = Unit {0}

-- The rest of `handle_downstream_write` after the reception, whatever that gave.
after_reception :
    (x : Result Reception) (s : ClientBridge)
    → Spare 1 0 s.bridge
    → KeptWith (
        x >>= λ q. ok (
          q.client,
          record {
            bridge =
                async (upstream_read 0) (if is_end q.num_blocks then close s.bridge else s.bridge);
            c = some q.file;
            n = length q.file;
          },
        ))
after_reception (fault e) s spare = tt
after_reception (ok q) s spare =
    async-Spare (upstream_read 0) 0 0 (if is_end q.num_blocks then close s.bridge else s.bridge)
      (omega arith) (ends-Spare (is_end q.num_blocks) s.bridge spare)

copied : (s : ClientBridge) (c : List ℕ) → Spare 1 0 s.bridge → Kept (Spare 1 0) (copy_file s c)
unfolding copy_file
copied s c spare = elim (Bool-cases (ltb 8192 s.n)) [
  | inl long ↦ rw long tt
  | inr short ↦
      let size : length (take s.n c) ≤ 8192 = ground (arith, short, length-take s.n c) in
      rw short (upstream_filled 1 0 s.bridge (take s.n c) size spare)
]

fetched : (n : ℕ) (s : ClientBridge) → Spare 1 0 s.bridge → Kept (Spare 1 0) (fetch n s)
unfolding fetch copy_file
fetched n s spare = elim (Option-cases s.c) [
  | inl e ↦ rw e spare
  | inr (c, e) ↦ rw e (copied s c spare)
]

after_fetch :
    (x : Result ClientBridge) (k : Client)
    → Kept (Spare 1 0) x
    → KeptWith (
        x
        >>= (λ t. ok (record t {
          bridge = async (downstream_write (take t.n t.bridge.upstream_data)) t.bridge;
        }))
        >>= λ t. ok (k, t))
after_fetch (fault e) k spare = tt
after_fetch (ok t) k spare = async-Spare (downstream_write _) 0 0 t.bridge tt spare

handled :
    (opened : Bool) (k : Client) (s : ClientBridge) (op : Operation) (ev : Event)
    → InRoom op
    → Spare (uses_upstream op) (uses_downstream op) s.bridge
    → Ends op ev
    → KeptWith (handle opened ev k s)
unfolding handle handle_upstream_connect handle_downstream_write handle_upstream_read
    handle_downstream_read handle_upstream_write
handled opened k s op ev room spare (connect_ends true) = close-IsTidy 1 1 s.bridge spare
handled opened k s op ev room spare (connect_ends false) =
    async-Spare (downstream_read 8192) 0 0 (async (upstream_read 0) s.bridge) (omega arith)
      (async-Spare (upstream_read 0) 0 1 s.bridge (omega arith) spare)
handled opened k s op ev room spare (upstream_read_ends size true bytes le) =
    close-IsTidy 1 0 _ (upstream_filled 1 0 s.bridge bytes (omega (arith, room)) spare)
handled opened k s op ev room spare (upstream_read_ends size false bytes le) =
    after_fetch _ k
      (fetched (length bytes) _ (upstream_filled 1 0 s.bridge bytes (omega (arith, room)) spare))
handled opened k s op ev room spare (downstream_read_ends size true bytes le) =
    close-IsTidy 0 1 _ (downstream_filled 0 1 s.bridge bytes (omega (arith, room)) spare)
handled opened k s op ev room spare (downstream_read_ends size false bytes le) =
    async-Spare (upstream_write _) 0 0 _ tt
      (downstream_filled 0 1 s.bridge bytes (omega (arith, room)) spare)
handled opened k s op ev room spare (upstream_write_ends out true) = close-IsTidy 0 1 s.bridge spare
handled opened k s op ev room spare (upstream_write_ends out false) =
    async-Spare (downstream_read 8192) 0 0 s.bridge (omega arith) spare
handled opened k s op ev room spare (downstream_write_ends out true) =
    close-IsTidy 1 0 s.bridge spare
handled true k s op ev room spare (downstream_write_ends out false) =
    after_reception (receive_file k []) s spare
handled false k s op ev room spare (downstream_write_ends out false) = tt

-- One operation of the client's bridge ends, and the program goes on.
pub data Step (k : Client) (s : ClientBridge) : Client → ClientBridge → Type 0 where
  ended :
      (opened : Bool) (before after : List Operation) (op : Operation) (ev : Event) {k' : Client}
      {s' : ClientBridge}
      → s.bridge.started ≡ before ++ op ∷ after
      → Ends op ev
      → handle opened ev k (resume (before ++ after) s) ≡ ok (k', s')
      → Step k s k' s'

-- What the client's bridge gets to from its start.
pub data Reaches (k : Client) (s : ClientBridge) : Client → ClientBridge → Type 0 where
  begin : Reaches k s k (record s { bridge = start s.bridge })
  later :
      {k₁ k₂ : Client} {s₁ s₂ : ClientBridge}
      → Reaches k s k₁ s₁
      → Step k₁ s₁ k₂ s₂
      → Reaches k s k₂ s₂

-- From the start of a bridge at the client, with buffers of their size and no operation, every state
-- that is reached, in whatever order the operations end and whatever is received, is tidy: each buffer
-- is in use by one operation at most, and no read goes past its buffer.
pub client_Reaches-IsTidy :
    (k : Client) (s : ClientBridge)
    → s.bridge.started ≡ []
    → length s.bridge.upstream_data ≡ 8192
    → length s.bridge.downstream_data ≡ 8192
    → (k' : Client) (s' : ClientBridge) → Reaches k s k' s'
    → IsTidy s'.bridge
client_Reaches-IsTidy k s none_started up down k' s' begin =
    start-IsTidy s.bridge none_started up down
client_Reaches-IsTidy k s none_started up down k' s'
      (later {s₁ = s₁} run (ended opened before after op ev e ends h)) =
    let tidy : IsTidy s₁.bridge = client_Reaches-IsTidy k s none_started up down _ _ run in
    let (room, spare) = freed s₁.bridge before after op tidy e in
    subst KeptWith h (handled opened _ (resume (before ++ after) s₁) op ev room spare ends)
