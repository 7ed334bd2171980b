-- ===== src/Bridge/Leaks.antt =====
-- How a bridge of tcpproxy_client.cpp ends, and the array `c` that it leaves behind.
use rabin_fingerprinting.Base.{
  ℕ, ◌≤◌, ◌≡◌, refl, sym, ap, subst, ◌∙◌, true, false, Bool, some, List, [], ◌∷◌, ◌++◌, length,
  take, arith, ok, ◌>>=◌, >>=-eq-ok, ◌⊎◌, inl, inr, append_assoc, if◌then◌else◌, Bool-cases, ltb,
  Option-cases,
}
use rabin_fingerprinting.Client.{Client, Reception, receive_file}
use rabin_fingerprinting.Bridge.{
  Operation, Event, Bridge, connect, upstream_read, downstream_read, upstream_write,
  downstream_write, async, close, handle_downstream_read, handle_upstream_write,
}
use rabin_fingerprinting.Bridge.ProxyClient.{
  ClientBridge, handle_upstream_connect, is_end, handle_downstream_write, copy_file, fetch,
  handle_upstream_read, handle,
}
use rabin_fingerprinting.Bridge.Rooms.{
  total, total-append, uses_upstream, Spare, Ends, connect_ends, upstream_read_ends,
  downstream_read_ends, upstream_write_ends, downstream_write_ends,
}
use rabin_fingerprinting.Bridge.Rounds.{resume}
use rabin_fingerprinting.Bridge.Endings.{
  Fails, failed, Spawns, Draining, Drains, begin, later, early, late, Drains-ends, Drains-keeps,
  Step, total-weight,
}
use rabin_fingerprinting.Bridge.Lifetimes.{IsClosed, same_started, none_spawned, one_spawned}

abbrev pub ClientState : Type 0
ClientState = Client × ClientBridge

abbrev pub client_started : ClientState → List Operation
client_started s = s.1.bridge.started

-- Whether `fopen` works is open.
abbrev pub HandledAtClient : ClientState → List Operation → Event → ClientState → Type 0
HandledAtClient s ops ev t = (opened : Bool) × (handle opened ev s.0 (resume ops s.1) ≡ ok t)

same-IsClosed : {a t : ClientState} → ok a ≡ ok t → IsClosed a.1.bridge → IsClosed t.1.bridge
same-IsClosed {a} {t} h c =
    let same : a ≡ t = cc h in subst (λ (x : ClientState). IsClosed x.1.bridge) same c

same_c : {a t : ClientState} → ok a ≡ ok t → t.1.c ≡ a.1.c
same_c {a} {t} h = let same : t ≡ a = cc h in ap (λ (x : ClientState). x.1.c) same

-- `close` before the next operation, or not.
ends_started : (end : Bool) (b : Bridge) → (if end then close b else b).started ≡ b.started
unfolding close
ends_started true b = refl
ends_started false b = refl

ends-IsClosed : (end : Bool) (b : Bridge) → IsClosed b → IsClosed (if end then close b else b)
unfolding close
ends-IsClosed true b c = (refl, refl)
ends-IsClosed false b c = c

-- What the two handlers come to that may fail.
received_file :
    (opened : Bool) (r : Client) (s : ClientBridge) (t : ClientState)
    → handle_downstream_write false opened r s ≡ ok t
    → (t.1.bridge.started ≡ s.bridge.started ++ upstream_read 0 ∷ [])
      × (IsClosed s.bridge → IsClosed t.1.bridge)
unfolding handle_downstream_write
received_file false r s t h = cc h
received_file true r s t h =
    let (q, run, last) = >>=-eq-ok (receive_file r []) _ h in
    let end = is_end q.num_blocks in
    (
      sym (same_started client_started last)
          ∙ ap (λ ops. ops ++ upstream_read 0 ∷ []) (ends_started end s.bridge),
      λ c. same-IsClosed last (ends-IsClosed end s.bridge c),
    )

same_bridge :
    {a u : ClientBridge}
    → ok a ≡ ok u
    → (u.bridge.started ≡ a.bridge.started) × (IsClosed a.bridge → IsClosed u.bridge)
same_bridge {a} {u} h =
    let same : u ≡ a = cc h in
    (
      ap (λ (x : ClientBridge). x.bridge.started) same,
      subst (λ (x : ClientBridge). IsClosed x.bridge) (sym same),
    )

fetch-ok :
    (n : ℕ) (s u : ClientBridge)
    → fetch n s ≡ ok u
    → (u.bridge.started ≡ s.bridge.started) × (IsClosed s.bridge → IsClosed u.bridge)
unfolding fetch copy_file
fetch-ok n s u h = elim (Option-cases s.c) [
  | inl e ↦ same_bridge (rw (fetch, e) at h)
  | inr (c, e) ↦ elim (Bool-cases (ltb 8192 s.n)) [
    | inl long ↦ cc (rw (fetch, e, long) at h)
    | inr short ↦ same_bridge (rw (fetch, e, short) at h)
  ]
]

passed_on :
    (n : ℕ) (r : Client) (s : ClientBridge) (t : ClientState)
    → (handle_upstream_read false n s >>= λ u. ok (r, u)) ≡ ok t
    → (op : Operation) × (t.1.bridge.started ≡ s.bridge.started ++ op ∷ [])
      × (IsClosed s.bridge → IsClosed t.1.bridge)
unfolding handle_upstream_read
passed_on n r s t h =
    let (u, read, last) = >>=-eq-ok (handle_upstream_read false n s) _ h in
    let (v, got, sent) = >>=-eq-ok (fetch n s) _ read in
    let (same, closed) = fetch-ok n s v got in
    let (added, kept) = same_bridge sent in
    let new : Operation = downstream_write (take v.n v.bridge.upstream_data) in
    (
      new,
      sym (same_started client_started last) ∙ added ∙ ap (λ ops. ops ++ new ∷ []) same,
      λ c. same-IsClosed last (kept (closed c)),
    )

kept_c :
    (s t : ClientState) (ops : List Operation) (op : Operation) (ev : Event)
    → Ends op ev
    → HandledAtClient s ops ev t
    → (uses_upstream op ≡ 0) ⊎ Fails ev
    → t.1.c ≡ s.1.c
unfolding handle handle_upstream_connect handle_downstream_write handle_upstream_read
    handle_downstream_read handle_upstream_write close
kept_c s t ops op ev (connect_ends true) (o, h) e = same_c h
kept_c s t ops op ev (connect_ends false) (o, h) e = same_c h
kept_c s t ops op ev (upstream_read_ends room true bytes le) (o, h) e = same_c h
kept_c s t ops op ev (upstream_read_ends room false bytes le) (o, h) (inl e) = absurd (omega arith)
kept_c s t ops op ev (upstream_read_ends room false bytes le) (o, h) (inr e) = cc e
kept_c s t ops op ev (downstream_read_ends room true bytes le) (o, h) e = same_c h
kept_c s t ops op ev (downstream_read_ends room false bytes le) (o, h) e = same_c h
kept_c s t ops op ev (upstream_write_ends out true) (o, h) e = same_c h
kept_c s t ops op ev (upstream_write_ends out false) (o, h) e = same_c h
kept_c s t ops op ev (downstream_write_ends out true) (o, h) e = same_c h
kept_c s t ops op ev (downstream_write_ends out false) (o, h) (inl e) = absurd (omega arith)
kept_c s t ops op ev (downstream_write_ends out false) (o, h) (inr e) = cc e

handle-Spawns :
    (s t : ClientState) (ops : List Operation) (op : Operation) (ev : Event)
    → Ends op ev
    → HandledAtClient s ops ev t
    → Spawns op ev ops (client_started t)
unfolding handle handle_upstream_connect handle_upstream_read handle_downstream_read
    handle_upstream_write handle_downstream_write close
handle-Spawns s t ops op ev (connect_ends true) (o, h) =
    none_spawned client_started op ev h (omega arith)
handle-Spawns s t ops op ev (connect_ends false) (o, h) = (
  upstream_read 0 ∷ downstream_read 8192 ∷ [],
  sym (same_started client_started h) ∙ append_assoc ops _ _,
  omega arith,
  λ f. cc f,
)
handle-Spawns s t ops op ev (upstream_read_ends room true bytes le) (o, h) =
    none_spawned client_started op ev h (omega arith)
handle-Spawns s t ops op ev (upstream_read_ends room false bytes le) (o, h) =
    let (new, added, kept) = passed_on (length bytes) s.0 _ t h in
    (new ∷ [], added, omega arith, λ f. cc f)
handle-Spawns s t ops op ev (downstream_read_ends room true bytes le) (o, h) =
    none_spawned client_started op ev h (omega arith)
handle-Spawns s t ops op ev (downstream_read_ends room false bytes le) (o, h) =
    one_spawned client_started op ev ops _ h refl (omega arith) (λ f. cc f)
handle-Spawns s t ops op ev (upstream_write_ends out true) (o, h) =
    none_spawned client_started op ev h (omega arith)
handle-Spawns s t ops op ev (upstream_write_ends out false) (o, h) =
    one_spawned client_started op ev ops _ h refl (omega arith) (λ f. cc f)
handle-Spawns s t ops op ev (downstream_write_ends out true) (o, h) =
    none_spawned client_started op ev h (omega arith)
handle-Spawns s t ops op ev (downstream_write_ends out false) (o, h) =
    let (added, kept) = received_file o s.0 (resume ops s.1) t h in
    (upstream_read 0 ∷ [], added, omega arith, λ f. cc f)

fails_too :
    (s : ClientState) (ops : List Operation) (op : Operation)
    → (t : ClientState) × HandledAtClient s ops (failed op) t
unfolding handle handle_upstream_connect handle_downstream_write handle_upstream_read
    handle_downstream_read handle_upstream_write
fails_too s ops connect = (_, (true, refl))
fails_too s ops (upstream_read room) = (_, (true, refl))
fails_too s ops (downstream_read room) = (_, (true, refl))
fails_too s ops (upstream_write bytes) = (_, (true, refl))
fails_too s ops (downstream_write bytes) = (_, (true, refl))

handle-IsClosed :
    (s t : ClientState) (ops : List Operation) (op : Operation) (ev : Event)
    → Ends op ev
    → HandledAtClient s ops ev t
    → IsClosed s.1.bridge
    → IsClosed t.1.bridge
unfolding handle handle_upstream_connect handle_upstream_read handle_downstream_read
    handle_upstream_write handle_downstream_write close
handle-IsClosed s t ops op ev (connect_ends true) (o, h) c = same-IsClosed h (refl, refl)
handle-IsClosed s t ops op ev (connect_ends false) (o, h) c = same-IsClosed h c
handle-IsClosed s t ops op ev (upstream_read_ends room true bytes le) (o, h) c =
    same-IsClosed h (refl, refl)
handle-IsClosed s t ops op ev (upstream_read_ends room false bytes le) (o, h) c =
    let (new, added, kept) = passed_on (length bytes) s.0 _ t h in kept c
handle-IsClosed s t ops op ev (downstream_read_ends room true bytes le) (o, h) c =
    same-IsClosed h (refl, refl)
handle-IsClosed s t ops op ev (downstream_read_ends room false bytes le) (o, h) c =
    same-IsClosed h c
handle-IsClosed s t ops op ev (upstream_write_ends out true) (o, h) c = same-IsClosed h (refl, refl)
handle-IsClosed s t ops op ev (upstream_write_ends out false) (o, h) c = same-IsClosed h c
handle-IsClosed s t ops op ev (downstream_write_ends out true) (o, h) c =
    same-IsClosed h (refl, refl)
handle-IsClosed s t ops op ev (downstream_write_ends out false) (o, h) c =
    let (added, kept) = received_file o s.0 (resume ops s.1) t h in kept c

-- Operations from before the end that do not come to the file leave it alone.
Drains-kept :
    (s t : Draining ClientState) (n : ℕ)
    → total uses_upstream s.old ≡ 0
    → Drains client_started HandledAtClient s n t
    → (t.state.1.c ≡ s.state.1.c) × (total uses_upstream t.old ≡ 0)
Drains-kept s t n unused begin = (refl, unused)
Drains-kept s t n unused (later {t = m} run (early before after op ev e ends h old split)) =
    let (kept, none_uses) = Drains-kept s m _ unused run in
    let uses = ap (total uses_upstream) e in
    let whole = total-append uses_upstream before (op ∷ after) in
    (
      kept_c m.state t.state _ op ev ends h (inl (omega (arith, uses, whole, none_uses))) ∙ kept,
      omega (
        arith,
        uses,
        whole,
        none_uses,
        ap (total uses_upstream) old,
        total-append uses_upstream before after,
      ),
    )
Drains-kept s t n unused (later {t = m} run (late before after op ev e ends fails h old split)) =
    let (kept, none_uses) = Drains-kept s m _ unused run in
    (
      kept_c m.state t.state _ op ev ends h (inr fails) ∙ kept,
      ap (total uses_upstream) old ∙ none_uses,
    )

-- The state behind the reception of the end, and what has been started when.
abbrev pub at_end : Reception → ClientBridge → Draining ClientState
at_end q s = record {
  state = (
    q.client,
    record {
      bridge = async (upstream_read 0) (close s.bridge);
      c = some q.file;
      n = length q.file;
    },
  );
  old = s.bridge.started;
  fresh = upstream_read 0 ∷ [];
}

-- `handle_downstream_write` that receives the end of the files closes the sockets of a tidy bridge at
-- the client, keeps what it received in `c`, and starts one read. After that at most three more
-- handlers run, and none deletes `c`: when no operation is left, so that the last pointer to the
-- bridge goes, `c` still points to an array. As long as an operation is left, it can end.
pub last_file-Drains :
    (r : Client) (s : ClientBridge) (q : Reception) (t : Draining ClientState) (n : ℕ)
    → Spare 1 0 s.bridge
    → receive_file r [] ≡ ok q
    → is_end q.num_blocks ≡ true
    → Drains client_started HandledAtClient (at_end q s) n t
    → (handle_downstream_write false true r s ≡ ok (at_end q s).state)
      × IsClosed t.state.1.bridge
      × (n ≤ 3)
      × (t.state.1.c ≡ some q.file)
      × ((t.old ++ t.fresh ≡ [])
          ⊎ ((w : Draining ClientState) × Step client_started HandledAtClient t w))
unfolding handle_downstream_write close
last_file-Drains r s q t n spare received last run =
    let (few, ends) =
      Drains-ends client_started HandledAtClient handle-Spawns fails_too (at_end q s) t n run in
    let (kept, _) = Drains-kept (at_end q s) t n (omega (arith, spare.upstream)) run in
    (
      rw (received, last) refl,
      Drains-keeps client_started HandledAtClient (λ x. IsClosed x.1.bridge) handle-IsClosed
          (at_end q s) t n run (refl, refl),
      omega (arith, few, spare.upstream, spare.downstream, total-weight s.bridge.started),
      kept,
      ends,
    )
