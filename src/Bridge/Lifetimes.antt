-- ===== src/Bridge/Lifetimes.antt =====
-- How the bridges of both programs end once their sockets are closed.
use rabin_fingerprinting.Base.{
  ℕ, ◌≤◌, ◌<◌, ◌≡◌, refl, sym, ap, subst, ◌∙◌, true, false, List, [], ◌∷◌, ◌++◌, length, arith, ok,
  >>=-eq-ok, ◌⊎◌, append-nil, append_assoc,
}
use rabin_fingerprinting.Server.{Server, send_file}
use rabin_fingerprinting.Bridge.{
  Operation, Event, Bridge, connect, upstream_read, downstream_read, upstream_write,
  downstream_write, close, handle_downstream_read, handle_upstream_write,
}
use rabin_fingerprinting.Bridge.ProxyServer.{
  handle_upstream_connect, handle_downstream_write, handle_upstream_read, handle,
}
use rabin_fingerprinting.Bridge.Rooms.{
  total, Ends, connect_ends, upstream_read_ends, downstream_read_ends, upstream_write_ends,
  downstream_write_ends, IsTidy,
}
use rabin_fingerprinting.Bridge.Endings.{
  Fails, failed, Spawns, Draining, Drains, Drains-ends, Drains-keeps, Step, weight, total-weight,
}

abbrev pub ServerState : Type 0
ServerState = Server × Bridge

abbrev pub bridge_started : ServerState → List Operation
bridge_started s = s.1.started

abbrev pub HandledAtServer : ServerState → List Operation → Event → ServerState → Type 0
HandledAtServer s ops ev t = handle ev s.0 (record s.1 { started = ops }) ≡ ok t

abbrev pub IsClosed : Bridge → Type 0
IsClosed b = (b.downstream_open ≡ false) × (b.upstream_open ≡ false)

-- What a handler may start: nothing after an error.
abbrev pub SpawnsIn :
    {S : Type 0} → (S → List Operation) → Operation → Event → List Operation → S → Type 0
SpawnsIn started op ev ops t = Spawns op ev ops (started t)

pub same_started :
    {S : Type 0} {a t : S} (started : S → List Operation) → ok a ≡ ok t → started a ≡ started t
same_started started h = ap started (cc h)

pub none_spawned :
    {S : Type 0} {a t : S} (started : S → List Operation) (op : Operation) (ev : Event)
    → ok a ≡ ok t
    → 0 < weight op
    → SpawnsIn started op ev (started a) t
none_spawned started op ev h pos =
    ([], sym (same_started started h) ∙ sym (append-nil _), pos, λ f. refl)

pub one_spawned :
    {S : Type 0} {a t : S} (started : S → List Operation) (op : Operation) (ev : Event)
    (ops : List Operation) (new : Operation)
    → ok a ≡ ok t
    → started a ≡ ops ++ new ∷ []
    → 1 < weight op
    → (Fails ev → ⊥)
    → SpawnsIn started op ev ops t
one_spawned started op ev ops new h e pos fine =
    (new ∷ [], sym (same_started started h) ∙ e, pos, λ f. absurd (fine f))

same-IsClosed : {a t : ServerState} → ok a ≡ ok t → IsClosed a.1 → IsClosed t.1
same-IsClosed {a} {t} h c =
    let same : a ≡ t = cc h in subst (λ (x : ServerState). IsClosed x.1) same c

read_sent :
    (r : Server) (b : Bridge) (n : ℕ) (t : ServerState)
    → handle_upstream_read false n r b ≡ ok t
    → (t.1.started ≡ b.started ++ downstream_write [] ∷ []) × (IsClosed b → IsClosed t.1)
unfolding handle_upstream_read
read_sent r b n t h =
    let (a, sent, last) = >>=-eq-ok (send_file r b.upstream_data n) _ h in
    (sym (same_started bridge_started last), λ c. same-IsClosed last c)

handle-Spawns :
    (s t : ServerState) (ops : List Operation) (op : Operation) (ev : Event)
    → Ends op ev
    → HandledAtServer s ops ev t
    → Spawns op ev ops t.1.started
unfolding handle handle_upstream_connect handle_downstream_write handle_upstream_read
    handle_downstream_read handle_upstream_write close
handle-Spawns s t ops op ev (connect_ends true) h =
    none_spawned bridge_started op ev h (omega arith)
handle-Spawns s t ops op ev (connect_ends false) h = (
  upstream_read 8192 ∷ downstream_read 8192 ∷ [],
  sym (same_started bridge_started h) ∙ append_assoc ops _ _,
  omega arith,
  λ f. cc f,
)
handle-Spawns s t ops op ev (upstream_read_ends room true bytes le) h =
    none_spawned bridge_started op ev h (omega arith)
handle-Spawns s t ops op ev (upstream_read_ends room false bytes le) h =
    let (e, kept) = read_sent s.0 _ (length bytes) t h in
    (downstream_write [] ∷ [], e, omega arith, λ f. cc f)
handle-Spawns s t ops op ev (downstream_read_ends room true bytes le) h =
    none_spawned bridge_started op ev h (omega arith)
handle-Spawns s t ops op ev (downstream_read_ends room false bytes le) h =
    one_spawned bridge_started op ev ops _ h refl (omega arith) (λ f. cc f)
handle-Spawns s t ops op ev (upstream_write_ends out true) h =
    none_spawned bridge_started op ev h (omega arith)
handle-Spawns s t ops op ev (upstream_write_ends out false) h =
    one_spawned bridge_started op ev ops _ h refl (omega arith) (λ f. cc f)
handle-Spawns s t ops op ev (downstream_write_ends out true) h =
    none_spawned bridge_started op ev h (omega arith)
handle-Spawns s t ops op ev (downstream_write_ends out false) h =
    one_spawned bridge_started op ev ops _ h refl (omega arith) (λ f. cc f)

fails_too :
    (s : ServerState) (ops : List Operation) (op : Operation)
    → (t : ServerState) × HandledAtServer s ops (failed op) t
unfolding handle handle_upstream_connect handle_downstream_write handle_upstream_read
    handle_downstream_read handle_upstream_write
fails_too s ops connect = (_, refl)
fails_too s ops (upstream_read room) = (_, refl)
fails_too s ops (downstream_read room) = (_, refl)
fails_too s ops (upstream_write bytes) = (_, refl)
fails_too s ops (downstream_write bytes) = (_, refl)

handle-IsClosed :
    (s t : ServerState) (ops : List Operation) (op : Operation) (ev : Event)
    → Ends op ev
    → HandledAtServer s ops ev t
    → IsClosed s.1
    → IsClosed t.1
unfolding handle handle_upstream_connect handle_downstream_write handle_upstream_read
    handle_downstream_read handle_upstream_write close
handle-IsClosed s t ops op ev (connect_ends true) h c = same-IsClosed h (refl, refl)
handle-IsClosed s t ops op ev (connect_ends false) h c = same-IsClosed h c
handle-IsClosed s t ops op ev (upstream_read_ends room true bytes le) h c =
    same-IsClosed h (refl, refl)
handle-IsClosed s t ops op ev (upstream_read_ends room false bytes le) h c =
    let (e, kept) = read_sent s.0 _ (length bytes) t h in kept c
handle-IsClosed s t ops op ev (downstream_read_ends room true bytes le) h c =
    same-IsClosed h (refl, refl)
handle-IsClosed s t ops op ev (downstream_read_ends room false bytes le) h c = same-IsClosed h c
handle-IsClosed s t ops op ev (upstream_write_ends out true) h c = same-IsClosed h (refl, refl)
handle-IsClosed s t ops op ev (upstream_write_ends out false) h c = same-IsClosed h c
handle-IsClosed s t ops op ev (downstream_write_ends out true) h c = same-IsClosed h (refl, refl)
handle-IsClosed s t ops op ev (downstream_write_ends out false) h c = same-IsClosed h c

-- After the sockets of a tidy bridge at the server were closed, at most four more of its handlers run,
-- in whatever order its operations end: those that were under way end in any way, and those started
-- since with an error. The sockets stay closed, and as long as an operation is left, it can end; so
-- the bridge comes to have none, and with them the last pointer to it goes.
pub close-Drains :
    (s t : Draining ServerState) (n : ℕ)
    → IsTidy s.state.1
    → IsClosed s.state.1
    → s.old ≡ s.state.1.started
    → s.fresh ≡ []
    → Drains bridge_started HandledAtServer s n t
    → (n ≤ 4)
      × IsClosed t.state.1
      × ((t.old ++ t.fresh ≡ [])
          ⊎ ((u : Draining ServerState) × Step bridge_started HandledAtServer t u))
close-Drains s t n tidy closed all_old none_fresh run =
    let (few, ends) =
      Drains-ends bridge_started HandledAtServer handle-Spawns fails_too s t n run in
    (
      omega (
        arith,
        few,
        tidy.upstream,
        tidy.downstream,
        total-weight s.state.1.started,
        ap (total weight) all_old,
        ap length none_fresh,
      ),
      Drains-keeps bridge_started HandledAtServer (λ x. IsClosed x.1) handle-IsClosed s t n run
          closed,
      ends,
    )
