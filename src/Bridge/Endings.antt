-- ===== src/Bridge/Endings.antt =====
-- The operations of a closed bridge, until none is left: each holds a pointer to the bridge, which is
-- destroyed with the last of them.
use rabin_fingerprinting.Base.{
  ℕ, zero, suc, ◌+◌, ◌*◌, ◌≤◌, ◌<◌, ◌≡◌, refl, sym, ap, ◌∙◌, true, List, [], ◌∷◌, ◌++◌, length,
  arith, ◌⊎◌, inl, inr, append_assoc, length-append,
}
use rabin_fingerprinting.Bridge.{
  Operation, Event, connect, upstream_read, downstream_read, upstream_write, downstream_write,
  upstream_connected, upstream_written, downstream_written, upstream_got, downstream_got,
}
use rabin_fingerprinting.Bridge.Rooms.{
  total, total-append, Ends, connect_ends, upstream_read_ends, downstream_read_ends,
  upstream_write_ends, downstream_write_ends, uses_upstream, uses_downstream,
}

-- The end of an operation with an error, and that it is one.
abbrev pub failed : Operation → Event
failed connect = upstream_connected true
failed (upstream_read room) = upstream_got true []
failed (downstream_read room) = downstream_got true []
failed (upstream_write bytes) = upstream_written true
failed (downstream_write bytes) = downstream_written true

abbrev pub Fails : Event → Type 0
Fails (upstream_connected error) = error ≡ true
Fails (upstream_written error) = error ≡ true
Fails (downstream_written error) = error ≡ true
Fails (upstream_got error bytes) = error ≡ true
Fails (downstream_got error bytes) = error ≡ true

pub failed-Ends : (op : Operation) → Ends op (failed op)
failed-Ends connect = connect_ends true
failed-Ends (upstream_read room) = upstream_read_ends room true [] (omega arith)
failed-Ends (downstream_read room) = downstream_read_ends room true [] (omega arith)
failed-Ends (upstream_write bytes) = upstream_write_ends bytes true
failed-Ends (downstream_write bytes) = downstream_write_ends bytes true

pub failed-Fails : (op : Operation) → Fails (failed op)
failed-Fails connect = refl
failed-Fails (upstream_read room) = refl
failed-Fails (downstream_read room) = refl
failed-Fails (upstream_write bytes) = refl
failed-Fails (downstream_write bytes) = refl

-- An operation and those that its handler may start.
abbrev pub weight : Operation → ℕ
weight connect = 3
weight (upstream_read room) = 2
weight (downstream_read room) = 2
weight (upstream_write bytes) = 2
weight (downstream_write bytes) = 2

-- What the handler of an event does to the operations.
abbrev pub Spawns : Operation → Event → List Operation → List Operation → Type 0
Spawns op ev ops after =
    (more : List Operation) × (after ≡ ops ++ more)
    × (length more < weight op)
    × (Fails ev → more ≡ [])

-- A state with the operations that were started before the sockets were closed, and those since.
pub record Draining (S : Type 0) : Type 0 where
  pub state : S
  pub old : List Operation
  pub fresh : List Operation

-- `Handled s ops ev t`: in the state `s`, with the operations `ops` left, the handler of `ev` goes to
-- `t`, whose operations are `started t`.
module _ {S : Type 0} (started : S → List Operation)
    (Handled : S → List Operation → Event → S → Type 0) where
  -- An operation on a closed socket ends with an error; one that was started before may have ended
  -- without.
  pub data Step (s t : Draining S) : Type 0 where
    early :
        (before after : List Operation) (op : Operation) (ev : Event)
        → s.old ≡ before ++ op ∷ after
        → Ends op ev
        → Handled s.state ((before ++ after) ++ s.fresh) ev t.state
        → t.old ≡ before ++ after
        → started t.state ≡ t.old ++ t.fresh
        → Step s t
    late :
        (before after : List Operation) (op : Operation) (ev : Event)
        → s.fresh ≡ before ++ op ∷ after
        → Ends op ev
        → Fails ev
        → Handled s.state (s.old ++ (before ++ after)) ev t.state
        → t.old ≡ s.old
        → started t.state ≡ t.old ++ t.fresh
        → Step s t

  -- So many handlers have run.
  pub data Drains (s : Draining S) : ℕ → Draining S → Type 0 where
    begin : Drains s zero s
    later : {n : ℕ} {t u : Draining S} → Drains s n t → Step t u → Drains s (suc n) u

  module _
      (spawns : (s t : S) (ops : List Operation) (op : Operation) (ev : Event)
        → Ends op ev
        → Handled s ops ev t
        → Spawns op ev ops (started t))
      (may_fail : (s : S) (ops : List Operation) (op : Operation)
        → (t : S) × Handled s ops (failed op) t) where
    potential : Draining S → ℕ
    potential s = total weight s.old + length s.fresh

    Step-potential : (s t : Draining S) → Step s t → potential t < potential s
    unfolding potential
    Step-potential s t (early before after op ev e ends h old split) =
        let (more, spawned, few, _) = spawns _ _ _ op ev ends h in
        let size = ap length (sym spawned ∙ split) in
        omega (
          arith,
          size,
          ap (total weight) e,
          ap (total weight) old,
          ap length old,
          total-append weight before (op ∷ after),
          total-append weight before after,
          length-append ((before ++ after) ++ s.fresh) more,
          length-append (before ++ after) s.fresh,
          length-append t.old t.fresh,
        )
    Step-potential s t (late before after op ev e ends fails h old split) =
        let (more, spawned, few, none_more) = spawns _ _ _ op ev ends h in
        let size = ap length (sym spawned ∙ split) in
        omega (
          arith,
          size,
          ap length e,
          ap length (none_more fails),
          ap (total weight) old,
          ap length old,
          length-append (s.old ++ (before ++ after)) more,
          length-append s.old (before ++ after),
          length-append before after,
          length-append before (op ∷ after),
          length-append t.old t.fresh,
        )

    Drains-potential : (s t : Draining S) (n : ℕ) → Drains s n t → n + potential t ≤ potential s
    Drains-potential s t n begin = omega arith
    Drains-potential s t n (later run step) =
        omega (arith, Drains-potential s _ _ run, Step-potential _ t step)

    -- What is left can end.
    Step-total :
        (s : S) (old fresh : List Operation)
        → (old ++ fresh ≡ [])
          ⊎ ((t : Draining S) × Step (record { state = s; old = old; fresh = fresh }) t)
    Step-total s [] [] = inl refl
    Step-total s [] (op ∷ rest) =
        let (t, h) = may_fail s rest op in
        let (more, spawned, _, _) = spawns s t rest op (failed op) (failed-Ends op) h in
        inr (
          record { state = t; old = []; fresh = rest ++ more },
          late [] rest op (failed op) refl (failed-Ends op) (failed-Fails op) h refl spawned,
        )
    Step-total s (op ∷ rest) fresh =
        let (t, h) = may_fail s (rest ++ fresh) op in
        let (more, spawned, _, _) = spawns s t (rest ++ fresh) op (failed op) (failed-Ends op) h in
        inr (
          record { state = t; old = rest; fresh = fresh ++ more },
          early [] rest op (failed op) refl (failed-Ends op) h refl
              (spawned ∙ append_assoc rest fresh more),
        )

    pub Drains-ends :
        (s t : Draining S) (n : ℕ)
        → Drains s n t
        → (n ≤ total weight s.old + length s.fresh)
          × ((t.old ++ t.fresh ≡ []) ⊎ ((u : Draining S) × Step t u))
    unfolding potential
    Drains-ends s t n run =
        (omega (arith, Drains-potential s t n run), Step-total t.state t.old t.fresh)

  -- What every handler keeps.
  pub Drains-keeps :
      (P : S → Type 0)
      → ((s t : S) (ops : List Operation) (op : Operation) (ev : Event)
          → Ends op ev
          → Handled s ops ev t
          → P s
          → P t)
      → (s t : Draining S) (n : ℕ) → Drains s n t
      → P s.state
      → P t.state
  Drains-keeps P keeps s t n begin p = p
  Drains-keeps P keeps s t n (later run (early before after op ev e ends h old split)) p =
      keeps _ _ _ op ev ends h (Drains-keeps P keeps s _ _ run p)
  Drains-keeps P keeps s t n (later run (late before after op ev e ends fails h old split)) p =
      keeps _ _ _ op ev ends h (Drains-keeps P keeps s _ _ run p)

-- A tidy bridge has few operations under way.
pub total-weight :
    (ops : List Operation)
    → total weight ops ≤ 2 * (total uses_upstream ops + total uses_downstream ops)
total-weight [] = omega arith
total-weight (connect ∷ ops) = omega (arith, total-weight ops)
total-weight (upstream_read room ∷ ops) = omega (arith, total-weight ops)
total-weight (downstream_read room ∷ ops) = omega (arith, total-weight ops)
total-weight (upstream_write bytes ∷ ops) = omega (arith, total-weight ops)
total-weight (downstream_write bytes ∷ ops) = omega (arith, total-weight ops)
