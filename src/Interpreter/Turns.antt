-- ===== src/Interpreter/Turns.antt =====
-- A pass of `read_socks` of the interpreter server: every connection that is ready gets its turn.
use rabin_fingerprinting.Base.{
  ℕ, zero, suc, ◌+◌, ◌≤◌, ◌<◌, ◌≡◌, ◌≢◌, refl, sym, ap, ◌∙◌, subst, true, List, [], ◌∷◌, get_or,
  Result, ok, >>=-eq-ok, if◌then◌else◌, ==_ne, ==_refl, arith,
}
use native.Mathlib.Decide.{ℕ_discrete}
use rabin_fingerprinting.Interpreter.{IServ, slot, set, write_fd, close_fd}
use rabin_fingerprinting.Interpreter.Keeping.{Closed, Keeps, if-Keeps, service_client-Keeps}
use rabin_fingerprinting.Interpreter.Service.{
  Outside, drop_slot, service_client, serve_slots, is_set,
}

get_or-set_other : (cs : List ℕ) (i j v : ℕ) → i ≢ j → get_or (set cs i v) j 0 ≡ get_or cs j 0
get_or-set_other [] i j v ne = refl
get_or-set_other (c ∷ cs) zero zero v ne = absurd (ne refl)
get_or-set_other (c ∷ cs) zero (suc j) v ne = refl
get_or-set_other (c ∷ cs) (suc i) zero v ne = refl
get_or-set_other (c ∷ cs) (suc i) (suc j) v ne = get_or-set_other cs i j v (λ e. ne (ap suc e))

get_or-set_free : (cs : List ℕ) (i : ℕ) → get_or (set cs i 0) i 0 ≡ 0
get_or-set_free [] i = refl
get_or-set_free (c ∷ cs) zero = refl
get_or-set_free (c ∷ cs) (suc i) = get_or-set_free cs i

-- From `s` to `t`, while slot `i` was served, the other slots, the set of `select` and what `q` will
-- send have stayed; slot `i` is as it was, or free.
record Spares (i q : ℕ) (s t : IServ) : Type 0 where
  others : (j : ℕ) → i ≢ j → slot t j ≡ slot s j
  own : slot t i ≢ q
  same_socks : t.socks ≡ s.socks
  unread : (t.peers q).incoming ≡ (s.peers q).incoming

peer_written :
    (fd : ℕ) (bytes : List ℕ) (t : IServ) (q : ℕ)
    → ((write_fd fd bytes t).peers q).incoming ≡ (t.peers q).incoming
unfolding write_fd
peer_written fd bytes t q = elim (ℕ_discrete fd q) [
  | yes e ↦ rw e (rw (==_refl q))
  | no ne ↦ rw (==_ne fd q ne)
]

Spares-Closed : (i q : ℕ) (s : IServ) → 1 ≤ q → Closed i (Spares i q s)
unfolding write_fd drop_slot close_fd
Spares-Closed i q s used = record {
  writes = λ fd bytes t p. record {
    others = p.others;
    own = p.own;
    same_socks = p.same_socks;
    unread = peer_written fd bytes t q ∙ p.unread;
  };
  reads = λ rest t p. record {
    others = p.others;
    own = p.own;
    same_socks = p.same_socks;
    unread = rw (==_ne (slot t i) q p.own) p.unread;
  };
  drops = λ t p. record {
    others = λ j ne. get_or-set_other t.connectlist i j 0 ne ∙ p.others j ne;
    own = λ e. omega (arith, e, get_or-set_free t.connectlist i);
    same_socks = p.same_socks;
    unread = rw (==_ne (slot t i) q p.own) p.unread;
  };
  gives = λ msg text t p b h. record {
    others = p.others;
    own = p.own;
    same_socks = p.same_socks;
    unread = p.unread;
  };
}

-- The turn of slot `i` in the pass.
abbrev turn_of : (ℕ → Outside) → ℕ → IServ → Result IServ
turn_of o i s = if is_set (slot s i) s.socks then service_client (o i) i s else ok s

turn_of-Spares :
    (o : ℕ → Outside) (i q : ℕ) (s t : IServ)
    → 1 ≤ q
    → slot s i ≢ q
    → turn_of o i s ≡ ok t
    → Spares i q s t
turn_of-Spares o i q s t used ne h =
    let here : Spares i q s s = record {
      others = λ j d. refl;
      own = ne;
      same_socks = refl;
      unread = refl;
    } in
    subst (Keeps (Spares i q s)) h (
      if-Keeps (Spares i q s) (is_set (slot s i) s.socks) (service_client (o i) i s) (ok s)
        (service_client-Keeps i (Spares i q s) (Spares-Closed i q s used) (o i) s here) here)

-- No slot from `i` on has the descriptor `q`: the rest of the pass does not read it.
pass_unread :
    (o : ℕ → Outside) (n i q : ℕ) (s s' : IServ)
    → 1 ≤ q
    → ((j : ℕ) → i ≤ j → slot s j ≢ q)
    → serve_slots o n i s ≡ ok s'
    → (s'.peers q).incoming ≡ (s.peers q).incoming
unfolding serve_slots
pass_unread o zero i q s s' used free h =
    subst (Keeps (λ t. (t.peers q).incoming ≡ (s.peers q).incoming)) h refl
pass_unread o (suc n) i q s s' used free h =
    let (t, first, rest) = >>=-eq-ok (turn_of o i s) (serve_slots o n (i + 1)) h in
    let p = turn_of-Spares o i q s t used (free i (omega arith)) first in
    pass_unread o n (i + 1) q t s' used
      (λ j later e.
        free j (omega (arith, later)) (sym (p.others j (λ d. omega (arith, d, later))) ∙ e))
      rest
    ∙ p.unread

-- The service of slot `i` leaves the other slots.
record Leaves (i : ℕ) (s t : IServ) : Type 0 where
  others : (j : ℕ) → i ≢ j → slot t j ≡ slot s j

Leaves-Closed : (i : ℕ) (s : IServ) → Closed i (Leaves i s)
unfolding write_fd drop_slot close_fd
Leaves-Closed i s = record {
  writes = λ fd bytes t p. record { others = p.others };
  reads = λ rest t p. record { others = p.others };
  drops =
      λ t p. record { others = λ j ne. get_or-set_other t.connectlist i j 0 ne ∙ p.others j ne };
  gives = λ msg text t p b h. record { others = p.others };
}

service_client-Leaves :
    (o : Outside) (i : ℕ) (s t : IServ) → service_client o i s ≡ ok t → Leaves i s t
service_client-Leaves o i s t h =
    subst (Keeps (Leaves i s)) h (
      service_client-Keeps i (Leaves i s) (Leaves-Closed i s) o s (record { others = λ j d. refl }))

-- When a pass over the slots ends, every connection that `select` found ready, and whose descriptor
-- stands in one slot only, has had its turn: it was served once, with all that it had sent before the
-- pass still unread, and nothing that it sent was read before or after its turn.
pub serve_slots-service_client :
    (o : ℕ → Outside) (n i k : ℕ) (s s' : IServ)
    → 1 ≤ slot s k
    → is_set (slot s k) s.socks ≡ true
    → ((j : ℕ) → j ≢ k → slot s j ≢ slot s k)
    → i ≤ k
    → k < i + n
    → serve_slots o n i s ≡ ok s'
    → (t t' : IServ) × (slot t k ≡ slot s k)
      × ((t.peers (slot s k)).incoming ≡ (s.peers (slot s k)).incoming)
      × (service_client (o k) k t ≡ ok t')
      × ((s'.peers (slot s k)).incoming ≡ (t'.peers (slot s k)).incoming)
unfolding serve_slots
serve_slots-service_client o zero i k s s' used ready alone low high h = absurd (omega arith)
serve_slots-service_client o (suc n) i k s s' used ready alone low high h =
    let (t, first, rest) = >>=-eq-ok (turn_of o i s) (serve_slots o n (i + 1)) h in
    elim (ℕ_discrete i k) [
      | yes e ↦
          let served : service_client (o k) k s ≡ ok t = rw (e, ready) at first in
          let leaves = service_client-Leaves (o k) k s t served in
          let unread =
            pass_unread o n (i + 1) (slot s k) t s' used
              (λ j behind d.
                alone j (λ same. omega (arith, same, behind, e))
                  (sym (leaves.others j (λ same. omega (arith, same, behind, e))) ∙ d))
              rest in
          (s, t, refl, refl, served, unread)
      | no ne ↦
          let p = turn_of-Spares o i (slot s k) s t used (alone i ne) first in
          let same : slot t k ≡ slot s k = p.others k ne in
          let (t₁, t₂, here, before, served, after) =
            serve_slots-service_client o n (i + 1) k t s' (rw same used)
              (rw (same, p.same_socks) ready)
              (λ j d eq. elim (ℕ_discrete i j) [
                | yes own ↦ p.own (ap (λ x. slot t x) own ∙ eq ∙ same)
                | no other ↦ alone j d (sym (p.others j other) ∙ eq ∙ same)
              ])
              (omega (arith, low, ne)) (omega (arith, high)) rest in
          (t₁, t₂, here ∙ same, rw same at before ∙ p.unread, served, rw same at after)
    ]
