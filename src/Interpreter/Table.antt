-- ===== src/Interpreter/Table.antt =====
-- The table of connections of the interpreter server: new connections and the list for `select`.
use rabin_fingerprinting.Base.{
  ℕ, ◌≤◌, ◌≡◌, ◌≢◌, refl, sym, ap, ◌∙◌, Bool, true, false, not, ◌&&◌, ◌||◌, List, [], ◌∷◌, ◌++◌,
  All, ltb, ◌==◌, if◌then◌else◌, ok, pos, ==_ne, ==_refl, Bool-cases, inl, inr, arith,
}
use mathlib.Core.List.{map}
use native.Mathlib.Decide.{ℕ_discrete}
use rabin_fingerprinting.Interpreter.{
  Peer, IServ, on_peer, close_fd, drop_broken, add_socks, build_sel_list, take_slot, new_connection,
}
use rabin_fingerprinting.Interpreter.Service.{is_set}

-- Slots that are in use.
abbrev pub InUse : List ℕ → Type 0
InUse slots = All (λ fd. 1 ≤ fd) slots

take_slot-free :
    (fd : ℕ) (busy rest : List ℕ)
    → InUse busy
    → take_slot fd (busy ++ 0 ∷ rest) ≡ (true, busy ++ fd ∷ rest)
unfolding take_slot
take_slot-free fd [] rest h = refl
take_slot-free fd (c ∷ busy) rest h = rw (==_ne c 0 (omega arith), take_slot-free fd busy rest h.1)

take_slot_full : (fd : ℕ) (slots : List ℕ) → InUse slots → take_slot fd slots ≡ (false, slots)
unfolding take_slot
take_slot_full fd [] h = refl
take_slot_full fd (c ∷ slots) h = rw (==_ne c 0 (omega arith), take_slot_full fd slots h.1)

-- A new connection gets the first free slot and stays open as it came; the other slots, and all that
-- stands on other descriptors, stay as they are.
new_connection-free :
    (confd : ℕ) (peer : Peer) (s : IServ) (busy rest : List ℕ)
    → InUse busy
    → s.connectlist ≡ busy ++ 0 ∷ rest
    → (s' : IServ) × (new_connection (pos confd) peer s ≡ ok s')
      × (s'.connectlist ≡ busy ++ confd ∷ rest)
      × (s'.peers confd ≡ peer)
      × ((q : ℕ) → q ≢ confd → s'.peers q ≡ s.peers q)
unfolding new_connection
new_connection-free confd peer s busy rest h e = (
  on_peer confd (λ _. peer) (record s { connectlist = busy ++ confd ∷ rest }),
  rw (e, take_slot-free confd busy rest h),
  refl,
  rw (==_refl confd),
  λ q ne. rw (==_ne confd q (λ p. ne (sym p))),
)

-- With every slot in use a new connection is closed at once, and the table stays as it is.
pub new_connection_full :
    (confd : ℕ) (peer : Peer) (s : IServ)
    → InUse s.connectlist
    → (s' : IServ) × (new_connection (pos confd) peer s ≡ ok s')
      × (s'.connectlist ≡ s.connectlist)
      × ((s'.peers confd).is_open ≡ false)
      × ((q : ℕ) → q ≢ confd → s'.peers q ≡ s.peers q)
unfolding new_connection close_fd
new_connection_full confd peer s h =
    let kept : IServ = on_peer confd (λ _. peer) s in
    (
      close_fd confd kept,
      rw (take_slot_full confd s.connectlist h),
      refl,
      rw (==_refl confd),
      λ q ne. rw (==_ne confd q (λ p. ne (sym p))),
    )

-- The table without the descriptors on which a read fails.
abbrev pub kept : (ℕ → Bool) → List ℕ → List ℕ
kept broken fds = map (λ fd. if not (fd == 0) && broken fd then 0 else fd) fds

drop_broken-kept :
    (broken : ℕ → Bool) (fds : List ℕ) (s : IServ)
    → ((drop_broken broken fds s).0 ≡ kept broken fds)
      × ((drop_broken broken fds s).1.sockfd ≡ s.sockfd)
      × ((drop_broken broken fds s).1.hisockfd ≡ s.hisockfd)
unfolding drop_broken close_fd
drop_broken-kept broken [] s = (refl, refl, refl)
drop_broken-kept broken (fd ∷ fds) s = elim (Bool-cases (not (fd == 0) && broken fd)) [
  | inl e ↦
      let (slots, same, high) = drop_broken-kept broken fds (close_fd fd s) in
      rw (e, drop_broken) (ap (λ l. 0 ∷ l) slots, same, high)
  | inr e ↦
      let (slots, same, high) = drop_broken-kept broken fds s in
      rw (e, drop_broken) (ap (λ l. fd ∷ l) slots, same, high)
]

pub drop_broken-sockfd :
    (broken : ℕ → Bool) (fds : List ℕ) (s : IServ) → (drop_broken broken fds s).1.sockfd ≡ s.sockfd
drop_broken-sockfd broken fds s = let (_, same, _) = drop_broken-kept broken fds s in same

-- The descriptors to select on, with a bound on them.
record Selects (s : IServ) (fds : List ℕ) (s' : IServ) : Type 0 where
  table : s'.connectlist ≡ s.connectlist
  covered : (q : ℕ) → 1 ≤ q → is_set q fds ≡ true → is_set q s'.socks ≡ true
  older : (q : ℕ) → is_set q s.socks ≡ true → is_set q s'.socks ≡ true
  bounded : All (λ fd. fd ≤ s.hisockfd) s.socks → All (λ fd. fd ≤ s'.hisockfd) s'.socks

All-weaken : (fds : List ℕ) (m n : ℕ) → m ≤ n → All (λ fd. fd ≤ m) fds → All (λ fd. fd ≤ n) fds
All-weaken [] m n h b = tt
All-weaken (fd ∷ fds) m n h b = (omega (arith, b.0), All-weaken fds m n h b.1)

-- One more descriptor on the list.
added : ℕ → IServ → IServ
added fd s = record s {
  socks = fd ∷ s.socks;
  hisockfd = if ltb s.hisockfd fd then fd else s.hisockfd;
}

added_bounded :
    (fd : ℕ) (s : IServ)
    → All (λ q. q ≤ s.hisockfd) s.socks
    → All (λ q. q ≤ (added fd s).hisockfd) (added fd s).socks
unfolding added
added_bounded fd s b =
    let higher : s.hisockfd ≤ (added fd s).hisockfd = ground arith in
    let here : fd ≤ (added fd s).hisockfd = ground arith in
    (here, All-weaken s.socks s.hisockfd (added fd s).hisockfd higher b)

or_true : (a b : Bool) → b ≡ true → (a || b) ≡ true
or_true true b h = refl
or_true false b h = h

add_socks-Selects : (fds : List ℕ) (s : IServ) → Selects s fds (add_socks fds s)
unfolding add_socks added
add_socks-Selects [] s = record {
  table = refl;
  covered = λ q h e. cc;
  older = λ q e. e;
  bounded = λ b. b;
}
add_socks-Selects (fd ∷ fds) s = elim (ℕ_discrete fd 0) [
  | yes e ↦
      let r = add_socks-Selects fds s in
      rw (e, add_socks)
        (record {
          table = r.table;
          covered = λ q h c. r.covered q h (rw (==_ne q 0 (omega arith)) at c);
          older = r.older;
          bounded = r.bounded;
        })
  | no ne ↦
      let r = add_socks-Selects fds (added fd s) in
      rw (==_ne fd 0 ne, add_socks)
        (record {
          table = r.table;
          covered = λ q h c. elim (Bool-cases (q == fd)) [
            | inl here ↦ r.older q (rw here)
            | inr other ↦ r.covered q h (rw other at c)
          ];
          older = λ q c. r.older q (or_true (q == fd) (is_set q s.socks) c);
          bounded = λ b. r.bounded (added_bounded fd s b);
        })
]

-- Before `select`, the descriptors on which a read fails are out of the table, and nothing else is.
-- The listening socket and every descriptor of the table are in the set, and `hisockfd` is not below
-- any descriptor of the set, so that `select` looks at all of them.
pub build_sel_list_lem :
    (broken : ℕ → Bool) (s : IServ)
    → s.sockfd ≤ s.hisockfd
    → let s' = build_sel_list broken s in
      (s'.connectlist ≡ kept broken s.connectlist)
      × (is_set s.sockfd s'.socks ≡ true)
      × ((q : ℕ) → 1 ≤ q → is_set q s'.connectlist ≡ true → is_set q s'.socks ≡ true)
      × All (λ fd. fd ≤ s'.hisockfd) s'.socks
unfolding build_sel_list
build_sel_list_lem broken s low =
    let (slots, _, high) = drop_broken-kept broken s.connectlist s in
    let dropped : List ℕ × IServ = drop_broken broken s.connectlist s in
    let t : IServ = record dropped.1 { connectlist = dropped.0; socks = s.sockfd ∷ [] } in
    let r = add_socks-Selects dropped.0 t in
    (
      r.table ∙ slots,
      r.older s.sockfd (rw (==_refl s.sockfd)),
      λ q h c. r.covered q h (rw r.table at c),
      r.bounded (omega (arith, high), tt),
    )
