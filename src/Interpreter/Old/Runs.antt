-- ===== src/Interpreter/Old/Runs.antt =====
-- Whole runs of the two texts of the interpreter server.
use rabin_fingerprinting.Base.{
  ℕ, zero, suc, ◌+◌, ◌≡◌, ◌≢◌, refl, sym, ap, ◌∙◌, true, false, List, [], ◌∷◌, All, ltb, ==_ne,
  if◌then◌else◌, Result, ok, fault, ◌>>=◌, ℤ, pos, negsuc, is_negative, Bool-cases, inl, inr, exits,
  Bool,
}
use rabin_fingerprinting.Interpreter.{
  Peer, IServ, slot, write_fd, close_fd, drop_broken, add_socks, build_sel_list, take_slot,
  new_connection,
}
use rabin_fingerprinting.Interpreter.Keeping.{
  Keeps, Closed, if-Keeps, if-holds, bind-Keeps, service_client-Keeps,
}
use rabin_fingerprinting.Interpreter.Service.{
  Outside, drop_slot, Round, is_set, is_zero, initial, service_client, serve_slots, read_socks,
  round, rounds, listen_on, iserv_main,
}
use rabin_fingerprinting.Interpreter.Table.{drop_broken-sockfd}
use native.Mathlib.Decide.{ℕ_discrete}
use rabin_fingerprinting.Interpreter.Old.Same.{SendsSame, client_same}
use rabin_fingerprinting.Interpreter.Old.{
  serve_slots as old_slots, read_socks as old_socks, round as old_round, rounds as old_rounds,
  listen_on as old_listen, iserv_main as old_main,
}

-- Descriptor 0 is not among those that are ready, and is not the listening socket.
pub record IsClear (s : IServ) : Type 0 where
  pub not_ready : is_set 0 s.socks ≡ false
  pub listening : s.sockfd ≢ 0

IsClear-Closed : (i : ℕ) → Closed i IsClear
unfolding write_fd drop_slot close_fd
IsClear-Closed i = record {
  writes = λ fd bytes s v. record { not_ready = v.not_ready; listening = v.listening };
  reads = λ rest s v. record { not_ready = v.not_ready; listening = v.listening };
  drops = λ s v. record { not_ready = v.not_ready; listening = v.listening };
  gives = λ msg text s v b h. record { not_ready = v.not_ready; listening = v.listening };
}

bind_same :
    (m : Result IServ) (f g : IServ → Result IServ)
    → Keeps IsClear m
    → ((s : IServ) → IsClear s → f s ≡ g s)
    → (m >>= f) ≡ (m >>= g)
bind_same (ok s) f g v h = h s v
bind_same (fault e) f g v h = refl

slots_same :
    (o : ℕ → Outside) (n i : ℕ) (s : IServ)
    → ((q : ℕ) → SendsSame (o q))
    → IsClear s
    → (old_slots o n i s ≡ serve_slots o n i s) × Keeps IsClear (serve_slots o n i s)
unfolding old_slots serve_slots
slots_same o zero i s alike v = (refl, v)
slots_same o (suc n) i s alike v =
    let rest : (s' : IServ) → IsClear s' → old_slots o n (i + 1) s' ≡ serve_slots o n (i + 1) s' =
      λ s' w. (slots_same o n (i + 1) s' alike w).0 in
    let keep : (s' : IServ) → IsClear s' → Keeps IsClear (serve_slots o n (i + 1) s') =
      λ s' w. (slots_same o n (i + 1) s' alike w).1 in
    elim (Bool-cases (is_set (slot s i) s.socks)) [
      | inl e ↦
          let used : slot s i ≢ 0 = λ z. cc (ap (λ fd. is_set fd s.socks) z, v.not_ready) in
          let served = service_client-Keeps i IsClear (IsClear-Closed i) (o i) s v in
          rw e (
            ap (λ m. m >>= old_slots o n (i + 1)) (client_same (o i) i s (alike i) used)
                ∙ bind_same (service_client (o i) i s) (old_slots o n (i + 1))
                    (serve_slots o n (i + 1)) served rest,
            bind-Keeps IsClear (service_client (o i) i s) (serve_slots o n (i + 1)) served keep,
          )
      | inr e ↦ rw e (rest s v, keep s v)
    ]

new_connection-IsClear :
    (accepted : ℤ) (peer : Peer) (s : IServ)
    → IsClear s
    → Keeps IsClear (new_connection accepted peer s)
unfolding new_connection close_fd
new_connection-IsClear (negsuc n) peer s v = tt
new_connection-IsClear (pos fd) peer s v =
    if-holds IsClear (take_slot fd s.connectlist).0 _ _
      (record { not_ready = v.not_ready; listening = v.listening })
      (record { not_ready = v.not_ready; listening = v.listening })

socks_same :
    (e : Round) (s : IServ)
    → ((q : ℕ) → SendsSame (e.outside q))
    → IsClear s
    → (old_socks e s ≡ read_socks e s) × Keeps IsClear (read_socks e s)
unfolding old_socks read_socks
socks_same e s alike v =
    let first : Result IServ =
      if is_set s.sockfd s.socks then new_connection e.accepted e.newcomer s else ok s in
    let begin : Keeps IsClear first =
      if-Keeps IsClear (is_set s.sockfd s.socks) (new_connection e.accepted e.newcomer s) (ok s)
        (new_connection-IsClear e.accepted e.newcomer s v) v in
    (
      bind_same first (old_slots e.outside 200 0) (serve_slots e.outside 200 0) begin
          (λ s' w. (slots_same e.outside 200 0 s' alike w).0),
      bind-Keeps IsClear first (serve_slots e.outside 200 0) begin
          (λ s' w. (slots_same e.outside 200 0 s' alike w).1),
    )

-- The set for `select` never has descriptor 0.
add_socks-IsClear : (fds : List ℕ) (s : IServ) → IsClear s → IsClear (add_socks fds s)
unfolding add_socks
add_socks-IsClear [] s v = v
add_socks-IsClear (fd ∷ fds) s v = elim (ℕ_discrete fd 0) [
  | yes e ↦ rw (e, add_socks) (add_socks-IsClear fds s v)
  | no ne ↦
      rw (==_ne fd 0 ne, add_socks)
        (add_socks-IsClear fds _ (record {
          not_ready = rw (==_ne 0 fd (λ z. ne (sym z))) v.not_ready;
          listening = v.listening;
        }))
]

build_sel_list-IsClear :
    (broken : ℕ → Bool) (s : IServ) → s.sockfd ≢ 0 → IsClear (build_sel_list broken s)
unfolding build_sel_list
build_sel_list-IsClear broken s ne =
    let dropped : List ℕ × IServ = drop_broken broken s.connectlist s in
    let same : dropped.1.sockfd ≡ s.sockfd = drop_broken-sockfd broken s.connectlist s in
    add_socks-IsClear dropped.0
      (record dropped.1 { connectlist = dropped.0; socks = s.sockfd ∷ [] })
      (record {
        not_ready = rw (==_ne 0 s.sockfd (λ z. ne (sym z))) refl;
        listening = λ z. ne (sym same ∙ z);
      })

-- `select` leaves only descriptors of the set that it is given, in each round of a run.
unfoldable pub Selects : List Round → IServ → Type 0
Selects [] s = Unit
Selects (e ∷ es) s =
    ((q : ℕ) → is_set q e.ready ≡ true → is_set q (build_sel_list e.broken s).socks ≡ true)
    × ((s' : IServ) → round e s ≡ ok s' → Selects es s')

round_same :
    (e : Round) (s : IServ)
    → ((q : ℕ) → SendsSame (e.outside q))
    → s.sockfd ≢ 0
    → ((q : ℕ) → is_set q e.ready ≡ true → is_set q (build_sel_list e.broken s).socks ≡ true)
    → (old_round e s ≡ round e s) × Keeps IsClear (round e s)
unfolding old_round round
round_same e s alike ne leaves =
    let s' : IServ = build_sel_list e.broken s in
    let clear = build_sel_list-IsClear e.broken s ne in
    let t : IServ = record s' { socks = e.ready } in
    let not_ready : is_set 0 e.ready ≡ false = elim (Bool-cases (is_set 0 e.ready)) [
      | inl there ↦ cc (leaves 0 there, clear.not_ready)
      | inr away ↦ away
    ] in
    let (same, keeps) =
      socks_same e t alike (record { not_ready = not_ready; listening = clear.listening }) in
    (
      ap
          (λ m.
            if is_negative e.num_socks
            then fault (exits 1)
            else (if is_zero e.num_socks then ok s' else m))
          same,
      if-Keeps IsClear (is_negative e.num_socks) (fault (exits 1))
          (if is_zero e.num_socks then ok s' else read_socks e t) tt
          (if-Keeps IsClear (is_zero e.num_socks) (ok s') (read_socks e t) clear keeps),
    )

bind_seen :
    (m : Result IServ) (f g : IServ → Result IServ)
    → Keeps IsClear m
    → ((s : IServ) → m ≡ ok s → IsClear s → f s ≡ g s)
    → (m >>= f) ≡ (m >>= g)
bind_seen (ok s) f g v h = h s refl v
bind_seen (fault e) f g v h = refl

-- `FILE_SEND` does the same with both paths, whenever a round calls it.
abbrev pub AsSent : Round → Type 0
AsSent e = (q : ℕ) → SendsSame (e.outside q)

rounds_same :
    (es : List Round) (s : IServ)
    → All AsSent es
    → s.sockfd ≢ 0
    → Selects es s
    → old_rounds es s ≡ rounds es s
unfolding old_rounds rounds Selects
rounds_same [] s alike ne sel = refl
rounds_same (e ∷ es) s alike ne sel =
    let (same, keeps) = round_same e s alike.0 ne sel.0 in
    ap (λ m. m >>= old_rounds es) same
    ∙ bind_seen (round e s) (old_rounds es) (rounds es) keeps
        (λ s' run v. rounds_same es s' alike.1 v.listening (sel.1 s' run))

-- The earlier text of the server does what the later one does, in every run in which `select` leaves
-- only descriptors of the set that it is given, the listening socket is not descriptor 0, and
-- `FILE_SEND` does with the path "/intepreters/uscheme" of the earlier text what it does with the path
-- "interpreters/uscheme" of the later one. So but for this path, the test of the slot that the later
-- text makes before it ends a session, the one other difference, changes nothing.
pub iserv_main_same :
    (argc sockfd : ℕ) (bound : ℤ) (peers : ℕ → Peer) (es : List Round)
    → sockfd ≢ 0
    → All AsSent es
    → Selects es (initial sockfd peers)
    → old_main argc (pos sockfd) bound peers es ≡ iserv_main argc (pos sockfd) bound peers es
unfolding old_main old_listen iserv_main listen_on initial
iserv_main_same argc sockfd bound peers es ne alike sel =
    ap
      (λ m.
        if ltb argc 2 then fault (exits 1) else (if is_negative bound then fault (exits 1) else m))
      (rounds_same es (initial sockfd peers) alike ne sel)
