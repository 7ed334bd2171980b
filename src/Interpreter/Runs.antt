-- ===== src/Interpreter/Runs.antt =====
-- What holds of the interpreter server after any rounds of its loop.
use rabin_fingerprinting.Base.{
  ℕ, zero, suc, ◌+◌, ◌≡◌, refl, ap, ◌∙◌, subst, Bool, List, [], ◌∷◌, length, ◌==◌, if◌then◌else◌,
  Result, ok, fault, exits, Bool-cases, inl, inr, ℤ, pos, negsuc, is_negative, ltb,
}
use rabin_fingerprinting.Interpreter.{
  Peer, IServ, slot, on_peer, drop_broken, add_socks, build_sel_list, take_slot, new_connection,
}
use rabin_fingerprinting.Interpreter.Invariant.{start, IsValid, IsValid-Closed, close_fd-IsValid}
use rabin_fingerprinting.Interpreter.Keeping.{
  Keeps, bind-Keeps, if-Keeps, if-holds, service_client-Keeps,
}
use rabin_fingerprinting.Interpreter.Service.{
  Outside, Round, service_client, serve_slots, read_socks, round, rounds, initial, listen_on,
  iserv_main, is_set, is_zero,
}

serve_slots-Keeps :
    (o : ℕ → Outside) (n i : ℕ) (s : IServ) → IsValid s → Keeps IsValid (serve_slots o n i s)
unfolding serve_slots
serve_slots-Keeps o zero i s v = v
serve_slots-Keeps o (suc n) i s v =
    let first : Result IServ =
      if is_set (slot s i) s.socks then service_client (o i) i s else ok s in
    bind-Keeps IsValid first (serve_slots o n (i + 1))
      (if-Keeps IsValid (is_set (slot s i) s.socks) (service_client (o i) i s) (ok s)
        (service_client-Keeps i IsValid (IsValid-Closed i) (o i) s v) v)
      (serve_slots-Keeps o n (i + 1))

length-take_slot : (fd : ℕ) (cs : List ℕ) → length (take_slot fd cs).1 ≡ length cs
unfolding take_slot
length-take_slot fd [] = refl
length-take_slot fd (c ∷ cs) = elim (Bool-cases (c == 0)) [
  | inl e ↦ rw e
  | inr e ↦ rw e (ap suc (length-take_slot fd cs))
]

new_connection-Keeps :
    (accepted : ℤ) (peer : Peer) (s : IServ)
    → IsValid s
    → Keeps IsValid (new_connection accepted peer s)
unfolding new_connection
new_connection-Keeps (negsuc n) peer s v = tt
new_connection-Keeps (pos fd) peer s v =
    let kept : IsValid
        (on_peer fd (λ _. peer) (record s { connectlist = (take_slot fd s.connectlist).1 })) =
      record {
        size = length-take_slot fd s.connectlist ∙ v.size;
        logged = v.logged;
        commands = v.commands;
      } in
    if-holds IsValid (take_slot fd s.connectlist).0 _ _ kept (close_fd-IsValid fd _ kept)

drop_broken-IsValid :
    (broken : ℕ → Bool) (fds : List ℕ) (s : IServ)
    → IsValid s
    → IsValid (drop_broken broken fds s).1 × (length (drop_broken broken fds s).0 ≡ length fds)
unfolding drop_broken
drop_broken-IsValid broken [] s v = (v, refl)
drop_broken-IsValid broken (fd ∷ fds) s v =
    let (w, same) =
      drop_broken-IsValid broken fds _ (if-holds IsValid _ _ _ (close_fd-IsValid fd s v) v) in
    (w, ap suc same)

add_socks-IsValid : (fds : List ℕ) (s : IServ) → IsValid s → IsValid (add_socks fds s)
unfolding add_socks
add_socks-IsValid [] s v = v
add_socks-IsValid (fd ∷ fds) s v = add_socks-IsValid fds _ (
    if-holds IsValid (fd == 0) s _ v
      (record { size = v.size; logged = v.logged; commands = v.commands }))

build_sel_list-IsValid :
    (broken : ℕ → Bool) (s : IServ) → IsValid s → IsValid (build_sel_list broken s)
unfolding build_sel_list
build_sel_list-IsValid broken s v =
    let (w, same) = drop_broken-IsValid broken s.connectlist s v in
    add_socks-IsValid _ _
      (record { size = same ∙ v.size; logged = w.logged; commands = w.commands })

read_socks-Keeps : (e : Round) (s : IServ) → IsValid s → Keeps IsValid (read_socks e s)
unfolding read_socks
read_socks-Keeps e s v =
    bind-Keeps IsValid
      (if is_set s.sockfd s.socks then new_connection e.accepted e.newcomer s else ok s)
      (serve_slots e.outside 200 0)
      (if-Keeps IsValid (is_set s.sockfd s.socks) (new_connection e.accepted e.newcomer s) (ok s)
        (new_connection-Keeps e.accepted e.newcomer s v) v)
      (serve_slots-Keeps e.outside 200 0)

round-Keeps : (e : Round) (s : IServ) → IsValid s → Keeps IsValid (round e s)
unfolding round
round-Keeps e s v =
    let w = build_sel_list-IsValid e.broken s v in
    let s' : IServ = build_sel_list e.broken s in
    let t : IServ = record s' { socks = e.ready } in
    let served =
      read_socks-Keeps e t (record { size = w.size; logged = w.logged; commands = w.commands }) in
    if-Keeps IsValid (is_negative e.num_socks) (fault (exits 1))
      (if is_zero e.num_socks then ok s' else read_socks e t) tt
      (if-Keeps IsValid (is_zero e.num_socks) (ok s') (read_socks e t) w served)

rounds-Keeps : (es : List Round) (s : IServ) → IsValid s → Keeps IsValid (rounds es s)
unfolding rounds
rounds-Keeps [] s v = v
rounds-Keeps (e ∷ es) s v =
    bind-Keeps IsValid (round e s) (rounds es) (round-Keeps e s v) (rounds-Keeps es)

rounds-IsValid :
    (es : List Round) (sockfd : ℕ) (peers : ℕ → Peer)
    → Keeps IsValid (rounds es (initial sockfd peers))
unfolding initial
rounds-IsValid es sockfd peers =
    rounds-Keeps es _ (record { size = refl; logged = refl; commands = start })

listen_on-IsValid :
    (socket bound : ℤ) (peers : ℕ → Peer) (es : List Round)
    → Keeps IsValid (listen_on socket bound peers es)
unfolding listen_on
listen_on-IsValid (negsuc n) bound peers es = tt
listen_on-IsValid (pos sockfd) bound peers es =
    if-Keeps IsValid (is_negative bound) (fault (exits 1)) (rounds es (initial sockfd peers)) tt
      (rounds-IsValid es sockfd peers)

-- After any rounds of the program, however it is started and whatever the connections send and the
-- system calls return, the table has its 200 slots, the log has just what the child was given, and
-- that is the texts of messages with balanced parentheses only, each up to its first zero byte.
pub iserv_main-IsValid :
    (argc : ℕ) (socket bound : ℤ) (peers : ℕ → Peer) (es : List Round) (s : IServ)
    → iserv_main argc socket bound peers es ≡ ok s
    → IsValid s
unfolding iserv_main
iserv_main-IsValid argc socket bound peers es s h = subst (Keeps IsValid) h (
    if-Keeps IsValid (ltb argc 2) (fault (exits 1)) (listen_on socket bound peers es) tt
      (listen_on-IsValid socket bound peers es))
