-- ===== src/Interpreter/Keeping.antt =====
-- What `service_client` of the interpreter server keeps: any property of the state that its writes, its
-- reads of its own connection, the commands it passes on and the freeing of its slot keep.
use Prim.Native.String.{String}
use rabin_fingerprinting.Base.{
  ℕ, ◌^◌, ◌≡◌, refl, Bool, true, false, List, [], ◌∷◌, ◌++◌, length, take, drop, ltb, leb, ◌==◌,
  if◌then◌else◌, Result, ok, fault, ◌>>=◌, Bool-cases, Option-cases, inl, inr,
}
use rabin_fingerprinting.Wire.{of_le_bytes, ntohl}
use rabin_fingerprinting.Socket.{InSocket, read, read_full}
use rabin_fingerprinting.Interpreter.{
  IServ, htons, slot, write_fd, send_ack, write_to_slots, write_to_all,
}
use rabin_fingerprinting.Interpreter.Parens.{paren_check, Balanced, paren_check-Balanced}
use rabin_fingerprinting.Interpreter.Service.{
  Outside, drop_slot, append_newline, pass_command, interpret, send_files, interpreter_address,
  dispatch, read_msg, service_message, service_client, advance,
}

module _ (P : IServ → Type 0) where
  -- The property, if the code returns a state.
  abbrev pub Keeps : Result IServ → Type 0
  Keeps (ok s) = P s
  Keeps (fault e) = Unit {0}

  pub bind-Keeps :
      (m : Result IServ) (f : IServ → Result IServ)
      → Keeps m
      → ((s : IServ) → P s → Keeps (f s))
      → Keeps (m >>= f)
  bind-Keeps (ok s) f v k = k s v
  bind-Keeps (fault e) f v k = tt

  pub if-Keeps : (b : Bool) (m n : Result IServ) → Keeps m → Keeps n → Keeps (if b then m else n)
  if-Keeps true m n p q = p
  if-Keeps false m n p q = q

  pub if-holds : (b : Bool) (s t : IServ) → P s → P t → P (if b then s else t)
  if-holds true s t p q = p
  if-holds false s t p q = q

-- What the steps of the service of slot `i` keep.
pub record Closed (i : ℕ) (P : IServ → Type 0) : Type 0 where
  pub writes : (fd : ℕ) (bytes : List ℕ) (s : IServ) → P s → P (write_fd fd bytes s)
  pub reads : (rest : InSocket) (s : IServ) → P s → P (advance (slot s i) rest s)
  pub drops : (s : IServ) → P s → P (drop_slot i s)
  pub gives :
      (msg text : List ℕ) (s : IServ)
      → P s
      → Balanced msg
      → append_newline msg ≡ ok text
      → P (record s { child_in = s.child_in ++ text; ilog = s.ilog ++ text })

module _ (i : ℕ) (P : IServ → Type 0) (c : Closed i P) where
  write_to_slots_holds : (out fds : List ℕ) (s : IServ) → P s → P (write_to_slots out fds s)
  unfolding write_to_slots
  write_to_slots_holds out [] s v = v
  write_to_slots_holds out (fd ∷ fds) s v =
      write_to_slots_holds out fds _
        (if-holds P (fd == 0) s _ v (c.writes fd out _ (c.writes fd _ s v)))

  passed-Keeps :
      (line msg : List ℕ) (s : IServ) (x : Result (List ℕ))
      → P s
      → Balanced msg
      → append_newline msg ≡ x
      → Keeps P (
          x >>= λ final.
          ok (
            write_to_all line
              (record s { child_in = s.child_in ++ final; ilog = s.ilog ++ final })))
  unfolding write_to_all
  passed-Keeps line msg s (fault e) v b h = tt
  passed-Keeps line msg s (ok final) v b h =
      write_to_slots_holds _ s.connectlist _ (c.gives msg final s v b h)

  interpret-Keeps :
      (line : List ℕ) (msg : List ℕ) (s : IServ) → P s → Keeps P (interpret line i msg s)
  unfolding interpret pass_command
  interpret-Keeps line msg s v =
      let fd = slot s i in
      let acked = c.writes fd _ s v in
      if-Keeps P (fd == 0) (ok s) _ v (elim (Bool-cases (paren_check msg)) [
        | inl e ↦ rw e (
            passed-Keeps line msg _ (append_newline msg) acked ((paren_check-Balanced msg).0 e)
              refl)
        | inr e ↦ rw e (c.writes fd _ _ (c.writes fd _ _ acked))
      ])

  send_files_holds :
      (path : String) (o : Outside) (fd : ℕ) (s : IServ) → P s → P (send_files path o fd s)
  unfolding send_files
  send_files_holds path o fd s v =
      let greeted = c.writes fd (o.interpreter_bytes path) _ (c.writes fd _ s v) in
      if-holds P (o.interpreter_sent path) _ _ (c.writes fd o.log_bytes _ (c.writes fd _ _ greeted))
        greeted

  dispatch-Keeps :
      (o : Outside) (type : ℕ) (msg : List ℕ) (s : IServ) → P s → Keeps P (dispatch o i type msg s)
  unfolding dispatch send_ack
  dispatch-Keeps o type msg s v = if-Keeps P (type == 1) _ _ (c.writes (slot s i) _ s v) (
      if-Keeps P (type == 3) _ _
        (if-Keeps P (length msg == 0) _ _ v (interpret-Keeps o.line msg s v))
        (if-Keeps P (type == 5) _ _
          (if-Keeps P (slot s i == 0) _ _ v
            (c.drops _ (send_files_holds interpreter_address o (slot s i) s v)))
          v))

  -- A message that was read, or the end of the program.
  read_msg-Keeps :
      (len : ℕ) (s : IServ) (f : List ℕ × IServ → Result IServ)
      → P s
      → ((r : List ℕ × IServ) → P r.1 → Keeps P (f r))
      → Keeps P (read_msg (slot s i) len s >>= f)
  unfolding read_msg
  read_msg-Keeps len s f v k = elim (Bool-cases (leb (2 ^ 31) len)) [
    | inl e ↦ rw e (k ([], s) v)
    | inr e ↦ rw e (elim (Option-cases (read_full len (s.peers (slot s i)).incoming).0) [
      | inl none_left ↦ rw none_left tt
      | inr (msg, got) ↦ rw got (k (msg, _) (c.reads _ s v))
    ])
  ]

  service_message-Keeps :
      (o : Outside) (type len : ℕ) (s : IServ) → P s → Keeps P (service_message o i type len s)
  unfolding service_message
  service_message-Keeps o type len s v =
      let after : (r : List ℕ × IServ)
          → P r.1
          → Keeps P (if length r.0 == len then dispatch o i type r.0 r.1 else ok r.1) =
        λ r w. if-Keeps P (length r.0 == len) _ _ (dispatch-Keeps o type r.0 r.1 w) w in
      elim (Bool-cases (len == 0)) [
        | inl e ↦ rw e (after ([], s) v)
        | inr e ↦ rw e (read_msg-Keeps len s _ v after)
      ]

  pub service_client-Keeps : (o : Outside) (s : IServ) → P s → Keeps P (service_client o i s)
  unfolding service_client
  service_client-Keeps o s v =
      let got : List ℕ × InSocket = read (s.peers (slot s i)).incoming 6 in
      let v' = c.reads got.1 s v in
      elim (Bool-cases (ltb (length got.0) 6)) [
        | inl e ↦ rw e (c.drops _ v')
        | inr e ↦ rw e (
            service_message-Keeps o (htons (of_le_bytes (take 2 got.0)))
              (ntohl (of_le_bytes (drop 2 got.0))) (advance (slot s i) got.1 s) v')
      ]
