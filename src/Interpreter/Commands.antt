-- ===== src/Interpreter/Commands.antt =====
-- The commands that `service_client` of the interpreter server takes, and what becomes of them.
use rabin_fingerprinting.Base.{
  ℕ, zero, suc, ◌^◌, ◌≤◌, ◌<◌, ◌≡◌, ◌≢◌, refl, ap, ◌∙◌, subst, false, List, [], ◌∷◌, ◌++◌, flatten,
  nil_of_length, length, get_or, replicate, ◌==◌, if◌then◌else◌, ok, fault, out_of_bounds, ==_ne,
  Bool-cases, inl, inr, arith, length-append,
}
use rabin_fingerprinting.Socket.{InSocket, read}
use rabin_fingerprinting.Socket.Segments.{IsFlowing}
use rabin_fingerprinting.Relay.Forward.{IsText}
use rabin_fingerprinting.Interpreter.{IServ, header, slot, c_string}
use rabin_fingerprinting.Interpreter.Parens.{
  paren_check, Balanced, nothing, opens_closed-Balanced, opens-not-Balanced, paren_check-Balanced,
}
use rabin_fingerprinting.Interpreter.Service.{
  Outside, append_newline, pass_command, interpret, dispatch, service_client, mismatch,
}
use rabin_fingerprinting.Interpreter.Reading.{service_client-dispatch}
use rabin_fingerprinting.Interpreter.Answers.{
  Gives, Gives-from, commanded, commanded-Gives, commanded-Hears, interpret-command, Hears-from,
  denied, denied-Gives, denied-Hears,
}
use rabin_fingerprinting.Interpreter.Replies.{Hears, copies}

-- A command of a connected client, in a message with balanced parentheses whose text ends with a zero
-- byte and at least one more byte behind it, is taken: the child and the log get the text with a
-- newline, the table stays. The client is acknowledged, and then every descriptor of the table gets
-- the last line of the child's output, with its length, as often as it stands there, and nothing else.
pub service_client-command :
    (o : Outside) (i : ℕ) (s : IServ) (later : InSocket) (text pad rest : List ℕ)
    → let msg = text ++ 0 ∷ pad in
      let line = c_string o.line in
      1 ≤ slot s i
      → IsText text
      → 1 ≤ length pad
      → Balanced msg
      → length msg < 2 ^ 31
      → read (s.peers (slot s i)).incoming 6 ≡ (header 3 (length msg), later)
      → IsFlowing later
      → flatten later ≡ msg ++ rest
      → (s' : IServ) × (service_client o i s ≡ ok s')
        × Gives s s' (text ++ b'\n' ∷ [])
        × ((q : ℕ)
            → 1 ≤ q
            → Hears s s' q (
                (if slot s i == q then header 4 0 else [])
                ++ copies (header 2 (length line) ++ line) q s.connectlist))
unfolding dispatch
service_client-command o i s later text pad rest used is_text behind balanced fits head flow
      stream =
    let msg : List ℕ = text ++ 0 ∷ pad in
    let final : List ℕ = text ++ b'\n' ∷ [] in
    let line : List ℕ = c_string o.line in
    let answer : List ℕ = header 2 (length line) ++ line in
    let (s₁, run, has_read) =
      service_client-dispatch o i 3 s later msg rest (omega arith) fits head flow stream in
    let fd : ℕ = slot s i in
    let same_fd : slot s₁ i ≡ fd = ap (λ l. get_or l i 0) has_read.table in
    let some_bytes : length msg ≢ 0 = λ e. omega (arith, e, length-append text (0 ∷ pad)) in
    let taken =
      interpret-command o.line i text pad s₁ (omega (arith, same_fd)) is_text behind balanced in
    let gives = commanded-Gives o.line fd final s₁ in
    (
      commanded o.line fd final s₁,
      run
          ∙ rw (==_ne (length msg) 0 some_bytes)
              (taken ∙ ap (λ d. ok (commanded o.line d final s₁)) same_fd),
      Gives-from has_read gives,
      λ q h.
          Hears-from s₁ s (commanded o.line fd final s₁) q
            ((if fd == q then header 4 0 else []) ++ copies answer q s.connectlist)
            (has_read.outgoing q)
            (subst
              (λ fds.
                Hears s₁ (commanded o.line fd final s₁) q
                  ((if fd == q then header 4 0 else []) ++ copies answer q fds))
              has_read.table (commanded-Hears o.line fd final s₁ q h)),
    )

-- A message of a connected client whose parentheses are not balanced is answered by the
-- acknowledgement and the error, with its 24 bytes; nobody else gets anything, and the child, the log
-- and the table stay as they are.
pub service_client-mismatch :
    (o : Outside) (i : ℕ) (s : IServ) (later : InSocket) (msg rest : List ℕ)
    → 1 ≤ slot s i
    → ¬ Balanced msg
    → length msg < 2 ^ 31
    → read (s.peers (slot s i)).incoming 6 ≡ (header 3 (length msg), later)
    → IsFlowing later
    → flatten later ≡ msg ++ rest
    → (s' : IServ) × (service_client o i s ≡ ok s')
      × Gives s s' []
      × ((q : ℕ)
          → Hears s s' q (if slot s i == q then header 4 0 ++ (header 2 24 ++ mismatch) else []))
unfolding dispatch interpret
service_client-mismatch o i s later msg rest used unbalanced fits head flow stream =
    let (s₁, run, has_read) =
      service_client-dispatch o i 3 s later msg rest (omega arith) fits head flow stream in
    let fd : ℕ = slot s i in
    let same_fd : slot s₁ i ≡ fd = ap (λ l. get_or l i 0) has_read.table in
    let some_bytes : length msg ≢ 0 = λ e. unbalanced (nothing (nil_of_length msg e)) in
    let refused : paren_check msg ≡ false = elim (Bool-cases (paren_check msg)) [
      | inl e ↦ absurd (unbalanced ((paren_check-Balanced msg).0 e))
      | inr e ↦ e
    ] in
    (
      denied fd s₁,
      run ∙ rw (==_ne (length msg) 0 some_bytes, same_fd, ==_ne fd 0 (omega arith), refused),
      Gives-from has_read (denied-Gives fd s₁),
      λ q. Hears-from s₁ s (denied fd s₁) q _ (has_read.outgoing q) (denied-Hears fd s₁ q),
    )

-- Without a zero byte, or with one only as the last byte, `strcat` leaves the buffer.
append_newline_full :
    (text : List ℕ) (n : ℕ)
    → IsText text
    → n ≤ 1
    → append_newline (text ++ replicate n 0) ≡ fault out_of_bounds
unfolding append_newline
append_newline_full [] zero t h = refl
append_newline_full [] (suc zero) t h = refl
append_newline_full [] (suc (suc n)) t h = absurd (omega arith)
append_newline_full (c ∷ text) n t h =
    rw (==_ne c 0 (omega arith), append_newline_full text n t.1 h)

-- A command with balanced parentheses that has no zero byte, or just one as its last byte, makes the
-- server write its newline past the end of the message's buffer.
pub service_client_overflow :
    (o : Outside) (i n : ℕ) (s : IServ) (later : InSocket) (text rest : List ℕ)
    → let msg = text ++ replicate n 0 in
      1 ≤ slot s i
      → IsText text
      → n ≤ 1
      → 1 ≤ length msg
      → Balanced msg
      → length msg < 2 ^ 31
      → read (s.peers (slot s i)).incoming 6 ≡ (header 3 (length msg), later)
      → IsFlowing later
      → flatten later ≡ msg ++ rest
      → service_client o i s ≡ fault out_of_bounds
unfolding dispatch interpret pass_command
service_client_overflow o i n s later text rest used is_text few some_bytes balanced fits head flow
      stream =
    let msg : List ℕ = text ++ replicate n 0 in
    let (s₁, run, has_read) =
      service_client-dispatch o i 3 s later msg rest (omega arith) fits head flow stream in
    let same_fd : slot s₁ i ≡ slot s i = ap (λ l. get_or l i 0) has_read.table in
    run
    ∙ rw (
      ==_ne (length msg) 0 (omega arith),
      same_fd,
      ==_ne (slot s i) 0 (omega arith),
      (paren_check-Balanced msg).1 balanced,
      append_newline_full text n is_text few,
    )

opens-IsText : (n : ℕ) → IsText (replicate n b'(')
opens-IsText zero = tt
opens-IsText (suc n) = (omega arith, opens-IsText n)

length_all : (n c : ℕ) → length (replicate n c) ≡ n
length_all zero c = refl
length_all (suc n) c = ap suc (length_all n c)

-- Parentheses behind the text's zero byte count for the check, but not for the child: for every `n`
-- there is a message that is accepted and gives the child `n` opening parentheses that nothing closes.
pub service_client_unmatched :
    (o : Outside) (i n : ℕ) (s : IServ) (later : InSocket) (rest : List ℕ)
    → let text = replicate {A = ℕ} n b'(' in
      let msg = text ++ 0 ∷ replicate n b')' in
      1 ≤ slot s i
      → 1 ≤ n
      → length msg < 2 ^ 31
      → read (s.peers (slot s i)).incoming 6 ≡ (header 3 (length msg), later)
      → IsFlowing later
      → flatten later ≡ msg ++ rest
      → (s' : IServ) × (service_client o i s ≡ ok s')
        × (s'.child_in ≡ s.child_in ++ (text ++ b'\n' ∷ []))
        × ¬ Balanced (text ++ b'\n' ∷ [])
service_client_unmatched o i n s later rest used some_open fits head flow stream =
    let (s', run, gives, _) =
      service_client-command o i s later (replicate n b'(') (replicate n b')') rest used
        (opens-IsText n) (omega (arith, length_all n b')')) (opens_closed-Balanced n) fits head flow
        stream in
    (s', run, gives.given, opens-not-Balanced n some_open)
