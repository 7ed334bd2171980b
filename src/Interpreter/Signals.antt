-- ===== src/Interpreter/Signals.antt =====
-- The handler that `main` of Files/C/NewIServ.c sets for SIGINT, and runs that end by it. The signal
-- comes while the program waits in `select`.
use rabin_fingerprinting.Base.{
  ℕ, ◌≡◌, refl, Bool, true, Option, none, some, List, ltb, if◌then◌else◌, Result, ok, fault, exits,
  ◌>>=◌, >>=-eq-ok, ℤ, is_negative, Bool-cases, inl, inr, sym, subst,
}
use rabin_fingerprinting.Interpreter.{Peer, IServ}
use rabin_fingerprinting.Interpreter.Invariant.{Commands}
use rabin_fingerprinting.Interpreter.Runs.{iserv_main-IsValid}
use rabin_fingerprinting.Interpreter.Service.{Round, is_zero, iserv_main}

-- What is left when the program has ended: the two files that `fclose` completes, the arguments of
-- `kill`, whether `intermediate` was removed, and the exit status.
pub record Ended : Type 0 where
  pub logfile : List ℕ
  pub child_input : List ℕ
  pub killed : ℤ
  pub signal : ℕ
  pub removed : Bool
  pub status : ℕ

unfoldable pub sig_handler : ℤ → IServ → Ended
sig_handler int_pid s = record {
  logfile = s.ilog;
  child_input = s.child_in;
  killed = int_pid;
  signal = 9;
  removed = true;
  status = 0;
}

-- `main` up to a signal behind the rounds, with what `fork` returns; `none` in the child.
unfoldable pub interrupted_main : ℕ → ℤ → ℤ → ℤ → (ℕ → Peer) → List Round → Result (Option Ended)
interrupted_main argc socket int_pid bound peers es =
    if ltb argc 2
    then fault (exits 1)
    else if is_negative socket
    then fault (exits 1)
    else if is_zero int_pid
    then ok none
    else (iserv_main argc socket bound peers es >>= λ s. ok (some (sig_handler int_pid s)))

-- However a run goes, the log that an interrupt leaves has just what the child was given, and that
-- is commands only. What `fork` returned is what `kill` gets, also -1.
interrupted_main-Commands :
    (argc : ℕ) (socket int_pid bound : ℤ) (peers : ℕ → Peer) (es : List Round) (e : Ended)
    → interrupted_main argc socket int_pid bound peers es ≡ ok (some e)
    → (e.logfile ≡ e.child_input) × Commands e.logfile × (e.killed ≡ int_pid)
unfolding interrupted_main sig_handler
interrupted_main-Commands argc socket int_pid bound peers es e h = elim (Bool-cases (ltb argc 2)) [
  | inl few ↦ cc (rw few at h)
  | inr enough ↦ elim (Bool-cases (is_negative socket)) [
    | inl bad ↦ cc (rw (enough, bad) at h)
    | inr good ↦ elim (Bool-cases (is_zero int_pid)) [
      | inl child ↦ cc (rw (enough, good, child) at h)
      | inr parent ↦
          let (s, run, last) =
            >>=-eq-ok (iserv_main argc socket bound peers es) _ (rw (enough, good, parent) at h) in
          let v = iserv_main-IsValid argc socket bound peers es s run in
          let same : sig_handler int_pid s ≡ e = cc last in
          subst
            (λ (x : Ended). (x.logfile ≡ x.child_input) × Commands x.logfile × (x.killed ≡ int_pid))
            same (v.logged, subst Commands (sym v.logged) v.commands, refl)
    ]
  ]
]
