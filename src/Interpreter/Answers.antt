-- ===== src/Interpreter/Answers.antt =====
-- The steps of `interpret` of the interpreter server: who is written what, and what the child gets.
use rabin_fingerprinting.Base.{
  ℕ, ◌≤◌, ◌≡◌, refl, sym, ap, ◌∙◌, subst, List, [], ◌∷◌, ◌++◌, length, append-nil, ◌==◌,
  if◌then◌else◌, ok, ==_refl, ==_ne, Bool-cases, inl, inr, arith,
}
use native.Mathlib.Decide.{ℕ_discrete}
use rabin_fingerprinting.Relay.Forward.{IsText}
use rabin_fingerprinting.Interpreter.{
  IServ, header, slot, write_fd, c_string, write_to_slots, write_to_all,
}
use rabin_fingerprinting.Interpreter.Parens.{Balanced, paren_check-Balanced}
use rabin_fingerprinting.Interpreter.Service.{append_newline, pass_command, interpret, mismatch}
use rabin_fingerprinting.Interpreter.Reading.{HasRead}
use rabin_fingerprinting.Interpreter.Replies.{
  Hears, Hears-trans, Hears-none, write_fd-Hears_self, write_fd-Hears_other, copies,
  write_to_slots-Hears,
}

pub append_newline-text :
    (text pad : List ℕ)
    → IsText text
    → 1 ≤ length pad
    → append_newline (text ++ 0 ∷ pad) ≡ ok (text ++ b'\n' ∷ [])
unfolding append_newline
append_newline-text [] pad t h = rw (==_ne (length pad) 0 (omega arith))
append_newline-text (c ∷ text) pad t h =
    rw (==_ne c 0 (omega arith), append_newline-text text pad t.1 h)

-- From `s` to `s'` the table is the same, and the child and the log got `text`.
pub record Gives (s s' : IServ) (text : List ℕ) : Type 0 where
  pub table : s'.connectlist ≡ s.connectlist
  pub given : s'.child_in ≡ s.child_in ++ text
  pub log : s'.ilog ≡ s.ilog ++ text

-- What follows the reading gives what the whole gives.
pub Gives-from :
    {s s₁ s' : IServ} {fd : ℕ} {rest text : List ℕ}
    → HasRead s s₁ fd rest
    → Gives s₁ s' text
    → Gives s s' text
Gives-from {text} h g = record {
  table = g.table ∙ h.table;
  given = g.given ∙ ap (λ l. l ++ text) h.given;
  log = g.log ∙ ap (λ l. l ++ text) h.log;
}

write_to_slots_rest :
    (out fds : List ℕ) (s : IServ)
    → ((write_to_slots out fds s).connectlist ≡ s.connectlist)
      × ((write_to_slots out fds s).child_in ≡ s.child_in)
      × ((write_to_slots out fds s).ilog ≡ s.ilog)
unfolding write_to_slots write_fd
write_to_slots_rest out [] s = (refl, refl, refl)
write_to_slots_rest out (fd ∷ fds) s = elim (Bool-cases (fd == 0)) [
  | inl e ↦ rw (e, write_to_slots) (write_to_slots_rest out fds s)
  | inr e ↦ rw (e, write_to_slots) (write_to_slots_rest out fds _)
]

pub write_fd-Hears :
    (fd : ℕ) (bytes : List ℕ) (s : IServ) (q : ℕ)
    → Hears s (write_fd fd bytes s) q (if fd == q then bytes else [])
write_fd-Hears fd bytes s q = elim (ℕ_discrete fd q) [
  | yes e ↦ rw (e, ==_refl q) (write_fd-Hears_self q bytes s)
  | no ne ↦ rw (==_ne fd q ne) (write_fd-Hears_other fd bytes s q ne)
]

pub write_fd_rest :
    (fd : ℕ) (bytes : List ℕ) (s : IServ)
    → ((write_fd fd bytes s).connectlist ≡ s.connectlist)
      × ((write_fd fd bytes s).child_in ≡ s.child_in)
      × ((write_fd fd bytes s).ilog ≡ s.ilog)
unfolding write_fd
write_fd_rest fd bytes s = (refl, refl, refl)

-- The state that `interpret` leaves after a command with the text `final`.
abbrev pub commanded : List ℕ → ℕ → List ℕ → IServ → IServ
commanded line fd final s =
    let acked : IServ = write_fd fd (header 4 0) s in
    write_to_all line
      (record acked { child_in = acked.child_in ++ final; ilog = acked.ilog ++ final })

pub commanded-Gives :
    (line : List ℕ) (fd : ℕ) (final : List ℕ) (s : IServ)
    → Gives s (commanded line fd final s) final
unfolding write_to_all write_fd
commanded-Gives line fd final s =
    let (table, given, log) = write_to_slots_rest (c_string line) s.connectlist (
      let acked : IServ = write_fd fd (header 4 0) s in
      record acked { child_in = acked.child_in ++ final; ilog = acked.ilog ++ final }) in
    record { table = table; given = given; log = log }

pub commanded-Hears :
    (line : List ℕ) (fd : ℕ) (final : List ℕ) (s : IServ) (q : ℕ)
    → 1 ≤ q
    → Hears s (commanded line fd final s) q (
        (if fd == q then header 4 0 else [])
        ++ copies (header 2 (length (c_string line)) ++ c_string line) q s.connectlist)
unfolding write_to_all
commanded-Hears line fd final s q h =
    let acked : IServ = write_fd fd (header 4 0) s in
    let passed : IServ = record acked {
      child_in = acked.child_in ++ final;
      ilog = acked.ilog ++ final;
    } in
    let out : List ℕ = c_string line in
    let answer : List ℕ = header 2 (length out) ++ out in
    let same_table : acked.connectlist ≡ s.connectlist = (write_fd_rest fd (header 4 0) s).0 in
    subst
      (λ fds.
        Hears s (write_to_slots out acked.connectlist passed) q
          ((if fd == q then header 4 0 else []) ++ copies answer q fds))
      same_table
      (Hears-trans s passed (write_to_slots out acked.connectlist passed) q
        (if fd == q then header 4 0 else []) (copies answer q acked.connectlist)
        (write_fd-Hears fd (header 4 0) s q)
        (write_to_slots-Hears out acked.connectlist passed q h))

pub interpret-command :
    (line : List ℕ) (i : ℕ) (text pad : List ℕ) (s : IServ)
    → 1 ≤ slot s i
    → IsText text
    → 1 ≤ length pad
    → Balanced (text ++ 0 ∷ pad)
    → interpret line i (text ++ 0 ∷ pad) s ≡ ok (commanded line (slot s i) (text ++ b'\n' ∷ []) s)
unfolding interpret pass_command
interpret-command line i text pad s used is_text behind balanced = rw (
  ==_ne (slot s i) 0 (omega arith),
  (paren_check-Balanced (text ++ 0 ∷ pad)).1 balanced,
  append_newline-text text pad is_text behind,
)

pub Hears-from :
    (s₁ s s' : IServ) (q : ℕ) (bytes : List ℕ)
    → (s₁.peers q).outgoing ≡ (s.peers q).outgoing
    → Hears s₁ s' q bytes
    → Hears s s' q bytes
Hears-from s₁ s s' q bytes same h = Hears-trans s s₁ s' q [] bytes (Hears-none s s₁ q same) h

-- The state after a message that is refused.
abbrev pub denied : ℕ → IServ → IServ
denied fd s = write_fd fd mismatch (write_fd fd (header 2 24) (write_fd fd (header 4 0) s))

pub denied-Gives : (fd : ℕ) (s : IServ) → Gives s (denied fd s) []
unfolding write_fd
denied-Gives fd s = record {
  table = refl;
  given = sym (append-nil s.child_in);
  log = sym (append-nil s.ilog);
}

pub denied-Hears :
    (fd : ℕ) (s : IServ) (q : ℕ)
    → Hears s (denied fd s) q (if fd == q then header 4 0 ++ (header 2 24 ++ mismatch) else [])
denied-Hears fd s q =
    let one : IServ = write_fd fd (header 4 0) s in
    let two : IServ = write_fd fd (header 2 24) one in
    elim (ℕ_discrete fd q) [
      | yes e ↦
          let first : IServ = write_fd q (header 4 0) s in
          let second : IServ = write_fd q (header 2 24) first in
          rw (e, ==_refl q)
            (Hears-trans s first (denied q s) q (header 4 0) (header 2 24 ++ mismatch)
              (write_fd-Hears_self q (header 4 0) s)
              (Hears-trans first second (denied q s) q (header 2 24) mismatch
                (write_fd-Hears_self q (header 2 24) first)
                (write_fd-Hears_self q mismatch second)))
      | no ne ↦ rw (==_ne fd q ne) (
          Hears-trans s one (denied fd s) q [] [] (write_fd-Hears_other fd (header 4 0) s q ne) (
            Hears-trans one two (denied fd s) q [] []
              (write_fd-Hears_other fd (header 2 24) one q ne)
              (write_fd-Hears_other fd mismatch two q ne)))
    ]
