-- ===== src/Interpreter/Invariant.antt =====
-- The invariant of the interpreter server, and that serving a connection keeps it.
use rabin_fingerprinting.Base.{ℕ, zero, suc, ◌≡◌, refl, ap, ◌∙◌, List, [], ◌∷◌, ◌++◌, length, ok}
use rabin_fingerprinting.Interpreter.{IServ, write_fd, close_fd, set}
use rabin_fingerprinting.Interpreter.Keeping.{Closed}
use rabin_fingerprinting.Interpreter.Parens.{Balanced}
use rabin_fingerprinting.Interpreter.Service.{drop_slot, append_newline}

-- What the child may have been given: texts of messages with balanced parentheses, one after the
-- other, each up to its first zero byte and with a newline.
pub data Commands : List ℕ → Type 0 where
  start : Commands []
  next :
      {bytes : List ℕ} (before msg text : List ℕ)
      → Commands before
      → Balanced msg
      → append_newline msg ≡ ok text
      → bytes ≡ before ++ text
      → Commands bytes

-- The table has its size, the log has what the child was given, and that is commands only.
pub record IsValid (s : IServ) : Type 0 where
  pub size : length s.connectlist ≡ 200
  pub logged : s.ilog ≡ s.child_in
  pub commands : Commands s.child_in

pub close_fd-IsValid : (fd : ℕ) (s : IServ) → IsValid s → IsValid (close_fd fd s)
unfolding close_fd
close_fd-IsValid fd s v = record { size = v.size; logged = v.logged; commands = v.commands }

length-set : (cs : List ℕ) (i fd : ℕ) → length (set cs i fd) ≡ length cs
length-set [] i fd = refl
length-set (c ∷ cs) zero fd = refl
length-set (c ∷ cs) (suc i) fd = ap suc (length-set cs i fd)

-- The service of any slot keeps the invariant.
pub IsValid-Closed : (i : ℕ) → Closed i IsValid
unfolding write_fd drop_slot close_fd
IsValid-Closed i = record {
  writes = λ fd bytes s v. record { size = v.size; logged = v.logged; commands = v.commands };
  reads = λ rest s v. record { size = v.size; logged = v.logged; commands = v.commands };
  drops = λ s v. record {
    size = length-set s.connectlist i 0 ∙ v.size;
    logged = v.logged;
    commands = v.commands;
  };
  gives = λ msg text s v b h. record {
    size = v.size;
    logged = ap (λ l. l ++ text) v.logged;
    commands = next s.child_in msg text v.commands b h refl;
  };
}
