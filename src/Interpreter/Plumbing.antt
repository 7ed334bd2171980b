-- ===== src/Interpreter/Plumbing.antt =====
-- The descriptors of Files/C/NewIServ.c: what the two kinds of child have when they start their
-- program, and what the parent keeps of every answer. Open files are numbered.
use rabin_fingerprinting.Base.{ℕ, zero, suc, ◌≡◌, ap, ◌∙◌, Option, none, some, ◌∷◌}
use rabin_fingerprinting.Descriptors.Files.{FileTable, file_at, free, take_lowest}

-- `dup`, whose result is not used: on failure the table stays.
abbrev placed : Option (ℕ × FileTable) → FileTable → FileTable
placed none table = table
placed (some (new, table')) table = table'

abbrev copied : Option ℕ → FileTable → FileTable
copied none table = table
copied (some file) table = placed (take_lowest file table) table

unfoldable pub dup : ℕ → FileTable → FileTable
dup fd table = copied (file_at table fd) table

-- `pipe`, over the files at its two ends: the two descriptors, and the table.
abbrev pub joined : ℕ → Option (ℕ × FileTable) → Option (ℕ × (ℕ × FileTable))
joined fd0 none = none
joined fd0 (some (fd1, table)) = some (fd0, (fd1, table))

abbrev pub with_writer : ℕ → Option (ℕ × FileTable) → Option (ℕ × (ℕ × FileTable))
with_writer writer none = none
with_writer writer (some (fd0, table)) = joined fd0 (take_lowest writer table)

unfoldable pub pipe : ℕ → ℕ → FileTable → Option (ℕ × (ℕ × FileTable))
pipe reader writer table = with_writer writer (take_lowest reader table)

-- The interpreter's process, from `fork` to `execl`.
unfoldable pub interpreter_child : ℕ → ℕ → ℕ → FileTable → FileTable
interpreter_child inter_fd fd0 fd1 table =
    let errors : FileTable = dup inter_fd (free 2 table) in
    let output : FileTable = dup inter_fd (free 1 errors) in
    let input : FileTable = dup fd0 (free 0 output) in free fd0 (free fd1 (free inter_fd input))

-- The process of `tail` in `write_to_all`.
unfoldable pub tail_child : ℕ → ℕ → FileTable → FileTable
tail_child fd0 fd1 table = free fd0 (free fd1 (dup fd1 (free 1 table)))

-- The parent in `write_to_all`: the reading end stays open with `inter_in`. `none`: there is no pipe,
-- and `fd` is used without a value.
abbrev pub close_writer : Option (ℕ × (ℕ × FileTable)) → Option FileTable
close_writer none = none
close_writer (some (fd0, (fd1, table))) = some (free fd1 table)

unfoldable pub answer_parent : ℕ → ℕ → FileTable → Option FileTable
answer_parent reader writer table = close_writer (pipe reader writer table)

-- So many answers, one after the other.
abbrev pub and_then : Option FileTable → (FileTable → Option FileTable) → Option FileTable
and_then none next = none
and_then (some table) next = next table

unfoldable pub answers : ℕ → ℕ → ℕ → FileTable → Option FileTable
answers zero reader writer table = some table
answers (suc k) reader writer table =
    and_then (answer_parent reader writer table) (answers k reader writer)

-- In a process that has 0, 1 and 2 open, and a pipe and the file `intermediate` open under other
-- numbers: the interpreter that is forked from it reads from the pipe and writes its output and its
-- errors to `intermediate`, and a tail that is forked from it writes its output to the pipe, its input
-- and errors being the parent's. The numbers 3 and above of what was copied, and of both ends of the
-- pipe, are closed, and nothing else changes.
pub interpreter_child-tail_child :
    (i p q : ℕ) (a b c file reader writer : ℕ) (table : FileTable)
    → file_at table i ≡ some file
    → file_at table p ≡ some reader
    → file_at table q ≡ some writer
    → (interpreter_child
          (suc (suc (suc i)))
          (suc (suc (suc p)))
          (suc (suc (suc q)))
          (some a ∷ some b ∷ some c ∷ table)
        ≡ some reader ∷ some file ∷ some file ∷ free p (free q (free i table)))
      × (tail_child (suc (suc (suc p))) (suc (suc (suc q))) (some a ∷ some b ∷ some c ∷ table)
          ≡ some a ∷ some writer ∷ some c ∷ free p (free q table))
unfolding interpreter_child tail_child dup file_at free take_lowest
interpreter_child-tail_child i p q a b c file reader writer table at_i at_p at_q =
    let fd = suc (suc (suc i)) in
    let fd0 = suc (suc (suc p)) in
    let fd1 = suc (suc (suc q)) in
    let close : FileTable → FileTable = λ t. free fd0 (free fd1 (free fd t)) in
    (
      ap
            (λ f.
              close
                (dup fd0 (free 0 (dup fd (free 1 (copied f (some a ∷ some b ∷ none ∷ table)))))))
            at_i
          ∙ (ap (λ f. close (dup fd0 (free 0 (copied f (some a ∷ none ∷ some file ∷ table))))) at_i
              ∙ ap (λ f. close (copied f (none ∷ some file ∷ some file ∷ table))) at_p),
      ap (λ f. free fd0 (free fd1 (copied f (some a ∷ none ∷ some c ∷ table)))) at_q,
    )
