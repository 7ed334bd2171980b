-- ===== src/Tests/Plumbing.antt =====
-- The interpreter's descriptors at small tables: 10 to 12 are the terminal's files, 13 and 14 the ends
-- of a pipe, 15 the socket and 16 the file `intermediate`.
use rabin_fingerprinting.Base.{◌+◌, ◌≡◌, refl, none, some, [], ◌∷◌}
use rabin_fingerprinting.Descriptors.Files.{FileTable, file_at, free, open_count}
use rabin_fingerprinting.Interpreter.Plumbing.{
  interpreter_child, tail_child, answers, interpreter_child-tail_child,
}
use rabin_fingerprinting.Interpreter.Leaks.{answers_lem}

abbrev above : FileTable
above = some 13 ∷ some 14 ∷ some 15 ∷ some 16 ∷ none ∷ none ∷ []

interpreter_child-tail_child_example :
    (interpreter_child 6 3 4 (some 10 ∷ some 11 ∷ some 12 ∷ above)
      ≡ some 13 ∷ some 16 ∷ some 16 ∷ free 0 (free 1 (free 3 above)))
    × (tail_child 3 4 (some 10 ∷ some 11 ∷ some 12 ∷ above)
        ≡ some 10 ∷ some 14 ∷ some 12 ∷ free 0 (free 1 above))
unfolding file_at
interpreter_child-tail_child_example =
    interpreter_child-tail_child 3 0 1 10 11 12 16 13 14 above refl refl refl

-- With two free descriptors there is one answer.
answers_lem_example :
    ((after : FileTable) × (answers 1 17 18 above ≡ some after) × (open_count after ≡ 4 + 1))
    × (answers 2 17 18 above ≡ none)
unfolding open_count
answers_lem_example = answers_lem 1 17 18 above refl
