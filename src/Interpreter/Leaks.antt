-- ===== src/Interpreter/Leaks.antt =====
-- How many answers the parent of Files/C/NewIServ.c can give before it is out of descriptors.
use rabin_fingerprinting.Base.{
  ℕ, zero, suc, ◌+◌, ◌≤◌, ◌≡◌, refl, ap, ◌∙◌, inl, inr, none, some, length, arith, Bool-cases, ltb,
}
use rabin_fingerprinting.Descriptors.Files.{
  FileTable, free, open_count, Opens, take_lowest-Opens, take_lowest_full, free_count,
}
use rabin_fingerprinting.Interpreter.Plumbing.{
  pipe, joined, with_writer, close_writer, answer_parent, and_then, answers,
}

-- An answer leaves one descriptor more open than before.
answer_parent-open :
    (reader writer : ℕ) (table : FileTable)
    → open_count table + 2 ≤ length table
    → (after : FileTable) × (answer_parent reader writer table ≡ some after)
      × (open_count after ≡ suc (open_count table))
      × (length after ≡ length table)
unfolding answer_parent pipe Opens
answer_parent-open reader writer table room =
    let (fd0, table', e, (_, count, same, _)) = take_lowest-Opens reader table (omega arith) in
    let (fd1, table'', e', (at_fd1, count', same', _)) =
      take_lowest-Opens writer table' (omega arith) in
    let (count'', same'') = free_count fd1 writer table'' at_fd1 in
    (
      free fd1 table'',
      ap (λ o. close_writer (with_writer writer o)) e ∙ ap (λ o. close_writer (joined fd0 o)) e',
      omega arith,
      omega arith,
    )

-- With one free descriptor, or none, there is no pipe.
answer_parent_full :
    (reader writer : ℕ) (table : FileTable)
    → length table ≤ suc (open_count table)
    → answer_parent reader writer table ≡ none
unfolding answer_parent pipe Opens
answer_parent_full reader writer table full =
    elim (Bool-cases (ltb (open_count table) (length table))) [
      | inl one ↦
          let (fd0, table', e, (_, count, same, _)) =
            take_lowest-Opens reader table (ground arith) in
          ap (λ o. close_writer (with_writer writer o)) e
          ∙ ap (λ o. close_writer (joined fd0 o)) (take_lowest_full writer table' (omega arith))
      | inr no_more ↦
          ap (λ o. close_writer (with_writer writer o))
            (take_lowest_full reader table (ground arith))
    ]

answers-open :
    (k reader writer : ℕ) (table : FileTable)
    → open_count table + k + 1 ≤ length table
    → (after : FileTable) × (answers k reader writer table ≡ some after)
      × (open_count after ≡ open_count table + k)
unfolding answers
answers-open zero reader writer table room = (table, refl, omega arith)
answers-open (suc k) reader writer table room =
    let (table', e, count, same) = answer_parent-open reader writer table (omega arith) in
    let (after, run, count') = answers-open k reader writer table' (omega arith) in
    (after, ap (λ o. and_then o (answers k reader writer)) e ∙ run, omega arith)

answers_end :
    (k reader writer : ℕ) (table : FileTable)
    → length table ≡ open_count table + k + 1
    → answers (suc k) reader writer table ≡ none
unfolding answers
answers_end zero reader writer table full =
    ap (λ o. and_then o (answers zero reader writer))
      (answer_parent_full reader writer table (omega arith))
answers_end (suc k) reader writer table full =
    let (table', e, count, same) = answer_parent-open reader writer table (omega arith) in
    ap (λ o. and_then o (answers (suc k) reader writer)) e
    ∙ answers_end k reader writer table' (omega arith)

-- With `k` and one more free descriptors, and no connection opened or closed in between, the server
-- gives `k` answers, each of which leaves a descriptor open; for the next there is no pipe.
pub answers_lem :
    (k reader writer : ℕ) (table : FileTable)
    → length table ≡ open_count table + k + 1
    → ((after : FileTable) × (answers k reader writer table ≡ some after)
        × (open_count after ≡ open_count table + k))
      × (answers (suc k) reader writer table ≡ none)
answers_lem k reader writer table full =
    (answers-open k reader writer table (omega arith), answers_end k reader writer table full)
