-- ===== src/Descriptors/Files.antt =====
-- The table of a process's descriptors, up to the system's limit on their number. Open files are
-- numbered.
use rabin_fingerprinting.Base.{
  ℕ, zero, suc, ◌≤◌, ◌<◌, ◌≡◌, ◌≢◌, refl, ap, Option, none, some, List, [], ◌∷◌, length, arith,
}

-- The table of descriptors of a process: what each number stands for, up to the system's limit.
abbrev pub FileTable : Type 0
FileTable = List (Option ℕ)

-- The file of a descriptor, and the table without it.
unfoldable pub file_at : FileTable → ℕ → Option ℕ
file_at [] fd = none
file_at (f ∷ table) zero = f
file_at (f ∷ table) (suc fd) = file_at table fd

unfoldable pub free : ℕ → FileTable → FileTable
free fd [] = []
free zero (f ∷ table) = none ∷ table
free (suc fd) (f ∷ table) = f ∷ free fd table

-- The lowest free descriptor is taken; `none` if there is none.
unfoldable pub take_lowest : ℕ → FileTable → Option (ℕ × FileTable)
take_lowest file [] = none
take_lowest file (none ∷ table) = some (0, some file ∷ table)
take_lowest file (some f ∷ table) = elim (take_lowest file table) [
  | none ↦ none
  | some (fd, rest) ↦ some (suc fd, some f ∷ rest)
]

-- The number of open descriptors.
unfoldable pub open_count : FileTable → ℕ
open_count [] = 0
open_count (none ∷ table) = open_count table
open_count (some f ∷ table) = suc (open_count table)

open_count-length : (table : FileTable) → open_count table ≤ length table
unfolding open_count
open_count-length [] = omega arith
open_count-length (none ∷ table) = let h = open_count-length table in omega arith
open_count-length (some f ∷ table) = let h = open_count-length table in omega arith

-- One descriptor more is open, it stands for the file, and those that were open are as they were.
unfoldable pub Opens : ℕ → FileTable → ℕ → FileTable → Type 0
Opens file before fd after =
    (file_at after fd ≡ some file)
    × (open_count after ≡ suc (open_count before))
    × (length after ≡ length before)
    × ((q g : ℕ) → file_at before q ≡ some g → (file_at after q ≡ some g) × (q ≢ fd))

others_first :
    (file : ℕ) (table : FileTable) (q g : ℕ)
    → file_at (none ∷ table) q ≡ some g
    → (file_at (some file ∷ table) q ≡ some g) × (q ≢ 0)
unfolding file_at
others_first file table zero g h = cc h
others_first file table (suc q) g h = (h, λ e. absurd (omega arith))

others_later :
    (f : ℕ) (table after : FileTable) (fd : ℕ)
    → ((q g : ℕ) → file_at table q ≡ some g → (file_at after q ≡ some g) × (q ≢ fd))
    → (q g : ℕ) → file_at (some f ∷ table) q ≡ some g
    → (file_at (some f ∷ after) q ≡ some g) × (q ≢ suc fd)
unfolding file_at
others_later f table after fd keep zero g h = (h, λ e. absurd (omega arith))
others_later f table after fd keep (suc q) g h =
    let (same, ne) = keep q g h in (same, λ e. ne (omega arith))

pub take_lowest-Opens :
    (file : ℕ) (table : FileTable)
    → open_count table < length table
    → (fd : ℕ) × (after : FileTable) × (take_lowest file table ≡ some (fd, after))
      × Opens file table fd after
unfolding take_lowest open_count file_at Opens
take_lowest-Opens file [] h = absurd (omega arith)
take_lowest-Opens file (none ∷ table) h =
    (0, some file ∷ table, refl, (refl, refl, refl, others_first file table))
take_lowest-Opens file (some f ∷ table) h =
    let (fd, after, e, (at_fd, count, same, others)) = take_lowest-Opens file table (omega arith) in
    (
      suc fd,
      some f ∷ after,
      rw e refl,
      (at_fd, ap suc count, ap suc same, others_later f table after fd others),
    )

pub take_lowest_full :
    (file : ℕ) (table : FileTable) → length table ≤ open_count table → take_lowest file table ≡ none
unfolding take_lowest open_count
take_lowest_full file [] h = refl
take_lowest_full file (none ∷ table) h =
    let some_free = open_count-length table in absurd (omega arith)
take_lowest_full file (some f ∷ table) h = rw (take_lowest_full file table (omega arith)) refl

pub free_count :
    (fd file : ℕ) (table : FileTable)
    → file_at table fd ≡ some file
    → (suc (open_count (free fd table)) ≡ open_count table)
      × (length (free fd table) ≡ length table)
unfolding free open_count file_at
free_count fd file [] e = cc
free_count zero file (none ∷ table) e = cc
free_count zero file (some f ∷ table) e = (refl, refl)
free_count (suc fd) file (none ∷ table) e =
    let (count, same) = free_count fd file table e in (count, ap suc same)
free_count (suc fd) file (some f ∷ table) e =
    let (count, same) = free_count fd file table e in (ap suc count, ap suc same)

pub free_other :
    (fd q g : ℕ) (table : FileTable)
    → q ≢ fd
    → file_at table q ≡ some g
    → file_at (free fd table) q ≡ some g
unfolding free file_at
free_other fd q g [] ne h = h
free_other zero zero g (f ∷ table) ne h = absurd (ne refl)
free_other zero (suc q) g (f ∷ table) ne h = h
free_other (suc fd) zero g (f ∷ table) ne h = h
free_other (suc fd) (suc q) g (f ∷ table) ne h = free_other fd q g table (λ e. ne (ap suc e)) h
