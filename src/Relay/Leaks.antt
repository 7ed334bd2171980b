-- ===== src/Relay/Leaks.antt =====
-- The descriptors of the turns of Integration/hrd.cc and Integration/psb.cc: every turn makes a socket
-- for the proxy and accepts one from a browser, opens files in hrd.cc, and closes the sockets that its
-- `Turn` says.
use rabin_fingerprinting.Base.{
  ℕ, zero, suc, ◌+◌, ◌≤◌, ◌≡◌, ◌≢◌, refl, sym, ap, ◌∙◌, Bool, true, false, Option, none, some, List,
  [], ◌∷◌, All, length, replicate, ltb, Bool-cases, inl, inr, if◌then◌else◌, Result, ok, fault,
  exits, null_pointer, ◌>>=◌, is_negative, arith,
}
use rabin_fingerprinting.Client.{Client}
use rabin_fingerprinting.Descriptors.Files.{
  FileTable, file_at, free, take_lowest, open_count, Opens, take_lowest-Opens, take_lowest_full,
  free_count, free_other,
}
use rabin_fingerprinting.Relay.{Visit, Turn, connect_error, forward, hrd_serve, hrd_turn}
use rabin_fingerprinting.Relay.Mains.{hrd_loop}

abbrev pub close_if : Bool → ℕ → FileTable → FileTable
close_if closed fd table = if closed then free fd table else table

-- `fopen("temporary.file", …)`: with no descriptor left it returns a null pointer, which ends the
-- program at the assertion in `receive_file`.
abbrev pub opened : Option (ℕ × FileTable) → Result FileTable
opened none = fault null_pointer
opened (some (fd, table)) = ok table

-- The `fopen` of each pass of the loop in hrd.cc; no file is closed. They stand for the file
-- `temporary`.
unfoldable pub open_files : ℕ → ℕ → FileTable → Result FileTable
open_files temporary zero table = ok table
open_files temporary (suc n) table = opened (take_lowest temporary table) >>= open_files temporary n

-- The turn behind `accept`, which ends the program if there is no descriptor left.
abbrev pub after_accept : ℕ → Turn → ℕ → Option (ℕ × FileTable) → Result FileTable
after_accept temporary turn proxy_sock_fd none = fault (exits 0)
after_accept temporary turn proxy_sock_fd (some (newsockfd, table)) =
    open_files temporary turn.files table >>= λ t.
    ok (close_if turn.browser_closed newsockfd (close_if turn.proxy_closed proxy_sock_fd t))

-- The turn behind `socket`. With no descriptor for the socket there is none for `accept` either.
abbrev pub after_socket : ℕ → Turn → ℕ → Option (ℕ × FileTable) → Result FileTable
after_socket temporary turn browser none = fault (exits 0)
after_socket temporary turn browser (some (proxy_sock_fd, table)) =
    after_accept temporary turn proxy_sock_fd (take_lowest browser table)

-- A turn whose sockets stand for the files `proxy` and `browser`.
unfoldable pub turn_table : ℕ → ℕ → ℕ → Turn → FileTable → Result FileTable
turn_table temporary proxy browser turn table =
    after_socket temporary turn browser (take_lowest proxy table)

unfoldable pub relay_table : ℕ → ℕ → ℕ → List Turn → FileTable → Result FileTable
relay_table temporary proxy browser [] table = ok table
relay_table temporary proxy browser (turn ∷ turns) table =
    turn_table temporary proxy browser turn table >>= relay_table temporary proxy browser turns

-- How many descriptors a turn leaves open.
abbrev pub left_open : Turn → ℕ
left_open turn =
    turn.files + ((if turn.proxy_closed then 0 else 1) + (if turn.browser_closed then 0 else 1))

close_if_count :
    (closed : Bool) (fd file : ℕ) (table : FileTable)
    → file_at table fd ≡ some file
    → (open_count (close_if closed fd table) + (if closed then 1 else 0) ≡ open_count table)
      × (length (close_if closed fd table) ≡ length table)
close_if_count true fd file table e =
    let (count, same) = free_count fd file table e in (omega (arith, count), same)
close_if_count false fd file table e = (omega arith, refl)

close_if_other :
    (closed : Bool) (fd q g : ℕ) (table : FileTable)
    → q ≢ fd
    → file_at table q ≡ some g
    → file_at (close_if closed fd table) q ≡ some g
close_if_other true fd q g table ne h = free_other fd q g table ne h
close_if_other false fd q g table ne h = h

left_open_lem :
    (p b : Bool) (n before middle after : ℕ)
    → middle + (if p then 1 else 0) ≡ before + 2 + n
    → after + (if b then 1 else 0) ≡ middle
    → after ≡ before + (n + ((if p then 0 else 1) + (if b then 0 else 1)))
left_open_lem true true n before middle after h k = omega arith
left_open_lem true false n before middle after h k = omega arith
left_open_lem false true n before middle after h k = omega arith
left_open_lem false false n before middle after h k = omega arith

-- With enough descriptors free the files are opened, and what was open before still is.
open_files-open :
    (temporary n : ℕ) (table : FileTable)
    → open_count table + n ≤ length table
    → (after : FileTable) × (open_files temporary n table ≡ ok after)
      × (open_count after ≡ open_count table + n)
      × (length after ≡ length table)
      × ((q g : ℕ) → file_at table q ≡ some g → file_at after q ≡ some g)
unfolding open_files Opens
open_files-open temporary zero table room = (table, refl, omega arith, refl, λ q g h. h)
open_files-open temporary (suc n) table room =
    let (fd, t₁, e₁, (_, count₁, same₁, others₁)) =
      take_lowest-Opens temporary table (omega arith) in
    let (t₂, run, count₂, same₂, others₂) = open_files-open temporary n t₁ (omega arith) in
    (
      t₂,
      ap (λ m. opened m >>= open_files temporary n) e₁ ∙ run,
      omega arith,
      same₂ ∙ same₁,
      λ q g h. others₂ q g (others₁ q g h).0,
    )

-- With two descriptors free beside those of its files a turn goes through.
turn_table-open :
    (temporary proxy browser : ℕ) (turn : Turn) (table : FileTable)
    → open_count table + 2 + turn.files ≤ length table
    → (after : FileTable) × (turn_table temporary proxy browser turn table ≡ ok after)
      × (open_count after ≡ open_count table + left_open turn)
      × (length after ≡ length table)
unfolding turn_table Opens
turn_table-open temporary proxy browser turn table room =
    let (pfd, t₁, e₁, (at_p, count₁, same₁, _)) = take_lowest-Opens proxy table (omega arith) in
    let (bfd, t₂, e₂, (at_b, count₂, same₂, others)) = take_lowest-Opens browser t₁ (omega arith) in
    let (still, ne) = others pfd proxy at_p in
    let (t, run, count, same, kept) = open_files-open temporary turn.files t₂ (omega arith) in
    let (count₃, same₃) = close_if_count turn.proxy_closed pfd proxy t (kept pfd proxy still) in
    let t₃ : FileTable = close_if turn.proxy_closed pfd t in
    let at_b' =
      close_if_other turn.proxy_closed pfd bfd browser t (λ e. ne (sym e))
        (kept bfd browser at_b) in
    let (count₄, same₄) = close_if_count turn.browser_closed bfd browser t₃ at_b' in
    (
      close_if turn.browser_closed bfd t₃,
      ap (after_socket temporary turn browser) e₁
          ∙ ap (after_accept temporary turn pfd) e₂
          ∙ ap
              (λ m.
                m >>= λ t. ok (close_if turn.browser_closed bfd (close_if turn.proxy_closed pfd t)))
              run,
      left_open_lem turn.proxy_closed turn.browser_closed turn.files (open_count table)
          (open_count t₃) (open_count (close_if turn.browser_closed bfd t₃)) (count₃ ∙ omega arith)
          count₄,
      same₄ ∙ same₃ ∙ same ∙ same₂ ∙ same₁,
    )

turn_table_full :
    (temporary proxy browser : ℕ) (turn : Turn) (table : FileTable)
    → length table ≤ open_count table + 1
    → turn_table temporary proxy browser turn table ≡ fault (exits 0)
unfolding turn_table Opens
turn_table_full temporary proxy browser turn table full =
    elim (Bool-cases (ltb (open_count table) (length table))) [
      | inl one ↦
          let (pfd, t₁, e₁, (_, count, same, _)) = take_lowest-Opens proxy table (ground arith) in
          ap (after_socket temporary turn browser) e₁
          ∙ ap (after_accept temporary turn pfd) (take_lowest_full browser t₁ (omega arith))
      | inr no_more ↦
          ap (after_socket temporary turn browser) (take_lowest_full proxy table (ground arith))
    ]

-- What a turn does when the proxy cannot be reached.
abbrev pub unreached_turn : Turn
unreached_turn = record {
  to_proxy = [];
  to_browser = connect_error;
  proxy_closed = false;
  browser_closed = true;
  files = 0;
}

-- A visit that is read while the proxy cannot be reached.
abbrev pub Unreached : Visit → Type 0
Unreached v =
    (is_negative v.accepted ≡ false)
    × ((bytes : List ℕ) × (v.request ≡ some bytes))
    × (v.connected ≡ false)

hrd_serve-Unreached :
    (c : Client) (v : Visit) → Unreached v → hrd_serve c v ≡ ok (unreached_turn, c)
unfolding hrd_serve hrd_turn forward
hrd_serve-Unreached c v (accepted, (bytes, request), lost) = rw (accepted, request, lost) refl

hrd_loop-Unreached :
    (c : Client) (vs : List Visit)
    → All Unreached vs
    → hrd_loop c vs ≡ ok (replicate (length vs) unreached_turn, c)
unfolding hrd_loop
hrd_loop-Unreached c [] h = refl
hrd_loop-Unreached c (v ∷ vs) h = rw (hrd_serve-Unreached c v h.0, hrd_loop-Unreached c vs h.1) refl

relay_table_end :
    (temporary proxy browser n : ℕ) (table : FileTable)
    → length table ≤ open_count table + suc n
    → relay_table temporary proxy browser (replicate (suc n) unreached_turn) table ≡ fault (exits 0)
unfolding relay_table
relay_table_end temporary proxy browser zero table full =
    ap (λ m. m >>= relay_table temporary proxy browser [])
      (turn_table_full temporary proxy browser unreached_turn table full)
relay_table_end temporary proxy browser (suc n) table full =
    let rest = relay_table temporary proxy browser (replicate (suc n) unreached_turn) in
    elim (Bool-cases (ltb (open_count table + 1) (length table))) [
      | inl room ↦
          let (after, run, count, same) =
            turn_table-open temporary proxy browser unreached_turn table (ground arith) in
          ap (λ m. m >>= rest) run ∙ relay_table_end temporary proxy browser n after (omega arith)
      | inr none_left ↦
          ap (λ m. m >>= rest)
            (turn_table_full temporary proxy browser unreached_turn table (ground arith))
    ]

-- Every turn of hrd.cc in which the proxy cannot be reached tells its browser so, closes the browser's
-- socket, and leaves the one that it has made for the proxy. So after as many such turns as there are
-- free descriptors at most, `accept` fails and the program ends.
pub hrd_loop_exhausted :
    (temporary proxy browser : ℕ) (c : Client) (vs : List Visit) (table : FileTable)
    → All Unreached vs
    → 1 ≤ length vs
    → length table ≤ open_count table + length vs
    → (hrd_loop c vs ≡ ok (replicate (length vs) unreached_turn, c))
      × (relay_table temporary proxy browser (replicate (length vs) unreached_turn) table
          ≡ fault (exits 0))
hrd_loop_exhausted temporary proxy browser c [] table h some_turns full = absurd (omega arith)
hrd_loop_exhausted temporary proxy browser c (v ∷ vs) table h some_turns full = (
  hrd_loop-Unreached c (v ∷ vs) h,
  relay_table_end temporary proxy browser (length vs) table full,
)

unfoldable pub all_left_open : List Turn → ℕ
all_left_open [] = 0
all_left_open (turn ∷ turns) = left_open turn + all_left_open turns

-- While two descriptors are free beside those that the turns leave open, both relays go on, and only
-- these stay open.
pub relay_table-open :
    (temporary proxy browser : ℕ) (turns : List Turn) (table : FileTable)
    → open_count table + all_left_open turns + 2 ≤ length table
    → (after : FileTable) × (relay_table temporary proxy browser turns table ≡ ok after)
      × (open_count after ≡ open_count table + all_left_open turns)
unfolding relay_table all_left_open
relay_table-open temporary proxy browser [] table room = (table, refl, omega arith)
relay_table-open temporary proxy browser (turn ∷ turns) table room =
    let (t₁, run₁, count₁, same) =
      turn_table-open temporary proxy browser turn table (omega arith) in
    let (t₂, run₂, count₂) = relay_table-open temporary proxy browser turns t₁ (omega arith) in
    (t₂, ap (λ m. m >>= relay_table temporary proxy browser turns) run₁ ∙ run₂, omega arith)
