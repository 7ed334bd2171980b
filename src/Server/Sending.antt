-- ===== src/Server/Sending.antt =====
-- `send_file` of Server/rabinserver.cc, with its indices, pointers and wrapping counter, sends the
-- blocks of the reference `pieces` one after another, and then the end of the file.
use rabin_fingerprinting.Base.{
  ℕ, zero, suc, ◌+◌, ◌-◌, ◌%◌, ◌^◌, ◌≤◌, ◌<◌, ◌≡◌, refl, sym, ap, ◌∙◌, false, List, [], ◌∷◌, ◌++◌,
  length, take, drop, get_or, arith, ◌==◌, if◌then◌else◌, Result, ok, ◌>>=◌, bind_assoc, Bool-cases,
  inl, inr, ==_ne, lt→ltb, ltb-false, length-append, append_assoc, take-append, take_twice,
  drop-append, drop-drop, get_or-drop, length-take, take-append-drop,
}
use native.Mathlib.Nat.{le_refl}
use rabin_fingerprinting.Wire.{to_bytes, host_desc}
use rabin_fingerprinting.Socket.{write}
use rabin_fingerprinting.Server.Hash.{rabin_func_lem, hash_function_lem, block_number}
use rabin_fingerprinting.Server.Cache.{IsValid, store_block-take, send_piece-IsValid}
use rabin_fingerprinting.Server.Pieces.{ends_before, split, split_cut, split_go, pieces}
use rabin_fingerprinting.Server.{
  Server, Progress, insert_block, send_piece, send_until, send_round, send_loop, send_tail,
  send_file,
}

-- Sends blocks one after another.
unfoldable pub send_all : Server → List (List ℕ) → Result Server
send_all r [] = ok r
send_all r (p ∷ ps) = send_piece r p (length p) >>= λ r'. send_all r' ps

-- The descriptor of size 0, and the count that `send_file` returns after `k` blocks.
unfoldable pub send_eof : ℕ → Server → Result (ℕ × Server)
send_eof k r =
    ok (k + 1, record r { newsockfd = (write r.newsockfd (to_bytes (host_desc 0 0 false))).1 })

-- Of the buffer at the pointer, only the first `size` bytes count.
send_piece-take :
    (r : Server) (b : List ℕ) (size : ℕ)
    → 0 < r.max_size
    → send_piece r b size ≡ send_piece r (take size b) size
unfolding send_piece insert_block
send_piece-take r b size h = rw (
  hash_function_lem r b size h,
  hash_function_lem r (take size b) size h,
  take_twice size b,
  store_block-take (block_number r.max_size (take size b)) b size r.blocks,
)

send_piece_at :
    (r : Server) (p rest : List ℕ)
    → 0 < r.max_size
    → send_piece r (p ++ rest) (length p) ≡ send_piece r p (length p)
send_piece_at r p rest h =
    send_piece-take r (p ++ rest) (length p) h
    ∙ ap (λ b. send_piece r b (length p)) (take-append p rest)

-- What the loop knows at `i`: the open block lies between `prev` and `i`, and `rest` from there up to
-- the end `s`.
record At (file : List ℕ) (s i : ℕ) (p : Progress) (block : List ℕ) (b0 b1 : ℕ) (rest junk : List ℕ)
    : Type 0 where
  open_at : p.prev + length block ≡ i
  ends : i + length rest ≡ s
  from_prev : drop p.prev file ≡ block ++ (rest ++ junk)
  before : get_or file (i - 2) 0 ≡ b0
  last : get_or file (i - 1) 0 ≡ b1
  some_bytes : 1 ≤ length block
  far : 2 ≤ i
  fits : s < 2 ^ 32
  valid : IsValid p.server

module _ {file : List ℕ} {s i : ℕ} {p : Progress} {block : List ℕ} {b0 b1 : ℕ} {junk : List ℕ} where
  -- The end of the file: the open block goes out.
  tail-At :
      At file s i p block b0 b1 [] junk
      → send_tail file s p ≡ (send_all p.server (block ∷ []) >>= send_eof (p.num_blocks + 1))
  unfolding send_tail send_until send_all send_eof
  tail-At a =
      let size : s - p.prev ≡ length block = omega (arith, a.open_at, a.ends) in
      let open_end : (p.prev == s) ≡ false =
        ==_ne p.prev s (omega (arith, a.open_at, a.ends, a.some_bytes)) in
      rw (open_end, size, a.from_prev, send_piece_at p.server block junk a.valid.positive)
        (simp bind_assoc)

  from_i : (rest : List ℕ) → At file s i p block b0 b1 rest junk → drop i file ≡ rest ++ junk
  from_i rest a =
      rw (← a.open_at, ← drop-drop (length block) p.prev file, a.from_prev)
        (drop-append block (rest ++ junk))

  here :
      (b2 : ℕ) (rest : List ℕ) → At file s i p block b0 b1 (b2 ∷ rest) junk → get_or file i 0 ≡ b2
  here b2 rest a = get_or-drop i file 0 ∙ ap (λ l. get_or l 0 0) (from_i (b2 ∷ rest) a)

  -- One round on: the block was cut before `b2`, or goes on with it.
  cut_At :
      (b2 : ℕ) (rest : List ℕ) (r : Server)
      → At file s i p block b0 b1 (b2 ∷ rest) junk
      → IsValid r
      → At file s
          (i + 1)
          (record { prev = i; num_blocks = p.num_blocks + 1; server = r })
          (b2 ∷ [])
          b1
          b2
          rest
          junk
  cut_At b2 rest r a v =
      let e₁ : i + 1 - 2 ≡ i - 1 = omega (arith, a.far) in
      let e₂ : i + 1 - 1 ≡ i = omega arith in
      record {
        open_at = omega arith;
        ends = omega (arith, a.ends);
        from_prev = from_i (b2 ∷ rest) a;
        before = rw e₁ a.last;
        last = rw e₂ (here b2 rest a);
        some_bytes = omega arith;
        far = omega (arith, a.far);
        fits = a.fits;
        valid = v;
      }

  go_At :
      (b2 : ℕ) (rest : List ℕ)
      → At file s i p block b0 b1 (b2 ∷ rest) junk
      → At file s (i + 1) p (block ++ b2 ∷ []) b1 b2 rest junk
  go_At b2 rest a =
      let e₁ : i + 1 - 2 ≡ i - 1 = omega (arith, a.far) in
      let e₂ : i + 1 - 1 ≡ i = omega arith in
      record {
        open_at = omega (arith, a.open_at, length-append block (b2 ∷ []));
        ends = omega (arith, a.ends);
        from_prev = a.from_prev ∙ sym (append_assoc block (b2 ∷ []) (rest ++ junk));
        before = rw e₁ a.last;
        last = rw e₂ (here b2 rest a);
        some_bytes = omega (arith, length-append block (b2 ∷ []));
        far = omega (arith, a.far);
        fits = a.fits;
        valid = a.valid;
      }

-- The test of the round at `i` is that of the reference.
round_cut :
    (file : List ℕ) (s i : ℕ) (p : Progress) (block : List ℕ) (b0 b1 b2 : ℕ) (rest junk : List ℕ)
    → At file s i p block b0 b1 (b2 ∷ rest) junk
    → send_round file i p ≡ (
        if ends_before p.server.max_size block b0 b1 b2
        then (send_piece p.server block (length block) >>= λ r.
            ok (record { prev = i; num_blocks = p.num_blocks + 1; server = r }))
        else ok p)
unfolding send_round send_until
round_cut file s i p block b0 b1 b2 rest junk a =
    let size : i - p.prev ≡ length block = omega (arith, a.open_at) in
    rw
      (
        a.before,
        a.last,
        here b2 rest a,
        rabin_func_lem p.server b0 b1 b2 a.valid.positive,
        size,
        a.from_prev,
        send_piece_at p.server block (b2 ∷ (rest ++ junk)) a.valid.positive,
      )
      (simp bind_assoc)

-- The loop from `i` on, and what follows it, send the blocks of the rest of the file.
send_rest :
    (fuel : ℕ) (file : List ℕ) (s i : ℕ) (p : Progress) (block : List ℕ) (b0 b1 : ℕ)
    (rest junk : List ℕ)
    → length rest ≤ fuel
    → At file s i p block b0 b1 rest junk
    → let ps = split p.server.max_size block b0 b1 rest in
      (send_loop fuel file s i p >>= send_tail file s)
      ≡ (send_all p.server ps >>= send_eof (p.num_blocks + length ps))
unfolding send_loop send_all
send_rest zero file s i p block b0 b1 [] junk le a =
    rw (ltb-false i s (omega (arith, a.ends))) (unfold split in tail-At a)
send_rest zero file s i p block b0 b1 (b2 ∷ rest) junk le a = absurd (omega arith)
send_rest (suc fuel) file s i p block b0 b1 [] junk le a =
    rw (ltb-false i s (omega (arith, a.ends))) (unfold split in tail-At a)
send_rest (suc fuel) file s i p block b0 b1 (b2 ∷ rest) junk le a =
    let m = p.server.max_size in
    let below : i < s = omega (arith, a.ends) in
    let step : (i + 1) % 2 ^ 32 ≡ i + 1 = omega (arith, a.fits) in
    rw (lt→ltb i s below, round_cut file s i p block b0 b1 b2 rest junk a, step)
      (elim (Bool-cases (ends_before m block b0 b1 b2)) [
        | inl e ↦
            let (r, run, same, valid) =
              send_piece-IsValid p.server block (length block) a.valid (le_refl (length block)) in
            let ps = λ (k : ℕ). split k (b2 ∷ []) b1 b2 rest in
            let total : p.num_blocks + 1 + length (ps m) ≡ p.num_blocks + suc (length (ps m)) =
              omega arith in
            let ih =
              send_rest fuel file s (i + 1)
                (record { prev = i; num_blocks = p.num_blocks + 1; server = r }) (b2 ∷ []) b1 b2
                rest junk (omega arith) (cut_At b2 rest r a valid) in
            rw (e, split_cut m block b0 b1 b2 rest e, send_all, run)
              (ih
                ∙ ap (λ k. send_all r (ps k) >>= send_eof (p.num_blocks + 1 + length (ps k))) same
                ∙ ap (λ k. send_all r (ps m) >>= send_eof k) total)
        | inr e ↦
            let ih =
              send_rest fuel file s (i + 1) p (block ++ b2 ∷ []) b1 b2 rest junk (omega arith)
                (go_At b2 rest a) in
            rw (e, split_go m block b0 b1 b2 rest e) ih
      ])

-- With a valid cache, `send_file` does not run out of fuel and does not fault on its own: on a
-- buffer that holds `s` bytes, with `s` in 32 bits, it does what sending the blocks of the
-- reference in order, and then the end of the file, does, and counts them all.
pub send_file-pieces :
    (r : Server) (file : List ℕ) (s : ℕ)
    → IsValid r
    → s ≤ length file
    → s < 2 ^ 32
    → let ps = pieces r.max_size (take s file) in
      send_file r file s ≡ (send_all r ps >>= send_eof (length ps))
unfolding send_file
send_file-pieces r file zero v le fits = unfold send_loop send_tail pieces send_all send_eof in refl
send_file-pieces r [] (suc s) v le fits = absurd (omega arith)
send_file-pieces r (c ∷ file) (suc zero) v le fits =
    unfold send_loop send_tail send_until pieces send_all send_eof in
    (rw (send_piece_at r (c ∷ []) file v.positive) (simp bind_assoc))
send_file-pieces r (c ∷ []) (suc (suc n)) v le fits = absurd (omega arith)
send_file-pieces r (b0 ∷ b1 ∷ file) (suc (suc n)) v le fits =
    let rest = take n file in
    let start : Progress = record { prev = 0; num_blocks = 0; server = r } in
    let all : length rest ≡ n = omega (arith, length-take n file) in
    let none_yet : 0 + length (split r.max_size (b0 ∷ b1 ∷ []) b0 b1 rest)
        ≡ length (split r.max_size (b0 ∷ b1 ∷ []) b0 b1 rest) =
      omega arith in
    unfold pieces in
    (send_rest (suc (suc n)) (b0 ∷ b1 ∷ file) (suc (suc n)) 2 start (b0 ∷ b1 ∷ []) b0 b1 rest
        (drop n file) (omega arith)
        (record {
          open_at = omega arith;
          ends = omega arith;
          from_prev = ap (λ l. b0 ∷ b1 ∷ l) (sym (take-append-drop n file));
          before = refl;
          last = refl;
          some_bytes = omega arith;
          far = omega arith;
          fits = fits;
          valid = v;
        })
      ∙ rw none_yet refl)
