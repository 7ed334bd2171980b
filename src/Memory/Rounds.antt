-- ===== src/Memory/Rounds.antt =====
-- The loop of `send_file` with pointers and by value, and what a round allocates.
use rabin_fingerprinting.Base.{
  ℕ, zero, suc, ◌+◌, ◌-◌, ◌*◌, ◌/◌, ◌%◌, ◌^◌, ◌<◌, ◌≡◌, refl, ap, subst, Bool, true, false, ◌||◌,
  List, [], ◌∷◌, ◌++◌, take, drop, get_or, ltb, leb, ◌==◌, ==_ne, ok, >>=-eq-ok, arith, Bool-cases,
  inl, inr,
}
use rabin_fingerprinting.Server
use rabin_fingerprinting.Server.{Server, max_bytes, hash_loop, remainder}
use rabin_fingerprinting.Memory.{Owner, hash_block, new_array}
use rabin_fingerprinting.Memory.Cells.{Entry-map, Holds-frame}
use rabin_fingerprinting.Memory.Files.{rabin_func, Progress, send_until, send_round, send_loop}
use rabin_fingerprinting.Memory.Inserts.{Represents, remainder_lem}
use rabin_fingerprinting.Memory.Writes.{send_piece-Represents}

-- An array more changes no block.
more_Represents :
    {s : Owner} {r : Server} (bytes : List ℕ)
    → Represents s r
    → Represents (record s { memory = new_array bytes s.memory }) r
more_Represents {s} {r} bytes rep = record {
  maps = record {
    entry = λ n.
        Entry-map (s.blocks n) (r.blocks n)
          (λ p x e h.
            Holds-frame h (omega arith) refl
              (λ d below. rw (==_ne s.memory.next d (λ z. absurd (omega arith))) refl))
          (rep.maps.entry n);
    apart = rep.maps.apart;
  };
  owned = rep.owned;
  positive = rep.positive;
  same_size = rep.same_size;
  same_socket = rep.same_socket;
}

rabin_func-Represents :
    {s : Owner} {r : Server} (b0 b1 b2 : ℕ)
    → Represents s r
    → (h : ℕ) × (s' : Owner) × (rabin_func s b0 b1 b2 ≡ ok (h, s'))
      × (Server.rabin_func r b0 b1 b2 ≡ ok h)
      × Represents s' r
      × (s'.memory.array_count ≡ suc s.memory.array_count)
unfolding rabin_func hash_block Server.rabin_func Server.hash_function
rabin_func-Represents {s} {r} b0 b1 b2 rep =
    let str = take 3 (b0 ∷ b1 ∷ b2 ∷ []) ++ 0 ∷ [] in
    let hash : remainder (hash_loop 5381 str) r.max_size ≡ ok (hash_loop 5381 str % r.max_size) =
      remainder_lem _ r.max_size rep.positive in
    (
      hash_loop 5381 str % r.max_size % (max_bytes / 2),
      record s { memory = new_array str s.memory },
      rw (rep.same_size, hash) refl,
      rw hash refl,
      more_Represents str rep,
      refl,
    )

-- The variables of `send_file` with pointers and by value.
pub record Matches (p : Progress) (q : Server.Progress) : Type 0 where
  pub same_prev : p.prev ≡ q.prev
  pub same_blocks : p.num_blocks ≡ q.num_blocks
  pub represents : Represents p.owner q.server

-- Two arrays for every block, and `k` more.
abbrev pub Allocated : Progress → Progress → ℕ → Type 0
Allocated p p' k =
    p'.owner.memory.array_count + 2 * p.num_blocks
    ≡ p.owner.memory.array_count + 2 * p'.num_blocks + k

pub send_until-Matches :
    {p : Progress} {q q' : Server.Progress} (file : List ℕ) (until : ℕ)
    → Matches p q
    → Server.send_until file until q ≡ ok q'
    → (p' : Progress) × (send_until file until p ≡ ok p') × Matches p' q' × Allocated p p' 0
unfolding send_until Server.send_until
send_until-Matches {p} {q} {q'} file until m run =
    let (r, sent, last) =
      >>=-eq-ok (Server.send_piece q.server (drop q.prev file) (until - q.prev)) _ run in
    let (s, run', rep, count) = send_piece-Represents _ _ m.represents sent in
    let p' = record p { num_blocks = p.num_blocks + 1; owner = s } in
    let m' : Matches p' (record q { num_blocks = q.num_blocks + 1; server = r }) = record {
      same_prev = m.same_prev;
      same_blocks = ap (λ n. n + 1) m.same_blocks;
      represents = rep;
    } in
    (p', rw (m.same_prev, run') refl, subst (Matches p') (cc last) m', omega (arith, count))

send_round-Matches :
    {p : Progress} {q q' : Server.Progress} (file : List ℕ) (i : ℕ)
    → Matches p q
    → Server.send_round file i q ≡ ok q'
    → (p' : Progress) × (send_round file i p ≡ ok p') × Matches p' q' × Allocated p p' 1
unfolding send_round Server.send_round
send_round-Matches {p} {q} {q'} file i m run =
    let (h, s, run₁, hashed, rep, count) =
      rabin_func-Represents (get_or file (i - 2) 0) (get_or file (i - 1) 0) (get_or file i 0)
        m.represents in
    let p₁ = record p { owner = s } in
    let m₁ : Matches p₁ q = record {
      same_prev = m.same_prev;
      same_blocks = m.same_blocks;
      represents = rep;
    } in
    let test : (c : Bool)
        → (h == 0 || leb max_bytes (i - p.prev)) ≡ c
        → (h == 0 || leb max_bytes (i - q.prev)) ≡ c =
      λ c e. rw (← m.same_prev) e in
    elim (Bool-cases (h == 0 || leb max_bytes (i - p.prev))) [
      | inr go ↦ (
        p₁,
        rw (run₁, go) refl,
        subst (Matches p₁) (cc (rw (Server.send_round, hashed, test _ go) at run)) m₁,
        omega (arith, count),
      )
      | inl cut ↦
          let (q₂, run₂, last) =
            >>=-eq-ok (Server.send_until file i q) _
              (rw (Server.send_round, hashed, test _ cut) at run) in
          let (p₂, done, m₂, count₂) = send_until-Matches file i m₁ run₂ in
          let m₃ : Matches (record p₂ { prev = i }) (record q₂ { prev = i }) = record {
            same_prev = refl;
            same_blocks = m₂.same_blocks;
            represents = m₂.represents;
          } in
          (
            record p₂ { prev = i },
            rw (run₁, cut, done) refl,
            subst (Matches (record p₂ { prev = i })) (cc last) m₃,
            omega (arith, count, count₂),
          )
    ]

next_round :
    (a b c s i x y z : ℕ)
    → ltb i s ≡ true
    → s < 2 ^ 32
    → b + 2 * x ≡ a + 2 * y + 1
    → c + 2 * y ≡ b + 2 * z + (s - (i + 1) % 2 ^ 32)
    → c + 2 * x ≡ a + 2 * z + (s - i)
next_round a b c s i x y z below fits h h' =
    let lt : i < s = ground arith in
    let small : (i + 1) % 2 ^ 32 ≡ i + 1 = omega arith in omega (arith, rw small at h')

no_round : (s i : ℕ) → ltb i s ≡ false → s - i ≡ 0
no_round s i e = ground arith

-- One array for every round.
pub send_loop-Matches :
    (fuel : ℕ) {p : Progress} {q q' : Server.Progress} (file : List ℕ) (s i : ℕ)
    → s < 2 ^ 32
    → Matches p q
    → Server.send_loop fuel file s i q ≡ ok q'
    → (p' : Progress) × (send_loop fuel file s i p ≡ ok p') × Matches p' q' × Allocated p p' (s - i)
unfolding send_loop Server.send_loop
send_loop-Matches zero {p} {q} {q'} file s i fits m run = elim (Bool-cases (ltb i s)) [
  | inl below ↦ cc (rw below at run)
  | inr end ↦
      (p, rw end refl, subst (Matches p) (cc (rw end at run)) m, omega (arith, no_round s i end))
]
send_loop-Matches (suc fuel) {p} {q} {q'} file s i fits m run = elim (Bool-cases (ltb i s)) [
  | inr end ↦
      (p, rw end refl, subst (Matches p) (cc (rw end at run)) m, omega (arith, no_round s i end))
  | inl below ↦
      let (q₁, run₁, rest) = >>=-eq-ok (Server.send_round file i q) _ (rw below at run) in
      let (p₁, done, m₁, count₁) = send_round-Matches file i m run₁ in
      let (p₂, done₂, m₂, count₂) = send_loop-Matches fuel file s ((i + 1) % 2 ^ 32) fits m₁ rest in
      (p₂, rw (below, done) done₂, m₂, next_round _ _ _ s i _ _ _ below fits count₁ count₂)
]
