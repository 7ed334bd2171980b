-- ===== src/Memory/Leaks.antt =====
-- What `send_file` leaves allocated.
use rabin_fingerprinting.Base.{
  ℕ, suc, ◌+◌, ◌-◌, ◌*◌, ◌^◌, ◌<◌, ◌≤◌, ◌≡◌, refl, ap, subst, ◌∙◌, true, false, List, length, ◌==◌,
  ok, >>=-eq-ok, arith, Bool-cases, inl, inr,
}
use rabin_fingerprinting.Wire.{to_bytes, host_desc}
use rabin_fingerprinting.Socket.{write}
use rabin_fingerprinting.Server
use rabin_fingerprinting.Server.{Server, max_bytes, hash_loop, remainder}
use rabin_fingerprinting.Server.Cache.{IsValid}
use rabin_fingerprinting.Server.Totality.{send_file-IsValid}
use rabin_fingerprinting.Memory.{Owner}
use rabin_fingerprinting.Memory.Files.{Progress, send_tail, send_file}
use rabin_fingerprinting.Memory.Inserts.{Represents}
use rabin_fingerprinting.Memory.Writes.{sock_Represents}
use rabin_fingerprinting.Memory.Rounds.{Matches, send_until-Matches, send_loop-Matches}

-- The end of the file written.
abbrev ended : Owner → Owner
ended s = record s { newsockfd = (write s.newsockfd (to_bytes (host_desc 0 0 false))).1 }

abbrev ended_server : Server → Server
ended_server r = record r { newsockfd = (write r.newsockfd (to_bytes (host_desc 0 0 false))).1 }

eof_Represents :
    {p : Progress} {q : Server.Progress} {r' : Server} (k : ℕ)
    → Matches p q
    → ◌≡◌ {A = ℕ × Server} (q.num_blocks + 1, ended_server q.server) (k, r')
    → (p.num_blocks + 1 ≡ k) × Represents (ended p.owner) r'
eof_Represents {p} {q} {r'} k m last = (
  ap (λ n. n + 1) m.same_blocks ∙ ap (λ (y : ℕ × Server). y.0) last,
  subst (λ (y : ℕ × Server). Represents (ended p.owner) y.1) last
      (rw m.represents.same_socket (sock_Represents _ m.represents)),
)

send_tail-Represents :
    {p : Progress} {q : Server.Progress} {r' : Server} (file : List ℕ) (s k : ℕ)
    → Matches p q
    → Server.send_tail file s q ≡ ok (k, r')
    → (s' : Owner) × (send_tail file s p ≡ ok (k, s'))
      × Represents s' r'
      × (s'.memory.array_count + 2 * suc p.num_blocks ≡ p.owner.memory.array_count + 2 * k)
unfolding send_tail Server.send_tail
send_tail-Represents {p} {q} {r'} file s k m run = elim (Bool-cases (p.prev == s)) [
  | inl e ↦
      let e' : (q.prev == s) ≡ true = rw (← m.same_prev) e in
      let (total, rep) = eof_Represents k m (cc (rw (Server.send_tail, e') at run)) in
      (ended p.owner, rw e (ap (λ n. ok (n, ended p.owner)) total), rep, omega (arith, total))
  | inr e ↦
      let e' : (q.prev == s) ≡ false = rw (← m.same_prev) e in
      let (q₁, run₁, last) =
        >>=-eq-ok (Server.send_until file s q) _ (rw (Server.send_tail, e') at run) in
      let (p₁, done, m₁, count) = send_until-Matches file s m run₁ in
      let (total, rep) = eof_Represents k m₁ (cc last) in
      (
        ended p₁.owner,
        rw (e, done) (ap (λ n. ok (n, ended p₁.owner)) total),
        rep,
        omega (arith, total, count),
      )
]

send_file-Matches :
    {s : Owner} {r r' : Server} (file : List ℕ) (size k : ℕ)
    → size < 2 ^ 32
    → Represents s r
    → Server.send_file r file size ≡ ok (k + 1, r')
    → (s' : Owner) × (send_file s file size ≡ ok (k + 1, s'))
      × Represents s' r'
      × (s'.memory.array_count ≡ s.memory.array_count + (size - 2) + 2 * k)
unfolding send_file Server.send_file
send_file-Matches {s} {r} {r'} file size k fits rep run =
    let start : Matches (record { prev = 0; num_blocks = 0; owner = s })
        (record { prev = 0; num_blocks = 0; server = r }) =
      record { same_prev = refl; same_blocks = refl; represents = rep } in
    let (q, looped, tail) = >>=-eq-ok (Server.send_loop size file size 2 _) _ run in
    let (p, looped', m, count) = send_loop-Matches size file size 2 fits start looped in
    let (s', tail', rep', count') = send_tail-Represents file size (k + 1) m tail in
    (s', rw looped' tail', rep', omega (arith, count, count'))

-- `send_file` on `size` bytes in 32 bits, with a valid cache that the pointers in memory stand for, does
-- with the pointers what it does by value, so it never reads, writes or deletes a block that is not
-- allocated or was deleted. Afterwards the pointers stand for the cache, and the allocated blocks are
-- those in the map. No array is given back: there is one more for each byte after the second, and two
-- for each of the `k` blocks sent.
pub send_file-Represents :
    (s : Owner) (r : Server) (file : List ℕ) (size : ℕ)
    → Represents s r
    → IsValid r
    → size ≤ length file
    → size < 2 ^ 32
    → (k : ℕ) × (s' : Owner) × (r' : Server) × (send_file s file size ≡ ok (k + 1, s'))
      × (Server.send_file r file size ≡ ok (k + 1, r'))
      × Represents s' r'
      × (s'.memory.array_count ≡ s.memory.array_count + (size - 2) + 2 * k)
send_file-Represents s r file size rep v le fits =
    let (k, r', run, v', few, many) = send_file-IsValid r file size v le fits in
    let (s', run', rep', count) = send_file-Matches file size k fits rep run in
    (k, s', r', run', run, rep', count)
