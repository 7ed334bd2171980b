-- ===== src/Interpreter/Replies.antt =====
-- What `service_client` of the interpreter server answers to a command.
use rabin_fingerprinting.Base.{
  ℕ, ◌^◌, ◌≤◌, ◌<◌, ◌≡◌, ◌≢◌, refl, sym, ap, ◌∙◌, List, [], ◌∷◌, ◌++◌, length, take, drop,
  append_assoc, append-nil, ◌==◌, if◌then◌else◌, ==_refl, ==_ne, arith,
}
use native.Mathlib.Decide.{ℕ_discrete}
use rabin_fingerprinting.Wire.{htonl, ntohl, le_bytes, of_le_bytes}
use rabin_fingerprinting.Wire.Roundtrip.{ntohl-htonl, htonl-lt, le_bytes_4}
use rabin_fingerprinting.Socket.{OutSocket}
use rabin_fingerprinting.Socket.Writes.{IsReliable, write-IsReliable}
use rabin_fingerprinting.Interpreter.{IServ, htons, header, write_fd, write_to_slots}

-- From `s` to `s'`, a connection that loses nothing has been written just `bytes`.
abbrev pub Hears : IServ → IServ → ℕ → List ℕ → Type 0
Hears s s' q bytes =
    IsReliable (s.peers q).outgoing
    → (s'.peers q).outgoing ≡ record { sent = (s.peers q).outgoing.sent ++ bytes; outcomes = [] }

pub Hears-trans :
    (s t u : IServ) (q : ℕ) (xs ys : List ℕ)
    → Hears s t q xs
    → Hears t u q ys
    → Hears s u q (xs ++ ys)
Hears-trans s t u q xs ys h k reliable =
    let first = h reliable in
    let second = k (ap (λ (o : OutSocket). o.outcomes) first) in
    let before = ap (λ (o : OutSocket). o.sent) first in
    second ∙ (λ i. record {
      sent = (ap (λ l. l ++ ys) before ∙ append_assoc (s.peers q).outgoing.sent xs ys) i;
      outcomes = [];
    })

pub Hears-none :
    (s t : IServ) (q : ℕ) → (t.peers q).outgoing ≡ (s.peers q).outgoing → Hears s t q []
Hears-none s t q same reliable =
    same
    ∙ (λ i. record { sent = sym (append-nil (s.peers q).outgoing.sent) i; outcomes = reliable i })

pub write_fd-Hears_self :
    (fd : ℕ) (bytes : List ℕ) (s : IServ) → Hears s (write_fd fd bytes s) fd bytes
unfolding write_fd
write_fd-Hears_self fd bytes s reliable =
    rw (==_refl fd) (ap (λ r. r.1) (write-IsReliable (s.peers fd).outgoing bytes reliable))

pub write_fd-Hears_other :
    (fd : ℕ) (bytes : List ℕ) (s : IServ) (q : ℕ) → fd ≢ q → Hears s (write_fd fd bytes s) q []
unfolding write_fd
write_fd-Hears_other fd bytes s q ne = rw (==_ne fd q ne) (Hears-none s s q refl)

-- What the slots `fds` with the descriptor `q` get, if each gets `answer`.
abbrev pub copies : List ℕ → ℕ → List ℕ → List ℕ
copies answer q [] = []
copies answer q (fd ∷ fds) = (if fd == q then answer else []) ++ copies answer q fds

-- One slot's answer: the header and the text.
abbrev answered : List ℕ → ℕ → IServ → IServ
answered out fd s = write_fd fd out (write_fd fd (header 2 (length out)) s)

answered-Hears :
    (out : List ℕ) (fd : ℕ) (s : IServ) (q : ℕ)
    → Hears s (answered out fd s) q (if fd == q then header 2 (length out) ++ out else [])
answered-Hears out fd s q = elim (ℕ_discrete fd q) [
  | yes e ↦
      let head : List ℕ = header 2 (length out) in
      let one : IServ = write_fd q head s in
      rw (e, ==_refl q)
        (Hears-trans s one (write_fd q out one) q head out (write_fd-Hears_self q head s)
          (write_fd-Hears_self q out one))
  | no ne ↦
      let one : IServ = write_fd fd (header 2 (length out)) s in
      rw (==_ne fd q ne) (
        Hears-trans s one (write_fd fd out one) q [] []
          (write_fd-Hears_other fd (header 2 (length out)) s q ne)
          (write_fd-Hears_other fd out one q ne))
]

pub write_to_slots-Hears :
    (out fds : List ℕ) (s : IServ) (q : ℕ)
    → 1 ≤ q
    → Hears s (write_to_slots out fds s) q (copies (header 2 (length out) ++ out) q fds)
unfolding write_to_slots
write_to_slots-Hears out [] s q h = Hears-none s s q refl
write_to_slots-Hears out (fd ∷ fds) s q h = elim (ℕ_discrete fd 0) [
  | yes e ↦ rw (e, ==_ne 0 q (omega arith)) (write_to_slots-Hears out fds s q h)
  | no ne ↦
      rw (==_ne fd 0 ne, write_to_slots)
        (Hears-trans s (answered out fd s) (write_to_slots out fds (answered out fd s)) q
          (if fd == q then header 2 (length out) ++ out else [])
          (copies (header 2 (length out) ++ out) q fds) (answered-Hears out fd s q)
          (write_to_slots-Hears out fds (answered out fd s) q h))
]

htons_twice : (x : ℕ) → x < 2 ^ 16 → htons (htons x) ≡ x
unfolding htons
htons_twice x h = omega arith

le_bytes_2 : (x : ℕ) → x < 2 ^ 16 → of_le_bytes (le_bytes 2 x) ≡ x
unfolding le_bytes of_le_bytes
le_bytes_2 x h = omega arith

htons-lt : (x : ℕ) → htons x < 2 ^ 16
unfolding htons
htons-lt x = omega arith

-- What a peer puts into a header is what the server reads out of it.
pub header_fields :
    (type len : ℕ)
    → type < 2 ^ 16
    → len < 2 ^ 32
    → (htons (of_le_bytes (take 2 (header type len))) ≡ type)
      × (ntohl (of_le_bytes (drop 2 (header type len))) ≡ len)
unfolding header le_bytes
header_fields type len ht hl = (
  rw (le_bytes_2 (htons type) (htons-lt type)) (htons_twice type ht),
  rw (le_bytes_4 (htonl len) (htonl-lt len)) (ntohl-htonl len ∙ omega arith),
)

pub length-header : (type len : ℕ) → length (header type len) ≡ 6
unfolding header le_bytes
length-header type len = refl
