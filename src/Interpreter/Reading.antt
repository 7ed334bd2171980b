-- ===== src/Interpreter/Reading.antt =====
-- How `service_client` of the interpreter server takes a message off a connection.
use rabin_fingerprinting.Base.{
  ℕ, ◌^◌, ◌≤◌, ◌<◌, ◌≡◌, refl, ap, ◌∙◌, subst, false, some, List, [], ◌∷◌, ◌++◌, flatten, length,
  take, drop, take-append, drop-append, leb, ==_refl, ==_ne, arith, length-append, ltb-false,
}
use native.Mathlib.Decide.{ℕ_discrete}
use rabin_fingerprinting.Socket.{InSocket, read, read_full}
use rabin_fingerprinting.Socket.Segments.{IsFlowing, read_full-take}
use rabin_fingerprinting.Interpreter.{IServ, header, slot}
use rabin_fingerprinting.Interpreter.Service.{
  Outside, dispatch, read_msg, service_message, service_client, advance,
}
use rabin_fingerprinting.Interpreter.Replies.{header_fields, length-header}

-- From `s` to `s'` the connection `fd` has been read, `rest` being left, and nothing else has changed.
pub record HasRead (s s' : IServ) (fd : ℕ) (rest : List ℕ) : Type 0 where
  pub table : s'.connectlist ≡ s.connectlist
  pub given : s'.child_in ≡ s.child_in
  pub log : s'.ilog ≡ s.ilog
  pub outgoing : (q : ℕ) → (s'.peers q).outgoing ≡ (s.peers q).outgoing
  pub left : flatten (s'.peers fd).incoming ≡ rest

advance-outgoing :
    (fd : ℕ) (rest : InSocket) (s : IServ) (q : ℕ)
    → ((advance fd rest s).peers q).outgoing ≡ (s.peers q).outgoing
advance-outgoing fd rest s q = elim (ℕ_discrete fd q) [
  | yes e ↦ rw e (rw (==_refl q))
  | no ne ↦ rw (==_ne fd q ne)
]

advance-HasRead :
    (fd : ℕ) (left : InSocket) (s : IServ) → HasRead s (advance fd left s) fd (flatten left)
advance-HasRead fd left s = record {
  table = refl;
  given = refl;
  log = refl;
  outgoing = advance-outgoing fd left s;
  left = rw (==_refl fd);
}

HasRead-trans :
    (s t u : IServ) (fd : ℕ) (mid rest : List ℕ)
    → HasRead s t fd mid
    → HasRead t u fd rest
    → HasRead s u fd rest
HasRead-trans s t u fd mid rest h k = record {
  table = k.table ∙ h.table;
  given = k.given ∙ h.given;
  log = k.log ∙ h.log;
  outgoing = λ q. k.outgoing q ∙ h.outgoing q;
  left = k.left;
}

message-dispatch :
    (o : Outside) (i type : ℕ) (s : IServ) (msg rest : List ℕ)
    → length msg < 2 ^ 31
    → IsFlowing (s.peers (slot s i)).incoming
    → flatten (s.peers (slot s i)).incoming ≡ msg ++ rest
    → (s' : IServ) × (service_message o i type (length msg) s ≡ dispatch o i type msg s')
      × HasRead s s' (slot s i) rest
unfolding service_message read_msg
message-dispatch o i type s [] rest hl flow stream = (
  s,
  refl,
  record { table = refl; given = refl; log = refl; outgoing = λ q. refl; left = stream },
)
message-dispatch o i type s (c ∷ m) rest hl flow stream =
    let fd = slot s i in
    let msg : List ℕ = c ∷ m in
    let n = length msg in
    let stored = (s.peers fd).incoming in
    let enough : n ≤ length (flatten stored) =
      omega (arith, ap length stream, length-append msg rest) in
    let (got, left, _) = read_full-take n stored flow enough in
    let taken : take n (flatten stored) ≡ msg = rw stream (take-append msg rest) in
    let behind : drop n (flatten stored) ≡ rest = rw stream (drop-append msg rest) in
    let s' : IServ = advance fd (read_full n stored).1 s in
    let in_range : leb (2 ^ 31) n ≡ false = ground arith in
    (
      s',
      rw (==_ne n 0 (omega arith), in_range, got ∙ ap some taken, ==_refl n),
      subst (HasRead s s' fd) (left ∙ behind) (advance-HasRead fd (read_full n stored).1 s),
    )

-- A message whose header comes in one read is taken whole and dispatched.
pub service_client-dispatch :
    (o : Outside) (i type : ℕ) (s : IServ) (later : InSocket) (msg rest : List ℕ)
    → type < 2 ^ 16
    → length msg < 2 ^ 31
    → read (s.peers (slot s i)).incoming 6 ≡ (header type (length msg), later)
    → IsFlowing later
    → flatten later ≡ msg ++ rest
    → (s' : IServ) × (service_client o i s ≡ dispatch o i type msg s')
      × HasRead s s' (slot s i) rest
unfolding service_client
service_client-dispatch o i type s later msg rest ht hl head flow stream =
    let fd = slot s i in
    let (same_type, same_len) = header_fields type (length msg) ht (omega arith) in
    let n = length msg in
    let s₁ : IServ = advance fd later s in
    let short = ltb-false (length (header type n)) 6 (omega (arith, length-header type n)) in
    let here : flatten ((s₁.peers fd).incoming) ≡ msg ++ rest =
      (advance-HasRead fd later s).left ∙ stream in
    let flowing : IsFlowing (s₁.peers fd).incoming = rw (==_refl fd) flow in
    let (s', run, has_read) = message-dispatch o i type s₁ msg rest hl flowing here in
    (
      s',
      rw (head, short, same_type, same_len) run,
      HasRead-trans s s₁ s' fd (flatten later) rest (advance-HasRead fd later s) has_read,
    )
