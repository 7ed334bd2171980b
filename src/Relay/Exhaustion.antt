-- ===== src/Relay/Exhaustion.antt =====
-- How many descriptors the turns of Integration/hrd.cc leave open.
use rabin_fingerprinting.Base.{
  ℕ, zero, suc, ◌+◌, ◌≤◌, ◌<◌, ◌≡◌, Bool, true, false, Option, List, [], ◌∷◌, length, ltb, leb,
  ◌==◌, Bool-cases, inl, inr, if◌then◌else◌, ok, subst, is_negative, ◌>>=◌, >>=-eq-ok, Option-cases,
  arith,
}
use rabin_fingerprinting.Client.{Client, Reception, receive_file}
use rabin_fingerprinting.Descriptors.Files.{FileTable, open_count}
use rabin_fingerprinting.Relay.{
  Visit, Turn, Forwarding, refused, passed, refusal, forwarded, filled, c_bytes, pass_on, forward,
  write_error, connect_error, Delivery, hand_over, deliver_loop, deliver_responses, hrd_serve,
  hrd_turn,
}
use rabin_fingerprinting.Relay.Mains.{hrd_loop}
use rabin_fingerprinting.Relay.Leaks.{left_open, all_left_open, relay_table, relay_table-open}

-- A turn that fails before its request is forwarded leaves the proxy's socket open.
abbrev IsLeft : Forwarding → Type 0
IsLeft (refused turn) = 1 ≤ left_open turn
IsLeft (passed header) = Unit

refusal-IsLeft :
    (b closed : Bool) (message sent : List ℕ) (f : Forwarding)
    → ok (if b then refusal message closed else passed sent) ≡ ok f
    → IsLeft f
refusal-IsLeft b closed message sent (passed header) e = tt
refusal-IsLeft true closed message sent (refused turn) e =
    let proxy : turn.proxy_closed ≡ false = cc e in rw proxy (omega arith)
refusal-IsLeft false closed message sent (refused turn) e = cc e

pass_on-IsLeft :
    (taken : Option ℕ) (bytes : List ℕ) (f : Forwarding) → pass_on taken bytes ≡ ok f → IsLeft f
unfolding pass_on
pass_on-IsLeft taken bytes f run =
    let (header, _, e) = >>=-eq-ok (c_bytes (filled bytes)) _ run in
    let sent : List ℕ = forwarded taken header in
    refusal-IsLeft (length sent == 0) false write_error sent f e

forward_read-IsLeft :
    (connected : Bool) (taken : Option ℕ) (bytes : List ℕ) (f : Forwarding)
    → (if connected then pass_on taken bytes else ok (refusal connect_error true)) ≡ ok f
    → IsLeft f
forward_read-IsLeft true taken bytes f run = pass_on-IsLeft taken bytes f run
forward_read-IsLeft false taken bytes f run = refusal-IsLeft true true connect_error [] f run

forward-IsLeft : (v : Visit) (f : Forwarding) → forward v ≡ ok f → IsLeft f
unfolding forward
forward-IsLeft v f run = elim (Bool-cases (is_negative v.accepted)) [
  | inl none_there ↦ cc (rw none_there at run)
  | inr there ↦ elim (Option-cases v.request) [
    | inl not_read ↦ cc (rw (there, not_read) at run)
    | inr (bytes, got) ↦ forward_read-IsLeft v.connected v.taken bytes f (rw (there, got) at run)
  ]
]

hand_over-files :
    (stack : ℕ) (q : Reception) (d d' : Delivery) → hand_over stack q d ≡ ok d' → d.files < d'.files
unfolding hand_over
hand_over-files stack q d d' run = elim (Bool-cases (ltb stack (length q.file))) [
  | inl large ↦ cc (rw large at run)
  | inr fits ↦ let e : d.files + 1 ≡ d'.files = cc (rw fits at run) in omega (arith, e)
]

pass-files :
    (fuel opens stack : ℕ) (d d' : Delivery) (q : Reception) (more : Bool)
    → ((d₁ d₂ : Delivery) → deliver_loop fuel opens stack d₁ ≡ ok d₂ → d₁.files < d₂.files)
    → (if more
        then (hand_over stack q d >>= deliver_loop fuel opens stack)
        else ok (record d { client = q.client; files = d.files + 1 }))
      ≡ ok d'
    → d.files < d'.files
pass-files fuel opens stack d d' q true later run =
    let (d₁, handed, e) = >>=-eq-ok (hand_over stack q d) _ run in
    let first = hand_over-files stack q d d₁ handed in let others = later d₁ d' e in omega arith
pass-files fuel opens stack d d' q false later run =
    let e : d.files + 1 ≡ d'.files = cc run in omega (arith, e)

-- Each pass of the loop leaves a file open.
deliver_loop-files :
    (fuel opens stack : ℕ) (d d' : Delivery)
    → deliver_loop fuel opens stack d ≡ ok d'
    → d.files < d'.files
unfolding deliver_loop
deliver_loop-files zero opens stack d d' run = cc run
deliver_loop-files (suc fuel) opens stack d d' run = elim (Bool-cases (leb opens d.files)) [
  | inl no_more ↦ cc (rw no_more at run)
  | inr can ↦
      let (q, _, e) = >>=-eq-ok (receive_file d.client []) _ (rw can at run) in
      pass-files fuel opens stack d d' q (ltb 1 q.num_blocks) (deliver_loop-files fuel opens stack)
        e
]

turn-left_open :
    (c c' : Client) (v : Visit) (f : Forwarding) (turn : Turn)
    → IsLeft f
    → hrd_turn v c f ≡ ok (turn, c')
    → 1 ≤ left_open turn
unfolding hrd_turn deliver_responses
turn-left_open c c' v (refused t) turn left run =
    let same : t ≡ turn = cc run in subst (λ x. 1 ≤ left_open x) same left
turn-left_open c c' v (passed header) turn left run =
    let (d, delivered, e) = >>=-eq-ok (deliver_responses v.opens v.stack c) _ run in
    let files = deliver_loop-files _ v.opens v.stack _ d delivered in
    let same : d.files ≡ turn.files = cc e in omega (arith, same, files)

-- So every turn of hrd.cc leaves a descriptor open.
hrd_serve-left_open :
    (c c' : Client) (v : Visit) (turn : Turn) → hrd_serve c v ≡ ok (turn, c') → 1 ≤ left_open turn
unfolding hrd_serve hrd_turn deliver_responses
hrd_serve-left_open c c' v turn run =
    let (f, run_forward, e) = >>=-eq-ok (forward v) _ run in
    turn-left_open c c' v f turn (forward-IsLeft v f run_forward) e

hrd_loop-count :
    (c c' : Client) (vs : List Visit) (turns : List Turn)
    → hrd_loop c vs ≡ ok (turns, c')
    → length vs ≤ all_left_open turns
unfolding hrd_loop all_left_open
hrd_loop-count c c' [] turns run = omega arith
hrd_loop-count c c' (v ∷ vs) turns run =
    let ((turn, c₁), served, e) = >>=-eq-ok (hrd_serve c v) _ run in
    let ((later, c₂), looped, e₂) = >>=-eq-ok (hrd_loop c₁ vs) _ e in
    let one = hrd_serve-left_open c c₁ v turn served in
    let others = hrd_loop-count c₁ c₂ vs later looped in
    let same : turn ∷ later ≡ turns = cc e₂ in
    subst (λ ts. length (v ∷ vs) ≤ all_left_open ts) same (omega (arith, one, others))

-- In the loop of hrd.cc every turn leaves at least one descriptor open: that of the proxy's socket when
-- the request is not forwarded, and otherwise those of the files that it opens for the answer and
-- never closes, though it closes both sockets. While two descriptors are free beside those that the
-- turns leave open, the loop goes on, and at its end at least as many more descriptors are open as
-- there were turns.
pub hrd_loop-left_open :
    (temporary proxy browser : ℕ) (c c' : Client) (vs : List Visit) (turns : List Turn)
    (table : FileTable)
    → hrd_loop c vs ≡ ok (turns, c')
    → open_count table + all_left_open turns + 2 ≤ length table
    → (after : FileTable) × (relay_table temporary proxy browser turns table ≡ ok after)
      × (open_count after ≡ open_count table + all_left_open turns)
      × (open_count table + length vs ≤ open_count after)
hrd_loop-left_open temporary proxy browser c c' vs turns table run room =
    let (after, runs, count) = relay_table-open temporary proxy browser turns table room in
    let some_each = hrd_loop-count c c' vs turns run in (after, runs, count, omega arith)
