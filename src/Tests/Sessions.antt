-- ===== src/Tests/Sessions.antt =====
-- The two relays over several turns, at a small answer.
use rabin_fingerprinting.Base.{
  ℕ, ◌≡◌, ◌≤◌, refl, true, false, none, some, ◌+◌, List, [], ◌∷◌, length, flatten, arith, ok, fault,
  exits, pos,
}
use rabin_fingerprinting.Socket.{read}
use rabin_fingerprinting.Server.{Server, new_server, connect_to_client}
use rabin_fingerprinting.Client.{Client}
use rabin_fingerprinting.Transfer.{Synced}
use rabin_fingerprinting.Transfer.Files.{Receives}
use rabin_fingerprinting.Programs.Mains.{sent_by}
use rabin_fingerprinting.Relay.{
  Startup, Visit, Turn, psb_startup, hrd_startup, refused, forward, psb_serve, pass_on, c_bytes,
  forwarded, recv_loop, relay_responses, deliver_responses, deliver_loop, hand_over, hrd_serve,
}
use rabin_fingerprinting.Descriptors.Files.{FileTable, open_count}
use rabin_fingerprinting.Relay.Leaks.{
  unreached_turn, relay_table, all_left_open, hrd_loop_exhausted,
}
use rabin_fingerprinting.Relay.Mains.{psb_loop, hrd_loop, psb_main, hrd_main}
use rabin_fingerprinting.Relay.Sessions.{Chain, ended, not_forwarded, answered, hrd_main-psb_main}
use rabin_fingerprinting.Relay.Chain.{parts}
use rabin_fingerprinting.Relay.Delays.{late_answer-misdelivered}
use rabin_fingerprinting.Relay.Exhaustion.{hrd_loop-left_open}
use rabin_fingerprinting.Relay.Turns.{full_turn}
use rabin_fingerprinting.Tests.{runs, start, page}
use rabin_fingerprinting.Tests.Mains.{calls, calls-Starts}
use rabin_fingerprinting.Tests.Relays.{
  browser_side, request, visit, answer, visit_forwarded, relayed, relayed_lem, relayed_some,
}
use rabin_fingerprinting.Tests.Transfers.{start-IsReady}

abbrev begin : Startup
begin = record { argc = 5; socket = pos 3; bound = pos 0; host_found = true }

-- A visit while psb.cc cannot be reached.
abbrev lonely : Visit
lonely = record visit { connected = false }

not_reached : forward lonely ≡ ok (refused unreached_turn)
unfolding forward
not_reached = refl

-- Three visits to hrd.cc, the second of which does not reach psb.cc.
abbrev turns : List Turn
turns = full_turn request page 3 ∷ unreached_turn ∷ full_turn request page 3 ∷ []

chain :
    Chain
      (visit ∷ lonely ∷ visit ∷ [])
      ((visit, answer) ∷ (visit, answer) ∷ [])
      turns
      (full_turn request [] 0 ∷ full_turn request [] 0 ∷ [])
unfolding flatten parts read
chain = answered visit_forwarded refl visit_forwarded (omega arith) (omega arith) (omega arith) (
    not_forwarded not_reached (
      answered visit_forwarded refl visit_forwarded (omega arith) (omega arith) (omega arith)
        ended))

written : List ℕ
unfolding runs psb_main psb_loop psb_startup new_server connect_to_client psb_serve forward pass_on
    c_bytes forwarded recv_loop relay_responses
written = sent_by (psb_main begin calls ((visit, answer) ∷ (visit, answer) ∷ []))

written_some : 1 ≤ length written
unfolding runs written psb_main psb_loop psb_startup new_server connect_to_client psb_serve forward
    pass_on c_bytes forwarded recv_loop relay_responses
written_some = omega arith

begins : (psb_startup begin ≡ ok tt) × (hrd_startup begin ≡ ok tt)
unfolding psb_startup hrd_startup
begins = (refl, refl)

hrd_main-psb_main_example :
    (r : Server) × (c : Client) × (psb_main begin calls ((visit, answer) ∷ (visit, answer) ∷ [])
      ≡ ok (full_turn request [] 0 ∷ full_turn request [] 0 ∷ [], r))
    × (hrd_main begin (pos 0) true (pos 0) (written ∷ []) (visit ∷ lonely ∷ visit ∷ [])
        ≡ ok (turns, c))
    × Synced r c
unfolding written flatten
hrd_main-psb_main_example =
    hrd_main-psb_main begin begin calls (pos 0) (pos 0) (written ∷ []) [] begins.0 begins.1
      calls-Starts refl refl chain (written_some, tt) refl

-- A client that waits in vain, before what the server has written.
abbrev impatient : Client
impatient = record { blocks = λ _. none; sockfd = [] ∷ relayed.newsockfd.sent ∷ [] }

late_answer-misdelivered_example :
    (c' : Client) × (hrd_loop impatient (visit ∷ visit ∷ [])
      ≡ ok (full_turn request [] 1 ∷ full_turn request page 3 ∷ [], c'))
    × Receives relayed c' []
unfolding flatten parts read
late_answer-misdelivered_example =
    late_answer-misdelivered start relayed impatient visit visit visit answer
      (relayed.newsockfd.sent ∷ []) (full_turn request [] 0) request request request
      relayed.newsockfd.sent [] start-IsReady (record { settled = λ n b e. cc; held = λ n b e. cc })
      (omega arith) (omega arith) (omega arith) (omega arith) visit_forwarded visit_forwarded
      visit_forwarded relayed_lem refl refl (relayed_some, tt) refl

-- A table of five descriptors, three of which are in use, and two visits in vain.
abbrev five : FileTable
five = some 0 ∷ some 1 ∷ some 2 ∷ none ∷ none ∷ []

hrd_loop_exhausted_example :
    (hrd_loop impatient (lonely ∷ lonely ∷ [])
      ≡ ok (unreached_turn ∷ unreached_turn ∷ [], impatient))
    × (relay_table 6 7 8 (unreached_turn ∷ unreached_turn ∷ []) five ≡ fault (exits 0))
unfolding open_count
hrd_loop_exhausted_example =
    hrd_loop_exhausted 6 7 8 impatient (lonely ∷ lonely ∷ []) five
      ((refl, (request, refl), refl), ((refl, (request, refl), refl), tt)) (omega arith)
      (omega arith)

-- An answer delivered, and then a visit in vain.
abbrev two_turns : List Turn
two_turns = full_turn request page 3 ∷ unreached_turn ∷ []

after_two : Client
unfolding runs relayed psb_serve forward pass_on c_bytes forwarded recv_loop relay_responses
    hrd_loop hrd_serve deliver_responses deliver_loop hand_over
after_two = elim (hrd_loop browser_side (visit ∷ lonely ∷ [])) [
  | ok r ↦ r.1
  | fault e ↦ browser_side
]

two_turns_lem : hrd_loop browser_side (visit ∷ lonely ∷ []) ≡ ok (two_turns, after_two)
unfolding runs after_two relayed psb_serve forward pass_on c_bytes forwarded recv_loop
    relay_responses hrd_loop hrd_serve deliver_responses deliver_loop hand_over
two_turns_lem = refl

abbrev nine : FileTable
nine = some 0 ∷ some 1 ∷ some 2 ∷ none ∷ none ∷ none ∷ none ∷ none ∷ none ∷ []

hrd_loop-left_open_example :
    (after : FileTable) × (relay_table 6 7 8 two_turns nine ≡ ok after)
    × (open_count after ≡ 3 + 4)
    × (3 + 2 ≤ open_count after)
unfolding open_count all_left_open
hrd_loop-left_open_example =
    hrd_loop-left_open 6 7 8 browser_side after_two (visit ∷ lonely ∷ []) two_turns nine
      two_turns_lem (omega arith)
