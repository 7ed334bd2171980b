-- ===== src/Tests/Interpreters.antt =====
-- The theorems on the interpreter server at two clients.
use rabin_fingerprinting.Base.{
  ℕ, zero, suc, ◌≤◌, ◌≡◌, ◌≢◌, refl, true, false, List, [], ◌∷◌, ◌++◌, All, length, flatten, ◌==◌,
  if◌then◌else◌, arith, ok, fault, out_of_bounds, pos,
}
use mathlib.Core.Logic.{◌↔◌}
use rabin_fingerprinting.Wire.{htonl, ntohl, le_bytes, of_le_bytes}
use rabin_fingerprinting.Socket.{InSocket, OutSocket, write, read, read_loop, read_full}
use rabin_fingerprinting.Interpreter.{
  Peer, IServ, htons, header, slot, write_fd, close_fd, send_ack, write_to_slots, write_to_all,
  drop_broken, add_socks, build_sel_list, take_slot, new_connection,
}
use rabin_fingerprinting.Interpreter.Parens.{
  paren_check, paren_loop, Balanced, paren_check-Balanced,
}
use rabin_fingerprinting.Interpreter.Service.{
  Outside, Round, drop_slot, append_newline, pass_command, interpret, send_files, dispatch,
  read_msg, service_message, service_client, serve_slots, read_socks, round, rounds, listen_on,
  iserv_main, initial, is_set,
}
use rabin_fingerprinting.Interpreter.Invariant.{IsValid}
use rabin_fingerprinting.Interpreter.Runs.{iserv_main-IsValid}
use rabin_fingerprinting.Interpreter.Table.{build_sel_list_lem}
use rabin_fingerprinting.Interpreter.Answers.{Gives}
use rabin_fingerprinting.Interpreter.Replies.{Hears, copies}
use rabin_fingerprinting.Interpreter.Commands.{
  service_client-command, service_client_overflow, service_client_unmatched,
}
use rabin_fingerprinting.Interpreter.Turns.{serve_slots-service_client}

-- Everything that a round of the interpreter server computes with.
unfoldable pub serving : Unit {0}
unfolding htonl ntohl le_bytes of_le_bytes write read read_loop read_full htons header write_fd
    close_fd send_ack write_to_slots write_to_all drop_broken add_socks build_sel_list take_slot
    new_connection paren_check paren_loop drop_slot append_newline pass_command interpret send_files
    dispatch read_msg service_message service_client serve_slots read_socks round rounds initial
    listen_on iserv_main flatten
serving = tt

-- `(a)` with two zero bytes, and with none.
abbrev command : List ℕ
command = 40 ∷ 97 ∷ 41 ∷ 0 ∷ 0 ∷ []

abbrev bare : List ℕ
bare = 40 ∷ 97 ∷ 41 ∷ []

abbrev unbalanced : List ℕ
unbalanced = 41 ∷ 40 ∷ []

-- `(`, a zero byte and `)`.
abbrev hidden : List ℕ
hidden = 40 ∷ 0 ∷ 41 ∷ []

abbrev header_of : ℕ → List ℕ
header_of len = 0 ∷ 3 ∷ 0 ∷ 0 ∷ 0 ∷ len ∷ []

abbrev quiet : OutSocket
quiet = record { sent = []; outcomes = [] }

abbrev pub peer_with : InSocket → Peer
peer_with stream = record { incoming = stream; outgoing = quiet; is_open = true }

-- Slot 0 has descriptor 5, slot 1 descriptor 7; descriptor 5 sends `msg`.
abbrev two_clients : List ℕ → IServ
two_clients msg = record {
  sockfd = 3;
  hisockfd = 3;
  connectlist = 5 ∷ 7 ∷ 0 ∷ [];
  socks = 5 ∷ 7 ∷ [];
  peers = λ q. if q == 5 then peer_with (header_of (length msg) ∷ msg ∷ []) else peer_with [];
  child_in = [];
  ilog = [];
}

abbrev pub reply : Outside
reply = record {
  line = 49 ∷ 10 ∷ [];
  interpreter_sent = λ path. false;
  interpreter_bytes = λ path. [];
  log_bytes = [];
}

paren_check-Balanced_example : (paren_check command ≡ true) ↔ Balanced command
paren_check-Balanced_example = paren_check-Balanced command

command-Balanced : Balanced command
unfolding serving
command-Balanced = (paren_check-Balanced command).0 refl

bare-Balanced : Balanced bare
unfolding serving
bare-Balanced = (paren_check-Balanced bare).0 refl

unbalanced_lem : ¬ Balanced unbalanced
unfolding serving
unbalanced_lem b = cc ((paren_check-Balanced unbalanced).1 b)

service_client-command_example :
    (s' : IServ) × (service_client reply 0 (two_clients command) ≡ ok s')
    × Gives (two_clients command) s' (40 ∷ 97 ∷ 41 ∷ 10 ∷ [])
    × ((q : ℕ)
        → 1 ≤ q
        → Hears (two_clients command) s' q (
            (if 5 == q then header 4 0 else [])
            ++ copies (header 2 2 ++ 49 ∷ 10 ∷ []) q (5 ∷ 7 ∷ 0 ∷ [])))
unfolding serving
service_client-command_example =
    service_client-command reply 0 (two_clients command) (command ∷ []) bare (0 ∷ []) []
      (omega arith) (omega arith) (omega arith) command-Balanced (omega arith) refl (omega arith)
      refl

service_client_overflow_example : service_client reply 0 (two_clients bare) ≡ fault out_of_bounds
unfolding serving
service_client_overflow_example =
    service_client_overflow reply 0 0 (two_clients bare) (bare ∷ []) bare [] (omega arith)
      (omega arith) (omega arith) (omega arith) bare-Balanced (omega arith) refl (omega arith) refl

service_client_unmatched_example :
    (s' : IServ) × (service_client reply 0 (two_clients hidden) ≡ ok s')
    × (s'.child_in ≡ 40 ∷ 10 ∷ [])
    × ¬ Balanced (40 ∷ 10 ∷ [])
unfolding serving
service_client_unmatched_example =
    service_client_unmatched reply 0 1 (two_clients hidden) (hidden ∷ []) [] (omega arith)
      (omega arith) (omega arith) refl (omega arith) refl

build_sel_list_lem_example :
    let s = two_clients [] in
    let s' = build_sel_list (λ fd. fd == 7) s in
    (s'.connectlist ≡ 5 ∷ 0 ∷ 0 ∷ [])
    × (is_set 3 s'.socks ≡ true)
    × ((q : ℕ) → 1 ≤ q → is_set q s'.connectlist ≡ true → is_set q s'.socks ≡ true)
    × All (λ fd. fd ≤ s'.hisockfd) s'.socks
build_sel_list_lem_example = build_sel_list_lem (λ fd. fd == 7) (two_clients []) (omega arith)

-- One round: a first client comes.
abbrev pub first_round : Round
first_round = record {
  broken = λ fd. false;
  num_socks = pos 1;
  ready = 3 ∷ [];
  accepted = pos 5;
  newcomer = peer_with [];
  outside = λ i. reply;
}

after_first : IServ
unfolding serving
after_first = elim (iserv_main 2 (pos 3) (pos 0) (λ q. peer_with []) (first_round ∷ [])) [
  | ok s ↦ s
  | fault e ↦ two_clients []
]

after_first_lem :
    iserv_main 2 (pos 3) (pos 0) (λ q. peer_with []) (first_round ∷ []) ≡ ok after_first
unfolding serving after_first
after_first_lem = refl

iserv_main-IsValid_example : IsValid after_first
iserv_main-IsValid_example =
    iserv_main-IsValid 2 (pos 3) (pos 0) (λ q. peer_with []) (first_round ∷ []) after_first
      after_first_lem

-- A pass over the three slots.
after_pass : IServ
unfolding serving
after_pass = elim (serve_slots (λ i. reply) 3 0 (two_clients command)) [
  | ok s ↦ s
  | fault e ↦ two_clients []
]

after_pass_lem : serve_slots (λ i. reply) 3 0 (two_clients command) ≡ ok after_pass
unfolding serving after_pass
after_pass_lem = refl

alone : (j : ℕ) → j ≢ 0 → slot (two_clients command) j ≢ slot (two_clients command) 0
alone zero ne e = ne refl
alone (suc zero) ne e = omega (arith, e)
alone (suc (suc zero)) ne e = omega (arith, e)
alone (suc (suc (suc j))) ne e = omega (arith, e)

serve_slots-service_client_example :
    (t t' : IServ) × (slot t 0 ≡ 5)
    × ((t.peers 5).incoming ≡ header_of 5 ∷ command ∷ [])
    × (service_client reply 0 t ≡ ok t')
    × ((after_pass.peers 5).incoming ≡ (t'.peers 5).incoming)
serve_slots-service_client_example =
    serve_slots-service_client (λ i. reply) 3 0 0 (two_clients command) after_pass (omega arith)
      refl alone (omega arith) (omega arith) after_pass_lem
