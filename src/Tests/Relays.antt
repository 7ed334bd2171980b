-- ===== src/Tests/Relays.antt =====
-- The theorems on the relays and the programs at small conversations.
use rabin_fingerprinting.Base.{
  ℕ, ◌≡◌, ◌≤◌, refl, ap, true, none, some, List, [], ◌∷◌, ◌++◌, length, flatten, replicate, arith,
  ok, fault, out_of_bounds, pos, zero, suc,
}
use rabin_fingerprinting.Socket.{InSocket}
use rabin_fingerprinting.Server.{Server}
use rabin_fingerprinting.Client.{Client}
use rabin_fingerprinting.Transfer.{Synced}
use rabin_fingerprinting.Relay.{
  Visit, passed, pass_on, forward, forwarded, c_bytes, recv_loop, relay_responses, psb_serve,
}
use rabin_fingerprinting.Relay.Forward.{IsText, pass_on_full}
use rabin_fingerprinting.Relay.Turns.{full_turn}
use rabin_fingerprinting.Tests.{runs, start}

abbrev pub request : List ℕ
request = 71 ∷ 69 ∷ 84 ∷ 10 ∷ []

-- A visit whose request is forwarded.
abbrev pub visit : Visit
visit = record {
  accepted = pos 5;
  request = some request;
  connected = true;
  taken = some 4;
  opens = 4;
  stack = 8000000;
}

-- The proxy's answer, in two segments.
abbrev pub answer : InSocket
answer = (104 ∷ 101 ∷ []) ∷ (108 ∷ 108 ∷ 111 ∷ 10 ∷ []) ∷ []

pub visit_forwarded : forward visit ≡ ok (passed request)
unfolding forward pass_on c_bytes forwarded
visit_forwarded = refl

-- The server after it has relayed the answer.
unfoldable pub relayed : Server
unfolding runs psb_serve forward pass_on c_bytes forwarded recv_loop relay_responses
relayed = elim (psb_serve start visit answer) [ ok a ↦ a.1 | fault e ↦ start ]

pub relayed_lem : psb_serve start visit answer ≡ ok (full_turn request [] 0, relayed)
unfolding runs relayed psb_serve forward pass_on c_bytes forwarded recv_loop relay_responses
relayed_lem = refl

-- The client at the other end, before what the server has written.
abbrev pub browser_side : Client
browser_side = record { blocks = λ _. none; sockfd = relayed.newsockfd.sent ∷ [] }

pub relayed_some : 1 ≤ length relayed.newsockfd.sent
unfolding runs relayed psb_serve forward pass_on c_bytes forwarded recv_loop relay_responses
relayed_some = omega arith

browser_stream : flatten browser_side.sockfd ≡ relayed.newsockfd.sent ++ []
unfolding flatten
browser_stream = refl

relayed_start : Synced start browser_side
relayed_start = record { settled = λ n b e. cc; held = λ n b e. cc }

abbrev long_request : List ℕ
long_request = replicate 1000 65

all-IsText : (n : ℕ) → IsText (replicate n 65)
all-IsText zero = tt
all-IsText (suc n) = (omega arith, all-IsText n)

all_length : (n : ℕ) → length {A = ℕ} (replicate n 65) ≡ n
all_length zero = refl
all_length (suc n) = ap suc (all_length n)

pass_on_full_example : pass_on none long_request ≡ fault out_of_bounds
pass_on_full_example = pass_on_full long_request none (all-IsText 1000) (all_length 1000)
