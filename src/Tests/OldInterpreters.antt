-- ===== src/Tests/OldInterpreters.antt =====
-- The earlier text of the interpreter server at two rounds: a client comes, and ends its session.
use rabin_fingerprinting.Base.{
  ℕ, ◌≡◌, refl, sym, ◌∙◌, subst, false, true, [], ◌∷◌, arith, ok, fault, pos,
}
use rabin_fingerprinting.Interpreter.{IServ, Peer}
use rabin_fingerprinting.Interpreter.Service.{Round, is_set, round, iserv_main, initial}
use rabin_fingerprinting.Interpreter.Old.{iserv_main as old_main}
use rabin_fingerprinting.Interpreter.Old.Runs.{AsSent, Selects, iserv_main_same}
use rabin_fingerprinting.Tests.Interpreters.{serving, peer_with, reply}

-- A client that sends a message of type 5.
abbrev comes : Round
comes = record {
  broken = λ fd. false;
  num_socks = pos 1;
  ready = 3 ∷ [];
  accepted = pos 5;
  newcomer = peer_with ((0 ∷ 5 ∷ 0 ∷ 0 ∷ 0 ∷ 0 ∷ []) ∷ []);
  outside = λ i. reply;
}

abbrev ends : Round
ends = record comes { ready = 5 ∷ [] }

abbrev others : ℕ → Peer
others q = peer_with []

after_comes : IServ
unfolding serving
after_comes = elim (round comes (initial 3 others)) [ ok s ↦ s | fault e ↦ initial 3 others ]

after_comes_lem : round comes (initial 3 others) ≡ ok after_comes
unfolding serving after_comes
after_comes_lem = refl

ends-Selects : Selects (ends ∷ []) after_comes
unfolding serving after_comes Selects
ends-Selects = (λ q h. ground arith, λ s' run. tt)

both-Selects : Selects (comes ∷ ends ∷ []) (initial 3 others)
unfolding serving Selects
both-Selects = (
  λ q h. h,
  λ s' run.
      let same : after_comes ≡ s' = cc (sym after_comes_lem ∙ run) in
      subst (Selects (ends ∷ [])) same ends-Selects,
)

as_sent : AsSent comes
as_sent q = record { sent = refl; bytes = refl }

iserv_main_same_example :
    old_main 2 (pos 3) (pos 0) others (comes ∷ ends ∷ [])
    ≡ iserv_main 2 (pos 3) (pos 0) others (comes ∷ ends ∷ [])
iserv_main_same_example =
    iserv_main_same 2 3 (pos 0) others (comes ∷ ends ∷ []) (λ e. cc e) (as_sent, (as_sent, tt))
      both-Selects

-- The session has ended: its slot is free again.
after_ends :
    elim (iserv_main 2 (pos 3) (pos 0) others (comes ∷ ends ∷ [])) [
      | ok s ↦ is_set 5 s.connectlist
      | fault e ↦ true
    ]
    ≡ false
unfolding serving
after_ends = refl
