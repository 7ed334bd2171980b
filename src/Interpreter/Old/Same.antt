-- ===== src/Interpreter/Old/Same.antt =====
-- One message in the two texts of the interpreter server.
use rabin_fingerprinting.Base.{
  ℕ, ◌^◌, ◌≡◌, ◌≢◌, refl, sym, ap, ◌∙◌, List, [], length, take, drop, ltb, leb, ◌==◌, ==_ne,
  if◌then◌else◌, Result, ok, ◌>>=◌, Bool-cases, Option-cases, inl, inr,
}
use rabin_fingerprinting.Wire.{ntohl, of_le_bytes}
use rabin_fingerprinting.Socket.{InSocket, read, read_full}
use rabin_fingerprinting.Interpreter.{IServ, htons, slot}
use rabin_fingerprinting.Interpreter.Service.{
  Outside, interpreter_address, send_files, drop_slot, read_msg, dispatch, service_message,
  service_client, advance,
}
use rabin_fingerprinting.Interpreter.Old.{
  interpreter_path, dispatch as old_dispatch, service_message as old_message,
  service_client as old_client,
}

-- `FILE_SEND` does the same with the paths that the two texts give it for the interpreter.
pub record SendsSame (o : Outside) : Type 0 where
  pub sent : o.interpreter_sent interpreter_path ≡ o.interpreter_sent interpreter_address
  pub bytes : o.interpreter_bytes interpreter_path ≡ o.interpreter_bytes interpreter_address

dispatch_same :
    (o : Outside) (i type : ℕ) (msg : List ℕ) (s : IServ)
    → SendsSame o
    → slot s i ≢ 0
    → old_dispatch o i type msg s ≡ dispatch o i type msg s
unfolding old_dispatch dispatch send_files
dispatch_same o i type msg s same ne = rw (==_ne (slot s i) 0 ne, same.sent, same.bytes) refl

-- What comes after `readMsg` finds the slot as it was.
read_msg_same :
    (len i : ℕ) (s : IServ) (f g : List ℕ × IServ → Result IServ)
    → ((r : List ℕ × IServ) → slot r.1 i ≡ slot s i → f r ≡ g r)
    → (read_msg (slot s i) len s >>= f) ≡ (read_msg (slot s i) len s >>= g)
unfolding read_msg
read_msg_same len i s f g h = elim (Bool-cases (leb (2 ^ 31) len)) [
  | inl e ↦ rw e (h ([], s) refl)
  | inr e ↦ rw e (elim (Option-cases (read_full len (s.peers (slot s i)).incoming).0) [
    | inl none_left ↦ rw none_left refl
    | inr (msg, got) ↦ rw got (h (msg, _) refl)
  ])
]

message_same :
    (o : Outside) (i type len : ℕ) (s : IServ)
    → SendsSame o
    → slot s i ≢ 0
    → old_message o i type len s ≡ service_message o i type len s
unfolding old_message service_message
message_same o i type len s same ne =
    let after : (r : List ℕ × IServ)
        → slot r.1 i ≡ slot s i
        → (if length r.0 == len then old_dispatch o i type r.0 r.1 else ok r.1)
          ≡ (if length r.0 == len then dispatch o i type r.0 r.1 else ok r.1) =
      λ r e.
        ap (λ t. if length r.0 == len then t else ok r.1)
          (dispatch_same o i type r.0 r.1 same (λ z. ne (sym e ∙ z))) in
    elim (Bool-cases (len == 0)) [
      | inl e ↦ rw e (after ([], s) refl)
      | inr e ↦ rw e (read_msg_same len i s _ _ after)
    ]

pub client_same :
    (o : Outside) (i : ℕ) (s : IServ)
    → SendsSame o
    → slot s i ≢ 0
    → old_client o i s ≡ service_client o i s
unfolding old_client service_client
client_same o i s same ne =
    let got : List ℕ × InSocket = read (s.peers (slot s i)).incoming 6 in
    let s' : IServ = advance (slot s i) got.1 s in
    ap (λ t. if ltb (length got.0) 6 then ok (drop_slot i s') else t)
      (message_same o i (htons (of_le_bytes (take 2 got.0))) (ntohl (of_le_bytes (drop 2 got.0))) s'
        same ne)
