-- ===== src/Transfer/Blocks.antt =====
-- One block, from `send_piece` of the server to `receive_block` of the client.
use native.Mathlib.Nat.{mod-lt}
use rabin_fingerprinting.Base.{
  ℕ, ◌≤◌, ◌<◌, ◌≡◌, refl, ap, ◌∙◌, Bool, true, some, List, [], ◌++◌, length, arith, if◌then◌else◌,
  ok, inl, inr, length-append,
}
use rabin_fingerprinting.Wire.{to_bytes, host_desc}
use rabin_fingerprinting.Wire.Roundtrip.{length-to_bytes}
use rabin_fingerprinting.Server.Hash.{block_number}
use rabin_fingerprinting.Server.Cache.{IsValid, Flags, block_of, put-IsValid}
use rabin_fingerprinting.Server.Pieces.{InBounds}
use rabin_fingerprinting.Server.Delivery.{message, send_piece-message}
use rabin_fingerprinting.Server.{Block, Server, put, send_piece}
use rabin_fingerprinting.Client.{Client, receive_block}
use rabin_fingerprinting.Client.Receive.{receive_new, receive_old}
use rabin_fingerprinting.Transfer.{Synced, IsReady, Sends, Takes}

-- The client's cache after a block agrees with the server's.
put-Synced :
    (r r' : Server) (c c' : Client) (n : ℕ) (p : List ℕ)
    → Synced r c
    → ((q : ℕ) → r'.blocks q ≡ put n (block_of n p true) r.blocks q)
    → ((q : ℕ) → c'.blocks q ≡ put n (block_of n p true) c.blocks q)
    → Synced r' c'
put-Synced r r' c c' n p s er ec = record {
  settled = λ q b h. ground (arith, er q, s.settled q b);
  held = λ q b h. ground (arith, er q, ec q, s.held q b);
}

-- What the flag of the message says of the server's cache, it says of the client's.
held_block :
    (r : Server) (c : Client) (n : ℕ) (p : List ℕ) (cur : Block)
    → IsValid r
    → Synced r c
    → r.blocks n ≡ some cur
    → cur.bytes ≡ p
    → c.blocks n ≡ some (block_of n p true)
held_block r c n p cur v s e same =
    let (num, sized, _) = v.numbered n cur e in
    s.held n cur e ∙ (λ i. some (record {
      block_num = num i;
      data_size = (sized ∙ ap length same) i;
      old = s.settled n cur e i;
      bytes = same i;
    }))

take_block :
    (r r' : Server) (n : ℕ) (p : List ℕ) (o : Bool)
    → IsValid r
    → InBounds p
    → n < r.max_size
    → Flags r.blocks n p o
    → ((q : ℕ) → r'.blocks q ≡ put n (block_of n p true) r.blocks q)
    → Takes r r'
        (message n p o)
        (λ before after. receive_block before ≡ ok (some (block_of n p true), after))
take_block r r' n p o v bounds number (inl (old, (cur, e, same))) er c rest sync flow stream =
    let held = held_block r c n p cur v sync e same in
    let (s, run, left, flow') =
      receive_old c n p rest (omega (arith, v.small)) bounds.0 (omega arith) flow held
        (rw old at stream) in
    (
      record c { sockfd = s },
      run,
      put-Synced r r' c (record c { sockfd = s }) n p sync er (λ q. ground (arith, held)),
      left,
      flow',
    )
take_block r r' n p o v bounds number (inr (new, fresh)) er c rest sync flow stream =
    let (s, run, left, flow') =
      receive_new c n p rest (omega (arith, v.small)) bounds.0 (omega arith) flow
        (rw new at stream) in
    (_, run, put-Synced r r' c _ n p sync er (λ q. refl), left, flow')

-- A block of 1 to 64 bytes that the server sends, be it old or new, is what the client gets, and the
-- caches stay in step.
pub transfer_block :
    (r : Server) (p : List ℕ)
    → IsReady r
    → InBounds p
    → (r' : Server) × (msg : List ℕ) × (send_piece r p (length p) ≡ ok r')
      × Sends r r' msg
      × (1 ≤ length msg)
      × Takes r r' msg (λ before after.
        receive_block before ≡ ok (some (block_of (block_number r.max_size p) p true), after))
transfer_block r p ready bounds =
    let n = block_number r.max_size p in
    let v = ready.valid in
    let number : n < r.max_size = mod-lt _ v.positive in
    let (o, run, flags) = send_piece-message r p v ready.reliable in
    let r' : Server = record r {
      blocks = put n (block_of n p true) r.blocks;
      newsockfd = record { sent = r.newsockfd.sent ++ message n p o; outcomes = [] };
    } in
    (
      r',
      message n p o,
      run,
      record {
        ready = record {
          valid = put-IsValid n (block_of n p true) r'.newsockfd v (refl, refl, number);
          reliable = refl;
        };
        same_size = refl;
        wire = refl;
      },
      omega (
        arith,
        length-append (to_bytes (host_desc n (length p) o)) (if o then [] else p),
        length-to_bytes (host_desc n (length p) o),
      ),
      take_block r r' n p o v bounds number flags (λ q. refl),
    )
