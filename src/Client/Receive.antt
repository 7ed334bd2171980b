-- ===== src/Client/Receive.antt =====
-- `receive_block` on the messages of the server, and that `receive_file` ends.
use native.Mathlib.Nat.{mod-eq_of_lt}
use rabin_fingerprinting.Base.{
  ℕ, ◌^◌, ◌≤◌, ◌<◌, ◌≡◌, refl, ap, ◌∙◌, Bool, true, false, Option, none, some, List, ◌++◌, flatten,
  length, take, drop, arith, Result, ok, fault, out_of_range, ==_refl, ==_ne, take_all,
  append_assoc, append-nil, length-append, take-append, drop-append,
}
use rabin_fingerprinting.Wire.{BlockDesc, to_bytes, from_bytes, host_desc, ntohl}
use rabin_fingerprinting.Wire.Roundtrip.{length-to_bytes, received_fields}
use rabin_fingerprinting.Socket.{InSocket, read_full}
use rabin_fingerprinting.Socket.Segments.{IsFlowing, read_full-take}
use rabin_fingerprinting.Server.{Block, put}
use rabin_fingerprinting.Server.Cache.{block_of}
use rabin_fingerprinting.Server.Delivery.{message}
use rabin_fingerprinting.Client.{
  Client, insert_block, get_block, receive_block, receive_header, receive_body, receive_data,
  return_block,
}

-- A full read of the first part of what the stream holds.
read_full-append :
    (bs rest : List ℕ) (s : InSocket)
    → IsFlowing s
    → flatten s ≡ bs ++ rest
    → ((read_full (length bs) s).0 ≡ some bs)
      × (flatten (read_full (length bs) s).1 ≡ rest)
      × IsFlowing (read_full (length bs) s).1
read_full-append bs rest s flow e =
    let (got, left, flow') =
      read_full-take (length bs) s flow (omega (arith, ap length e ∙ length-append bs rest)) in
    (
      got ∙ ap (λ l. some (take (length bs) l)) e ∙ ap some (take-append bs rest),
      left ∙ ap (drop (length bs)) e ∙ drop-append bs rest,
      flow',
    )

-- The header of a message is read whole.
header_read :
    (c : Client) (d : BlockDesc) (rest : List ℕ)
    → IsFlowing c.sockfd
    → flatten c.sockfd ≡ to_bytes d ++ rest
    → (s : InSocket) × (receive_block c
        ≡ receive_body (record c { sockfd = s }) (from_bytes (to_bytes d)))
      × (flatten s ≡ rest)
      × IsFlowing s
unfolding receive_block receive_header
header_read c d rest flow e =
    let (got, left, flow') =
      rw (length-to_bytes d) at (read_full-append (to_bytes d) rest c.sockfd flow e) in
    (
      (read_full 13 c.sockfd).1,
      ap (λ o. receive_header c (o, (read_full 13 c.sockfd).1)) got,
      left,
      flow',
    )

-- What the server's message for a block does to a client, whatever the segments: the bytes of the
-- message are taken from the stream.
abbrev pub Receives :
    Client → List ℕ → Result (Option Block × Client) → (InSocket → Option Block × Client) → Type 0
Receives c rest result expected =
    (s : InSocket) × (result ≡ ok (expected s)) × (flatten s ≡ rest) × IsFlowing s

-- The descriptor of size 0 ends a file.
pub receive_eof :
    (c : Client) (rest : List ℕ)
    → IsFlowing c.sockfd
    → flatten c.sockfd ≡ to_bytes (host_desc 0 0 false) ++ rest
    → Receives c rest (receive_block c) (λ s. (none, record c { sockfd = s }))
unfolding receive_body
receive_eof c rest flow e =
    let (s, run, left, flow') = header_read c (host_desc 0 0 false) rest flow e in
    let (num, size, old) = received_fields 0 0 false in (s, run ∙ rw size refl, left, flow')

get_block-at :
    (c : Client) (n : ℕ) (b : Block)
    → c.blocks n ≡ some b
    → get_block c n ≡ ok (record b { bytes = take b.data_size b.bytes })
unfolding get_block
get_block-at c n b e = rw (e, get_block)

data_received :
    (c : Client) (n : ℕ) (p : List ℕ) (s s' : InSocket)
    → receive_data (record c { sockfd = s }) n (length p) (some p, s')
      ≡ ok (
        some (block_of n p true),
        record { blocks = put n (block_of n p true) c.blocks; sockfd = s' },
      )
unfolding receive_data return_block insert_block
data_received c n p s s' =
    let stored : Client = record { blocks = put n (block_of n p true) c.blocks; sockfd = s' } in
    rw (get_block-at stored n (block_of n p true) (rw ==_refl), take_all p)

module _ (c : Client) (n : ℕ) (p rest : List ℕ) (number : n < 2 ^ 32) (some_bytes : 1 ≤ length p)
    (size : length p < 2 ^ 32) (flow : IsFlowing c.sockfd) where
  -- The fields that the client reads from the descriptor of a block.
  fields :
      (o : Bool)
      → let d = from_bytes (to_bytes (host_desc n (length p) o)) in
        (ntohl d.block_num ≡ n) × (ntohl d.data_size ≡ length p) × (d.old ≡ o)
  fields o =
      let (num, sized, flag) = received_fields n (length p) o in
      (num ∙ mod-eq_of_lt number, sized ∙ mod-eq_of_lt size, flag)

  -- A new block is stored in the client's cache and returned.
  pub receive_new :
      flatten c.sockfd ≡ message n p false ++ rest
      → Receives c rest (receive_block c) (λ s. (
        some (block_of n p true),
        record { blocks = put n (block_of n p true) c.blocks; sockfd = s },
      ))
  unfolding receive_body
  receive_new e =
      let (s, run, left, flow') =
        header_read c (host_desc n (length p) false) (p ++ rest) flow (e ∙ append_assoc _ p rest) in
      let (num, sized, flag) = fields false in
      let (got, left', flow'') = read_full-append p rest s flow' left in
      (
        (read_full (length p) s).1,
        run
            ∙ rw (num, sized, flag, ==_ne (length p) 0 (omega arith))
                (ap
                    (λ o.
                      receive_data (record c { sockfd = s }) n (length p)
                        (o, (read_full (length p) s).1))
                    got
                  ∙ data_received c n p s (read_full (length p) s).1),
        left',
        flow'',
      )

  -- An old block is taken from the client's cache.
  pub receive_old :
      c.blocks n ≡ some (block_of n p true)
      → flatten c.sockfd ≡ message n p true ++ rest
      → Receives c rest (receive_block c) (λ s. (some (block_of n p true), record c { sockfd = s }))
  unfolding receive_body return_block get_block
  receive_old held e =
      let (s, run, left, flow') =
        header_read c (host_desc n (length p) true) rest flow
          (e ∙ ap (λ l. l ++ rest) (append-nil (to_bytes (host_desc n (length p) true)))) in
      let (num, sized, flag) = fields true in
      (
        s,
        run ∙ rw (num, sized, flag, ==_ne (length p) 0 (omega arith), held, take_all p),
        left,
        flow',
      )

  -- An old block that the client's cache does not have ends the client by an exception.
  pub receive_missing :
      c.blocks n ≡ none
      → flatten c.sockfd ≡ message n p true ++ rest
      → receive_block c ≡ fault out_of_range
  unfolding receive_body return_block get_block
  receive_missing missing e =
      let (s, run, left, flow') =
        header_read c (host_desc n (length p) true) rest flow
          (e ∙ ap (λ l. l ++ rest) (append-nil (to_bytes (host_desc n (length p) true)))) in
      let (num, sized, flag) = fields true in
      run ∙ rw (num, sized, flag, ==_ne (length p) 0 (omega arith), missing)
