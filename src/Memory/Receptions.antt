-- ===== src/Memory/Receptions.antt =====
-- `receive_block` with pointers and by value.
use rabin_fingerprinting.Base.{
  ℕ, suc, ◌≤◌, ◌≡◌, refl, sym, ap, subst, ◌∙◌, Option, none, some, List, [], take, ◌==◌, ==_ne,
  ==_refl, Result, Fault, ok, fault, arith, Bool-cases, Option-cases, ◌⊎◌, inl, inr,
}
use rabin_fingerprinting.Wire.{BlockDesc, ntohl, from_bytes}
use rabin_fingerprinting.Socket.{InSocket, read_full}
use rabin_fingerprinting.Server.{Block, BlockMap}
use rabin_fingerprinting.Client
use rabin_fingerprinting.Client.{Client}
use rabin_fingerprinting.Memory.{Struct, Memory, at_address, new_struct, new_array, load_array}
use rabin_fingerprinting.Memory.Cells.{
  Holds, load_struct-Holds, Maps, Maps-frame, Entry-none, Entry-some,
}
use rabin_fingerprinting.Memory.Receiver.{
  Receiver, delete_array, insert_block, copy_block, get_block, return_block, receive_data,
  receive_body, receive_header, receive_block,
}
use rabin_fingerprinting.Memory.Replacements.{
  without, dropped, filled, filled_header, drop_block-Holds, inserted-Maps, dropped_count,
  dropped_arrays,
}

-- The client with pointers stands for the one that holds its blocks by value.
pub record Follows (s : Receiver) (c : Client) : Type 0 where
  pub maps : Maps s.blocks s.memory c.blocks
  pub same_stream : s.sockfd ≡ c.sockfd

-- What the two give, with `n` arrays at least in memory.
abbrev pub Agrees : ℕ → Result (Option ℕ × Receiver) → Result (Option Block × Client) → Type 0
Agrees n (ok (none, s)) (ok (none, c)) = Follows s c × (n ≤ s.memory.array_count)
Agrees n (ok (some p, s)) (ok (some b, c)) =
    Follows s c × Holds s.memory p b × (n ≤ s.memory.array_count)
Agrees n (ok (none, s)) (ok (some b, c)) = ⊥
Agrees n (ok (some p, s)) (ok (none, c)) = ⊥
Agrees n (ok r) (fault e) = ⊥
Agrees n (fault e) (ok r) = ⊥
Agrees n (fault e) (fault e') = e ≡ e'

-- A block's copy.
abbrev copied : Struct → List ℕ → Memory → Memory
copied c bytes m =
    new_array (take c.data_size bytes) (new_struct (record c { data_ptr = suc m.next }) m)

copy_block-Holds :
    {m : Memory} {q : ℕ} {x : Block} (h : Holds m q x)
    → (copy_block h.cell m ≡ ok (copied h.cell h.data_bytes m))
      × Holds (copied h.cell h.data_bytes m) m.next (record x { bytes = take x.data_size x.bytes })
unfolding copy_block load_array
copy_block-Holds {m} h = (
  rw (copy_block, load_array, h.at_data) refl,
  record {
    cell = record h.cell { data_ptr = suc m.next };
    data_bytes = take h.cell.data_size h.data_bytes;
    at_cell = rw (==_refl m.next) refl;
    at_data = rw (==_refl (suc m.next)) refl;
    same = ap (λ (b : Block). record b { bytes = take b.data_size b.bytes }) h.same;
    below = omega arith;
    data_below = omega arith;
  },
)

copied-Maps :
    {ptrs : ℕ → Option ℕ} {m : Memory} {blocks : BlockMap} (c : Struct) (bytes : List ℕ)
    → Maps ptrs m blocks
    → Maps ptrs (copied c bytes m) blocks
copied-Maps {m = m} c bytes maps =
    Maps-frame maps (omega arith) (λ p le. rw (==_ne m.next p (λ z. absurd (omega arith))) refl)
      (λ d le. rw (==_ne (suc m.next) d (λ z. absurd (omega arith))) refl)

delete_array_lem :
    (bd : ℕ) (m : Memory) (bytes : List ℕ)
    → m.arrays bd ≡ some bytes
    → delete_array bd m ≡ ok (without bd m)
unfolding delete_array load_array
delete_array_lem bd m bytes e = rw (delete_array, load_array, e) refl

return_block-Follows :
    (s : Receiver) (c : Client) (bd n : ℕ) (bytes : List ℕ)
    → s.memory.arrays bd ≡ some bytes
    → Follows (record s { memory = without bd s.memory }) c
    → Agrees (suc (without bd s.memory).array_count) (return_block bd n s) (Client.return_block c n)
unfolding return_block get_block Client.return_block Client.get_block
return_block-Follows s c bd n bytes e f =
    let m = without bd s.memory in
    rw (delete_array_lem bd s.memory bytes e) (elim (Option-cases (s.blocks n)) [
      | inl gone ↦
          let missing = Entry-none m (s.blocks n) (c.blocks n) gone (f.maps.entry n) in
          rw (get_block, gone, Client.return_block, Client.get_block, missing) refl
      | inr (q, at_n) ↦
          let (x, held, h) = Entry-some m (s.blocks n) (c.blocks n) q at_n (f.maps.entry n) in
          let (copy, new) = copy_block-Holds h in
          rw
            (
              get_block,
              at_n,
              load_struct-Holds h,
              copy,
              Client.return_block,
              Client.get_block,
              held,
            )
            (
              record { maps = copied-Maps h.cell h.data_bytes f.maps; same_stream = f.same_stream },
              new,
              omega arith,
            )
    ])

Agrees-mono :
    {k n : ℕ} (r : Result (Option ℕ × Receiver)) (r' : Result (Option Block × Client))
    → k ≤ n
    → Agrees n r r'
    → Agrees k r r'
Agrees-mono (ok (none, s)) (ok (none, c)) le (f, more) = (f, omega arith)
Agrees-mono (ok (some p, s)) (ok (some b, c)) le (f, h, more) = (f, h, omega arith)
Agrees-mono (ok (none, s)) (ok (some b, c)) le a = absurd a
Agrees-mono (ok (some p, s)) (ok (none, c)) le a = absurd a
Agrees-mono (ok (none, s)) (fault e) le a = absurd a
Agrees-mono (ok (some p, s)) (fault e) le a = absurd a
Agrees-mono (fault e) (ok r) le a = absurd a
Agrees-mono (fault e) (fault e') le a = a

-- A state with the header's array, allocated last.
abbrev with_header : Receiver → List ℕ → InSocket → Receiver
with_header s header sock = record s { sockfd = sock; memory = new_array header s.memory }

header-Maps :
    {ptrs : ℕ → Option ℕ} {m : Memory} {blocks : BlockMap} (header : List ℕ)
    → Maps ptrs m blocks
    → Maps ptrs (new_array header m) blocks
header-Maps {m = m} header maps =
    Maps-frame maps (omega arith) (λ p le. refl)
      (λ d le. rw (==_ne m.next d (λ z. absurd (omega arith))) refl)

receive_data-Follows :
    (s : Receiver) (c : Client) (header : List ℕ) (sock sock' : InSocket) (n size : ℕ)
    (o : Option (List ℕ))
    → Follows s c
    → Agrees
        (suc s.memory.array_count)
        (receive_data s.memory.next (with_header s header sock') n size (o, sock))
        (Client.receive_data (record c { sockfd = sock' }) n size (o, sock))
unfolding receive_data Client.receive_data Client.insert_block insert_block
receive_data-Follows s c header sock sock' n size none f =
    (record { maps = header-Maps [] (header-Maps header f.maps); same_stream = refl }, omega arith)
receive_data-Follows s c header sock sock' n size (some buf) f =
    let m = s.memory in
    let old = s.blocks n in
    let after = dropped old (filled n size header buf m) in
    let dropped_ok = drop_block-Holds n size header buf m old (c.blocks n) (f.maps.entry n) in
    let at_header = dropped_arrays old (filled n size header buf m) m.next in
    let next = record s {
      blocks = at_address n (some (suc (suc m.next))) s.blocks;
      sockfd = sock;
      memory = after;
    } in
    rw dropped_ok (
      Agrees-mono _ _ (omega (arith, dropped_count old (filled n size header buf m))) (
        return_block-Follows next _ m.next n header (at_header ∙ filled_header n size header buf m)
          (record {
            maps = inserted-Maps n size header buf m old refl f.maps;
            same_stream = refl;
          })))

receive_body-Follows :
    (s : Receiver) (c : Client) (header : List ℕ) (sock : InSocket) (bd : BlockDesc)
    → Follows s c
    → Agrees
        (suc s.memory.array_count)
        (receive_body s.memory.next (with_header s header sock) bd)
        (Client.receive_body (record c { sockfd = sock }) bd)
unfolding receive_body Client.receive_body
receive_body-Follows s c header sock bd f =
    let m = s.memory in
    elim (Bool-cases (ntohl bd.data_size == 0)) [
      | inl end ↦
          rw end (record { maps = header-Maps header f.maps; same_stream = refl }, omega arith)
      | inr more ↦ elim (Bool-cases bd.old) [
        | inr new ↦
            rw (more, new)
              (receive_data-Follows s c header _ sock (ntohl bd.block_num) (ntohl bd.data_size) _ f)
        | inl old ↦
            rw (more, old)
              (Agrees-mono _ _ (omega arith) (
                return_block-Follows (with_header s header sock) (record c { sockfd = sock }) m.next
                  (ntohl bd.block_num) header (rw (==_refl m.next) refl)
                  (record {
                    maps =
                        Maps-frame f.maps (omega arith) (λ p le. refl)
                          (λ d le. rw (==_ne m.next d (λ z. absurd (omega arith))) refl);
                    same_stream = refl;
                  })))
      ]
    ]

receive_header-Follows :
    (s : Receiver) (c : Client) (sock : InSocket) (o : Option (List ℕ))
    → Follows s c
    → Agrees
        (suc s.memory.array_count)
        (receive_header s (o, sock))
        (Client.receive_header c (o, sock))
unfolding receive_header Client.receive_header
receive_header-Follows s c sock none f =
    (record { maps = header-Maps [] f.maps; same_stream = refl }, omega arith)
receive_header-Follows s c sock (some header) f =
    receive_body-Follows s c header sock (from_bytes header) f

-- Every call leaves an array more, at least.
pub receive_block-Follows :
    (s : Receiver) (c : Client)
    → Follows s c
    → Agrees (suc s.memory.array_count) (receive_block s) (Client.receive_block c)
unfolding receive_block Client.receive_block
receive_block-Follows s c f =
    let got = read_full 13 c.sockfd in
    subst
      (λ x. Agrees (suc s.memory.array_count) (receive_header s x) (Client.receive_header c got))
      (sym (ap (read_full 13) f.same_stream)) (receive_header-Follows s c got.1 got.0 f)

-- How the two end.
pub Agrees-cases :
    {n : ℕ} (r : Result (Option ℕ × Receiver)) (r' : Result (Option Block × Client))
    → Agrees n r r'
    → ((s : Receiver) × (c : Client) × (r ≡ ok (none, s))
        × (r' ≡ ok (none, c))
        × Follows s c
        × (n ≤ s.memory.array_count))
      ⊎ ((p : ℕ) × (s : Receiver) × (b : Block) × (c : Client) × (r ≡ ok (some p, s))
          × (r' ≡ ok (some b, c))
          × Follows s c
          × Holds s.memory p b
          × (n ≤ s.memory.array_count))
      ⊎ ((e : Fault) × (r ≡ fault e) × (r' ≡ fault e))
Agrees-cases (ok (none, s)) (ok (none, c)) (f, more) = inl (s, c, refl, refl, f, more)
Agrees-cases (ok (some p, s)) (ok (some b, c)) (f, h, more) =
    inr (inl (p, s, b, c, refl, refl, f, h, more))
Agrees-cases (ok (none, s)) (ok (some b, c)) a = absurd a
Agrees-cases (ok (some p, s)) (ok (none, c)) a = absurd a
Agrees-cases (ok (none, s)) (fault e) a = absurd a
Agrees-cases (ok (some p, s)) (fault e) a = absurd a
Agrees-cases (fault e) (ok r) a = absurd a
Agrees-cases (fault e) (fault e') a = inr (inr (e, refl, ap fault (sym a)))
