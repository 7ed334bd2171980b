-- ===== src/Server/Totality.antt =====
-- `send_file` while every write returns: it comes to its end, keeps the cache valid, and counts its blocks.
use rabin_fingerprinting.Base.{
  ℕ, ◌+◌, ◌*◌, ◌^◌, ◌≤◌, ◌<◌, ◌≡◌, refl, ap, ◌∙◌, List, [], ◌∷◌, All, length, take, flatten, arith,
  Result, ok, false, ◌>>=◌, length-append, length-take,
}
use native.Mathlib.Nat.{le_refl}
use rabin_fingerprinting.Wire.{to_bytes, host_desc}
use rabin_fingerprinting.Socket.{write}
use rabin_fingerprinting.Server.Cache.{IsValid, send_piece-IsValid, sock-IsValid}
use rabin_fingerprinting.Server.Pieces.{pieces, InBounds, pieces-InBounds, flatten-pieces}
use rabin_fingerprinting.Server.Sending.{send_all, send_eof, send_file-pieces}
use rabin_fingerprinting.Server.{Server, send_file}

send_all-IsValid :
    (ps : List (List ℕ)) (r : Server)
    → IsValid r
    → (r' : Server) × (send_all r ps ≡ ok r') × IsValid r' × (r'.max_size ≡ r.max_size)
unfolding send_all
send_all-IsValid [] r v = (r, refl, v, refl)
send_all-IsValid (p ∷ ps) r v =
    let (r₁, run₁, same₁, v₁) = send_piece-IsValid r p (length p) v (le_refl (length p)) in
    let (r₂, run₂, v₂, same₂) = send_all-IsValid ps r₁ v₁ in
    (r₂, rw (run₁, run₂), v₂, same₂ ∙ same₁)

-- Blocks of 1 to 64 bytes: how many there are for so many bytes.
pub blocks_count :
    (ps : List (List ℕ))
    → All InBounds ps
    → (length ps ≤ length (flatten ps)) × (length (flatten ps) ≤ 64 * length ps)
unfolding flatten
blocks_count [] h = (omega arith, omega arith)
blocks_count (p ∷ ps) (h, hs) =
    let (low, high) = blocks_count ps hs in
    (omega (arith, length-append p (flatten ps)), omega (arith, length-append p (flatten ps)))

-- As long as every `write` returns, with -1 or having taken any number of bytes, and neither blocks for
-- ever nor ends the process by SIGPIPE, `send_file` on `s` bytes in 32 bits returns and leaves a valid
-- cache valid. It counts one block for the end and `k` for the data, where `k` is between a 64th of the
-- bytes and their number.
pub send_file-IsValid :
    (r : Server) (file : List ℕ) (s : ℕ)
    → IsValid r
    → s ≤ length file
    → s < 2 ^ 32
    → (k : ℕ) × (r' : Server) × (send_file r file s ≡ ok (k + 1, r'))
      × IsValid r'
      × (k ≤ s)
      × (s ≤ 64 * k)
unfolding send_eof
send_file-IsValid r file s v le fits =
    let ps = pieces r.max_size (take s file) in
    let (r₁, run₁, v₁, _) = send_all-IsValid ps r v in
    let (low, high) = blocks_count ps (pieces-InBounds r.max_size (take s file)) in
    let bytes : length (flatten ps) ≡ s =
      ap length (flatten-pieces r.max_size (take s file)) ∙ omega (arith, length-take s file) in
    (
      length ps,
      record r₁ { newsockfd = (write r₁.newsockfd (to_bytes (host_desc 0 0 false))).1 },
      send_file-pieces r file s v le fits
          ∙ ap (λ (x : Result Server). x >>= send_eof (length ps)) run₁,
      sock-IsValid _ v₁,
      omega (arith, low, bytes),
      omega (arith, high, bytes),
    )

-- The blocks that `send_file` sends, with a valid cache and `s` bytes in 32 bits, have from 1 to
-- `max_bytes` bytes each, and put together they are the file: it runs through them in order and
-- then ends the file.
pub send_file-InBounds :
    (r : Server) (file : List ℕ) (s : ℕ)
    → IsValid r
    → s ≤ length file
    → s < 2 ^ 32
    → (ps : List (List ℕ)) × (send_file r file s ≡ (send_all r ps >>= send_eof (length ps)))
      × All InBounds ps
      × (flatten ps ≡ take s file)
send_file-InBounds r file s v le fits =
    let ps = pieces r.max_size (take s file) in
    (
      ps,
      send_file-pieces r file s v le fits,
      pieces-InBounds r.max_size (take s file),
      flatten-pieces r.max_size (take s file),
    )
