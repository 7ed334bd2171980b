-- ===== src/Transfer.antt =====
-- The server and the client together: what `send_file` writes to a connection that loses nothing,
-- `receive_file` reads back, and the two caches stay in step.
pub mod Blocks
pub mod Rounds
pub mod Files
pub mod Losses
use rabin_fingerprinting.Base.{
  ap, ◌∙◌, append_assoc, ℕ, ◌≡◌, Bool, true, Option, some, List, ◌++◌, flatten,
}
use rabin_fingerprinting.Socket.{InSocket}
use rabin_fingerprinting.Socket.Writes.{IsReliable}
use rabin_fingerprinting.Socket.Segments.{IsFlowing}
use rabin_fingerprinting.Server.Cache.{IsValid}
use rabin_fingerprinting.Server.{Block, Server}
use rabin_fingerprinting.Client.{Client}

-- Every block that the server has counts as sent, and the client has the same block.
pub record Synced (r : Server) (c : Client) : Type 0 where
  pub settled : (n : ℕ) (b : Block) → r.blocks n ≡ some b → b.old ≡ true
  pub held : (n : ℕ) (b : Block) → r.blocks n ≡ some b → c.blocks n ≡ some b

-- A server that can send: its cache is valid, and its connection loses nothing.
pub record IsReady (r : Server) : Type 0 where
  pub valid : IsValid r
  pub reliable : IsReliable r.newsockfd

-- From `r` to `r'` the server has sent `msg`, and is ready again.
pub record Sends (r r' : Server) (msg : List ℕ) : Type 0 where
  pub ready : IsReady r'
  pub same_size : r'.max_size ≡ r.max_size
  pub wire : r'.newsockfd.sent ≡ r.newsockfd.sent ++ msg

-- A client in step with `r` that finds `msg` at the head of its stream, cut into segments in any way,
-- gets to a client that is in step with `r'` and has the rest of the stream left, as `P` says.
abbrev pub Takes : Server → Server → List ℕ → (Client → Client → Type 0) → Type 0
Takes r r' msg P =
    (c : Client) (rest : List ℕ)
    → Synced r c
    → IsFlowing c.sockfd
    → flatten c.sockfd ≡ msg ++ rest
    → (c' : Client) × P c c' × Synced r' c' × (flatten c'.sockfd ≡ rest) × IsFlowing c'.sockfd

pub Sends-trans :
    (r₁ r₂ r₃ : Server) (m₁ m₂ : List ℕ) → Sends r₁ r₂ m₁ → Sends r₂ r₃ m₂ → Sends r₁ r₃ (m₁ ++ m₂)
Sends-trans r₁ r₂ r₃ m₁ m₂ s t = record {
  ready = t.ready;
  same_size = t.same_size ∙ s.same_size;
  wire = t.wire ∙ ap (λ l. l ++ m₂) s.wire ∙ append_assoc r₁.newsockfd.sent m₁ m₂;
}
