-- ===== src/Wire.antt =====
-- The `block_desc` header of Server/rabinserver.h and Client/rabinclient.h as it stands in memory and
-- on the wire: a packed struct of `unsigned`, `size_t` and `bool` on a little-endian LP64 host, whose
-- numbers the server stores through `htonl` and the client reads through `ntohl`.
pub mod Roundtrip
use rabin_fingerprinting.Base.{
  ℕ, zero, suc, ◌+◌, ◌*◌, ◌/◌, ◌%◌, ◌^◌, Bool, true, false, not, List, [], ◌∷◌, ◌++◌, take, drop,
  get_or, ◌==◌,
}

pub record BlockDesc : Type 0 where
  pub block_num : ℕ
  pub data_size : ℕ
  pub old : Bool

-- sizeof(block_desc): 4 + 8 + 1 bytes, since the struct is packed.
abbrev pub sizeof_block_desc : ℕ
sizeof_block_desc = 13

-- `htonl` on a little-endian host swaps the bytes of its argument, which is cut to 32 bits.
unfoldable pub htonl : ℕ → ℕ
htonl x =
    x % 2 ^ 8 * 2 ^ 24
    + x / 2 ^ 8 % 2 ^ 8 * 2 ^ 16
    + x / 2 ^ 16 % 2 ^ 8 * 2 ^ 8
    + x / 2 ^ 24 % 2 ^ 8

-- `ntohl` swaps them back.
unfoldable pub ntohl : ℕ → ℕ
ntohl x = htonl x

-- The bytes of a number in memory, least significant first.
unfoldable pub le_bytes : ℕ → ℕ → List ℕ
le_bytes zero x = []
le_bytes (suc k) x = x % 256 ∷ le_bytes k (x / 256)

unfoldable pub of_le_bytes : List ℕ → ℕ
of_le_bytes [] = 0
of_le_bytes (b ∷ bs) = b + 256 * of_le_bytes bs

bool_byte : Bool → ℕ
bool_byte true = 1
bool_byte false = 0

-- The object representation that `write(newsockfd, &descriptor, sizeof(block_desc))` sends.
unfoldable pub to_bytes : BlockDesc → List ℕ
unfolding bool_byte
to_bytes d = le_bytes 4 d.block_num ++ (le_bytes 8 d.data_size ++ (bool_byte d.old ∷ []))

-- The cast `(block_desc *)bd_buf` of the bytes that were read.
unfoldable pub from_bytes : List ℕ → BlockDesc
from_bytes bs = record {
  block_num = of_le_bytes (take 4 bs);
  data_size = of_le_bytes (take 8 (drop 4 bs));
  old = not (get_or bs 12 0 == 0);
}

-- The descriptor that `write_block_to_client` and `send_file` fill in.
unfoldable pub host_desc : ℕ → ℕ → Bool → BlockDesc
host_desc n size old = record { block_num = htonl n; data_size = htonl size; old = old }

-- The low `k` bytes of a number, most significant first: network order.
unfoldable pub be_bytes : ℕ → ℕ → List ℕ
be_bytes zero x = []
be_bytes (suc k) x = be_bytes k (x / 256) ++ x % 256 ∷ []
