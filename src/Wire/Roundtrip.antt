-- ===== src/Wire/Roundtrip.antt =====
-- A descriptor comes back from its bytes, and its numbers stand on the wire in network order.
use rabin_fingerprinting.Base.{
  ℕ, ◌%◌, ◌^◌, ◌<◌, ◌≡◌, refl, Bool, true, false, [], ◌∷◌, not, ◌==◌, replicate, if◌then◌else◌,
  ◌++◌, arith, length,
}
use rabin_fingerprinting.Wire.{
  BlockDesc, htonl, ntohl, le_bytes, of_le_bytes, bool_byte, to_bytes, from_bytes, host_desc,
  be_bytes,
}

pub ntohl-htonl : (x : ℕ) → ntohl (htonl x) ≡ x % 2 ^ 32
unfolding htonl ntohl
ntohl-htonl x = omega arith

pub htonl-lt : (x : ℕ) → htonl x < 2 ^ 32
unfolding htonl
htonl-lt x = omega arith

pub le_bytes_4 : (x : ℕ) → x < 2 ^ 32 → of_le_bytes (le_bytes 4 x) ≡ x
unfolding le_bytes of_le_bytes
le_bytes_4 x h = omega arith

le_bytes_8 : (x : ℕ) → x < 2 ^ 64 → of_le_bytes (le_bytes 8 x) ≡ x
unfolding le_bytes of_le_bytes
le_bytes_8 x h = omega arith

pub length-to_bytes : (d : BlockDesc) → length (to_bytes d) ≡ 13
unfolding to_bytes le_bytes
length-to_bytes d = refl

bool_byte_test : (b : Bool) → not (bool_byte b == 0) ≡ b
unfolding bool_byte
bool_byte_test true = refl
bool_byte_test false = refl

-- Any descriptor that the server's host can hold is read back whole by the client's cast.
pub from_bytes-to_bytes :
    (d : BlockDesc) → d.block_num < 2 ^ 32 → d.data_size < 2 ^ 64 → from_bytes (to_bytes d) ≡ d
unfolding to_bytes from_bytes le_bytes
from_bytes-to_bytes d hn hs = λ i. record {
  block_num = le_bytes_4 d.block_num hn i;
  data_size = le_bytes_8 d.data_size hs i;
  old = bool_byte_test d.old i;
}

-- The client recovers the number, the size and the flag that the server put into a descriptor; the
-- size only modulo 2^32, since `htonl` takes 32 bits of the `size_t`.
pub received_fields :
    (n s : ℕ) (o : Bool)
    → let d = from_bytes (to_bytes (host_desc n s o)) in
      (ntohl d.block_num ≡ n % 2 ^ 32) × (ntohl d.data_size ≡ s % 2 ^ 32) × (d.old ≡ o)
unfolding host_desc
received_fields n s o =
    rw (from_bytes-to_bytes (host_desc n s o) (htonl-lt n) (omega (arith, htonl-lt s)))
      (ntohl-htonl n, ntohl-htonl s, refl)

-- On the wire a descriptor is the number and the size, each in four bytes with the most significant
-- first, four bytes of zero padding, and a byte for the flag.
wire_order :
    (n s : ℕ) (o : Bool)
    → to_bytes (host_desc n s o)
      ≡ be_bytes 4 n ++ (be_bytes 4 s ++ (replicate 4 0 ++ (if o then 1 else 0) ∷ []))
unfolding to_bytes bool_byte le_bytes be_bytes host_desc htonl
wire_order n s true = ground arith
wire_order n s false = ground arith
