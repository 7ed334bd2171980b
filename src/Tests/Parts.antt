-- ===== src/Tests/Parts.antt =====
-- The theorems on the parts of the transfer at small inputs.
use rabin_fingerprinting.Base.{◌%◌, ◌^◌, ◌≡◌, refl, Bool, true, [], ◌∷◌, ◌++◌, arith, ok}
use rabin_fingerprinting.Wire.{BlockDesc, host_desc, to_bytes, from_bytes, ntohl}
use rabin_fingerprinting.Wire.Roundtrip.{from_bytes-to_bytes, received_fields}
use rabin_fingerprinting.Server.{put, hash_loop, send_piece}
use rabin_fingerprinting.Server.Hash.{c_string, horner, hash_loop-horner}
use rabin_fingerprinting.Server.Cache.{Flags, block_of}
use rabin_fingerprinting.Server.Delivery.{message, send_piece-message}
use rabin_fingerprinting.Tests.{runs, page, page_bytes, served}
use rabin_fingerprinting.Tests.Transfers.{served-IsReady}

abbrev desc : BlockDesc
desc = host_desc 339 6 true

from_bytes-to_bytes_example : from_bytes (to_bytes desc) ≡ desc
unfolding runs
from_bytes-to_bytes_example = from_bytes-to_bytes desc (omega arith) (omega arith)

received_fields_example :
    let d = from_bytes (to_bytes desc) in
    (ntohl d.block_num ≡ 339) × (ntohl d.data_size ≡ 6) × (d.old ≡ true)
received_fields_example = received_fields 339 6 true

hash_loop-horner_example :
    hash_loop 5381 (200 ∷ 7 ∷ 0 ∷ 9 ∷ []) ≡ horner 5381 (200 ∷ 7 ∷ []) % 2 ^ 32
unfolding c_string
hash_loop-horner_example = hash_loop-horner (200 ∷ 7 ∷ 0 ∷ 9 ∷ [])

send_piece-message_example :
    (o : Bool) × (send_piece served page 6
      ≡ ok (record served {
        blocks = put 339 (block_of 339 page true) served.blocks;
        newsockfd = record { sent = page_bytes ++ message 339 page o; outcomes = [] };
      }))
    × Flags served.blocks 339 page o
unfolding runs
send_piece-message_example = send_piece-message served page served-IsReady.valid refl
