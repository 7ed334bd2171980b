-- ===== src/Tests/Mains.antt =====
-- The two programs of the file transfer from their start, at two small files.
use rabin_fingerprinting.Base.{
  ℕ, ◌≡◌, ◌≤◌, refl, true, some, List, [], ◌∷◌, length, flatten, arith, ok, pos,
}
use mathlib.Core.List.{map}
use rabin_fingerprinting.Socket.{InSocket}
use rabin_fingerprinting.Server.{Server, new_server, connect_to_client}
use rabin_fingerprinting.Client.{Client}
use rabin_fingerprinting.Transfer.{Synced}
use rabin_fingerprinting.Programs.{ServerCalls, send_args, send_array, server_main, client_main}
use rabin_fingerprinting.Programs.Mains.{Starts, sent_by, client_main-server_main}
use rabin_fingerprinting.Tests.{runs, page, connection}

abbrev two_files : List (List ℕ)
two_files = page ∷ page ∷ []

abbrev pub calls : ServerCalls
calls = record {
  bound = pos 0;
  map_max_size = 10000000;
  accepted = pos 4;
  client = connection;
  stack = 8000000;
}

pub calls-Starts : Starts calls
calls-Starts = record { binds = refl; has_room = omega arith; accepts = refl; fresh = refl }

written : List ℕ
unfolding runs server_main new_server connect_to_client send_args send_array
written = sent_by (server_main 4 calls (map some two_files))

abbrev from_server : InSocket
from_server = written ∷ []

written_some : 1 ≤ length written
unfolding runs written server_main new_server connect_to_client send_args send_array
written_some = omega arith

client_main-server_main_example :
    (counts : List ℕ) × (r : Server) × (c : Client) × (server_main 4 calls (map some two_files)
      ≡ ok (counts, r))
    × (client_main 4 (pos 0) true (pos 0) from_server true ((1, true) ∷ []) ≡ ok (two_files, c))
    × Synced r c
unfolding written flatten
client_main-server_main_example =
    client_main-server_main 4 4 calls (pos 0) (pos 0) page (page ∷ []) from_server [] (omega arith)
      (omega arith) calls-Starts refl refl
      ((omega arith, omega arith), ((omega arith, omega arith), tt)) (written_some, tt) refl
