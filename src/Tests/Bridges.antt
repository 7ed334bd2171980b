-- ===== src/Tests/Bridges.antt =====
-- The theorems on the bridges at the page of `Tests`.
use rabin_fingerprinting.Base.{
  ℕ, zero, suc, ◌≡◌, refl, ap, true, false, none, List, [], ◌∷◌, ◌++◌, length, replicate, arith, ok,
  fault, out_of_bounds, take, length-take,
}
use rabin_fingerprinting.Server.{Server, Block, put}
use rabin_fingerprinting.Server.Cache.{IsValid}
use rabin_fingerprinting.Client.{Client, Reception, receive_file}
use rabin_fingerprinting.Bridge.{
  Operation, Bridge, connect, upstream_read, downstream_read, upstream_connected, upstream_got,
  downstream_written, start as begin_bridge,
}
use rabin_fingerprinting.Bridge.ProxyServer.{handle, handle_upstream_connect}
use rabin_fingerprinting.Bridge.ProxyClient.{
  ClientBridge, handle as client_handle, handle_upstream_connect as client_connect,
}
use rabin_fingerprinting.Bridge.Rooms.{IsTidy, connect_ends, upstream_read_ends}
use rabin_fingerprinting.Bridge.Runs.{Reaches, begin, later, ended, handle-IsTidy, Reaches-IsTidy}
use rabin_fingerprinting.Bridge.Reception.{
  Reaches as ClientReaches, begin as client_begin, later as client_later, ended as client_ended,
  client_Reaches-IsTidy,
}
use rabin_fingerprinting.Bridge.Rounds.{resume, long_file_overflows}
use rabin_fingerprinting.Tests.{runs, start, page, listener}
use rabin_fingerprinting.Tests.Transfers.{start-IsValid}

pub length_zeros : (n : ℕ) → length {A = ℕ} (replicate n 0) ≡ n
length_zeros zero = refl
length_zeros (suc n) = ap suc (length_zeros n)

abbrev pub buffer : List ℕ
buffer = replicate 8192 0

abbrev pub bridge_with : List Operation → Bridge
bridge_with ops = record {
  downstream_open = true;
  upstream_open = true;
  downstream_data = buffer;
  upstream_data = buffer;
  started = ops;
}

-- A bridge that waits for both sides.
abbrev pub waiting : Bridge
waiting = bridge_with (upstream_read 8192 ∷ downstream_read 8192 ∷ [])

pub waiting-IsTidy : IsTidy waiting
waiting-IsTidy = record {
  upstream = omega arith;
  downstream = omega arith;
  rooms = (omega arith, (omega arith, tt));
  upstream_size = length_zeros 8192;
  downstream_size = length_zeros 8192;
}

handle-IsTidy_example :
    (r' : Server) × (b' : Bridge) × (handle
        (upstream_got false page)
        start
        (bridge_with (downstream_read 8192 ∷ []))
      ≡ ok (r', b'))
    × IsValid r'
    × IsTidy b'
handle-IsTidy_example =
    handle-IsTidy start waiting [] (downstream_read 8192 ∷ []) (upstream_read 8192)
      (upstream_got false page) start-IsValid waiting-IsTidy refl
      (upstream_read_ends 8192 false page (omega arith))

-- The bridge from its start to the end of the connection upstream.
connected : Reaches start (bridge_with []) start waiting
unfolding begin_bridge handle handle_upstream_connect
connected =
    later begin (ended [] [] connect (upstream_connected false) refl (connect_ends false) refl)

Reaches-IsTidy_example : IsValid start × IsTidy waiting
Reaches-IsTidy_example =
    Reaches-IsTidy start (bridge_with []) start-IsValid refl (length_zeros 8192) (length_zeros 8192)
      start waiting connected

-- The two bridges with small buffers.
abbrev pub small_bridge : List Operation → Bridge
small_bridge ops = record {
  downstream_open = true;
  upstream_open = true;
  downstream_data = replicate 8 0;
  upstream_data = replicate 8 0;
  started = ops;
}

abbrev pub fresh : ClientBridge
fresh = record { bridge = small_bridge []; c = none; n = 0 }

-- A client that has a block of 8193 bytes, and is told to take it.
abbrev big_block : Block
big_block = record { block_num = 5; data_size = 8193; old = true; bytes = replicate 8193 0 }

abbrev big_stream : List ℕ
big_stream = (0 ∷ 0 ∷ 0 ∷ 5 ∷ 0 ∷ 0 ∷ 32 ∷ 1 ∷ 0 ∷ 0 ∷ 0 ∷ 0 ∷ 1 ∷ []) ++ replicate 13 0

abbrev owner : Client
owner = record { blocks = put 5 big_block (λ _. none); sockfd = big_stream ∷ [] }

abbrev big_file : Reception
big_file = record {
  num_blocks = 2;
  file = take 8193 (replicate 8193 0);
  client = record owner { sockfd = [] };
}

big_file_lem : receive_file owner [] ≡ ok big_file
unfolding runs
big_file_lem = refl

long_file_overflows_example :
    (s₁ : ClientBridge) × (client_handle true (downstream_written false) owner fresh
      ≡ ok (big_file.client, s₁))
    × (client_handle true (upstream_got false []) big_file.client (resume [] s₁)
        ≡ fault out_of_bounds)
long_file_overflows_example =
    long_file_overflows owner fresh big_file big_file_lem
      (omega (arith, length-take 8193 (replicate {A = ℕ} 8193 0), length_zeros 8193))

-- The client's bridge once it is connected.
abbrev client_bridge : List Operation → ClientBridge
client_bridge ops = record { bridge = bridge_with ops; c = none; n = 0 }

abbrev client_waiting : ClientBridge
client_waiting = client_bridge (upstream_read 0 ∷ downstream_read 8192 ∷ [])

client_connected : ClientReaches listener (client_bridge []) listener client_waiting
unfolding begin_bridge client_handle client_connect
client_connected =
    client_later client_begin
      (client_ended true [] [] connect (upstream_connected false) refl (connect_ends false) refl)

client_Reaches-IsTidy_example : IsTidy client_waiting.bridge
client_Reaches-IsTidy_example =
    client_Reaches-IsTidy listener (client_bridge []) refl (length_zeros 8192) (length_zeros 8192)
      listener client_waiting client_connected
