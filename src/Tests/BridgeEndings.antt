-- ===== src/Tests/BridgeEndings.antt =====
-- The theorems on closed bridges at the bridges of `Bridges`.
use rabin_fingerprinting.Base.{
  ◌≤◌, ◌≡◌, ◌⊎◌, refl, true, false, none, some, [], ◌∷◌, ◌++◌, arith, ok,
}
use rabin_fingerprinting.Client.{Client, Reception, receive_file}
use rabin_fingerprinting.Bridge.{
  upstream_read, downstream_read, upstream_write, upstream_written, upstream_got, downstream_got,
  close, handle_downstream_read, handle_upstream_write,
}
use rabin_fingerprinting.Bridge.ProxyServer
use rabin_fingerprinting.Bridge.ProxyClient.{
  ClientBridge, is_end, handle_downstream_write, handle_upstream_read, handle,
}
use rabin_fingerprinting.Bridge.Rooms.{
  Spare, upstream_read_ends, downstream_read_ends, upstream_write_ends, close-IsTidy,
}
use rabin_fingerprinting.Bridge.Endings.{Draining, Drains, begin, later, early, late, Step}
use rabin_fingerprinting.Bridge.Lifetimes.{
  ServerState, bridge_started, HandledAtServer, IsClosed, close-Drains,
}
use rabin_fingerprinting.Bridge.Leaks.{
  ClientState, client_started, HandledAtClient, at_end, last_file-Drains,
}
use rabin_fingerprinting.Tests.{runs, start}
use rabin_fingerprinting.Tests.Bridges.{length_zeros, bridge_with, waiting, waiting-IsTidy}

-- A bridge that was closed while it waited for both sides.
abbrev closing : Draining ServerState
unfolding close
closing = record {
  state = (start, close waiting);
  old = upstream_read 8192 ∷ downstream_read 8192 ∷ [];
  fresh = [];
}

-- The read from downstream had ended before: its handler starts a write.
abbrev writing : Draining ServerState
unfolding close
writing = record {
  state = (start, record (close waiting) { started = upstream_read 8192 ∷ upstream_write [] ∷ [] });
  old = upstream_read 8192 ∷ [];
  fresh = upstream_write [] ∷ [];
}

abbrev write_failed : Draining ServerState
unfolding close
write_failed = record {
  state = (start, record (close waiting) { started = upstream_read 8192 ∷ [] });
  old = upstream_read 8192 ∷ [];
  fresh = [];
}

closing_run : Drains bridge_started HandledAtServer closing 2 write_failed
unfolding closing writing write_failed close ProxyServer.handle handle_downstream_read
    handle_upstream_write
closing_run =
    later {t = writing}
      (later begin (
        early (upstream_read 8192 ∷ []) [] (downstream_read 8192) (downstream_got false []) refl
          (downstream_read_ends 8192 false [] (omega arith)) refl refl refl))
      (late [] [] (upstream_write []) (upstream_written true) refl (upstream_write_ends [] true)
        refl refl refl refl)

close-Drains_example :
    (2 ≤ 4)
    × IsClosed write_failed.state.1
    × ((write_failed.old ++ write_failed.fresh ≡ [])
        ⊎ ((u : Draining ServerState) × Step bridge_started HandledAtServer write_failed u))
unfolding closing write_failed close
close-Drains_example =
    close-Drains closing write_failed 2 (close-IsTidy 0 0 waiting waiting-IsTidy) (refl, refl) refl
      refl closing_run

-- The client's bridge while its write downstream has just ended, and a client whose server is gone.
abbrev written : ClientBridge
written = record { bridge = bridge_with (downstream_read 8192 ∷ []); c = none; n = 0 }

written_Spare : Spare 1 0 written.bridge
written_Spare = record {
  upstream = omega arith;
  downstream = omega arith;
  rooms = (omega arith, tt);
  upstream_size = length_zeros 8192;
  downstream_size = length_zeros 8192;
}

abbrev deserted : Client
deserted = record { blocks = λ _. none; sockfd = [] }

abbrev nothing : Reception
nothing = record { num_blocks = 1; file = []; client = deserted }

nothing_lem : receive_file deserted [] ≡ ok nothing
unfolding runs
nothing_lem = refl

abbrev read_failed : Draining ClientState
unfolding close
read_failed = record {
  state = (
    deserted,
    record {
      bridge = record (close written.bridge) { started = downstream_read 8192 ∷ [] };
      c = some [];
      n = 0;
    },
  );
  old = downstream_read 8192 ∷ [];
  fresh = [];
}

read_run : Drains client_started HandledAtClient (at_end nothing written) 1 read_failed
unfolding read_failed close handle handle_upstream_read
read_run = later begin (
    late [] [] (upstream_read 0) (upstream_got true []) refl
      (upstream_read_ends 0 true [] (omega arith)) refl (true, refl) refl refl)

last_file-Drains_example :
    (handle_downstream_write false true deserted written ≡ ok (at_end nothing written).state)
    × IsClosed read_failed.state.1.bridge
    × (1 ≤ 3)
    × (read_failed.state.1.c ≡ some [])
    × ((read_failed.old ++ read_failed.fresh ≡ [])
        ⊎ ((w : Draining ClientState) × Step client_started HandledAtClient read_failed w))
unfolding is_end
last_file-Drains_example =
    last_file-Drains deserted written nothing read_failed 1 written_Spare nothing_lem refl read_run
