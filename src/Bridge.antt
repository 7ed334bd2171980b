-- ===== src/Bridge.antt =====
-- The bridges of Integration/tcpproxy/tcpproxy_server.cpp and Integration/tcpclient/tcpproxy_client.cpp:
-- what the class `bridge` has in both, and the operations it starts with Boost.Asio. How these end is
-- an event from outside.
pub mod Acceptor
pub mod Crossing
pub mod Endings
pub mod Leaks
pub mod Lifetimes
pub mod ProxyServer
pub mod ProxyClient
pub mod Reception
pub mod Rooms
pub mod Rounds
pub mod Runs
pub mod Sessions
use rabin_fingerprinting.Base.{
  ℕ, Bool, true, false, List, [], ◌∷◌, ◌++◌, length, take, drop, if◌then◌else◌,
}

-- An operation that has been started: a read has the room that its buffer gives it, a write the bytes
-- of its buffer.
pub data Operation : Type 0 where
  connect : Operation
  upstream_read downstream_read : ℕ → Operation
  upstream_write downstream_write : List ℕ → Operation

-- How an operation ends: whether with an error, and what a read put at the head of its buffer.
pub data Event : Type 0 where
  upstream_connected upstream_written downstream_written : Bool → Event
  upstream_got downstream_got : Bool → List ℕ → Event

-- A bridge: whether its sockets are open, its two buffers, and the operations that have been started
-- and have not ended.
pub record Bridge : Type 0 where
  pub downstream_open : Bool
  pub upstream_open : Bool
  pub downstream_data : List ℕ
  pub upstream_data : List ℕ
  pub started : List Operation

abbrev pub max_data_length : ℕ
max_data_length = 8192

abbrev pub async : Operation → Bridge → Bridge
async op b = record b { started = b.started ++ op ∷ [] }

-- `close` closes what is open.
unfoldable pub close : Bridge → Bridge
close b = record b { downstream_open = false; upstream_open = false }

-- The buffer after a read or a copy of `bytes` to its head.
abbrev pub into : List ℕ → List ℕ → List ℕ
into bytes buffer = bytes ++ drop (length bytes) buffer

unfoldable pub start : Bridge → Bridge
start b = async connect b

unfoldable pub handle_downstream_read : Bool → ℕ → Bridge → Bridge
handle_downstream_read error bytes_transferred b =
    if error then close b else async (upstream_write (take bytes_transferred b.downstream_data)) b

unfoldable pub handle_upstream_write : Bool → Bridge → Bridge
handle_upstream_write error b = if error then close b else async (downstream_read max_data_length) b
