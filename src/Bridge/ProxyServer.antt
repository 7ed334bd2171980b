-- ===== src/Bridge/ProxyServer.antt =====
-- The handlers of Integration/tcpproxy/tcpproxy_server.cpp that are its own. The `RabinServer` is
-- shared by all bridges.
use rabin_fingerprinting.Base.{ℕ, Bool, length, take, if◌then◌else◌, Result, ok, ◌>>=◌}
use rabin_fingerprinting.Server.{Server, send_file}
use rabin_fingerprinting.Bridge.{
  Event, Bridge, upstream_connected, upstream_written, downstream_written, upstream_got,
  downstream_got, upstream_read, downstream_read, downstream_write, max_data_length, async, close,
  into, handle_downstream_read, handle_upstream_write,
}

unfoldable pub handle_upstream_connect : Bool → Bridge → Bridge
handle_upstream_connect error b =
    if error
    then close b
    else async (downstream_read max_data_length) (async (upstream_read max_data_length) b)

unfoldable pub handle_downstream_write : Bool → Bridge → Bridge
handle_downstream_write error b = if error then close b else async (upstream_read max_data_length) b

-- What was read is sent as a file, and a write of no bytes goes downstream.
unfoldable pub handle_upstream_read : Bool → ℕ → Server → Bridge → Result (Server × Bridge)
handle_upstream_read error bytes_transferred r b =
    if error
    then ok (r, close b)
    else (send_file r b.upstream_data bytes_transferred >>= λ a.
        ok (a.1, async (downstream_write (take 0 b.upstream_data)) b))

-- The handler that an event calls.
unfoldable pub handle : Event → Server → Bridge → Result (Server × Bridge)
handle (upstream_connected error) r b = ok (r, handle_upstream_connect error b)
handle (upstream_written error) r b = ok (r, handle_upstream_write error b)
handle (downstream_written error) r b = ok (r, handle_downstream_write error b)
handle (upstream_got error bytes) r b =
    handle_upstream_read error (length bytes) r
      (record b { upstream_data = into bytes b.upstream_data })
handle (downstream_got error bytes) r b = ok (
  r,
  handle_downstream_read error (length bytes)
      (record b { downstream_data = into bytes b.downstream_data }),
)
