-- ===== src/Bridge/ProxyClient.antt =====
-- The handlers of Integration/tcpclient/tcpproxy_client.cpp that are its own. The `RabinClient` is
-- shared by all bridges.
use rabin_fingerprinting.Base.{
  ℕ, ◌^◌, Bool, ◌||◌, Option, none, some, List, [], length, take, ltb, leb, if◌then◌else◌, Result,
  ok, fault, out_of_bounds, exits, ◌>>=◌,
}
use rabin_fingerprinting.Client.{Client, receive_file}
use rabin_fingerprinting.Bridge.{
  Event, Bridge, upstream_connected, upstream_written, downstream_written, upstream_got,
  downstream_got, upstream_read, downstream_read, downstream_write, max_data_length, async, close,
  into, handle_downstream_read, handle_upstream_write,
}

-- A bridge with the file it has received, `c`, which may be null, and `n`.
pub record ClientBridge : Type 0 where
  pub bridge : Bridge
  pub c : Option (List ℕ)
  pub n : ℕ

-- The read into no room ends at once, and starts the reception of files.
unfoldable pub handle_upstream_connect : Bool → Bridge → Bridge
handle_upstream_connect error b =
    if error then close b else async (downstream_read max_data_length) (async (upstream_read 0) b)

-- `int a = r->receive_file(f)` with `a <= 1`, the `unsigned` result being converted.
unfoldable pub is_end : ℕ → Bool
is_end a = leb a 1 || leb (2 ^ 31) a

-- `opened` says whether `fopen` worked. After the end of the files the bridge is closed and goes on.
unfoldable pub handle_downstream_write :
    Bool → Bool → Client → ClientBridge → Result (Client × ClientBridge)
handle_downstream_write error opened r s =
    if error
    then ok (r, record s { bridge = close s.bridge })
    else if opened
    then (receive_file r [] >>= λ q. ok (
      q.client,
      record {
        bridge = async (upstream_read 0) (if is_end q.num_blocks then close s.bridge else s.bridge);
        c = some q.file;
        n = length q.file;
      },
    ))
    else fault (exits 1)

-- `memcpy(upstream_data_, c, n)`, and `c = NULL`.
unfoldable pub copy_file : ClientBridge → List ℕ → Result ClientBridge
copy_file s c =
    if ltb max_data_length s.n
    then fault out_of_bounds
    else ok (record {
      bridge = record s.bridge { upstream_data = into (take s.n c) s.bridge.upstream_data };
      c = none;
      n = s.n;
    })

-- The bytes to write: those of the file, or those read from upstream.
unfoldable pub fetch : ℕ → ClientBridge → Result ClientBridge
fetch bytes_transferred s = elim s.c [
  | some c ↦ copy_file s c
  | none ↦ ok (record s { n = bytes_transferred })
]

unfoldable pub handle_upstream_read : Bool → ℕ → ClientBridge → Result ClientBridge
handle_upstream_read error bytes_transferred s =
    if error
    then ok (record s { bridge = close s.bridge })
    else (fetch bytes_transferred s >>= λ t.
        ok (record t {
          bridge = async (downstream_write (take t.n t.bridge.upstream_data)) t.bridge;
        }))

-- The handler that an event calls.
unfoldable pub handle : Bool → Event → Client → ClientBridge → Result (Client × ClientBridge)
handle opened (upstream_connected error) r s =
    ok (r, record s { bridge = handle_upstream_connect error s.bridge })
handle opened (upstream_written error) r s =
    ok (r, record s { bridge = handle_upstream_write error s.bridge })
handle opened (downstream_written error) r s = handle_downstream_write error opened r s
handle opened (upstream_got error bytes) r s =
    let b : Bridge = record s.bridge { upstream_data = into bytes s.bridge.upstream_data } in
    handle_upstream_read error (length bytes) (record s { bridge = b }) >>= λ t. ok (r, t)
handle opened (downstream_got error bytes) r s =
    let b : Bridge = record s.bridge { downstream_data = into bytes s.bridge.downstream_data } in
    ok (r, record s { bridge = handle_downstream_read error (length bytes) b })
