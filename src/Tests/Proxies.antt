-- ===== src/Tests/Proxies.antt =====
-- The forward proxy at small requests.
use rabin_fingerprinting.Base.{
  ℕ, ◌≡◌, refl, Bool, true, false, none, some, pos, List, [], ◌∷◌, flatten, arith, ok, fault,
  null_pointer, not,
}
use rabin_fingerprinting.Socket.{InSocket}
use rabin_fingerprinting.Relay.{codes, c_bytes}
use rabin_fingerprinting.Proxy.{
  Words, bad_request, sent_on, starts, answer, serve, scan, scan_word, strtok, skip, span,
  is_accepted, rewrite, host_port, has_colon, path_of, new_request,
}
use rabin_fingerprinting.Proxy.Mains.{Connection, IsPlain, lproxy_main, lproxy_main-IsPlain}
use rabin_fingerprinting.Proxy.Urls.{IsHost, IsPath, url_of, request_text}
use rabin_fingerprinting.Proxy.Requests.{IsPort, wanted, port_url, serve-url, answer-port_url}

-- The arrays before the request, and a resolver that knows every name without a leading slash.
abbrev unset : Words
unset = record { t1 = []; t2 = []; t3 = [] }

abbrev known : List ℕ → Bool
known name = not (starts (codes "/") name)

abbrev host : List ℕ
host = codes "ab"

abbrev path : List ℕ
path = codes "c/d"

host-IsHost : IsHost host
host-IsHost = record {
  some_bytes = omega arith;
  no_space = (refl, (refl, tt));
  no_slash = (refl, (refl, tt));
  no_colon = (refl, (refl, tt));
  no_mark = (refl, (refl, tt));
}

path-IsPath : IsPath path
path-IsPath = record {
  some_bytes = omega arith;
  no_space = (refl, (refl, (refl, tt)));
  no_colon = (refl, (refl, (refl, tt)));
  no_mark = (refl, (refl, (refl, tt)));
}

abbrev request : List ℕ
request = request_text (url_of host path) true (codes "\nA")

abbrev remote : InSocket
remote = codes "he" ∷ codes "llo" ∷ []

host_found : known host ≡ true
unfolding starts
host_found = refl

serve-url_example :
    (answer known unset request ≡ ok (sent_on host 80 (wanted path true host)))
    × (serve known true true unset request remote ≡ ok (flatten remote))
serve-url_example =
    serve-url known unset host path (codes "\nA") true remote host-IsHost path-IsPath (omega arith)
      (omega arith) (omega arith) host_found (omega arith, (omega arith, tt))

abbrev port : List ℕ
port = codes "80"

port-IsPort : IsPort port
port-IsPort = record {
  some_bytes = omega arith;
  no_space = (refl, (refl, tt));
  no_slash = (refl, (refl, tt));
}

slash_unknown : known (codes "/ab") ≡ false
unfolding starts
slash_unknown = refl

answer-port_url_example :
    answer known unset (request_text (port_url host port path) false []) ≡ fault null_pointer
answer-port_url_example =
    answer-port_url known unset host port path [] false host-IsHost port-IsPort path-IsPath
      (omega arith) (omega arith) (omega arith) slash_unknown

-- Another method is refused, with the first line of the text.
post_refused :
    answer known unset (codes "POST / HTTP/1.1\n") ≡ ok (bad_request (codes "400 : BAD REQUEST\n"))
unfolding answer c_bytes scan scan_word strtok skip span is_accepted starts
post_refused = refl

-- "http://" alone asks for the host "(null)".
nothing_named :
    answer known unset (codes "GET http:// HTTP/1.0\n")
    ≡ ok (sent_on (codes "(null)") 80 (new_request none (codes "HTTP/1.0") (codes "(null)")))
unfolding answer c_bytes scan scan_word strtok skip span is_accepted starts rewrite host_port
    has_colon path_of
nothing_named = refl

-- Two connections for one process.
abbrev connection : Connection
connection = record {
  accepted = pos 4;
  old = unset;
  received = request;
  connects = true;
  writes = true;
  remote = remote;
}

connection-IsPlain : IsPlain known connection
connection-IsPlain = record {
  host = host;
  path = path;
  more = codes "\nA";
  one_one = true;
  accepts = refl;
  is_host = host-IsHost;
  is_path = path-IsPath;
  room = omega arith;
  text = omega arith;
  fits_in = omega arith;
  found = host_found;
  request = refl;
  reached = refl;
  written = refl;
  flowing = (omega arith, (omega arith, tt));
}

lproxy_main-IsPlain_example :
    lproxy_main 2 (pos 3) (pos 0) known 1 (connection ∷ connection ∷ [])
    ≡ (some (ok (codes "hello")) ∷ none ∷ [], ok tt)
unfolding flatten
lproxy_main-IsPlain_example =
    lproxy_main-IsPlain 2 3 0 known 1 (connection ∷ connection ∷ []) (omega arith)
      (connection-IsPlain, (connection-IsPlain, tt))
