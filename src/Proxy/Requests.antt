-- ===== src/Proxy/Requests.antt =====
-- What the forward proxy sends on, to whom, and what the browser gets.
use rabin_fingerprinting.Base.{
  ℕ, zero, suc, ◌+◌, ◌-◌, ◌≤◌, ◌<◌, ◌≡◌, refl, sym, ap, ◌∙◌, Bool, Bool-cases, inl, inr, true,
  false, some, List, [], ◌∷◌, ◌++◌, All-append, append_assoc, append-nil, flatten, length,
  length-append, replicate, lt→ltb, ◌==◌, nil_of_length, ok, fault, null_pointer, arith,
}
use rabin_fingerprinting.Socket.{InSocket, read}
use rabin_fingerprinting.Socket.Segments.{IsFlowing, read_splits}
use rabin_fingerprinting.Relay.{codes}
use rabin_fingerprinting.Relay.Forward.{IsText, c_bytes-text}
use rabin_fingerprinting.Proxy.{
  skip, span, strtok, is_space, is_slash, is_colon, starts, Words, is_accepted, has_colon, second,
  atoi, host_port, new_request, sent_on, rewrite, answer, relay_loop, serve,
}
use rabin_fingerprinting.Proxy.Urls.{
  strtok-NoneOf, path_of-url, has_colon-NoneOf, host_port-url, url-no_space, words,
  scan-request_text, NoneOf, IsHost, IsPath, url_of, version, request_text,
}

-- The loop hands on what the remote server sends, in whatever segments it comes.
relay_loop-flatten :
    (fuel : ℕ) (remote : InSocket) (sent : List ℕ)
    → IsFlowing remote
    → length (flatten remote) < fuel
    → relay_loop fuel remote sent ≡ ok (sent ++ flatten remote)
unfolding relay_loop
relay_loop-flatten zero remote sent flow h = absurd (omega arith)
relay_loop-flatten (suc fuel) remote sent flow h =
    let got = (read remote 500).0 in
    let (split, small, some_bytes, flow') = read_splits remote 500 flow in
    let total : length (flatten remote) ≡ length got + length (flatten (read remote 500).1) =
      ap length split ∙ length-append got (flatten (read remote 500).1) in
    elim (Bool-cases (length got == 0)) [
      | inl none_left ↦
          let empty : flatten remote ≡ [] =
            nil_of_length (flatten remote) (ground (arith, some_bytes, none_left)) in
          rw (none_left, empty) (ap ok (sym (append-nil sent)))
      | inr more ↦
          let got_some : 1 ≤ length got = ground (arith, more) in
          rw
            (
              more,
              relay_loop-flatten fuel (read remote 500).1 (sent ++ got) (flow' (omega arith))
                  (omega arith),
            )
            (ap ok (
              append_assoc sent got (flatten (read remote 500).1)
              ∙ ap (λ l. sent ++ l) (sym split)))
    ]

-- A request whose three words are found goes to `rewrite`.
answer-request_text :
    (resolves : List ℕ → Bool) (old : Words) (url more : List ℕ) (one_one : Bool)
    → NoneOf is_space url
    → 1 ≤ length url
    → length url < 298
    → starts (codes "http://") url ≡ true
    → IsText (request_text url one_one more)
    → length (request_text url one_one more) < 500
    → answer resolves old (request_text url one_one more) ≡ rewrite resolves (words url one_one)
unfolding answer is_accepted starts words
answer-request_text resolves old url more one_one clean some_bytes room scheme text fits_in =
    let request = request_text url one_one more in
    let spare : 500 - length request ≡ suc (500 - length request - 1) = omega arith in
    let taken : is_accepted (words url one_one) ≡ true =
      elim one_one as (λ v. is_accepted (words url v) ≡ true) [ true ↦ scheme | false ↦ scheme ] in
    rw
      (
        spare,
        c_bytes-text request (replicate (500 - length request - 1) 0) text,
        scan-request_text old url one_one more clean some_bytes room,
        taken,
      )
      refl

-- The request that the remote server gets for a path on a host.
abbrev pub wanted : List ℕ → Bool → List ℕ → List ℕ
wanted path one_one host =
    codes "GET /"
    ++ (path
        ++ 32
          ∷ (version one_one
              ++ (codes "\r\nHost: " ++ (host ++ codes "\r\nConnection: close\r\n\r\n"))))

pub answer-url :
    (resolves : List ℕ → Bool) (old : Words) (host path more : List ℕ) (one_one : Bool)
    → IsHost host
    → IsPath path
    → length (url_of host path) < 298
    → IsText (request_text (url_of host path) one_one more)
    → length (request_text (url_of host path) one_one more) < 500
    → resolves host ≡ true
    → answer resolves old (request_text (url_of host path) one_one more)
      ≡ ok (sent_on host 80 (wanted path one_one host))
unfolding rewrite words new_request
answer-url resolves old host path more one_one h p room text fits_in found =
    answer-request_text resolves old (url_of host path) more one_one (url-no_space host path h p)
      (omega arith) room (unfold starts in refl) text fits_in
    ∙ rw
        (
          host_port-url host path h p,
          lt→ltb (length (url_of host path)) 298 room,
          found,
          path_of-url host path h p,
        )
        refl

-- A request for `http://HOST/PATH`, version 1.0 or 1.1 and a carriage return, whose URL fits the arrays
-- with room for "^]", which is of less than 500 bytes, none of them zero, and whose host and path are
-- not empty and have no white space, colon, `^` or `]`, the host no slash, is sent on to port 80 of
-- the host as `GET /PATH`, with the version and the host as they came and `Connection: close`; this
-- needs that the resolver finds the host. If the server is reached, the request can be written, and
-- no segment of the answer is empty, then the browser gets all the bytes of the answer.
pub serve-url :
    (resolves : List ℕ → Bool) (old : Words) (host path more : List ℕ) (one_one : Bool)
    (remote : InSocket)
    → IsHost host
    → IsPath path
    → length (url_of host path) < 298
    → IsText (request_text (url_of host path) one_one more)
    → length (request_text (url_of host path) one_one more) < 500
    → resolves host ≡ true
    → IsFlowing remote
    → (answer resolves old (request_text (url_of host path) one_one more)
        ≡ ok (sent_on host 80 (wanted path one_one host)))
      × (serve resolves true true old (request_text (url_of host path) one_one more) remote
          ≡ ok (flatten remote))
unfolding serve
serve-url resolves old host path more one_one remote h p room text fits_in found flow =
    let sent = answer-url resolves old host path more one_one h p room text fits_in found in
    (
      sent,
      rw sent (relay_loop-flatten (suc (length (flatten remote))) remote [] flow (omega arith)),
    )

-- A URL with a port.
abbrev pub port_url : List ℕ → List ℕ → List ℕ → List ℕ
port_url host port path = codes "http://" ++ (host ++ b':' ∷ (port ++ b'/' ∷ path))

-- A port as digits: no white space and no slash, and not empty.
pub record IsPort (port : List ℕ) : Type 0 where
  pub some_bytes : 1 ≤ length port
  pub no_space : NoneOf is_space port
  pub no_slash : NoneOf is_slash port

second-port_url :
    (host port path : List ℕ)
    → IsHost host
    → second is_colon (port_url host port path) ≡ some (b'/' ∷ host, port ++ b'/' ∷ path)
unfolding strtok skip span
second-port_url host port path h =
    strtok-NoneOf is_colon (b'/' ∷ host) b':' (port ++ b'/' ∷ path) (refl, h.no_colon) (omega arith)
      refl

host_port-port_url :
    (host port path : List ℕ)
    → IsHost host
    → IsPort port
    → host_port (port_url host port path) ≡ ok (b'/' ∷ host, atoi port)
unfolding host_port has_colon
host_port-port_url host port path h q =
    rw
      (
        has_colon-NoneOf host (b':' ∷ (port ++ b'/' ∷ path)) h.no_colon,
        second-port_url host port path h,
        strtok-NoneOf is_slash port b'/' path q.no_slash q.some_bytes refl,
      )
      refl

-- A request for `http://HOST:PORT/PATH`, version 1.0 or 1.1, whose URL fits the arrays with room for
-- "^]" and which is of less than 500 bytes, none of them zero, ends the child by a null pointer, if
-- the resolver does not find the name `/HOST`, with a slash in front: that is what the code looks up.
-- The host and the path are not empty and have no white space, colon, `^` or `]`, the host no slash;
-- the port is not empty and has no white space and no slash.
pub answer-port_url :
    (resolves : List ℕ → Bool) (old : Words) (host port path more : List ℕ) (one_one : Bool)
    → IsHost host
    → IsPort port
    → IsPath path
    → length (port_url host port path) < 298
    → IsText (request_text (port_url host port path) one_one more)
    → length (request_text (port_url host port path) one_one more) < 500
    → resolves (b'/' ∷ host) ≡ false
    → answer resolves old (request_text (port_url host port path) one_one more) ≡ fault null_pointer
unfolding rewrite words
answer-port_url resolves old host port path more one_one h q p room text fits_in unknown =
    answer-request_text resolves old (port_url host port path) more one_one
      (All-append (λ c. is_space c ≡ false) (codes "http://" ++ host) (b':' ∷ (port ++ b'/' ∷ path))
        (refl, (refl, (refl, (refl, (refl, (refl, (refl, h.no_space)))))))
        (
          refl,
          All-append (λ c. is_space c ≡ false) port (b'/' ∷ path) q.no_space (refl, p.no_space),
        ))
      (omega arith) room (unfold starts in refl) text fits_in
    ∙ rw
        (
          host_port-port_url host port path h q,
          lt→ltb (length (port_url host port path)) 298 room,
          unknown,
        )
        refl
