-- ===== src/Proxy.antt =====
-- The forward proxy Integration/normalproxy.c: what the child process does with one request. The
-- resolver, the remote server and the old contents of the local arrays are arguments.
pub mod Urls
pub mod Mains
pub mod Requests
use rabin_fingerprinting.Base.{
  ℕ, zero, suc, ◌+◌, ◌-◌, ◌*◌, ◌%◌, ◌^◌, Bool, true, false, ◌&&◌, ◌||◌, not, Option, none, some,
  List, [], ◌∷◌, ◌++◌, flatten, length, take, drop, replicate, ltb, leb, ◌==◌, if◌then◌else◌,
  Result, ok, fault, null_pointer, out_of_bounds, out_of_fuel, exits, ◌>>=◌,
}
use rabin_fingerprinting.Relay.{codes, c_bytes}
use rabin_fingerprinting.Socket.{InSocket, read}

-- The part of a text behind the delimiters at its head.
unfoldable pub skip : (ℕ → Bool) → List ℕ → List ℕ
skip is_delim [] = []
skip is_delim (c ∷ cs) = if is_delim c then skip is_delim cs else c ∷ cs

-- A text up to the first delimiter, and behind it.
unfoldable pub span : (ℕ → Bool) → List ℕ → List ℕ × List ℕ
span is_delim [] = ([], [])
span is_delim (c ∷ cs) =
    let (token, rest) = span is_delim cs in if is_delim c then ([], cs) else (c ∷ token, rest)

token_at : (ℕ → Bool) → List ℕ → Option (List ℕ × List ℕ)
token_at is_delim [] = none
token_at is_delim (c ∷ cs) = some (span is_delim (c ∷ cs))

-- `strtok`: the next token, and the text that the next call goes on with; `none` is NULL.
unfoldable pub strtok : (ℕ → Bool) → List ℕ → Option (List ℕ × List ℕ)
unfolding token_at
strtok is_delim text = token_at is_delim (skip is_delim text)

-- The sets of delimiters: white space for `%s`, "//" and "/", ":", and "^]".
abbrev pub is_space : ℕ → Bool
is_space c = c == 32 || (leb 9 c && leb c 13)

abbrev pub is_slash : ℕ → Bool
is_slash c = c == b'/'

abbrev pub is_colon : ℕ → Bool
is_colon c = c == b':'

abbrev pub is_mark : ℕ → Bool
is_mark c = c == b'^' || c == b']'

-- `strncmp(text, prefix, strlen(prefix)) == 0`.
unfoldable pub starts : List ℕ → List ℕ → Bool
starts [] text = true
starts (p ∷ prefix) [] = false
starts (p ∷ prefix) (c ∷ text) = p == c && starts prefix text

-- The arrays `t1`, `t2` and `t3` as texts.
pub record Words : Type 0 where
  pub t1 : List ℕ
  pub t2 : List ℕ
  pub t3 : List ℕ

-- A word stored into an array of `size` bytes.
abbrev pub fits : ℕ → List ℕ → Result (List ℕ)
fits size word = if ltb (length word) size then ok word else fault out_of_bounds

abbrev pub stored : ℕ → List ℕ → Option (List ℕ × List ℕ) → Result (List ℕ × List ℕ)
stored size old none = ok (old, [])
stored size old (some (word, rest)) = fits size word >>= λ w. ok (w, rest)

-- One `%s`: the word and the rest of the input, or the array's old content at the end of the input.
unfoldable pub scan_word : ℕ → List ℕ → List ℕ → Result (List ℕ × List ℕ)
scan_word size old text = stored size old (strtok is_space text)

-- `sscanf(buffer, "%s %s %s", t1, t2, t3)`.
unfoldable pub scan : Words → List ℕ → Result Words
scan old text = do
  (t1, rest) ← scan_word 300 old.t1 text
  (t2, rest') ← scan_word 300 old.t2 rest
  (t3, _) ← scan_word 10 old.t3 rest'
  ok (record { t1 = t1; t2 = t2; t3 = t3 })

-- The test for a request that the proxy takes.
unfoldable pub is_accepted : Words → Bool
is_accepted w =
    starts (codes "GET") w.t1
    && ((starts (codes "HTTP/1.1") w.t3 || starts (codes "HTTP/1.0") w.t3)
        && starts (codes "http://") w.t2)

-- The loop for `flag`: whether there is a colon from byte 7 on.
unfoldable pub has_colon : List ℕ → Bool
has_colon [] = false
has_colon (c ∷ cs) = c == b':' || has_colon cs

-- The digits of a text, up to the first other byte.
unfoldable pub atoi_from : ℕ → List ℕ → ℕ
atoi_from n [] = n
atoi_from n (c ∷ cs) =
    let more : ℕ = atoi_from (n * 10 + (c - 48)) cs in if leb 48 c && leb c 57 then more else n

-- `atoi`, of which `htons` takes the low 16 bits. (C gives no value beyond the range of an int.)
unfoldable pub atoi : List ℕ → ℕ
atoi [] = 0
atoi (c ∷ cs) =
    if c == b'-'
    then (2 ^ 16 - atoi_from 0 cs % 2 ^ 16) % 2 ^ 16
    else if c == b'+'
    then atoi_from 0 cs % 2 ^ 16
    else atoi_from 0 (c ∷ cs) % 2 ^ 16

-- `strtok(t2, "//")` and the call after it; the second token of NULL is NULL.
abbrev pub second : (ℕ → Bool) → List ℕ → Option (List ℕ × List ℕ)
second is_delim url = elim (strtok is_slash url) [
  | none ↦ none
  | some (scheme, rest) ↦ strtok is_delim rest
]

-- `sprintf(t2, "%s", temp)` of a token, which stands further right in `t2`; NULL prints as "(null)". The
-- standard leaves a copy between parts that overlap undefined; here it is one byte after the other,
-- from the left.
abbrev pub printed : Option (List ℕ × List ℕ) → List ℕ
printed none = codes "(null)"
printed (some (token, rest)) = token

-- The host that is looked up and the port: up to a slash and 80, or, if there is a colon in the URL,
-- up to the colon and what stands behind it.
unfoldable pub host_port : List ℕ → Result (List ℕ × ℕ)
host_port url =
    if has_colon (drop 7 url)
    then (let host = second is_colon url in
        elim host [
          | none ↦ fault null_pointer
          | some (token, rest) ↦ elim (strtok is_slash rest) [
            | none ↦ fault null_pointer
            | some (port, _) ↦ ok (token, atoi port)
          ]
        ])
    else ok (printed (second is_slash url), 80)

-- The token itself.
abbrev pub token : Option (List ℕ × List ℕ) → Option (List ℕ)
token none = none
token (some (found, rest)) = some found

-- `if (temp != NULL) temp = strtok(NULL, "^]")`.
abbrev pub path_behind : Option (List ℕ × List ℕ) → Option (List ℕ)
path_behind none = none
path_behind (some (host, rest)) = token (strtok is_mark rest)

-- The path, from a copy of the URL with "^]" behind it.
unfoldable pub path_of : List ℕ → Option (List ℕ)
path_of url = path_behind (second is_slash (url ++ codes "^]"))

-- The request that is sent on.
unfoldable pub new_request : Option (List ℕ) → List ℕ → List ℕ → List ℕ
new_request path t3 host =
    codes "GET /"
    ++ ((elim path [ none ↦ [] | some p ↦ p ])
        ++ (32 ∷ (t3 ++ (codes "\r\nHost: " ++ (host ++ codes "\r\nConnection: close\r\n\r\n")))))

-- What becomes of a request: it is refused, or sent on to a host and a port.
pub data Answer : Type 0 where
  bad_request : List ℕ → Answer
  sent_on : List ℕ → ℕ → List ℕ → Answer

-- The first 18 bytes of the text are sent.
abbrev pub refusal_text : List ℕ
refusal_text = take 18 (codes "400 : BAD REQUEST\nONLY HTTP REQUESTS ALLOWED")

-- An accepted request. `resolves` says for which names `gethostbyname` returns a host; its result is
-- used without a test, after the port and the path are found. `strcat` needs room for two bytes.
unfoldable pub rewrite : (List ℕ → Bool) → Words → Result Answer
rewrite resolves w = do
  (host, port) ← host_port w.t2
  url ← fits 298 w.t2
  if resolves host
      then ok (sent_on host port (new_request (path_of url) w.t3 host))
      else fault null_pointer

-- The child process up to the request to the remote server. `received` is what the `recv` put into
-- the first 500 bytes of `buffer`; the ten bytes behind them are not set.
unfoldable pub answer : (List ℕ → Bool) → Words → List ℕ → Result Answer
answer resolves old received = do
  text ← c_bytes (received ++ replicate (500 - length received) 0)
  w ← scan old text
  if is_accepted w then rewrite resolves w else ok (bad_request refusal_text)

-- `do { … recv(sockfd1, buffer, 500, 0) … send(newsockfd, …) } while (n > 0)`: what the browser gets.
-- The sends to the browser are taken to succeed, as the code does not look at their result.
unfoldable pub relay_loop : ℕ → InSocket → List ℕ → Result (List ℕ)
relay_loop zero remote sent = fault out_of_fuel
relay_loop (suc fuel) remote sent =
    let got : List ℕ × InSocket = read remote 500 in
    let rest : Result (List ℕ) = relay_loop fuel got.1 (sent ++ got.0) in
    if length got.0 == 0 then ok sent else rest

-- The whole child: `connects` says whether the remote server can be reached, `writes` whether the
-- request can be sent; `remote` is its answer. Both failures end the process.
unfoldable pub serve : (List ℕ → Bool) → Bool → Bool → Words → List ℕ → InSocket → Result (List ℕ)
serve resolves connects writes old received remote = answer resolves old received >>= λ a. elim a [
  | bad_request text ↦ ok text
  | sent_on host port request ↦
      if connects && writes
      then relay_loop (suc (length (flatten remote))) remote []
      else fault (exits 0)
]
