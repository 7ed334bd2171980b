-- ===== src/Proxy/Urls.antt =====
-- How the forward proxy takes a request apart and what it sends on.
use rabin_fingerprinting.Base.{
  ℕ, ◌≤◌, ◌<◌, ◌≡◌, refl, sym, ap, ◌∙◌, Bool, true, false, some, List, [], ◌∷◌, ◌++◌, All,
  All-append, append_assoc, append-nil, length, lt→ltb, ok, arith,
}
use rabin_fingerprinting.Relay.{codes}
use rabin_fingerprinting.Proxy.{
  skip, span, strtok, is_space, is_slash, is_colon, is_mark, Words, scan_word, stored, scan,
  has_colon, second, printed, path_behind, token, scan_word, has_colon, host_port, path_of,
}

-- A text in which nothing is of a kind.
abbrev pub NoneOf : (ℕ → Bool) → List ℕ → Type 0
NoneOf is_delim text = All (λ c. is_delim c ≡ false) text

span-NoneOf :
    (is_delim : ℕ → Bool) (word : List ℕ) (c : ℕ) (rest : List ℕ)
    → NoneOf is_delim word
    → is_delim c ≡ true
    → span is_delim (word ++ c ∷ rest) ≡ (word, rest)
unfolding span
span-NoneOf is_delim [] c rest h e = rw e
span-NoneOf is_delim (w ∷ word) c rest h e = rw (h.0, span-NoneOf is_delim word c rest h.1 e)

-- A word with a delimiter behind it is the next token.
pub strtok-NoneOf :
    (is_delim : ℕ → Bool) (word : List ℕ) (c : ℕ) (rest : List ℕ)
    → NoneOf is_delim word
    → 1 ≤ length word
    → is_delim c ≡ true
    → strtok is_delim (word ++ c ∷ rest) ≡ some (word, rest)
unfolding strtok skip
strtok-NoneOf is_delim [] c rest h some_bytes e = absurd (omega arith)
strtok-NoneOf is_delim (w ∷ word) c rest h some_bytes e =
    rw (h.0) (ap some (span-NoneOf is_delim (w ∷ word) c rest h e))

-- A delimiter in front does not matter.
pub strtok_skip :
    (is_delim : ℕ → Bool) (c : ℕ) (text : List ℕ)
    → is_delim c ≡ true
    → strtok is_delim (c ∷ text) ≡ strtok is_delim text
unfolding strtok skip
strtok_skip is_delim c text e = rw e

-- A name of a host: no white space, slash, colon, `^` or `]`, and not empty.
pub record IsHost (host : List ℕ) : Type 0 where
  pub some_bytes : 1 ≤ length host
  pub no_space : NoneOf is_space host
  pub no_slash : NoneOf is_slash host
  pub no_colon : NoneOf is_colon host
  pub no_mark : NoneOf is_mark host

-- A path, which may have slashes.
pub record IsPath (path : List ℕ) : Type 0 where
  pub some_bytes : 1 ≤ length path
  pub no_space : NoneOf is_space path
  pub no_colon : NoneOf is_colon path
  pub no_mark : NoneOf is_mark path

abbrev pub url_of : List ℕ → List ℕ → List ℕ
url_of host path = codes "http://" ++ (host ++ b'/' ∷ path)

abbrev pub version : Bool → List ℕ
version true = codes "HTTP/1.1"
version false = codes "HTTP/1.0"

pub has_colon-NoneOf : (xs ys : List ℕ) → NoneOf is_colon xs → has_colon (xs ++ ys) ≡ has_colon ys
unfolding has_colon
has_colon-NoneOf [] ys h = refl
has_colon-NoneOf (x ∷ xs) ys h = rw (h.0) (has_colon-NoneOf xs ys h.1)

second-url :
    (host : List ℕ) (rest : List ℕ)
    → IsHost host
    → second is_slash (codes "http://" ++ (host ++ b'/' ∷ rest)) ≡ some (host, rest)
unfolding strtok skip span
second-url host rest h =
    strtok_skip is_slash b'/' (host ++ b'/' ∷ rest) refl
    ∙ strtok-NoneOf is_slash host b'/' rest h.no_slash h.some_bytes refl

pub path_of-url :
    (host path : List ℕ) → IsHost host → IsPath path → path_of (url_of host path) ≡ some path
unfolding path_of
path_of-url host path h p =
    let split : second is_slash (url_of host path ++ codes "^]") ≡ some (host, path ++ codes "^]") =
      ap (λ text. second is_slash (codes "http://" ++ text))
        (append_assoc host (b'/' ∷ path) (codes "^]"))
      ∙ second-url host (path ++ codes "^]") h in
    ap path_behind split
    ∙ ap token (strtok-NoneOf is_mark path b'^' (codes "]") p.no_mark p.some_bytes refl)

url-has_colon :
    (host path : List ℕ) → IsHost host → IsPath path → has_colon (host ++ b'/' ∷ path) ≡ false
unfolding has_colon
url-has_colon host path h p =
    has_colon-NoneOf host (b'/' ∷ path) h.no_colon
    ∙ (ap has_colon (sym (append-nil path)) ∙ has_colon-NoneOf path [] p.no_colon)

pub host_port-url :
    (host path : List ℕ) → IsHost host → IsPath path → host_port (url_of host path) ≡ ok (host, 80)
unfolding host_port
host_port-url host path h p =
    rw (url-has_colon host path h p) (ap (λ o. ok (printed o, 80)) (second-url host path h))

scan_word-NoneOf :
    (size : ℕ) (old word : List ℕ) (c : ℕ) (rest : List ℕ)
    → NoneOf is_space word
    → 1 ≤ length word
    → length word < size
    → is_space c ≡ true
    → scan_word size old (word ++ c ∷ rest) ≡ ok (word, rest)
unfolding scan_word
scan_word-NoneOf size old word c rest h some_bytes room e =
    ap (stored size old) (strtok-NoneOf is_space word c rest h some_bytes e)
    ∙ rw (lt→ltb (length word) size room) refl

pub url-no_space :
    (host path : List ℕ) → IsHost host → IsPath path → NoneOf is_space (url_of host path)
url-no_space host path h p =
    All-append (λ c. is_space c ≡ false) (codes "http://" ++ host) (b'/' ∷ path)
      (refl, (refl, (refl, (refl, (refl, (refl, (refl, h.no_space))))))) (refl, p.no_space)

-- The text of a request: the method, the URL, the version, and more lines.
abbrev pub request_text : List ℕ → Bool → List ℕ → List ℕ
request_text url one_one more = codes "GET" ++ 32 ∷ (url ++ 32 ∷ (version one_one ++ b'\r' ∷ more))

unfoldable pub words : List ℕ → Bool → Words
words url one_one = record { t1 = codes "GET"; t2 = url; t3 = version one_one }

scan_word-version :
    (old : List ℕ) (one_one : Bool) (more : List ℕ)
    → scan_word 10 old (version one_one ++ b'\r' ∷ more) ≡ ok (version one_one, more)
scan_word-version old true more =
    let clean : NoneOf is_space (version true) =
      (refl, (refl, (refl, (refl, (refl, (refl, (refl, (refl, tt)))))))) in
    scan_word-NoneOf 10 old (version true) b'\r' more clean (omega arith) (omega arith) refl
scan_word-version old false more =
    let clean : NoneOf is_space (version false) =
      (refl, (refl, (refl, (refl, (refl, (refl, (refl, (refl, tt)))))))) in
    scan_word-NoneOf 10 old (version false) b'\r' more clean (omega arith) (omega arith) refl

pub scan-request_text :
    (old : Words) (url : List ℕ) (one_one : Bool) (more : List ℕ)
    → NoneOf is_space url
    → 1 ≤ length url
    → length url < 298
    → scan old (request_text url one_one more) ≡ ok (words url one_one)
unfolding scan words
scan-request_text old url one_one more clean some_bytes room =
    rw
      (
        scan_word-NoneOf 300 old.t1 (codes "GET") 32 (url ++ 32 ∷ (version one_one ++ b'\r' ∷ more))
            (refl, (refl, (refl, tt))) (omega arith) (omega arith) refl,
        scan_word-NoneOf 300 old.t2 url 32 (version one_one ++ b'\r' ∷ more) clean some_bytes
            (omega arith) refl,
        scan_word-version old.t3 one_one more,
      )
      refl
