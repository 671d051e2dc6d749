-- ===== src/Proxylab/Request/Whole.antt =====
-- A request, from its first line to the message for the server.
use git_sty.Base.{
  ℕ, ◌+◌, ◌≡◌, ap, refl, ◌<◌, ◌≤◌, true, false, List, [], ◌∷◌, ◌++◌, ltb, Text, codes, length,
  arith,
}
use git_sty.Proxylab.Rio.{Rio, LineResult, line, line_error, rio_readlineb}
use git_sty.Proxylab.Rio.Source.{rest, Clean}
use git_sty.Proxylab.Uri.{parsed, parse_uri}
use git_sty.Proxylab.Relay.{maxline}
use git_sty.Proxylab.Request.{
  maxbuf, Junk, Headers, complete, smashed, read_error, unfinished, blank_line, is_space, take_word,
  next_word, or_old, same_word, Request, ask, read_headers, with_headers, request_line, with_uri,
  after_request_line, read_request,
}
use git_sty.Proxylab.Request.Forward.{
  IsLine, Gives, next_line, Forwarded, AreHeaders, joined_lines, read_headers-Forwarded,
}

-- No blanks.
unfoldable pub AreSolid : Text → Type 0
AreSolid [] = Unit
AreSolid (c ∷ cs) = (is_space c ≡ false) × AreSolid cs

take_word-append :
    (w : Text) (b : ℕ) (s : Text)
    → AreSolid w
    → is_space b ≡ true
    → take_word (w ++ (b ∷ s)) ≡ (w, b ∷ s)
unfolding take_word AreSolid
take_word-append [] b s a e = rw e refl
take_word-append (c ∷ w) b s (d, a) e = rw (d, take_word-append w b s a e) refl

-- A word of one character or more.
unfoldable pub IsWord : Text → Type 0
IsWord w = (0 < length w) × AreSolid w

next_word-append :
    (w : Text) (b : ℕ) (s : Text)
    → IsWord w
    → is_space b ≡ true
    → next_word (w ++ (b ∷ s)) ≡ (w, b ∷ s)
unfolding next_word AreSolid IsWord
next_word-append [] b s (z, a) e = absurd (omega (arith, z))
next_word-append (c ∷ w) b s (z, (d, a)) e = rw d (take_word-append (c ∷ w) b s (d, a) e)

or_old-word : (old w : Text) → IsWord w → or_old old w ≡ w
unfolding IsWord
or_old-word old [] (z, a) = absurd (omega (arith, z))
or_old-word old (c ∷ w) i = refl

-- The request asks `host` at `port` for `pathname`, with the message `m`; `body` is left to read.
pub record Asks (host pathname m body : Text) (port : ℕ) (q : Request) : Type 0 where
  pub reader : Rio
  pub asks : q ≡ ask host port pathname m reader
  pub left : rest reader ≡ body

with_headers-Asks :
    (host pathname m body : Text) (port : ℕ) (h : Headers)
    → Forwarded m body h
    → Asks host pathname m body port (with_headers host port pathname h)
unfolding Forwarded with_headers
with_headers-Asks host pathname m body port (complete m' r) (e, (f, c)) = record {
  reader = r;
  asks = ap (λ t. ask host port pathname t r) e;
  left = f;
}
with_headers-Asks host pathname m body port smashed f = absurd f
with_headers-Asks host pathname m body port read_error f = absurd f
with_headers-Asks host pathname m body port unfinished f = absurd f

abbrev get : Text
get = codes "GET"

module _ (uri version host pathname body : Text) (port : ℕ) (ls : List Text) (junk : Junk)
    (fuel : ℕ) (u : IsWord uri) (v : IsWord version) (i : IsLine (request_line get uri version))
    (p : parse_uri uri ≡ parsed host pathname port) (a : AreHeaders ls)
    (room : length (request_line get pathname version) + length (joined_lines ls) + 2 < maxbuf)
    (enough : length ls + 1 < fuel) where
  message : Text
  message = request_line get pathname version

  after_request_line-Asks :
      (res : LineResult)
      → Gives (request_line get uri version) (joined_lines ls ++ (blank_line ++ body)) res
      → Asks host pathname
          (message ++ (joined_lines ls ++ blank_line))
          body
          port
          (after_request_line fuel junk res)
  unfolding Gives after_request_line next_word take_word same_word with_uri message
  after_request_line-Asks (line x) (b, (e, c)) =
      let short : ltb (length message) maxbuf ≡ true = ground (arith, room) in
      let first = next_word-append uri b' ' (version ++ blank_line) u refl in
      let second = next_word-append version b'\r' (b'\n' ∷ []) v refl in
      rw
        (
          b junk.buf,
          first,
          second,
          or_old-word junk.uri uri u,
          or_old-word junk.version version v,
          p,
          short,
        )
        (with_headers-Asks host pathname (message ++ (joined_lines ls ++ blank_line)) body port
          (read_headers fuel (request_line get uri version) message x.rio)
          (read_headers-Forwarded ls fuel (request_line get uri version) message body x.rio a c e
            (λ d. ground (arith, d)) room enough))
  after_request_line-Asks (line_error r) g = absurd g

  -- If the client sends, without an error, a request line of GET, a URI that `parse_uri` takes apart and a
  -- version, then the header lines `ls`, a blank line and `body`, where no line is longer than the buffer and the
  -- message has room, then `doit`, with fuel for each line and two more, asks the host and port of the URI with
  -- the same request for the path alone and the same headers, and leaves `body`.
  pub read_request-Asks :
      (r : Rio)
      → Clean r
      → length (request_line get uri version) ≤ 8191
      → rest r ≡ request_line get uri version ++ (joined_lines ls ++ (blank_line ++ body))
      → Asks host pathname
          (request_line get pathname version ++ (joined_lines ls ++ blank_line))
          body
          port
          (read_request fuel junk r)
  unfolding read_request message
  read_request-Asks r c l e =
      after_request_line-Asks (rio_readlineb maxline r) (
        next_line (request_line get uri version) (joined_lines ls ++ (blank_line ++ body)) r i l c
          e)
