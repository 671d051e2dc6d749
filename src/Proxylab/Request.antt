-- ===== src/Proxylab/Request.antt =====
-- How `doit` of proxylab/proxy.c reads a request and builds the one for the server. Texts stand without
-- their closing zero.
pub mod Forward
pub mod Whole
mod Tests
use git_sty.Base.{
  ℕ, zero, suc, ◌+◌, ◌-◌, Bool, true, false, ◌&&◌, ◌||◌, List, [], ◌∷◌, ◌++◌, ◌==◌, leb, ltb,
  if◌then◌else◌, Text, codes, text_eq, length,
}
use git_sty.Proxylab.Rio.{Rio, LineRead, LineResult, line, line_error, rio_readlineb}
use git_sty.Proxylab.Uri.{lower, ParsedUri, parsed, refused, fault, port_undefined, parse_uri}
use git_sty.Proxylab.Relay.{maxline}

-- `MAXBUF`, the size of `client_message`.
abbrev pub maxbuf : ℕ
maxbuf = 8192

-- The string in a buffer: what stands before the first zero.
unfoldable pub c_string : Text → Text
c_string [] = []
c_string (c ∷ cs) = let more = c_string cs in if c == 0 then [] else c ∷ more

-- What the arrays hold before something is stored there.
pub record Junk : Type 0 where
  pub buf : Text
  pub method : Text
  pub uri : Text
  pub version : Text
  pub pathname : Text
  pub port : ℕ

pub data Headers : Type 0 where
  complete : Text → Rio → Headers
  smashed read_error unfinished : Headers

-- What `buf` holds after a `Rio_readlineb`: at the end of the file nothing is stored.
abbrev pub buffer : Text → LineRead → Text
buffer buf x = if x.count == 0 then buf else c_string x.text

abbrev pub blank_line : Text
blank_line = b'\r' ∷ b'\n' ∷ []

-- The loop up to the blank line. `Rio_readlineb` ends the process on an error; from `maxbuf` bytes on the
-- message does not fit. C leaves undefined what `sprintf` does with `client_message` as both its target and
-- its argument; this is what it does where it copies from the front, as the code relies on.
unfoldable pub add_header :
    (Text → Text → Rio → Headers) → (buf message : Text) → LineResult → Headers
add_header again buf message (line x) =
    let buf₁ = buffer buf x in
    let more = again buf₁ (message ++ buf₁) x.rio in
    if ltb (length (message ++ buf₁)) maxbuf then more else smashed
add_header again buf message (line_error r) = read_error

unfoldable pub read_headers : (fuel : ℕ) → (buf message : Text) → Rio → Headers
read_headers zero buf message r = unfinished
read_headers (suc k) buf message r =
    let more = add_header (λ b m t. read_headers k b m t) buf message (rio_readlineb maxline r) in
    if text_eq buf blank_line then complete message r else more

abbrev pub is_space : ℕ → Bool
is_space c = (c == b' ') || (leb 9 c && leb c 13)

-- `sscanf` with `%s`: the next word and what follows it; `[]` where there is none.
unfoldable pub take_word : Text → Text × Text
take_word [] = ([], [])
take_word (c ∷ s) = let (w, rest) = take_word s in if is_space c then ([], c ∷ s) else (c ∷ w, rest)

unfoldable pub next_word : Text → Text × Text
next_word [] = ([], [])
next_word (c ∷ s) = let later = next_word s in if is_space c then later else take_word (c ∷ s)

abbrev pub or_old : Text → Text → Text
or_old old [] = old
or_old old (c ∷ w) = c ∷ w

-- `strcasecmp(s, t) == 0`.
unfoldable pub same_word : Text → Text → Bool
same_word [] [] = true
same_word [] (c ∷ t) = false
same_word (b ∷ s) [] = false
same_word (b ∷ s) (c ∷ t) = (lower b == lower c) && same_word s t

-- What `doit` does once it has read the request: the three writes to the client, or the connection to
-- open and the message for it. `crashed` is a read through NULL, `undefined` a port that is no `int`.
pub data Request : Type 0 where
  not_implemented : List Text → Request
  ask : (hostname : Text) → (port : ℕ) → (pathname client_message : Text) → Rio → Request
  overflow exits crashed undefined endless : Request

unfoldable pub with_headers : (hostname : Text) → (port : ℕ) → (pathname : Text) → Headers → Request
with_headers hostname port pathname (complete message r) = ask hostname port pathname message r
with_headers hostname port pathname smashed = overflow
with_headers hostname port pathname read_error = exits
with_headers hostname port pathname unfinished = endless

abbrev pub request_line : (method pathname version : Text) → Text
request_line method pathname version =
    method ++ (b' ' ∷ (pathname ++ (b' ' ∷ (version ++ blank_line))))

-- `parse_uri` returns -1 where it stores an empty host only; `doit` goes on all the same.
unfoldable pub with_uri :
    (fuel : ℕ) → Junk → (buf method version : Text) → Rio → ParsedUri → Request
with_uri fuel junk buf method version r (parsed hostname pathname port) =
    let message = request_line method pathname version in
    let rest = with_headers hostname port pathname (read_headers fuel buf message r) in
    if ltb (length message) maxbuf then rest else overflow
with_uri fuel junk buf method version r refused =
    let message = request_line method junk.pathname version in
    let rest = with_headers [] junk.port junk.pathname (read_headers fuel buf message r) in
    if ltb (length message) maxbuf then rest else overflow
with_uri fuel junk buf method version r fault = crashed
with_uri fuel junk buf method version r port_undefined = undefined

unfoldable pub after_request_line : (fuel : ℕ) → Junk → LineResult → Request
after_request_line fuel junk (line x) =
    let buf = buffer junk.buf x in
    let (w₁, s₁) = next_word buf in
    let (w₂, s₂) = next_word s₁ in
    let (w₃, s₃) = next_word s₂ in
    let method = or_old junk.method w₁ in
    let version = or_old junk.version w₃ in
    let rest = with_uri fuel junk buf method version x.rio (parse_uri (or_old junk.uri w₂)) in
    if same_word method (codes "GET")
    then rest
    else not_implemented (
        (codes "HTTP/1.1 501 Not Implemented" ++ blank_line)
        ∷ (codes "That method has not been implemented yet, sorry!" ++ blank_line)
        ∷ blank_line
        ∷ [])
after_request_line fuel junk (line_error r) = exits

-- The first part of `doit`, on the client's connection.
unfoldable pub read_request : (fuel : ℕ) → Junk → Rio → Request
read_request fuel junk r = after_request_line fuel junk (rio_readlineb maxline r)
