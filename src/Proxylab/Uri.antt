-- ===== src/Proxylab/Uri.antt =====
-- `parse_uri` and `get_filetype` of proxylab/proxy.c. A C
-- string stands without its closing zero, and an `int` is its 32-bit pattern.
pub mod Parts
mod Tests
use git_sty.Base.{
  ℕ, ◌+◌, ◌-◌, ◌*◌, ◌/◌, ◌%◌, Bool, true, false, ◌&&◌, ◌||◌, not, Option, none, some, List, [], ◌∷◌,
  ◌++◌, ◌==◌, leb, ltb, if◌then◌else◌, Text, codes, text_eq, take, drop, length,
}

-- `tolower` on ASCII.
abbrev pub lower : ℕ → ℕ
lower c = if leb b'A' c && leb c b'Z' then c + 32 else c

-- `strncasecmp(s, t, n) == 0` for a `t` of `n` characters.
unfoldable pub starts_as : Text → Text → Bool
starts_as s [] = true
starts_as [] (c ∷ t) = false
starts_as (b ∷ s) (c ∷ t) = (lower b == lower c) && starts_as s t

-- What ends a host name.
unfoldable pub is_end : ℕ → Bool
is_end c = (c == b' ') || ((c == b':') || ((c == b'/') || ((c == b'\r') || (c == b'\n'))))

abbrev pub before : ℕ → Option (Text × Text) → Option (Text × Text)
before c none = none
before c (some (host, rest)) = some (c ∷ host, rest)

-- `strpbrk`: what stands before the first such character, and the rest from it on; `none` is NULL.
unfoldable pub break_at : (ℕ → Bool) → Text → Option (Text × Text)
break_at stop [] = none
break_at stop (c ∷ s) =
    let rest = break_at stop s in if stop c then some ([], c ∷ s) else before c rest

-- `atoi` after its blanks: a sign and digits.
abbrev pub is_digit : ℕ → Bool
is_digit c = leb b'0' c && leb c b'9'

unfoldable pub digits : ℕ → Text → ℕ
digits n [] = n
digits n (c ∷ s) = let rest = digits (n * 10 + (c - b'0')) s in if is_digit c then rest else n

-- A number as an `int`; `none` where it does not fit, which C leaves undefined.
abbrev pub to_int : ℕ → Option ℕ
to_int n = if ltb n 2147483648 then some n else none

unfoldable pub signed : Text → Option ℕ
signed [] = some 0
signed (c ∷ s) =
    if c == b'-'
    then (if leb (digits 0 s) 2147483648
        then some ((4294967296 - digits 0 s) % 4294967296)
        else none)
    else if c == b'+'
    then to_int (digits 0 s)
    else to_int (digits 0 (c ∷ s))

-- `isspace`: a blank, or one of the characters 9 to 13.
unfoldable pub atoi : Text → Option ℕ
atoi [] = some 0
atoi (c ∷ s) =
    let rest = atoi s in if (c == b' ') || (leb 9 c && leb c 13) then rest else signed (c ∷ s)

-- What `parse_uri` stores; or it returns -1; or it reads through NULL; or the port is no `int`.
pub data ParsedUri : Type 0 where
  parsed : (hostname pathname : Text) → (port : ℕ) → ParsedUri
  refused fault port_undefined : ParsedUri

abbrev pub port_of : Text → Option ℕ
port_of [] = some 80
port_of (c ∷ s) = if c == b':' then atoi s else some 80

-- `strchr(hostbegin, '/')`, and `/` without it.
unfoldable pub path_of : Text → Text
path_of [] = b'/' ∷ []
path_of (c ∷ s) = let rest = path_of s in if c == b'/' then c ∷ s else rest

abbrev with_port : (hostname pathname : Text) → Option ℕ → ParsedUri
with_port hostname pathname none = port_undefined
with_port hostname pathname (some port) = parsed hostname pathname port

unfoldable pub split_host : Text → Option (Text × Text) → ParsedUri
split_host s none = fault
split_host s (some (host, rest)) = with_port host (path_of s) (port_of rest)

unfoldable pub parse_uri : Text → ParsedUri
parse_uri uri =
    let s = drop 7 uri in
    if starts_as uri (codes "http://") then split_host s (break_at is_end s) else refused

-- `strstr` for a text that is not empty.
unfoldable pub contains : Text → Text → Bool
contains t [] = false
contains t (c ∷ s) = let rest = contains t s in text_eq (take (length t) (c ∷ s)) t || rest

pub get_filetype : Text → Text
get_filetype filename =
    if contains (codes ".html") filename
    then codes "text/html"
    else if contains (codes ".gif") filename
    then codes "image/gif"
    else if contains (codes ".jpg") filename
    then codes "image/jpeg"
    else if contains (codes ".png") filename
    then codes "image/png"
    else codes "text/plain"
