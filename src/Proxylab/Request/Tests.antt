-- ===== src/Proxylab/Request/Tests.antt =====
-- A request with two headers, one whose headers have no end, and one of another method.
use git_sty.Base.{
  ◌≡◌, refl, Bool, true, false, not, ◌&&◌, List, [], ◌∷◌, ◌++◌, ◌==◌, Text, codes, arith,
}
use git_sty.Proxylab.Rio.{Rio, rio_readinitb}
use git_sty.Proxylab.Rio.Source.{IsClean, contents}
use git_sty.Proxylab.Uri.{
  parse_uri, starts_as, break_at, is_end, path_of, split_host, atoi, signed, digits,
}
use git_sty.Proxylab.Request.{
  Junk, smashed, is_space, blank_line, read_headers, read_request, request_line,
}
use git_sty.Proxylab.Request.Forward.{IsLine, AreHeaders, joined_lines, read_headers_smashed}
use git_sty.Proxylab.Request.Whole.{AreSolid, IsWord, Asks, read_request-Asks}

unfoldable is_line : Text → Bool
is_line [] = false
is_line (c ∷ []) = c == b'\n'
is_line (c ∷ d ∷ cs) = not (c == b'\n') && (not (c == 0) && is_line (d ∷ cs))

is_line-IsLine : (l : Text) → is_line l ≡ true → IsLine l
unfolding is_line IsLine
is_line-IsLine [] e = absurd (ground arith)
is_line-IsLine (c ∷ []) e = ground arith
is_line-IsLine (c ∷ d ∷ cs) e =
    (λ x. ground arith, (λ x. ground arith, is_line-IsLine (d ∷ cs) (ground arith)))

unfoldable is_solid : Text → Bool
is_solid [] = true
is_solid (c ∷ cs) = not (is_space c) && is_solid cs

is_solid-AreSolid : (w : Text) → is_solid w ≡ true → AreSolid w
unfolding is_solid AreSolid
is_solid-AreSolid [] e = tt
is_solid-AreSolid (c ∷ cs) e = (ground arith, is_solid-AreSolid cs (ground arith))

abbrev uri : Text
uri = codes "http://a.is:80/x"

abbrev version : Text
version = codes "HTTP/1.0"

abbrev headers : List Text
headers = (codes "Host: a.is" ++ blank_line) ∷ (codes "Accept: */*" ++ blank_line) ∷ []

abbrev junk : Junk
junk = record { buf = []; method = []; uri = []; version = []; pathname = []; port = 0 }

abbrev text : Text
text = request_line (codes "GET") uri version ++ (joined_lines headers ++ (blank_line ++ []))

abbrev reader : Rio
reader = record { unread = text; fd = [] }

read_request-Asks_example :
    Asks
      (codes "a.is")
      (codes "/x")
      (request_line (codes "GET") (codes "/x") version ++ (joined_lines headers ++ blank_line))
      []
      80
      (read_request 9 junk reader)
unfolding is_line is_solid IsWord AreHeaders joined_lines parse_uri starts_as break_at is_end
    path_of split_host atoi signed digits IsClean contents
read_request-Asks_example =
    read_request-Asks uri version (codes "a.is") (codes "/x") [] 80 headers junk 9
      (omega arith, is_solid-AreSolid uri refl) (omega arith, is_solid-AreSolid version refl)
      (is_line-IsLine (request_line (codes "GET") uri version) refl) refl
      (
        (
          is_line-IsLine (codes "Host: a.is" ++ blank_line) refl,
          (omega arith, λ e. ground (arith, e)),
        ),
        (
          (
            is_line-IsLine (codes "Accept: */*" ++ blank_line) refl,
            (omega arith, λ e. ground (arith, e)),
          ),
          tt,
        ),
      )
      (omega arith) (omega arith) reader tt (omega arith) refl

-- The client has closed its side behind a header.
read_headers_smashed_example :
    read_headers 8192
      (codes "Host: a.is" ++ blank_line)
      (codes "GET / HTTP/1.0" ++ blank_line)
      (rio_readinitb [])
    ≡ smashed
unfolding IsClean contents rio_readinitb
read_headers_smashed_example =
    read_headers_smashed 8192 (codes "Host: a.is" ++ blank_line)
      (codes "GET / HTTP/1.0" ++ blank_line) (rio_readinitb []) tt refl (λ e. ground (arith, e))
      (omega arith) (omega arith) (omega arith)
