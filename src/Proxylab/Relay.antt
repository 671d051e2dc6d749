-- ===== src/Proxylab/Relay.antt =====
-- How `doit` of proxylab/proxy.c hands the server's response on to the client, and the line for the log.
-- Each `Rio_writen_w` has its own list of what `write` does; their index counts the calls.
pub mod Whole
pub mod Address
mod Tests
use git_sty.Base.{
  ℕ, zero, suc, ◌+◌, ◌-◌, ◌*◌, ◌/◌, ◌%◌, Bool, true, false, ◌||◌, List, [], ◌∷◌, ◌++◌, Option, none,
  some, Text, ◌==◌, if◌then◌else◌, length, take,
}
use git_sty.Proxylab.Rio.{
  Source, Sink, Stored, stored, error, out_of_fuel, Rio, rio_readinitb, LineResult, line,
  line_error, rio_readn, rio_readlineb, rio_writen,
}

-- `MAXLINE`.
abbrev pub maxline : ℕ
maxline = 8192

abbrev pub Client : Type 0
Client = ℕ → List Sink

-- The bytes that reached the client, and `size`.
abbrev pub Relayed : Type 0
Relayed = Option (Text × ℕ)

-- `Rio_writen_w` looks at no result.
abbrev pub rio_writen_w : List Sink → Text → Text
rio_writen_w events usrbuf = (rio_writen events usrbuf).0

abbrev pub sent : Text → ℕ → Relayed → Relayed
sent out n none = none
sent out n (some (more, size)) = some (out ++ more, n + size)

-- The loop over `Rio_readn_w`, which makes an error the end of the file; `again` is the next round.
unfoldable pub after_readn : (Source → Relayed) → List Sink → Stored Source → Relayed
after_readn again events (stored [] s) = some ([], 0)
after_readn again events (stored (b ∷ bs) s) =
    sent (rio_writen_w events (b ∷ bs)) (length (b ∷ bs)) (again s)
after_readn again events (error s) = some ([], 0)
after_readn again events out_of_fuel = none

unfoldable pub relay_bytes : (fuel k : ℕ) → Client → Source → Relayed
relay_bytes zero k client s = none
relay_bytes (suc f) k client s =
    after_readn (λ t. relay_bytes f (k + 1) client t) (client k) (rio_readn (suc f) maxline s)

-- The loop over `Rio_readlineb_w`. The buffer ends with the zero that `rio_readlineb` stores.
unfoldable pub after_line : (Rio → Relayed) → List Sink → LineResult → Relayed
after_line again events (line x) =
    let more =
      sent (rio_writen_w events (take x.count (x.text ++ (0 ∷ [])))) x.count (again x.rio) in
    if x.count == 0 then some ([], 0) else more
after_line again events (line_error r) = some ([], 0)

unfoldable pub relay_lines : (fuel k : ℕ) → Client → Rio → Relayed
relay_lines zero k client r = none
relay_lines (suc f) k client r =
    after_line (λ t. relay_lines f (k + 1) client t) (client k) (rio_readlineb maxline r)

-- The choice by the type of the file: text by lines, the images by bytes, and nothing else.
unfoldable pub relay : (fuel : ℕ) → (text image : Bool) → Client → Source → Relayed
relay fuel text image client s =
    let lines = relay_lines fuel 0 client (rio_readinitb s) in
    let chunks = relay_bytes fuel 0 client s in
    if text then lines else if image then chunks else some ([], 0)

-- `a`, `b`, `c` and `d` of `format_log_entry`: an address of 32 bits in dotted form.
unfoldable pub dotted : ℕ → List ℕ
dotted host = (host / 16777216) % 256 ∷ (host / 65536) % 256 ∷ (host / 256) % 256 ∷ host % 256 ∷ []
