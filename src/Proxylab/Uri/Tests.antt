-- ===== src/Proxylab/Uri/Tests.antt =====
-- Runs of `parse_uri`.
use git_sty.Base.{◌≡◌, refl, ◌∷◌, ◌++◌, codes, Text, arith}
use git_sty.Proxylab.Uri.{parsed, parse_uri, is_end}
use git_sty.Proxylab.Uri.Parts.{IsHost, IsDigits, value, parse_uri_full}

abbrev host : Text
host = codes "a.is"

host-IsHost : IsHost host
unfolding IsHost is_end
host-IsHost = (refl, (refl, (refl, (refl, tt))))

port-IsDigits : IsDigits (codes "8080")
unfolding IsDigits
port-IsDigits = (refl, (refl, (refl, (refl, tt))))

parse_uri_full_example :
    parse_uri (codes "http://" ++ (host ++ (b':' ∷ (codes "8080" ++ (b'/' ∷ codes "x")))))
    ≡ parsed host (codes "/x") (value (codes "8080"))
unfolding value
parse_uri_full_example =
    parse_uri_full host (codes "8080") (codes "x") host-IsHost port-IsDigits (omega arith)
