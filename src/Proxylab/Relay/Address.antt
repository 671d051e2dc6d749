-- ===== src/Proxylab/Relay/Address.antt =====
-- The dotted address in the log.
use git_sty.Base.{ℕ, ◌+◌, ◌*◌, ◌<◌, ◌≡◌, List, [], ◌∷◌, arith}
use git_sty.Proxylab.Relay.{dotted}

abbrev pub from_dotted : ℕ → List ℕ → ℕ
from_dotted acc [] = acc
from_dotted acc (n ∷ ns) = from_dotted (acc * 256 + n) ns

-- The four numbers of an address of 32 bits give it back, the first being the highest byte.
pub from_dotted-dotted : (host : ℕ) → host < 4294967296 → from_dotted 0 (dotted host) ≡ host
unfolding dotted
from_dotted-dotted host l = omega (arith, l)
