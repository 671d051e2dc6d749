-- ===== src/Proxylab/Relay/Tests.antt =====
-- A response that comes in two pieces, and an address.
use git_sty.Base.{ℕ, zero, suc, [], ◌∷◌, arith}
use git_sty.Proxylab.Rio.{Source, chunk, signal, takes, stops}
use git_sty.Proxylab.Rio.Source.{IsClean, events}
use git_sty.Proxylab.Rio.Writen.{Unbroken}
use git_sty.Proxylab.Relay.{Client, relay_bytes}
use git_sty.Proxylab.Relay.Whole.{Whole, relay_bytes-Whole}

abbrev server : Source
server = chunk 71 (73 ∷ 70 ∷ []) ∷ signal ∷ chunk 56 [] ∷ []

-- The first `write` is interrupted and takes one byte at first.
abbrev client : Client
client zero = stops ∷ takes 1 ∷ []
client (suc k) = []

abbrev patient : (k : ℕ) → Unbroken (client k)
unfolding Unbroken
patient zero = 0
patient (suc k) = 0

relay_bytes-Whole_example : Whole server (relay_bytes 9 0 client server)
unfolding IsClean events
relay_bytes-Whole_example = relay_bytes-Whole client patient 9 0 server tt (omega arith)
