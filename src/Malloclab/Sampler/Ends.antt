-- ===== src/Malloclab/Sampler/Ends.antt =====
-- `fcyc` ends.
use git_sty.Base.{◌+◌, ◌≤◌, ◌<◌, ◌≢◌, none, List, [], ◌∷◌, length, arith}
use git_sty.Malloclab.Sampler.{Params, Sampler, add_sample, measure, init_sampler, fcyc}

module _ {A : Type 0} (p : Params A) where
  measure_ends :
      (cycles : List A) (s : Sampler A)
      → 0 < length cycles
      → p.maxsamples ≤ s.samplecount + length cycles
      → measure p cycles s ≢ none
  unfolding measure add_sample
  measure_ends [] s z h = absurd (omega (arith, z))
  measure_ends (c ∷ []) s z h = ground (arith)
  measure_ends (c ∷ d ∷ cs) s z h = ground (arith, measure_ends (d ∷ cs) (add_sample p c s))

  -- `fcyc` returns after `maxsamples` runs of the measured function at most, one at least, whether or
  -- not the measurements converge.
  pub fcyc_ends :
      (cycles : List A) → 0 < length cycles → p.maxsamples ≤ length cycles → fcyc p cycles ≢ none
  unfolding fcyc init_sampler
  fcyc_ends cycles z h = measure_ends cycles (init_sampler p) z (omega (arith, h))
