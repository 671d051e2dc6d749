-- ===== src/Malloclab/Sampler.antt =====
-- The K-best measurements of malloclab/fcyc.c, without the clearing of the cache. A `double` is a value
-- of a type `A` with the comparisons that the code makes; the cycles that each run of the measured
-- function takes are an argument. The array of all samples is never read.
pub mod Ends
pub mod Insert
pub mod Best
mod Tests
use git_sty.Base.{
  ℕ, zero, suc, ◌+◌, ◌-◌, Bool, ◌&&◌, not, Option, none, some, List, [], ◌∷◌, leb, ltb,
  if◌then◌else◌, set, get_or, replicate,
}

-- `kbest`, `maxsamples`, zero, `x < y`, and `(1 + epsilon) * x >= y`.
pub record Params (A : Type 0) : Type 0 where
  pub kbest : ℕ
  pub maxsamples : ℕ
  pub zero_double : A
  pub less : A → A → Bool
  pub close : A → A → Bool

-- `values` and `samplecount`.
pub record Sampler (A : Type 0) : Type 0 where
  pub values : List A
  pub samplecount : ℕ

module _ {A : Type 0} (p : Params A) where
  abbrev pub at : List A → ℕ → A
  at vs i = get_or vs i p.zero_double

  unfoldable pub init_sampler : Sampler A
  init_sampler = record { values = replicate p.kbest p.zero_double; samplecount = 0 }

  -- The insertion sort from position `pos` down.
  unfoldable pub sift : ℕ → List A → List A
  sift zero vs = vs
  sift (suc k) vs =
      let below = sift k (set (set vs k (at vs (suc k))) (suc k) (at vs k)) in
      if p.less (at vs (suc k)) (at vs k) then below else vs

  unfoldable pub store_sample : A → Sampler A → List A
  store_sample val s =
      if ltb s.samplecount p.kbest
      then sift s.samplecount (set s.values s.samplecount val)
      else if p.less val (at s.values (p.kbest - 1))
      then sift (p.kbest - 1) (set s.values (p.kbest - 1) val)
      else s.values

  unfoldable pub add_sample : A → Sampler A → Sampler A
  add_sample val s = record { values = store_sample val s; samplecount = s.samplecount + 1 }

  unfoldable pub has_converged : Sampler A → Bool
  has_converged s = leb p.kbest s.samplecount && p.close (at s.values 0) (at s.values (p.kbest - 1))

  -- The `do` loop over the cycles measured; `none` if it asks for more of them.
  unfoldable pub measure : List A → Sampler A → Option A
  measure [] s = none
  measure (cyc ∷ more) s =
      let s' = add_sample cyc s in
      let rest = measure more s' in
      if not (has_converged s') && ltb s'.samplecount p.maxsamples
      then rest
      else some (at s'.values 0)

  unfoldable pub fcyc : List A → Option A
  fcyc cycles = measure cycles init_sampler
