-- ===== src/Malloclab/Sampler/Tests.antt =====
-- A run of the sampler on whole numbers.
use git_sty.Base.{ℕ, ◌≡◌, ◌-◌, leb, ltb, arith, [], ◌∷◌, take, ◌++◌, replicate, length}
use git_sty.Malloclab.Sampler.{Params, init_sampler}
use git_sty.Malloclab.Sampler.Insert.{ranked}
use git_sty.Malloclab.Sampler.Best.{add_all, add_all-ranked}

abbrev params : Params ℕ
params = record {
  kbest = 2;
  maxsamples = 3;
  zero_double = 0;
  less = λ x y. ltb x y;
  close = λ x y. leb y x;
}

add_all-ranked_example :
    (add_all params (9 ∷ 8 ∷ 7 ∷ []) (init_sampler params)).values
    ≡ take 2 (ranked params [] (9 ∷ 8 ∷ 7 ∷ []))
      ++ replicate (2 - length (ranked params [] (9 ∷ 8 ∷ 7 ∷ []))) 0
add_all-ranked_example =
    add_all-ranked params (λ a b e. ground arith) (λ a b c e f. ground arith) (9 ∷ 8 ∷ 7 ∷ [])
      (omega arith)
