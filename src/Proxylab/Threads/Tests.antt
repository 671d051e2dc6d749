-- ===== src/Proxylab/Threads/Tests.antt =====
-- Three hundred and more connections.
use git_sty.Base.{ℕ, ◌≡◌, [], ◌∷◌, replicate, length-replicate, arith}
use git_sty.Proxylab.Threads.{started, accept, accept_all, argument}
use git_sty.Proxylab.Threads.Own.{argument_own, argument_other}

abbrev junk : ℕ
junk = 0

argument_own_example : argument junk 1 (accept_all (4 ∷ 5 ∷ replicate 299 6) (started junk)) ≡ 5
argument_own_example =
    argument_own junk (4 ∷ []) 5 (replicate 299 6) (omega (arith, length-replicate {A = ℕ} 299 6))

argument_other_example :
    argument junk 1 (accept 7 (accept_all (4 ∷ 5 ∷ replicate 299 6) (started junk))) ≡ 7
argument_other_example =
    argument_other junk (4 ∷ []) 5 (replicate 299 6) 7
      (omega (arith, length-replicate {A = ℕ} 299 6))
