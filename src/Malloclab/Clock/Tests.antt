-- ===== src/Malloclab/Clock/Tests.antt =====
-- A reading with a borrow.
use git_sty.Base.{refl, ◌+◌, ◌/◌, ◌%◌, ◌≡◌, arith}
use git_sty.Malloclab.Clock.{word, start_counter, get_counter}
use git_sty.Malloclab.Clock.Difference.{elapsed, get_counter-start_counter}

get_counter-start_counter_example :
    get_counter
      (λ a b. a + b)
      (4294967301 / word)
      (4294967301 % word)
      (start_counter (4294967290 / word) (4294967290 % word))
    ≡ elapsed 4294967290 4294967301
get_counter-start_counter_example =
    get_counter-start_counter (λ a b. a + b) 4294967290 4294967301 (λ a b l. refl) (omega arith)
      (omega arith) (omega arith)
