-- ===== src/Malloclab/Clock/Difference.antt =====
-- The two words of the counter make one difference.
use git_sty.Base.{ℕ, ◌+◌, ◌-◌, ◌/◌, ◌%◌, ◌<◌, ◌≤◌, ◌≡◌, ◌∙◌, arith}
use git_sty.Malloclab.Clock.{word, start_counter, get_counter}

-- The difference of two counts of 64 bits.
abbrev pub elapsed : ℕ → ℕ → ℕ
elapsed s t = ((t + 18446744073709551616) - s) % 18446744073709551616

-- The sum that is made of the two words is the difference.
halves :
    (s t : ℕ)
    → s < 18446744073709551616
    → t < 18446744073709551616
    → get_counter (λ a b. a + b) (t / word) (t % word) (start_counter (s / word) (s % word))
      ≡ elapsed s t
unfolding get_counter start_counter
halves s t a b = ground arith

rounded :
    (add : ℕ → ℕ → ℕ) (x y n : ℕ)
    → ((a b : ℕ) → a + b ≤ 9007199254740992 → add a b ≡ a + b)
    → x + y ≡ n
    → n ≤ 9007199254740992
    → add x y ≡ n
rounded add x y n exact e l = exact x y (omega (arith, e, l)) ∙ e

-- Where the counter is read at `s` and then at `t`, in 64 bits, and a sum of `double`s is exact up to
-- 2^53: if at most 2^53 cycles lie between, also across a wrap of the counter or of its lower word,
-- `get_counter` returns their number.
pub get_counter-start_counter :
    (add : ℕ → ℕ → ℕ) (s t : ℕ)
    → ((a b : ℕ) → a + b ≤ 9007199254740992 → add a b ≡ a + b)
    → s < 18446744073709551616
    → t < 18446744073709551616
    → elapsed s t ≤ 9007199254740992
    → get_counter add (t / word) (t % word) (start_counter (s / word) (s % word)) ≡ elapsed s t
unfolding get_counter start_counter
get_counter-start_counter add s t exact a b l =
    rounded add _ _ (elapsed s t) exact (halves s t a b) l
