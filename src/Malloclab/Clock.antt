-- ===== src/Malloclab/Clock.antt =====
-- The Pentium cycle counter of malloclab/clock.c: what `access_counter` reads is an argument. The addition
-- of two `double`s is a parameter, since it rounds. The products before it are exact: 32 bits times a
-- power of 2.
pub mod Difference
mod Tests
use git_sty.Base.{ℕ, ◌+◌, ◌-◌, ◌*◌, ◌/◌, ◌%◌, ◌≤◌, ◌<◌, ◌≡◌, ltb, if◌then◌else◌, arith}

-- `cyc_hi` and `cyc_lo`.
pub record Counter : Type 0 where
  pub cyc_hi : ℕ
  pub cyc_lo : ℕ

abbrev pub word : ℕ
word = 4294967296

-- `a - b` on `unsigned`.
abbrev pub sub_word : ℕ → ℕ → ℕ
sub_word a b = ((a + word) - b) % word

unfoldable pub start_counter : (hi lo : ℕ) → Counter
start_counter hi lo = record { cyc_hi = hi; cyc_lo = lo }

-- Each `double` here is a whole number, `add` what the machine makes of a sum.
unfoldable pub get_counter : (add : ℕ → ℕ → ℕ) → (ncyc_hi ncyc_lo : ℕ) → Counter → ℕ
get_counter add ncyc_hi ncyc_lo c =
    let lo = sub_word ncyc_lo c.cyc_lo in
    let borrow = if ltb ncyc_lo lo then 1 else 0 in
    let hi = sub_word (sub_word ncyc_hi c.cyc_hi) borrow in add (hi * 1073741824 * 4) lo
