-- ===== src/Cachelab/Trans/Region.antt =====
-- Which cells a piece of a transpose writes: all that it does to `B` is to copy the cells of a region
-- from the transpose of `A`.
use git_sty.Base.{
  ℕ, zero, suc, ◌+◌, ◌*◌, ◌≡◌, refl, Bool, false, ◌&&◌, ◌||◌, ◌==◌, if◌then◌else◌, ltb, leb, arith,
}
use git_sty.Cachelab.Trans.{Matrix, put, for_loop, copy, move_4, move_8}

abbrev pub Region : Type 0
Region = ℕ → ℕ → Bool

abbrev pub Writes : Matrix → Region → (Matrix → Matrix) → Type 0
Writes a p f = (b : Matrix) (r c : ℕ) → f b r c ≡ (if p r c then a c r else b r c)

-- `x` lies in the `n` numbers from `i` on.
abbrev pub within : ℕ → ℕ → ℕ → Bool
within i n x = leb i x && ltb x (i + n)

pub any : ℕ → ℕ → ℕ → (ℕ → Bool) → Bool
any zero i step p = false
any (suc n) i step p = p i || any n (i + step) step p

module _ (a : Matrix) where
  pub Writes-copy : (i j : ℕ) → Writes a (λ r c. (r == j) && (c == i)) (copy a i j)
  unfolding put
  Writes-copy i j b r c = ground arith

  pub Writes-for :
      (n i step : ℕ) (p : ℕ → Region) (body : ℕ → Matrix → Matrix)
      → ((x : ℕ) → Writes a (p x) (body x))
      → Writes a (λ r c. any n i step (λ x. p x r c)) (for_loop n i step body)
  unfolding for_loop any
  Writes-for zero i step p body h b r c = refl
  Writes-for (suc n) i step p body h b r c =
      ground (arith, Writes-for n (i + step) step p body h (body i b) r c, h i b r c)

  pub Writes-then :
      (p q : Region) (f g : Matrix → Matrix)
      → Writes a p f
      → Writes a q g
      → Writes a (λ r c. q r c || p r c) (λ b. g (f b))
  Writes-then p q f g hf hg b r c = ground (arith, hf b r c, hg (f b) r c)

  pub Writes-of :
      (p q : Region) (f : Matrix → Matrix)
      → Writes a p f
      → ((r c : ℕ) → p r c ≡ q r c)
      → Writes a q f
  Writes-of p q f h e b r c = rw (← e r c) (h b r c)

  pub Writes-move_4 : (i j : ℕ) → Writes a (λ r c. within j 4 r && (c == i)) (move_4 a i j)
  unfolding move_4 put
  Writes-move_4 i j b r c = ground arith

  pub Writes-move_8 : (i j : ℕ) → Writes a (λ r c. within j 8 r && (c == i)) (move_8 a i j)
  unfolding move_8
  Writes-move_8 i j b r c =
      ground (arith, Writes-move_4 i j b r c, Writes-move_4 i (j + 4) (move_4 a i j b) r c)

-- Intervals of `step` numbers that follow one another make up one interval.
pub any-within :
    (n i step x : ℕ) (q : Bool)
    → any n i step (λ y. within y step x && q) ≡ (within i (n * step) x && q)
unfolding any
any-within zero i step x q = ground arith
any-within (suc n) i step x q =
    let e : suc n * step ≡ step + n * step = omega arith in
    rw e (ground (arith, any-within n (i + step) step x q))

-- The same where the interval is the second part, and where it is one number.
pub any-within_right :
    (n i step x : ℕ) (q : Bool)
    → any n i step (λ y. q && within y step x) ≡ (q && within i (n * step) x)
unfolding any
any-within_right zero i step x q = ground arith
any-within_right (suc n) i step x q =
    let e : suc n * step ≡ step + n * step = omega arith in
    rw e (ground (arith, any-within_right n (i + step) step x q))

pub any_eq_left : (n i x : ℕ) (q : Bool) → any n i 1 (λ y. (x == y) && q) ≡ (within i n x && q)
unfolding any
any_eq_left zero i x q = ground arith
any_eq_left (suc n) i x q = ground (arith, any_eq_left n (i + 1) x q)

-- No round is in the region.
pub any-none :
    (n i step : ℕ) (p : ℕ → Bool) → ((k : ℕ) → p (i + k * step) ≡ false) → any n i step p ≡ false
unfolding any
any-none zero i step p h = refl
any-none (suc n) i step p h =
    let e : i + 0 * step ≡ i = omega arith in
    let first : p i ≡ false = rw e at (h 0) in
    rw first (
      any-none n (i + step) step p
        (λ k. let f : i + step + k * step ≡ i + suc k * step = omega arith in rw f (h (suc k))))

pub any-eq : (n i x : ℕ) (q : Bool) → any n i 1 (λ y. q && (x == y)) ≡ (q && within i n x)
unfolding any
any-eq zero i x q = ground arith
any-eq (suc n) i x q = ground (arith, any-eq n (i + 1) x q)

pub any-two : (i step : ℕ) (p : ℕ → Bool) → any 2 i step p ≡ (p i || p (i + step))
unfolding any
any-two i step p = ground arith
