-- ===== src/Cachelab/Trans/Correct.antt =====
-- What each transpose does to `B`.
use git_sty.Base.{
  ◌∙◌, ℕ, ◌+◌, ◌*◌, ◌%◌, ◌≡◌, refl, ◌≤◌, ◌<◌, Bool, false, ◌&&◌, ◌||◌, ◌==◌, if◌then◌else◌, ltb,
  arith, Bool-cases, inl, inr,
}
use git_sty.Cachelab.Trans.{
  Matrix, for_loop, rounds, copy, trans, move_4, move_8, submit_32, submit_64, transpose_submit,
  transpose_64m, transpose_blocking,
}
use git_sty.Cachelab.Trans.Region.{
  Region, Writes, within, any, Writes-copy, Writes-for, Writes-then, Writes-of, Writes-move_4,
  Writes-move_8, any-within, any-within_right, any_eq_left, any-eq, any-none, any-two,
}

-- The first `m` rows and `n` columns.
abbrev pub rect : ℕ → ℕ → Region
rect m n r c = ltb r m && ltb c n

module _ (a : Matrix) where
  Writes-row :
      (m i : ℕ)
      → Writes a (λ r c. within 0 m r && (c == i)) (for_loop (rounds m 1) 0 1 λ j. copy a i j)
  Writes-row m i =
      Writes-of a _ _ _ (Writes-for a (rounds m 1) 0 1 _ _ (λ j. Writes-copy a i j))
        (λ r c. any_eq_left (rounds m 1) 0 r (c == i) ∙ ground arith)

  -- `trans` transposes arrays of every size.
  pub Writes-trans : (m n : ℕ) → Writes a (rect m n) (trans m n a)
  unfolding trans
  Writes-trans m n =
      Writes-of a _ _ _ (Writes-for a (rounds n 1) 0 1 _ _ (λ i. Writes-row m i))
        (λ r c. any-eq (rounds n 1) 0 c (within 0 m r) ∙ ground arith)

  Writes-row_8 :
      (i j : ℕ) → Writes a (λ r c. within j 8 r && (c == i)) (for_loop 1 j 8 λ jj. move_8 a i jj)
  Writes-row_8 i j =
      Writes-of a _ _ _ (Writes-for a 1 j 8 _ _ (λ jj. Writes-move_8 a i jj))
        (λ r c. any-within 1 j 8 r (c == i))

  Writes-block_8 :
      (i j : ℕ)
      → Writes a
          (λ r c. within j 8 r && within i 8 c)
          (for_loop 8 i 1 λ ii. for_loop 1 j 8 λ jj. move_8 a ii jj)
  Writes-block_8 i j =
      Writes-of a _ _ _ (Writes-for a 8 i 1 _ _ (λ ii. Writes-row_8 ii j))
        (λ r c. any-eq 8 i c (within j 8 r))

  Writes-submit_32 : Writes a (rect 32 32) (submit_32 32 32 a)
  unfolding submit_32
  Writes-submit_32 =
      Writes-of a _ _ _
        (Writes-for a 4 0 8 _ _ λ j.
          Writes-of a _ (λ r c. within j 8 r && within 0 32 c) _
            (Writes-for a 4 0 8 _ _ (λ i. Writes-block_8 i j))
            (λ r c. any-within_right 4 0 8 c (within j 8 r)))
        (λ r c. any-within 4 0 8 r (within 0 32 c) ∙ ground arith)

  Writes-block_4 :
      (i j : ℕ)
      → Writes a (λ r c. within j 4 r && within i 4 c) (for_loop 4 i 1 λ ii. move_4 a ii j)
  Writes-block_4 i j =
      Writes-of a _ _ _ (Writes-for a 4 i 1 _ _ (λ ii. Writes-move_4 a ii j))
        (λ r c. any-eq 4 i c (within j 4 r))

  Writes-submit_64 : Writes a (rect 64 64) (submit_64 64 64 a)
  unfolding submit_64
  Writes-submit_64 =
      Writes-of a _ _ _
        (Writes-for a 16 0 4 _ _ λ j.
          Writes-of a _ (λ r c. within j 4 r && within 0 64 c) _
            (Writes-for a 16 0 4 _ _ λ i.
              Writes-of a _ (λ r c. within j 4 r && within i 4 c) _
                (Writes-for a 1 j 4 _ _ (λ jj. Writes-block_4 i jj))
                (λ r c. any-within 1 j 4 r (within i 4 c)))
            (λ r c. any-within_right 16 0 4 c (within j 4 r)))
        (λ r c. any-within 16 0 4 r (within 0 64 c) ∙ ground arith)

-- The sizes that `transpose_submit` has a case for.
abbrev pub supported : ℕ → ℕ → Bool
supported m n = ((m == 32) && (n == 32)) || ((m == 64) && (n == 64)) || ((m == 61) && (n == 67))

-- For the sizes 32x32, 64x64 and 61x67 the submitted transpose makes the first `m` rows and `n`
-- columns of `B` the transpose of `A` and writes no other cell; for every other size it writes none.
pub transpose_submit_lem :
    (m n : ℕ) (a b : Matrix) (r c : ℕ)
    → transpose_submit m n a b r c ≡ (if supported m n && rect m n r c then a c r else b r c)
unfolding transpose_submit
transpose_submit_lem m n a b r c = elim (Bool-cases ((m == 32) && (n == 32))) [
  | inl e ↦
      let em : m ≡ 32 = ground arith in
      let en : n ≡ 32 = ground arith in rw (em, en) (Writes-submit_32 a b r c)
  | inr o ↦ elim (Bool-cases ((m == 64) && (n == 64))) [
    | inl e ↦
        let em : m ≡ 64 = ground arith in
        let en : n ≡ 64 = ground arith in rw (em, en) (Writes-submit_64 a b r c)
    | inr p ↦ ground (arith, Writes-trans a m n b r c)
  ]
]

module _ (a : Matrix) where
  Writes-blocking_row :
      (i j : ℕ) → Writes a (λ r c. within j 4 r && (c == i)) (for_loop 4 j 1 λ jj. copy a i jj)
  Writes-blocking_row i j =
      Writes-of a _ _ _ (Writes-for a 4 j 1 _ _ (λ jj. Writes-copy a i jj))
        (λ r c. any_eq_left 4 j r (c == i))

  Writes-blocking_block :
      (i j : ℕ)
      → Writes a
          (λ r c. within j 4 r && within i 4 c)
          (for_loop 4 i 1 λ ii. for_loop 4 j 1 λ jj. copy a ii jj)
  Writes-blocking_block i j =
      Writes-of a _ _ _ (Writes-for a 4 i 1 _ _ (λ ii. Writes-blocking_row ii j))
        (λ r c. any-eq 4 i c (within j 4 r))

-- `transpose_blocking` works in whole blocks: it transposes the rows and columns up to the next
-- multiples of 4, so exactly the `m` rows and `n` columns where 4 divides both sizes.
pub transpose_blocking_lem :
    (m n : ℕ) (a b : Matrix) (r c : ℕ)
    → transpose_blocking m n a b r c
      ≡ (if rect (rounds m 4 * 4) (rounds n 4 * 4) r c then a c r else b r c)
unfolding transpose_blocking
transpose_blocking_lem m n a =
    Writes-of a _ (rect (rounds m 4 * 4) (rounds n 4 * 4)) _
      (Writes-for a (rounds n 4) 0 4 _ _ λ i.
        Writes-of a _ (λ r c. within 0 (rounds m 4 * 4) r && within i 4 c) _
          (Writes-for a (rounds m 4) 0 4 _ _ (λ j. Writes-blocking_block a i j))
          (λ r c. any-within (rounds m 4) 0 4 r (within i 4 c)))
      (λ r c. any-within_right (rounds n 4) 0 4 c (within 0 (rounds m 4 * 4) r) ∙ ground arith)

-- The cells that one round of the 64x64 blocking writes.
abbrev block_64 : ℕ → ℕ → ℕ → ℕ → Bool
block_64 j i r c =
    any 2 j 4 λ jj. (within (jj + 4) 4 r && within (i + 4) 4 c) || (within jj 4 r && within i 4 c)

Writes-64m :
    (m n : ℕ) (a : Matrix)
    → Writes a
        (λ r c. any (rounds n 8) 0 8 λ j. any (rounds m 8) 0 8 λ i. block_64 j i r c)
        (transpose_64m m n a)
unfolding transpose_64m
Writes-64m m n a = Writes-for a (rounds n 8) 0 8 _ _ λ j. Writes-for a (rounds m 8) 0 8 _ _ λ i.
    Writes-for a 2 j 4 _ _
      λ jj. Writes-then a _ _ _ _ (Writes-block_4 a i jj) (Writes-block_4 a (i + 4) (jj + 4))

block_64_gap :
    (j i : ℕ) (r c : ℕ) → r < 4 → 4 ≤ c % 8 → block_64 (0 + j * 8) (0 + i * 8) r c ≡ false
block_64_gap j i r c h k = any-two (0 + j * 8) 4 _ ∙ ground arith

-- `transpose_64m` never writes the first four rows of `B` in the columns whose remainder by 8 is 4 or
-- more: whatever the sizes, these cells are not transposed.
pub transpose_64m_gap :
    (m n : ℕ) (a b : Matrix) (r c : ℕ) → r < 4 → 4 ≤ c % 8 → transpose_64m m n a b r c ≡ b r c
transpose_64m_gap m n a b r c h k =
    Writes-64m m n a b r c
    ∙ (rw
        (any-none (rounds n 8) 0 8 _
          (λ j. any-none (rounds m 8) 0 8 _ (λ i. block_64_gap j i r c h k)))
        refl)
