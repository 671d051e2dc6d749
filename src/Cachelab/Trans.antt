-- ===== src/Cachelab/Trans.antt =====
-- cachelab/trans.c, with `correctTrans` of cachelab.c and `validate` of tracegen.c. An array is a
-- function of its row and column, and its elements are only moved and compared. `A` and `B` are
-- different arrays, so the reads into `tmp0` to `tmp7` are reads of `A` before any write.
pub mod Region
pub mod Correct
pub mod Check
mod Tests
use git_sty.Base.{ℕ, zero, suc, ◌+◌, ◌-◌, ◌/◌, Bool, true, false, ◌&&◌, ◌==◌, if◌then◌else◌}

abbrev pub Matrix : Type 0
Matrix = ℕ → ℕ → ℕ

-- `B[r][c] = v`.
unfoldable pub put : ℕ → ℕ → ℕ → Matrix → Matrix
put r c v b i j = if (i == r) && (j == c) then v else b i j

-- `n` rounds of a `for` loop whose variable starts at `i` and grows by `step`.
unfoldable pub for_loop {ℓ} : {S : Type ℓ} → ℕ → ℕ → ℕ → (ℕ → S → S) → S → S
for_loop zero i step body s = s
for_loop (suc n) i step body s = for_loop n (i + step) step body (body i s)

-- The rounds of `for (x = 0; x < limit; x += step)`.
abbrev pub rounds : ℕ → ℕ → ℕ
rounds limit step = (limit + (step - 1)) / step

-- `B[j][i] = A[i][j]`.
abbrev pub copy : Matrix → ℕ → ℕ → Matrix → Matrix
copy a i j = put j i (a i j)

unfoldable pub trans : ℕ → ℕ → Matrix → Matrix → Matrix
trans m n a = for_loop (rounds n 1) 0 1 λ i. for_loop (rounds m 1) 0 1 λ j. copy a i j

-- Eight and four elements of a row of `A` into a column of `B`.
unfoldable pub move_4 : Matrix → ℕ → ℕ → Matrix → Matrix
move_4 a i j b = copy a i (j + 3) (copy a i (j + 2) (copy a i (j + 1) (copy a i j b)))

unfoldable pub move_8 : Matrix → ℕ → ℕ → Matrix → Matrix
move_8 a i j b = move_4 a i (j + 4) (move_4 a i j b)

-- `for (jj = j; jj < j + 8; jj += 8)` runs once, and so does its like in the 64x64 case.
unfoldable pub submit_32 : ℕ → ℕ → Matrix → Matrix → Matrix
submit_32 m n a =
    for_loop (rounds n 8) 0 8
      λ j. for_loop (rounds m 8) 0 8 λ i. for_loop 8 i 1 λ ii. for_loop 1 j 8 λ jj. move_8 a ii jj

unfoldable pub submit_64 : ℕ → ℕ → Matrix → Matrix → Matrix
submit_64 m n a =
    for_loop (rounds n 4) 0 4
      λ j. for_loop (rounds m 4) 0 4 λ i. for_loop 1 j 4 λ jj. for_loop 4 i 1 λ ii. move_4 a ii jj

-- The three tests exclude one another.
pub transpose_submit : ℕ → ℕ → Matrix → Matrix → Matrix
transpose_submit m n a b =
    if (m == 32) && (n == 32)
    then submit_32 m n a b
    else if (m == 64) && (n == 64)
    then submit_64 m n a b
    else if (m == 61) && (n == 67)
    then trans m n a b
    else b

pub transpose_64m : ℕ → ℕ → Matrix → Matrix → Matrix
transpose_64m m n a = for_loop (rounds n 8) 0 8 λ j. for_loop (rounds m 8) 0 8 λ i.
    for_loop 2 j 4 λ jj b.
      for_loop 4 (i + 4) 1 (λ ii. move_4 a ii (jj + 4)) (for_loop 4 i 1 (λ ii. move_4 a ii jj) b)

pub transpose_blocking : ℕ → ℕ → Matrix → Matrix → Matrix
transpose_blocking m n a =
    for_loop (rounds n 4) 0 4
      λ i. for_loop (rounds m 4) 0 4 λ j. for_loop 4 i 1 λ ii. for_loop 4 j 1 λ jj. copy a ii jj

-- `correctTrans` has the loops of `trans`.
pub correct_trans : ℕ → ℕ → Matrix → Matrix → Matrix
unfolding trans
correct_trans m n a = trans m n a

-- The nested loops that look for a difference; the inner one runs over row `i`.
pub same_row : (test : ℕ → Bool) → ℕ → ℕ → Bool
same_row test zero j = true
same_row test (suc k) j = if test j then same_row test k (j + 1) else false

pub same_rows : (test : ℕ → ℕ → Bool) → (m n i : ℕ) → Bool
same_rows test m zero i = true
same_rows test m (suc k) i = if same_row (test i) m 0 then same_rows test m k (i + 1) else false

pub is_transpose : ℕ → ℕ → Matrix → Matrix → Bool
is_transpose m n a b = same_rows (λ i j. a i j == b j i) m n 0

-- `C` is cleared and filled by `correctTrans`, then compared with `B`.
pub validate : ℕ → ℕ → Matrix → Matrix → Bool
validate m n a b = let c = correct_trans m n a (λ i j. 0) in same_rows (λ i j. b i j == c i j) n m 0
