-- ===== src/Cachelab/Trans/Check.antt =====
-- The checks of a transpose: `is_transpose` and `validate`.
use git_sty.Base.{
  ℕ, zero, suc, ◌+◌, ◌≡◌, ◌↔◌, refl, ◌≤◌, ◌<◌, Bool, true, arith, sym, ◌∙◌, ==_iff, ℕ_discrete,
}
use git_sty.Cachelab.Trans.{
  Matrix, correct_trans, transpose_submit, same_row, same_rows, is_transpose, validate,
}
use git_sty.Cachelab.Trans.Correct.{Writes-trans, supported, transpose_submit_lem}

same_row_sound :
    (test : ℕ → Bool) (k j x : ℕ) → same_row test k j ≡ true → j ≤ x → x < j + k → test x ≡ true
unfolding same_row
same_row_sound test zero j x e h l = absurd (omega arith)
same_row_sound test (suc k) j x e h l = elim (ℕ_discrete j x) [
  | yes p ↦ ground arith
  | no n ↦ ground (arith, same_row_sound test k (j + 1) x)
]

same_row_complete :
    (test : ℕ → Bool) (k j : ℕ)
    → ((x : ℕ) → j ≤ x → x < j + k → test x ≡ true)
    → same_row test k j ≡ true
unfolding same_row
same_row_complete test zero j h = refl
same_row_complete test (suc k) j h =
    rw (h j (omega arith) (omega arith))
      (same_row_complete test k (j + 1) (λ x p q. h x (omega arith) (omega arith)))

same_rows_sound :
    (test : ℕ → ℕ → Bool) (m k i y x : ℕ)
    → same_rows test m k i ≡ true
    → i ≤ y
    → y < i + k
    → x < m
    → test y x ≡ true
unfolding same_rows
same_rows_sound test m zero i y x e h l w = absurd (omega arith)
same_rows_sound test m (suc k) i y x e h l w = elim (ℕ_discrete i y) [
  | yes p ↦ same_row_sound (test y) m 0 x (ground arith) (omega arith) (omega arith)
  | no n ↦ ground (arith, same_rows_sound test m k (i + 1) y x)
]

same_rows_complete :
    (test : ℕ → ℕ → Bool) (m k i : ℕ)
    → ((y x : ℕ) → i ≤ y → y < i + k → x < m → test y x ≡ true)
    → same_rows test m k i ≡ true
unfolding same_rows
same_rows_complete test m zero i h = refl
same_rows_complete test m (suc k) i h =
    rw (same_row_complete (test i) m 0 (λ x p q. h i x (omega arith) (omega arith) (omega arith)))
      (same_rows_complete test m k (i + 1) (λ y x p q. h y x (omega arith) (omega arith)))

-- `is_transpose` accepts `B` exactly if its first `m` rows and `n` columns are the transpose of `A`.
pub is_transpose_iff :
    (m n : ℕ) (a b : Matrix)
    → (is_transpose m n a b ≡ true) ↔ ((i j : ℕ) → i < n → j < m → a i j ≡ b j i)
unfolding is_transpose
is_transpose_iff m n a b = (
  λ e i j p q.
      (==_iff (a i j) (b j i)).0 (same_rows_sound _ m n 0 i j e (omega arith) (omega arith) q),
  λ h. same_rows_complete _ m n 0 (λ i j p q w. (==_iff (a i j) (b j i)).1 (h i j (omega arith) w)),
)

correct_trans_lem :
    (m n : ℕ) (a b : Matrix) (r c : ℕ) → r < m → c < n → correct_trans m n a b r c ≡ a c r
unfolding correct_trans
correct_trans_lem m n a b r c p q = Writes-trans a m n b r c ∙ ground arith

-- `validate` does too, though it looks at the array that `correctTrans` fills.
pub validate_iff :
    (m n : ℕ) (a b : Matrix)
    → (validate m n a b ≡ true) ↔ ((i j : ℕ) → i < n → j < m → b j i ≡ a i j)
unfolding validate
validate_iff m n a b = (
  λ e i j p q.
      (==_iff (b j i) _).0 (same_rows_sound _ n m 0 j i e (omega arith) (omega arith) p)
      ∙ correct_trans_lem m n a _ j i q p,
  λ h. same_rows_complete _ n m 0 (λ j i p q w.
      (==_iff (b j i) _).1
        (h i j w (omega arith) ∙ sym (correct_trans_lem m n a _ j i (omega arith) w))),
)

-- The driver's check accepts what the submitted transpose makes of any `A` and `B` of the sizes that
-- it supports.
pub validate-transpose_submit :
    (m n : ℕ) (a b : Matrix)
    → supported m n ≡ true
    → validate m n a (transpose_submit m n a b) ≡ true
validate-transpose_submit m n a b s =
    (validate_iff m n a (transpose_submit m n a b)).1
      (λ i j p q. transpose_submit_lem m n a b j i ∙ (rw s (ground arith)))
