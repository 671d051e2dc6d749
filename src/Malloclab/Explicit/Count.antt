-- ===== src/Malloclab/Explicit/Count.antt =====
-- A free list without repetition has no more blocks than the heap has bytes, so a search along it
-- that may take one step for each byte ends.
use git_sty.Base.{
  ℕ, zero, suc, ◌≤◌, ◌<◌, ◌≡◌, refl, List, [], ◌∷◌, length, ◌==◌, if◌then◌else◌, Bool-cases, inl,
  inr, arith,
}
use git_sty.Malloclab.FreeList.{FreeList}
use git_sty.Malloclab.FreeList.Chained.{NotAmong, Distinct}
use git_sty.Malloclab.Explicit.Blocks.{Map, Blocks}
use git_sty.Malloclab.Explicit.Listed.{AllFree, Listed}

unfoldable Below : ℕ → List ℕ → Type 0
Below n [] = Unit
Below n (x ∷ xs) = (x < n) × Below n xs

unfoldable without : ℕ → List ℕ → List ℕ
without n [] = []
without n (x ∷ xs) = let rest = without n xs in if x == n then rest else x ∷ rest

without-NotAmong : (n p : ℕ) (xs : List ℕ) → NotAmong p xs → NotAmong p (without n xs)
unfolding without NotAmong
without-NotAmong n p [] d = tt
without-NotAmong n p (x ∷ xs) (d, e) = elim (Bool-cases (x == n)) [
  | inl h ↦ rw h (without-NotAmong n p xs e)
  | inr h ↦ rw h (d, without-NotAmong n p xs e)
]

without-Distinct : (n : ℕ) (xs : List ℕ) → Distinct xs → Distinct (without n xs)
unfolding without Distinct
without-Distinct n [] d = tt
without-Distinct n (x ∷ xs) (d, e) = elim (Bool-cases (x == n)) [
  | inl h ↦ rw h (without-Distinct n xs e)
  | inr h ↦ rw h (without-NotAmong n x xs d, without-Distinct n xs e)
]

without-Below : (n : ℕ) (xs : List ℕ) → Below (suc n) xs → Below n (without n xs)
unfolding without Below
without-Below n [] b = tt
without-Below n (x ∷ xs) (l, b) = elim (Bool-cases (x == n)) [
  | inl h ↦ rw h (without-Below n xs b)
  | inr h ↦ rw h (ground (arith, l), without-Below n xs b)
]

length-without_absent : (n : ℕ) (xs : List ℕ) → NotAmong n xs → length (without n xs) ≡ length xs
unfolding without NotAmong
length-without_absent n [] d = refl
length-without_absent n (x ∷ xs) (d, e) = ground (arith, d, length-without_absent n xs e)

length-without : (n : ℕ) (xs : List ℕ) → Distinct xs → length xs ≤ suc (length (without n xs))
unfolding without Distinct
length-without n [] d = omega arith
length-without n (x ∷ xs) (d, e) = elim (Bool-cases (x == n)) [
  | inl h ↦
      let v : x ≡ n = ground arith in rw h (omega (arith, length-without_absent n xs (rw (← v) d)))
  | inr h ↦ rw h (omega (arith, length-without n xs e))
]

length-Below : (n : ℕ) (xs : List ℕ) → Distinct xs → Below n xs → length xs ≤ n
unfolding Below
length-Below n [] d b = omega arith
length-Below zero (x ∷ xs) d (l, b) = absurd (omega (arith, l))
length-Below (suc n) (x ∷ xs) d b = omega (
  arith,
  length-without n (x ∷ xs) d,
  length-Below n (without n (x ∷ xs)) (without-Distinct n (x ∷ xs) d) (without-Below n (x ∷ xs) b),
)

AllFree-Below :
    (l : FreeList) (lo hi : ℕ) (m : Map) (fs : List ℕ)
    → Blocks l.words lo hi m
    → AllFree m fs
    → Below hi fs
unfolding AllFree Below
AllFree-Below l lo hi m [] k f = tt
AllFree-Below l lo hi m (p ∷ fs) k ((s, e), f) =
    let t = k.tagged p (record { size = s; alloc = 0 }) e in
    (omega (arith, t.high, t.least), AllFree-Below l lo hi m fs k f)

pub length-free :
    (l : FreeList) (lo hi : ℕ) (m : Map) (fs : List ℕ) → Listed l lo hi m fs → length fs ≤ hi
length-free l lo hi m fs k =
    length-Below hi fs k.holds.distinct (AllFree-Below l lo hi m fs k.blocks k.free)
