-- ===== src/Malloclab/FirstFit/Joined.antt =====
-- No two free blocks lie side by side, whatever is allocated or freed.
use git_sty.Base.{
  ℕ, ◌≡◌, refl, Bool, true, false, not, ◌&&◌, leb, ◌==◌, Option, none, some, List, [], ◌∷◌, ◌++◌,
  arith, Bool-cases, inl, inr,
}
use git_sty.Malloclab.FirstFit.Chain.{Block, split, allocate, consed}
use git_sty.Malloclab.FirstFit.Coalesce.{merge}
use git_sty.Malloclab.FirstFit.Allocate.{grow_last, malloc_blocks, extension, or_grow}

abbrev head_free : List Block → Bool
head_free [] = false
head_free (b ∷ bs) = b.alloc == 0

unfoldable pub joined : List Block → Bool
joined [] = true
joined (b ∷ bs) = let rest = joined bs in not ((b.alloc == 0) && head_free bs) && rest

head_free-split :
    (asize : ℕ) (b : Block) (bs : List Block) → head_free (split asize b ++ bs) ≡ false
unfolding split
head_free-split asize b bs = ground arith

joined-split :
    (asize : ℕ) (b : Block) (bs : List Block)
    → (b.alloc == 0) ≡ true
    → joined (b ∷ bs) ≡ true
    → joined (split asize b ++ bs) ≡ true
unfolding joined split
joined-split asize b bs e j = ground arith

-- Taking a block never makes the first one free.
unfoldable head_taken : Option (List Block) → Bool
head_taken none = false
head_taken (some rs) = head_free rs

unfoldable all_joined : Option (List Block) → Bool
all_joined none = true
all_joined (some rs) = joined rs

joined-consed :
    (b : Block) (bs rs : List Block)
    → joined (b ∷ bs) ≡ true
    → joined rs ≡ true
    → (head_free rs ≡ true → head_free bs ≡ true)
    → joined (b ∷ rs) ≡ true
unfolding joined
joined-consed b bs rs j r f = elim (Bool-cases (head_free rs)) [
  | inl d ↦ ground (arith, f d)
  | inr d ↦ ground arith
]

joined-rest : (b : Block) (bs : List Block) → joined (b ∷ bs) ≡ true → joined bs ≡ true
unfolding joined
joined-rest b bs j = ground arith

head_taken-consed :
    (b : Block) (r : Option (List Block)) → head_taken (consed b r) ≡ true → (b.alloc == 0) ≡ true
unfolding head_taken
head_taken-consed b none e = absurd (ground arith)
head_taken-consed b (some rs) e = e

head_taken-allocate :
    (asize : ℕ) (bs : List Block) → head_taken (allocate asize bs) ≡ true → head_free bs ≡ true
unfolding allocate head_taken
head_taken-allocate asize [] f = absurd (ground arith)
head_taken-allocate asize (b ∷ bs) f = elim (Bool-cases ((b.alloc == 0) && leb asize b.size)) [
  | inl g ↦ ground arith
  | inr g ↦ head_taken-consed b (allocate asize bs) (ground arith)
]

all_joined-consed :
    (b : Block) (bs : List Block) (r : Option (List Block))
    → joined (b ∷ bs) ≡ true
    → all_joined r ≡ true
    → (head_taken r ≡ true → head_free bs ≡ true)
    → all_joined (consed b r) ≡ true
unfolding all_joined head_taken
all_joined-consed b bs none j e f = refl
all_joined-consed b bs (some rs) j e f = joined-consed b bs rs j e f

all_joined-allocate :
    (asize : ℕ) (bs : List Block) → joined bs ≡ true → all_joined (allocate asize bs) ≡ true
unfolding allocate all_joined
all_joined-allocate asize [] j = refl
all_joined-allocate asize (b ∷ bs) j = elim (Bool-cases ((b.alloc == 0) && leb asize b.size)) [
  | inl g ↦ rw g (joined-split asize b bs (ground arith) j)
  | inr g ↦ rw g (
      all_joined-consed b bs (allocate asize bs) j
        (all_joined-allocate asize bs (joined-rest b bs j)) (head_taken-allocate asize bs))
]

-- Growing at the end.
head_free-grow_last :
    (asize ext : ℕ) (bs : List Block)
    → head_free (grow_last asize ext bs) ≡ true
    → head_free bs ≡ true
unfolding grow_last split
head_free-grow_last asize ext [] e = e
head_free-grow_last asize ext (p ∷ []) e = ground arith
head_free-grow_last asize ext (p ∷ q ∷ r) e = e

joined-grow_last :
    (asize ext : ℕ) (bs : List Block) → joined bs ≡ true → joined (grow_last asize ext bs) ≡ true
unfolding grow_last joined split
joined-grow_last asize ext [] j = j
joined-grow_last asize ext (p ∷ []) j = ground arith
joined-grow_last asize ext (p ∷ q ∷ r) j =
    joined-consed p (q ∷ r) (grow_last asize ext (q ∷ r)) j
      (joined-grow_last asize ext (q ∷ r) (joined-rest p (q ∷ r) j))
      (head_free-grow_last asize ext (q ∷ r))

or_grow-joined :
    (asize : ℕ) (bs : List Block) (r : Option (List Block))
    → joined bs ≡ true
    → all_joined r ≡ true
    → joined (or_grow asize bs r) ≡ true
unfolding all_joined
or_grow-joined asize bs none j e = joined-grow_last asize (extension asize) bs j
or_grow-joined asize bs (some rs) j e = e

pub joined-malloc_blocks :
    (asize : ℕ) (bs : List Block) → joined bs ≡ true → joined (malloc_blocks asize bs) ≡ true
unfolding malloc_blocks
joined-malloc_blocks asize bs j =
    or_grow-joined asize bs (allocate asize bs) j (all_joined-allocate asize bs j)

-- Freeing.
head_free-merge :
    (xs : List Block) (p : Block) (s : ℕ) (ys : List Block)
    → head_free (xs ++ merge p s ys) ≡ head_free (xs ++ (p ∷ ys))
unfolding merge
head_free-merge [] p s [] = ground arith
head_free-merge [] p s (y ∷ ys) = ground arith
head_free-merge (x ∷ xs) p s ys = refl

head_free-append :
    (xs : List Block) (p : Block) (ys zs : List Block)
    → head_free (xs ++ (p ∷ ys)) ≡ head_free (xs ++ (p ∷ zs))
head_free-append [] p ys zs = refl
head_free-append (x ∷ xs) p ys zs = refl

joined-merge_here :
    (p b : Block) (ys : List Block)
    → (b.alloc == 0) ≡ false
    → joined (p ∷ b ∷ ys) ≡ true
    → joined (merge p b.size ys) ≡ true
unfolding joined merge
joined-merge_here p b [] t j = ground arith
joined-merge_here p b (y ∷ []) t j = ground arith
joined-merge_here p b (y ∷ z ∷ ys) t j = ground arith

pub joined-merge :
    (xs : List Block) (p b : Block) (ys : List Block)
    → (b.alloc == 0) ≡ false
    → joined (xs ++ (p ∷ b ∷ ys)) ≡ true
    → joined (xs ++ merge p b.size ys) ≡ true
unfolding joined
joined-merge [] p b ys t j = joined-merge_here p b ys t j
joined-merge (x ∷ xs) p b ys t j = ground (
  arith,
  joined-merge xs p b ys t,
  head_free-merge xs p b.size ys,
  head_free-append xs p ys (b ∷ ys),
)
