-- ===== src/Malloclab/FreeList/Search.antt =====
-- `find_fit` on the free list.
use git_sty.Base.{
  ℕ, zero, suc, ◌≤◌, ◌<◌, ◌≡◌, ap, refl, List, [], ◌∷◌, ◌++◌, false, ◌==◌, leb, length, Bool-cases,
  inl, inr, arith,
}
use git_sty.Malloclab.FirstFit.{Words}
use git_sty.Malloclab.FreeList.{FreeList, next_ptr, null, size_of, Sought, reached, lost, find_fit}
use git_sty.Malloclab.FreeList.Chained.{Chained, Pointers, last_or, Holds}

-- What the search for `size` bytes finds behind the block `x`.
pub record Spot (w : Words) (size : ℕ) (bs : List ℕ) (q : ℕ) : Type 0 where
  pub before : List ℕ
  pub previous : ℕ
  pub after : List ℕ
  pub parts : bs ≡ before ++ (previous ∷ q ∷ after)
  pub less : size_of w previous < size
  pub large : size ≤ size_of w q

unfoldable pub Spots : Words → ℕ → List ℕ → Sought → Type 0
Spots w size bs (reached q) = Spot w size bs q
Spots w size bs lost = ⊥

later :
    (w : Words) (size x : ℕ) (bs : List ℕ) (r : Sought)
    → Spots w size bs r
    → Spots w size (x ∷ bs) r
unfolding Spots
later w size x bs (reached q) s = record {
  before = x ∷ s.before;
  previous = s.previous;
  after = s.after;
  parts = ap (λ t. x ∷ t) s.parts;
  less = s.less;
  large = s.large;
}
later w size x bs lost s = s

-- From a block that is too small, in a list whose last one is not, the search ends behind it.
find_fit-Spots :
    (fuel size x : ℕ) (ps : List ℕ) (w : Words)
    → Chained w (x ∷ ps)
    → Pointers (x ∷ ps)
    → length ps < fuel
    → size_of w x < size
    → size < size_of w (last_or (x ∷ ps))
    → Spots w size (x ∷ ps) (find_fit fuel size (w (next_ptr x)) w)
unfolding Chained Pointers last_or find_fit Spots
find_fit-Spots fuel size x [] w c p l s m = absurd (omega (arith, s, m))
find_fit-Spots zero size x (y ∷ r) w c p l s m = absurd (omega (arith, l))
find_fit-Spots (suc k) size x (y ∷ r) w (e, (f, c)) (i, (j, p)) l s m =
    let n : (y == null) ≡ false = ground (arith, j) in
    elim (Bool-cases (leb size (size_of w y))) [
      | inl g ↦
          rw (e, n, g)
            (record {
              before = [];
              previous = x;
              after = r;
              parts = refl;
              less = s;
              large = ground arith;
            })
      | inr g ↦
          rw (e, n, g)
            (later w size x (y ∷ r) (find_fit k size (w (next_ptr y)) w)
              (find_fit-Spots k size y r w c (j, p) (omega (arith, l)) (ground arith) m))
    ]

pub searched_size :
    (size k p : ℕ) (ps : List ℕ) (l : FreeList)
    → Holds l (p ∷ ps)
    → length ps < k
    → size_of l.words p < size
    → size < size_of l.words (last_or (p ∷ ps))
    → Spots l.words size (p ∷ ps) (find_fit (suc k) size l.root l.words)
unfolding find_fit Pointers
searched_size size k p ps l h f s m =
    let r : (p == null) ≡ false = ground (arith, h.pointers.0) in
    let g : leb size (size_of l.words p) ≡ false = ground (arith, s) in
    rw (h.root, r, g) (find_fit-Spots k size p ps l.words h.chained h.pointers f s m)

pub searched :
    (b k p : ℕ) (ps : List ℕ) (l : FreeList)
    → Holds l (p ∷ ps)
    → length ps < k
    → size_of l.words p < size_of l.words b
    → size_of l.words b < size_of l.words (last_or (p ∷ ps))
    → Spots l.words
        (size_of l.words b)
        (p ∷ ps)
        (find_fit (suc k) (size_of l.words b) l.root l.words)
searched b k p ps l h f s m = searched_size (size_of l.words b) k p ps l h f s m
