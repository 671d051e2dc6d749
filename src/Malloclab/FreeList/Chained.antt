-- ===== src/Malloclab/FreeList/Chained.antt =====
-- The free list as a list of blocks.
use git_sty.Base.{ℕ, ◌%◌, ◌<◌, ◌≡◌, ◌≢◌, ◌∙◌, ap, sym, refl, List, [], ◌∷◌, ◌++◌, arith}
use git_sty.Malloclab.FirstFit.{Words, put}
use git_sty.Malloclab.FreeList.{FreeList, next_ptr, prev_ptr, null, add_first}

-- Each block points to the next, and that one back.
unfoldable pub Chained : Words → List ℕ → Type 0
Chained w [] = Unit
Chained w (p ∷ []) = Unit
Chained w (p ∷ q ∷ r) = (w (next_ptr p) ≡ q) × ((w (prev_ptr q) ≡ p) × Chained w (q ∷ r))

-- A block's pointer, not NULL.
abbrev pub IsPointer : ℕ → Type 0
IsPointer p = (p % 8 ≡ 0) × (0 < p)

unfoldable pub Pointers : List ℕ → Type 0
Pointers [] = Unit
Pointers (p ∷ ps) = IsPointer p × Pointers ps

unfoldable pub NotAmong : ℕ → List ℕ → Type 0
NotAmong b [] = Unit
NotAmong b (p ∷ ps) = (b ≢ p) × NotAmong b ps

unfoldable pub Distinct : List ℕ → Type 0
Distinct [] = Unit
Distinct (p ∷ ps) = NotAmong p ps × Distinct ps

abbrev pub head_or : List ℕ → ℕ
head_or [] = null
head_or (p ∷ ps) = p

unfoldable pub last_or : List ℕ → ℕ
last_or [] = null
last_or (p ∷ []) = p
last_or (p ∷ q ∷ r) = last_or (q ∷ r)

-- The list holds the blocks `bs`.
pub record Holds (l : FreeList) (bs : List ℕ) : Type 0 where
  pub root : l.root ≡ head_or bs
  pub last : l.last ≡ last_or bs
  pub chained : Chained l.words bs
  pub pointers : Pointers bs
  pub distinct : Distinct bs

-- `x` is no address of a pointer in the blocks.
unfoldable pub Away : ℕ → List ℕ → Type 0
Away x [] = Unit
Away x (q ∷ r) = (x ≢ next_ptr q) × ((x ≢ prev_ptr q) × Away x r)

pub Away-at :
    (a : ℕ) (xs : List ℕ) (x : ℕ) (ys : List ℕ)
    → Away a (xs ++ (x ∷ ys))
    → (a ≢ next_ptr x) × (a ≢ prev_ptr x)
unfolding Away
Away-at a [] x ys (d, (e, w)) = (d, e)
Away-at a (z ∷ xs) x ys (d, (e, w)) = Away-at a xs x ys w

pub Away-next :
    (b : ℕ) (ps : List ℕ) → IsPointer b → Pointers ps → NotAmong b ps → Away (next_ptr b) ps
unfolding Away Pointers NotAmong
Away-next b [] i p n = tt
Away-next b (q ∷ r) i (j, p) (d, n) =
    (λ e. d (omega (arith, i, j, e)), (λ e. omega (arith, i, j, e), Away-next b r i p n))

pub Away-prev :
    (b : ℕ) (ps : List ℕ) → IsPointer b → Pointers ps → NotAmong b ps → Away (prev_ptr b) ps
unfolding Away Pointers NotAmong
Away-prev b [] i p n = tt
Away-prev b (q ∷ r) i (j, p) (d, n) =
    (λ e. omega (arith, i, j, e), (λ e. d (omega (arith, i, j, e)), Away-prev b r i p n))

pub put_elsewhere : (x v a : ℕ) (w : Words) → x ≢ a → put x v w a ≡ w a
unfolding put
put_elsewhere x v a w n = ground (arith, n)

pub put_here : (x v : ℕ) (w : Words) → put x v w x ≡ v
unfolding put
put_here x v w = ground arith

-- A store that is no pointer of the later blocks, and not the first one's next.
pub put-Chained :
    (x v p : ℕ) (ps : List ℕ) (w : Words)
    → x ≢ next_ptr p
    → Away x ps
    → Chained w (p ∷ ps)
    → Chained (put x v w) (p ∷ ps)
unfolding Chained Away
put-Chained x v p [] w n a c = tt
put-Chained x v p (q ∷ r) w n (d, (e, a)) (f, (g, c)) = (
  put_elsewhere x v (next_ptr p) w n ∙ f,
  (put_elsewhere x v (prev_ptr q) w e ∙ g, put-Chained x v q r w d a c),
)

module _ (b p : ℕ) (ps : List ℕ) (l : FreeList) (h : Holds l (p ∷ ps)) (i : IsPointer b)
    (n : NotAmong b (p ∷ ps)) where
  after_first : Words
  after_first = put (prev_ptr p) b (put (next_ptr b) p l.words)

  first-Chained : Chained after_first (b ∷ p ∷ ps)
  unfolding after_first Chained Pointers Distinct NotAmong Away
  first-Chained =
      let w₁ = put (next_ptr b) p l.words in
      let a = Away-next b (p ∷ ps) i h.pointers n in
      let d = Away-prev p ps h.pointers.0 h.pointers.1 h.distinct.0 in
      (
        put_elsewhere (prev_ptr p) b (next_ptr b) w₁ (λ e. omega (arith, i, h.pointers.0, e))
            ∙ put_here (next_ptr b) p l.words,
        (
          put_here (prev_ptr p) b w₁,
          put-Chained (prev_ptr p) b p ps w₁ (λ e. omega (arith, h.pointers.0, e)) d
              (put-Chained (next_ptr b) p p ps l.words a.0 a.1.1 h.chained),
        ),
      )

  pub add_first-Holds : Holds (add_first b l) (b ∷ p ∷ ps)
  unfolding add_first after_first Pointers Distinct last_or
  add_first-Holds = record {
    root = refl;
    last = h.last;
    chained = rw (h.root) first-Chained;
    pointers = (i, h.pointers);
    distinct = (n, h.distinct);
  }

  pub add_first-frame : (a : ℕ) → Away a (b ∷ p ∷ ps) → (add_first b l).words a ≡ l.words a
  unfolding add_first Away
  add_first-frame a (d, (e, (f, (g, w)))) =
      put_elsewhere (prev_ptr l.root) b a (put (next_ptr b) l.root l.words)
        (λ v. g (sym v ∙ ap prev_ptr h.root))
      ∙ put_elsewhere (next_ptr b) l.root a l.words (λ v. d (sym v))
