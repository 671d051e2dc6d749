-- ===== src/Malloclab/FreeList/Split.antt =====
-- The free list cut in two.
use git_sty.Base.{ℕ, ◌≢◌, ◌∙◌, sym, List, [], ◌∷◌, ◌++◌}
use git_sty.Malloclab.FirstFit.{Words, put}
use git_sty.Malloclab.FreeList.{next_ptr, prev_ptr}
use git_sty.Malloclab.FreeList.Chained.{Chained, Pointers, NotAmong, Distinct, Away, put_elsewhere}

pub Chained_cut :
    (w : Words) (xs : List ℕ) (x : ℕ) (ys : List ℕ)
    → Chained w (xs ++ (x ∷ ys))
    → Chained w (xs ++ (x ∷ [])) × Chained w (x ∷ ys)
unfolding Chained
Chained_cut w [] x ys c = (tt, c)
Chained_cut w (y ∷ []) x ys (a, (b, c)) = ((a, (b, tt)), c)
Chained_cut w (y ∷ z ∷ xs) x ys (a, (b, c)) =
    let r = Chained_cut w (z ∷ xs) x ys c in ((a, (b, r.0)), r.1)

pub Chained_join :
    (w : Words) (xs : List ℕ) (x : ℕ) (ys : List ℕ)
    → Chained w (xs ++ (x ∷ []))
    → Chained w (x ∷ ys)
    → Chained w (xs ++ (x ∷ ys))
unfolding Chained
Chained_join w [] x ys b c = c
Chained_join w (y ∷ []) x ys (a, (b, d)) c = (a, (b, c))
Chained_join w (y ∷ z ∷ xs) x ys (a, (b, d)) c = (a, (b, Chained_join w (z ∷ xs) x ys d c))

-- A store that is no pointer of the earlier blocks, and not the last one's previous.
pub put_before :
    (a v : ℕ) (xs : List ℕ) (x : ℕ) (w : Words)
    → Away a xs
    → a ≢ prev_ptr x
    → Chained w (xs ++ (x ∷ []))
    → Chained (put a v w) (xs ++ (x ∷ []))
unfolding Chained Away
put_before a v [] x w d n c = tt
put_before a v (y ∷ []) x w (d, (e, u)) n (f, (g, c)) =
    (put_elsewhere a v (next_ptr y) w d ∙ f, (put_elsewhere a v (prev_ptr x) w n ∙ g, tt))
put_before a v (y ∷ z ∷ xs) x w (d, (e, (i, (j, u)))) n (f, (g, c)) = (
  put_elsewhere a v (next_ptr y) w d ∙ f,
  (put_elsewhere a v (prev_ptr z) w j ∙ g, put_before a v (z ∷ xs) x w (i, (j, u)) n c),
)

pub Pointers-cut : (xs ys : List ℕ) → Pointers (xs ++ ys) → Pointers xs × Pointers ys
unfolding Pointers
Pointers-cut [] ys p = (tt, p)
Pointers-cut (x ∷ xs) ys (i, p) = let r = Pointers-cut xs ys p in ((i, r.0), r.1)

pub Pointers-join : (xs ys : List ℕ) → Pointers xs → Pointers ys → Pointers (xs ++ ys)
unfolding Pointers
Pointers-join [] ys p q = q
Pointers-join (x ∷ xs) ys (i, p) q = (i, Pointers-join xs ys p q)

pub NotAmong-cut : (b : ℕ) (xs ys : List ℕ) → NotAmong b (xs ++ ys) → NotAmong b xs × NotAmong b ys
unfolding NotAmong
NotAmong-cut b [] ys n = (tt, n)
NotAmong-cut b (x ∷ xs) ys (d, n) = let r = NotAmong-cut b xs ys n in ((d, r.0), r.1)

pub NotAmong-join : (b : ℕ) (xs ys : List ℕ) → NotAmong b xs → NotAmong b ys → NotAmong b (xs ++ ys)
unfolding NotAmong
NotAmong-join b [] ys n m = m
NotAmong-join b (x ∷ xs) ys (d, n) m = (d, NotAmong-join b xs ys n m)

-- A block is none of those before it.
pub Distinct-before :
    (xs : List ℕ) (x : ℕ) (ys : List ℕ) → Distinct (xs ++ (x ∷ ys)) → NotAmong x xs
unfolding Distinct NotAmong
Distinct-before [] x ys d = tt
Distinct-before (z ∷ xs) x ys (n, d) =
    (λ e. (NotAmong-cut z xs (x ∷ ys) n).1.0 (sym e), Distinct-before xs x ys d)

pub Distinct-cut : (xs ys : List ℕ) → Distinct (xs ++ ys) → Distinct ys
unfolding Distinct
Distinct-cut [] ys d = d
Distinct-cut (x ∷ xs) ys (n, d) = Distinct-cut xs ys d

-- A new block anywhere.
pub Distinct-insert :
    (b : ℕ) (xs ys : List ℕ)
    → NotAmong b (xs ++ ys)
    → Distinct (xs ++ ys)
    → Distinct (xs ++ (b ∷ ys))
unfolding Distinct NotAmong
Distinct-insert b [] ys n d = (n, d)
Distinct-insert b (x ∷ xs) ys (n, m) (e, d) =
    let c = NotAmong-cut x xs ys e in
    (NotAmong-join x xs (b ∷ ys) c.0 ((λ f. n (sym f)), c.1), Distinct-insert b xs ys m d)
