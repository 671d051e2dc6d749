-- ===== src/Malloclab/Explicit/Listed.antt =====
-- The free list of malloclab/mm.c over its blocks: each block on the list is a free one, and the tags
-- of the blocks and the pointers of the list do not meet.
use git_sty.Base.{
  ℕ, ◌+◌, ◌-◌, ◌%◌, ◌≤◌, ◌<◌, ◌≡◌, ◌≢◌, ◌⊎◌, inl, inr, ◌∙◌, sym, some, List, [], ◌∷◌, ◌++◌, ◌==◌,
  false, arith,
}
use git_sty.Malloclab.FirstFit.{Words, hdrp}
use git_sty.Malloclab.FirstFit.Words.{IsBlockSize}
use git_sty.Malloclab.FirstFit.Chain.{Block}
use git_sty.Malloclab.FreeList.{FreeList, next_ptr, prev_ptr}
use git_sty.Malloclab.FreeList.Chained.{Chained, NotAmong, Holds}
use git_sty.Malloclab.Explicit.{with_words, mark}
use git_sty.Malloclab.Explicit.Blocks.{Map, enter, Blocks, Fits, mark-Blocks, mark_ne}

abbrev pub Freed : Map → ℕ → Type 0
Freed m p = (s : ℕ) × (m p ≡ some (record { size = s; alloc = 0 }))

unfoldable pub AllFree : Map → List ℕ → Type 0
AllFree m [] = Unit
AllFree m (p ∷ ps) = Freed m p × AllFree m ps

pub record Listed (l : FreeList) (lo hi : ℕ) (m : Map) (fs : List ℕ) : Type 0 where
  pub blocks : Blocks l.words lo hi m
  pub holds : Holds l fs
  pub free : AllFree m fs

pub AllFree-cut : (m : Map) (xs ys : List ℕ) → AllFree m (xs ++ ys) → AllFree m xs × AllFree m ys
unfolding AllFree
AllFree-cut m [] ys f = (tt, f)
AllFree-cut m (x ∷ xs) ys (g, f) = let r = AllFree-cut m xs ys f in ((g, r.0), r.1)

pub AllFree-join : (m : Map) (xs ys : List ℕ) → AllFree m xs → AllFree m ys → AllFree m (xs ++ ys)
unfolding AllFree
AllFree-join m [] ys f g = g
AllFree-join m (x ∷ xs) ys (h, f) g = (h, AllFree-join m xs ys f g)

-- A pointer that differs from each free block's.
pub other-NotAmong :
    (m : Map) (p : ℕ) (fs : List ℕ) → ((q : ℕ) → Freed m q → p ≢ q) → AllFree m fs → NotAmong p fs
unfolding AllFree NotAmong
other-NotAmong m p [] h f = tt
other-NotAmong m p (q ∷ fs) h (g, f) = (h q g, other-NotAmong m p fs h f)

-- A block that is not on the list is entered.
AllFree-enter :
    (m : Map) (p s a : ℕ) (fs : List ℕ) → NotAmong p fs → AllFree m fs → AllFree (enter p s a m) fs
unfolding AllFree NotAmong
AllFree-enter m p s a [] n f = tt
AllFree-enter m p s a (q ∷ fs) (d, n) ((t, e), f) =
    let z : (q == p) ≡ false = ground (arith, d) in ((t, rw z e), AllFree-enter m p s a fs n f)

-- The pointers in the blocks of a list are the same.
unfoldable Alike : Words → Words → List ℕ → Type 0
Alike w w' [] = Unit
Alike w w' (q ∷ fs) =
    (w' (next_ptr q) ≡ w (next_ptr q)) × ((w' (prev_ptr q) ≡ w (prev_ptr q)) × Alike w w' fs)

Chained-frame : (w w' : Words) (fs : List ℕ) → Alike w w' fs → Chained w fs → Chained w' fs
unfolding Alike Chained
Chained-frame w w' [] h c = tt
Chained-frame w w' (p ∷ []) h c = tt
Chained-frame w w' (p ∷ q ∷ r) (x, (y, (u, (v, h)))) (e, (f, c)) =
    (x ∙ e, (v ∙ f, Chained-frame w w' (q ∷ r) (u, (v, h)) c))

-- Two sets of words that agree on the pointers of every block but the one at `p`.
abbrev pub Agree : Words → Words → Map → ℕ → Type 0
Agree w w' m p =
    (q : ℕ) (c : Block)
    → m q ≡ some c
    → q ≢ p
    → (w' (next_ptr q) ≡ w (next_ptr q)) × (w' (prev_ptr q) ≡ w (prev_ptr q))

Alike-of :
    (w w' : Words) (m : Map) (p : ℕ) (fs : List ℕ)
    → Agree w w' m p
    → NotAmong p fs
    → AllFree m fs
    → Alike w w' fs
unfolding Alike NotAmong AllFree
Alike-of w w' m p [] h n f = tt
Alike-of w w' m p (q ∷ fs) h (d, n) ((s, e), f) =
    let r = h q (record { size = s; alloc = 0 }) e (λ v. d (sym v)) in
    (r.0, (r.1, Alike-of w w' m p fs h n f))

pub Holds-frame :
    (l : FreeList) (w' : Words) (m : Map) (p : ℕ) (fs : List ℕ)
    → Agree l.words w' m p
    → NotAmong p fs
    → AllFree m fs
    → Holds l fs
    → Holds (with_words w' l) fs
Holds-frame l w' m p fs a n f h = record {
  root = h.root;
  last = h.last;
  chained = Chained-frame l.words w' fs (Alike-of l.words w' m p fs a n f) h.chained;
  pointers = h.pointers;
  distinct = h.distinct;
}

-- A block's tags are no pointers of another block.
pub tag_elsewhere :
    (p s q c : ℕ)
    → 8 ≤ p
    → 16 ≤ s
    → p % 8 ≡ 0
    → s % 8 ≡ 0
    → 8 ≤ q
    → 16 ≤ c
    → q % 8 ≡ 0
    → (q + c ≤ p) ⊎ (p + s ≤ q)
    → ((hdrp p ≢ next_ptr q) × ((p + s) - 8 ≢ next_ptr q))
      × ((hdrp p ≢ prev_ptr q) × ((p + s) - 8 ≢ prev_ptr q))
tag_elsewhere p s q c a b d e f g h r = elim r [
  | inl k ↦ (
    (λ v. omega (arith, a, b, d, e, f, g, h, k, v), λ v. omega (arith, a, b, d, e, f, g, h, k, v)),
    (λ v. omega (arith, a, b, d, e, f, g, h, k, v), λ v. omega (arith, a, b, d, e, f, g, h, k, v)),
  )
  | inr k ↦ (
    (λ v. omega (arith, a, b, d, e, f, g, h, k, v), λ v. omega (arith, a, b, d, e, f, g, h, k, v)),
    (λ v. omega (arith, a, b, d, e, f, g, h, k, v), λ v. omega (arith, a, b, d, e, f, g, h, k, v)),
  )
]

module _ (lo hi : ℕ) (z : 8 ≤ lo) where
  pub mark-Listed :
      (l : FreeList) (m : Map) (fs : List ℕ) (p s a : ℕ)
      → a < 2
      → Fits lo hi p s m
      → NotAmong p fs
      → Listed l lo hi m fs
      → Listed (with_words (mark p s a l.words) l) lo hi (enter p s a m) fs
  unfolding IsBlockSize
  mark-Listed l m fs p s a b f n k = record {
    blocks = mark-Blocks l.words lo hi p s a m z b f k.blocks;
    holds =
        Holds-frame l (mark p s a l.words) m p fs
          (λ q c e d.
            let t = k.blocks.tagged q c e in
            let o =
              tag_elsewhere p s q c.size (omega (arith, z, f.low)) f.least f.aligned f.size_ok.0
                (omega (arith, z, t.low)) t.least t.aligned (f.room q c e d) in
            (
              mark_ne l.words p s a f.size_ok b (next_ptr q) o.0.0 o.0.1,
              mark_ne l.words p s a f.size_ok b (prev_ptr q) o.1.0 o.1.1,
            ))
          n k.free k.holds;
    free = AllFree-enter m p s a fs n k.free;
  }
