-- ===== src/Malloclab/FirstFit/Malloc.antt =====
-- `find_fit` and `mm_malloc` do on the words what first fit does on the list of blocks.
use git_sty.Base.{
  ℕ, zero, suc, ◌+◌, ◌≤◌, ◌<◌, ◌≡◌, inl, inr, ◌∙◌, sym, refl, List, [], ◌∷◌, ◌++◌, Option, none,
  some, false, ◌&&◌, leb, ◌==◌, length, arith, Bool-cases,
}
use git_sty.Malloclab.FirstFit.{
  Words, get_size, hdrp, place, Found, found, no_fit, out_of_fuel, find_fit, adjust, Heap, Malloced,
  malloced, searching, use_fit, mm_malloc,
}
use git_sty.Malloclab.FirstFit.Words.{IsBlockSize}
use git_sty.Malloclab.FirstFit.Chain.{
  Block, Chain, split, allocate, consed, get_size_same, get_alloc_same,
}
use git_sty.Malloclab.FirstFit.Place.{Fits, place_ne, place-Chain}

unfoldable pub ChainOf : Words → ℕ → Option (List Block) → Type 0
ChainOf w bp (some bs) = Chain w bp bs
ChainOf w bp none = ⊥

-- The search ends as first fit on the blocks does: a fit is at or above `bp`, placing it gives the
-- list that first fit gives, and changes no word below it.
unfoldable pub FitsList : Words → ℕ → ℕ → Option (List Block) → Found → Type 0
FitsList w bp asize r (found p) =
    (bp ≤ p) × (ChainOf (place p asize w) bp r × ((q : ℕ) → q < hdrp p → place p asize w q ≡ w q))
FitsList w bp asize r no_fit = r ≡ none
FitsList w bp asize r out_of_fuel = ⊥

consed-ChainOf :
    (w w' : Words) (bp : ℕ) (b : Block) (bs : List Block) (r : Option (List Block))
    → w' (hdrp bp) ≡ w (hdrp bp)
    → Chain w bp (b ∷ bs)
    → ChainOf w' (bp + b.size) r
    → ChainOf w' bp (consed b r)
unfolding ChainOf Chain
consed-ChainOf w w' bp b bs none e c k = k
consed-ChainOf w w' bp b bs (some cs) e (s, (a, (i, (p, c)))) k =
    (get_size_same w w' (hdrp bp) e ∙ s, (get_alloc_same w w' (hdrp bp) e ∙ a, (i, (p, k))))

skip-FitsList :
    (w : Words) (bp asize : ℕ) (b : Block) (bs : List Block) (r : Option (List Block)) (f : Found)
    → 8 ≤ bp
    → Chain w bp (b ∷ bs)
    → 0 < b.size
    → FitsList w (bp + b.size) asize r f
    → FitsList w bp asize (consed b r) f
unfolding FitsList
skip-FitsList w bp asize b bs r (found p) l c z (m, (k, o)) =
    (omega arith, (consed-ChainOf w (place p asize w) bp b bs r (o (hdrp bp) (omega arith)) c k, o))
skip-FitsList w bp asize b bs r no_fit l c z e = rw e refl
skip-FitsList w bp asize b bs r out_of_fuel l c z e = e

module _ (asize : ℕ) (i : IsBlockSize asize) (least : 16 ≤ asize) where
  take_block :
      (bp : ℕ) (w : Words) (b : Block) (bs : List Block)
      → 8 ≤ bp
      → get_size w (hdrp bp) ≡ b.size
      → IsBlockSize b.size
      → 0 < b.size
      → Chain w (bp + b.size) bs
      → asize ≤ b.size
      → FitsList w bp asize (some (split asize b ++ bs)) (found bp)
  unfolding FitsList ChainOf
  take_block bp w b bs l s j p c m =
      let f : Fits bp asize b.size w = record {
        header = s;
        size_ok = j;
        asize_ok = i;
        low = l;
        least = least;
        room = m;
      } in
      (
        omega arith,
        (
          place-Chain bp asize b.size w f b.alloc bs c,
          λ q o. place_ne bp asize b.size w f q (inl o),
        ),
      )

  pub find_fit-FitsList :
      (fuel bp : ℕ) (w : Words) (bs : List Block)
      → 8 ≤ bp
      → Chain w bp bs
      → length bs < fuel
      → FitsList w bp asize (allocate asize bs) (find_fit fuel asize bp w)
  unfolding find_fit allocate FitsList Chain
  find_fit-FitsList zero bp w bs l c h = absurd (omega arith)
  find_fit-FitsList (suc k) bp w [] l c h = rw c refl
  find_fit-FitsList (suc k) bp w (b ∷ bs) l (s, (a, (j, (p, c)))) h =
      let e : (b.size == 0) ≡ false = ground arith in
      elim (Bool-cases ((b.alloc == 0) && leb asize b.size)) [
        | inl g ↦ rw (s, a, e, g) (take_block bp w b bs l s j p c (ground arith))
        | inr g ↦
            rw (s, a, e, g)
              (skip-FitsList w bp asize b bs (allocate asize bs) (find_fit k asize (bp + b.size) w)
                l (s, (a, (j, (p, c)))) p
                (find_fit-FitsList k (bp + b.size) w bs (omega arith) c (omega arith)))
      ]

-- The words after `mm_malloc` hold the blocks `r`, and the pointer to the first is as before.
unfoldable pub Serves : ℕ → Option (List Block) → Malloced → Type 0
Serves first r (malloced (some p) h) = (h.heap_listp ≡ first) × ChainOf h.words first r
Serves first r (malloced none h) = ⊥
Serves first r searching = ⊥

-- The block size for a request is a multiple of 8 that holds the request, the header and the footer,
-- as long as the rounding does not overflow a `size_t`.
pub adjust_lem :
    (size : ℕ)
    → size + 15 < 4294967296
    → IsBlockSize (adjust size) × ((16 ≤ adjust size) × (size + 8 ≤ adjust size))
unfolding adjust IsBlockSize
adjust_lem size h = ground arith

-- From a request of 2^32 - 15 bytes on, the rounding overflows and the block has 8 bytes at most: not
-- even a whole block's header and footer with a payload.
pub adjust_wraps : (size : ℕ) → 4294967296 ≤ size + 15 → size < 4294967296 → adjust size ≤ 8
unfolding adjust
adjust_wraps size h l = ground arith

use_fit-Serves :
    (asize : ℕ) (h : Heap) (rs : List Block) (f : Found)
    → FitsList h.words h.heap_listp asize (some rs) f
    → Serves h.heap_listp (some rs) (use_fit asize f h)
unfolding FitsList Serves use_fit
use_fit-Serves asize h rs (found p) (l, (c, o)) = (refl, c)
use_fit-Serves asize h rs no_fit e = absurd (ground arith)
use_fit-Serves asize h rs out_of_fuel e = e

-- On a heap whose blocks from `heap_listp`, at 8 or above, are `bs`, of which one is free and large
-- enough for a request of at least one byte whose rounding does not overflow, `mm_malloc` with fuel for
-- each block and one more returns a pointer; the blocks are then those that first fit gives.
pub mm_malloc_fits :
    (fuel size : ℕ) (h : Heap) (bs rs : List Block)
    → 0 < size
    → size + 15 < 4294967296
    → 8 ≤ h.heap_listp
    → Chain h.words h.heap_listp bs
    → length bs < fuel
    → allocate (adjust size) bs ≡ some rs
    → Serves h.heap_listp (some rs) (mm_malloc fuel size h)
unfolding mm_malloc
mm_malloc_fits fuel size h bs rs z o l c n e =
    let a = adjust_lem size o in
    let e₀ : (size == 0) ≡ false = ground arith in
    rw e₀ (
      use_fit-Serves (adjust size) h rs (find_fit fuel (adjust size) h.heap_listp h.words)
        (rw (sym e) (find_fit-FitsList (adjust size) a.0 a.1.0 fuel h.heap_listp h.words bs l c n)))
