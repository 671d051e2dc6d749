-- ===== src/Malloclab/FirstFit/Chain.antt =====
-- The implicit list: blocks that follow each other from a pointer up to a header of size 0.
use git_sty.Base.{
  ℕ, ◌+◌, ◌-◌, ◌≤◌, ◌<◌, ◌≡◌, ◌∙◌, List, [], ◌∷◌, ◌++◌, Option, none, some, ◌&&◌, leb, ◌==◌,
  if◌then◌else◌, arith,
}
use git_sty.Malloclab.FirstFit.{Words, get_size, get_alloc, hdrp}
use git_sty.Malloclab.FirstFit.Words.{IsBlockSize}

pub record Block : Type 0 where
  pub size : ℕ
  pub alloc : ℕ

unfoldable pub Chain : Words → ℕ → List Block → Type 0
Chain w bp [] = get_size w (hdrp bp) ≡ 0
Chain w bp (b ∷ bs) =
    (get_size w (hdrp bp) ≡ b.size)
    × ((get_alloc w (hdrp bp) ≡ b.alloc)
        × (IsBlockSize b.size × ((0 < b.size) × Chain w (bp + b.size) bs)))

pub get_size_same : (w w' : Words) (p : ℕ) → w' p ≡ w p → get_size w' p ≡ get_size w p
unfolding get_size
get_size_same w w' p e = rw e

pub get_alloc_same : (w w' : Words) (p : ℕ) → w' p ≡ w p → get_alloc w' p ≡ get_alloc w p
unfolding get_alloc
get_alloc_same w w' p e = rw e

-- A chain reads no word below its first header.
pub Chain-frame :
    (w w' : Words) (bp lo : ℕ) (bs : List Block)
    → lo ≤ hdrp bp
    → ((q : ℕ) → lo ≤ q → w' q ≡ w q)
    → Chain w bp bs
    → Chain w' bp bs
unfolding Chain
Chain-frame w w' bp lo [] l f c = get_size_same w w' (hdrp bp) (f (hdrp bp) l) ∙ c
Chain-frame w w' bp lo (b ∷ bs) l f (s, (a, (i, (p, c)))) = (
  get_size_same w w' (hdrp bp) (f (hdrp bp) l) ∙ s,
  (
    get_alloc_same w w' (hdrp bp) (f (hdrp bp) l) ∙ a,
    (i, (p, Chain-frame w w' (bp + b.size) lo bs (omega arith) f c)),
  ),
)

-- What `place` makes of a block: an allocated one, and a free one where 16 bytes or more are left.
unfoldable pub split : ℕ → Block → List Block
split asize b =
    if leb 16 (b.size - asize)
    then record { size = asize; alloc = 1 } ∷ record { size = b.size - asize; alloc = 0 } ∷ []
    else record { size = b.size; alloc = 1 } ∷ []

abbrev pub consed : Block → Option (List Block) → Option (List Block)
consed b none = none
consed b (some bs) = some (b ∷ bs)

-- First fit on a list of blocks: the list after a block of `asize` bytes is taken, if one fits.
unfoldable pub allocate : ℕ → List Block → Option (List Block)
allocate asize [] = none
allocate asize (b ∷ bs) =
    let rest = allocate asize bs in
    if (b.alloc == 0) && leb asize b.size then some (split asize b ++ bs) else consed b rest
