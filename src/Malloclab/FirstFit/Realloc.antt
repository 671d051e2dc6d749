-- ===== src/Malloclab/FirstFit/Realloc.antt =====
-- `mm_realloc` of malloclab/mm-firstfit.c. Where `mm_malloc` returns NULL it exits.
use git_sty.Base.{ℕ, ◌≡◌, ltb, if◌then◌else◌, none, some}
use git_sty.Malloclab.FirstFit.{
  Words, Heap, hdrp, get_size, Malloced, malloced, searching, mm_malloc, mm_free, with_words,
}
use git_sty.Malloclab.FirstFit.Bytes.{memcpy}
use git_sty.Malloclab.FirstFit.Live.{Live, update}
use git_sty.Malloclab.FirstFit.Reach.{Reach}

pub data Realloced : Type 0 where
  realloced : ℕ → Heap → Realloced
  exits : Heap → Realloced
  still_searching : Realloced

-- The bytes to copy: the size of the old block with its header and footer, or the new size if that is less.
abbrev pub copy_size : ℕ → ℕ → Words → ℕ
copy_size ptr size w = let n = get_size w (hdrp ptr) in if ltb size n then size else n

unfoldable pub copy_over : ℕ → ℕ → Malloced → Realloced
copy_over ptr size (malloced none h) = exits h
copy_over ptr size (malloced (some newp) h) =
    realloced newp
      (mm_free ptr (with_words (memcpy newp ptr (copy_size ptr size h.words) h.words) h))
copy_over ptr size searching = still_searching

unfoldable pub mm_realloc : (fuel ptr size : ℕ) → Heap → Realloced
mm_realloc fuel ptr size h = copy_over ptr size (mm_malloc fuel size h)

-- What `mm_realloc` of `ptr` owes to a program with the blocks `live` in use.
unfoldable pub Reallocs : Heap → Heap → Live → ℕ → ℕ → Realloced → Type 0
Reallocs h₀ h live ptr size (realloced q h') =
    (live q ≡ none) × Reach h₀ h' (update ptr none (update q (some size) live))
Reallocs h₀ h live ptr size (exits h') = h' ≡ h
Reallocs h₀ h live ptr size still_searching = ⊥
