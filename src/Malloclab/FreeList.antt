-- ===== src/Malloclab/FreeList.antt =====
-- The free list of malloclab/mm.c: blocks that hold a pointer to the next and to the previous one, from
-- the smallest to the largest. The words and the macros on them are those of malloclab/mm-firstfit.c; a
-- pointer is 0 for NULL, and a store through a pointer that leads nowhere is a store all the same.
pub mod Chained
pub mod Split
pub mod Insert
pub mod Search
pub mod Add
pub mod Remove
pub mod Boundary
mod Tests
use git_sty.Base.{ℕ, zero, suc, ◌+◌, ◌&&◌, Bool, Option, none, some, ◌==◌, leb, if◌then◌else◌}
use git_sty.Malloclab.FirstFit.{Words, put, get_size, hdrp}

abbrev pub null : ℕ
null = 0

-- `free_list_root` and `free_list_end`.
pub record FreeList : Type 0 where
  pub words : Words
  pub root : ℕ
  pub last : ℕ

-- `NEXT_PTR(bptr)` lies at `HDRP(bptr) + WSIZE` and `PREV_PTR(bptr)` at `HDRP(bptr) + DSIZE`.
abbrev pub next_ptr : ℕ → ℕ
next_ptr bptr = hdrp bptr + 4

abbrev pub prev_ptr : ℕ → ℕ
prev_ptr bptr = hdrp bptr + 8

abbrev pub size_of : Words → ℕ → ℕ
size_of w bptr = get_size w (hdrp bptr)

-- The block that `find_fit` returns; it never ends on a list that runs in a circle.
pub data Sought : Type 0 where
  reached : ℕ → Sought
  lost : Sought

unfoldable pub find_fit : (fuel size bptr : ℕ) → Words → Sought
find_fit zero size bptr w = lost
find_fit (suc k) size bptr w =
    let rest = find_fit k size (w (next_ptr bptr)) w in
    if bptr == null then reached null else if leb size (size_of w bptr) then reached bptr else rest

-- The three places of a new block in a list that is not empty.
unfoldable pub add_first : ℕ → FreeList → FreeList
add_first bptr l = record {
  words = put (prev_ptr l.root) bptr (put (next_ptr bptr) l.root l.words);
  root = bptr;
  last = l.last;
}

unfoldable pub add_last : ℕ → FreeList → FreeList
add_last bptr l = record {
  words = put (next_ptr l.last) bptr (put (prev_ptr bptr) l.last l.words);
  root = l.root;
  last = bptr;
}

unfoldable pub add_before : ℕ → ℕ → FreeList → FreeList
add_before bptr place l =
    let w₁ = put (next_ptr bptr) place l.words in
    let w₂ = put (prev_ptr bptr) (w₁ (prev_ptr place)) w₁ in
    let w₃ = put (next_ptr (w₂ (prev_ptr bptr))) bptr w₂ in
    record { words = put (prev_ptr place) bptr w₃; root = l.root; last = l.last }

unfoldable pub add_at : ℕ → Sought → FreeList → Option FreeList
add_at bptr (reached place) l = some (add_before bptr place l)
add_at bptr lost l = none

unfoldable pub add_free_block : (fuel bptr : ℕ) → FreeList → Option FreeList
add_free_block fuel bptr l =
    let size = size_of l.words bptr in
    let between = add_at bptr (find_fit fuel size l.root l.words) l in
    if bptr == null
    then some l
    else if (l.root == null) && (l.last == null)
    then some (record { words = l.words; root = bptr; last = bptr })
    else if leb size (size_of l.words l.root)
    then some (add_first bptr l)
    else if leb (size_of l.words l.last) size
    then some (add_last bptr l)
    else between

unfoldable pub remove_free_block : ℕ → FreeList → FreeList
remove_free_block bptr l =
    let w = l.words in
    let next = w (next_ptr bptr) in
    let prev = w (prev_ptr bptr) in
    let w₁ = put (next_ptr prev) next w in
    if bptr == null
    then l
    else if l.root == l.last
    then record { words = w; root = null; last = null }
    else if l.root == bptr
    then record { words = put (prev_ptr next) null w; root = next; last = l.last }
    else if l.last == bptr
    then record { words = put (next_ptr prev) null w; root = l.root; last = prev }
    else record {
      words = put (prev_ptr (w₁ (next_ptr bptr))) (w₁ (prev_ptr bptr)) w₁;
      root = l.root;
      last = l.last;
    }
