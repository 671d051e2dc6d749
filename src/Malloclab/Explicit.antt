-- ===== src/Malloclab/Explicit.antt =====
-- The allocator of malloclab/mm.c over its free list: `mm_init`, `mm_malloc`, `mm_free`, `mm_realloc`.
-- Pointers are natural numbers below 2^32; a store through a pointer that leads nowhere is a store all
-- the same.
pub mod Blocks
pub mod Listed
pub mod Moves
pub mod Count
pub mod Pick
pub mod Carve
pub mod Heaped
pub mod Fit
pub mod Grow
pub mod Calls
pub mod Client
pub mod Realloc
pub mod Moved
mod Tests
use git_sty.Base.{
  ℕ, zero, suc, ◌+◌, ◌-◌, ◌%◌, Bool, true, false, ◌&&◌, not, Option, none, some, ◌==◌, leb, ltb,
  if◌then◌else◌,
}
use git_sty.Malloclab.Memlib.{Mem, mem_sbrk}
use git_sty.Malloclab.FirstFit.{
  Words, put, pack, hdrp, ftrp, get_size, next_blkp, put_both, adjust, first_words, sub32, add32,
}
use git_sty.Malloclab.FirstFit.Bytes.{memcpy}
use git_sty.Malloclab.FreeList.{
  FreeList, null, size_of, Sought, reached, lost, find_fit, add_free_block, remove_free_block,
}
use git_sty.Malloclab.FreeList.Boundary.{pack_aligned, coalesce}

-- The words with `free_list_root` and `free_list_end`, the break and `heap_listp`.
pub record State : Type 0 where
  pub list : FreeList
  pub mem : Mem
  pub heap_listp : ℕ

abbrev pub with_list : FreeList → State → State
with_list l s = record { list = l; mem = s.mem; heap_listp = s.heap_listp }

abbrev pub with_words : Words → FreeList → FreeList
with_words w l = record { words = w; root = l.root; last = l.last }

-- What a call returns (`none` is NULL) and the state after it. `searching`: a search has no end, or
-- the fuel is spent. `crashed`: `memcpy` to NULL.
pub data Outcome : Type 0 where
  returns : Option ℕ → State → Outcome
  searching crashed : Outcome

-- Header and footer, through PACK.
abbrev pub mark : (bptr size alloc : ℕ) → Words → Words
mark bptr size alloc w = put_both bptr (pack_aligned size alloc) w

abbrev pub min_block_size : ℕ
min_block_size = 16

-- `ALIGN` on `size_t`.
abbrev pub align : ℕ → ℕ
align size = let s = add32 size 7 in s - s % 8

unfoldable pub after_sbrk : State → Option ℕ × Mem → Bool × State
after_sbrk s (none, m) = (false, record { list = s.list; mem = m; heap_listp = 4294967295 })
after_sbrk s (some p, m) = (
  true,
  record {
    list = record { words = first_words p s.list.words; root = null; last = null };
    mem = m;
    heap_listp = p + 8;
  },
)

-- Whether it returns 0, and the state after it.
unfoldable pub mm_init : State → Bool × State
mm_init s = after_sbrk s (mem_sbrk 16 s.mem)

unfoldable pub after_add : Option ℕ → State → Option FreeList → Outcome
after_add r s (some l) = returns r (with_list l s)
after_add r s none = searching

-- The block that is taken off the free list.
unfoldable pub pick : (fuel asize : ℕ) → FreeList → Sought
pick fuel asize l =
    if asize == size_of l.words l.root
    then reached l.root
    else if asize == size_of l.words l.last
    then reached l.last
    else find_fit fuel asize l.root l.words

-- Take it, and give back what is left of it where that is a block.
unfoldable pub use_fit : (fuel asize : ℕ) → Sought → State → Outcome
use_fit fuel asize lost s = searching
use_fit fuel asize (reached bptr) s =
    let l = remove_free_block bptr s.list in
    let csize = size_of l.words bptr in
    let w = mark bptr asize 1 l.words in
    let rest = next_blkp w bptr in
    let w₁ = mark rest (sub32 csize asize) 0 w in
    let split = after_add (some bptr) s (add_free_block fuel rest (with_words w₁ l)) in
    if leb 16 (sub32 csize asize) then split else returns (some bptr) (with_list (with_words w l) s)

-- The new block at the old break and the epilogue behind it.
unfoldable pub extended : ℕ → State → Option ℕ × Mem → Outcome
extended asize s (none, m) =
    returns none (record { list = s.list; mem = m; heap_listp = s.heap_listp })
extended asize s (some bptr, m) =
    let w = mark bptr asize 1 s.list.words in
    returns (some bptr) (record {
      list = with_words (put (hdrp (next_blkp w bptr)) (pack_aligned 0 1) w) s.list;
      mem = m;
      heap_listp = s.heap_listp;
    })

unfoldable pub may_fit : ℕ → FreeList → Bool
may_fit asize l =
    (not (l.root == null) && leb (size_of l.words l.root) asize)
    && (not (l.last == null) && leb asize (size_of l.words l.last))

unfoldable pub mm_malloc : (fuel size : ℕ) → State → Outcome
mm_malloc fuel size s =
    let asize = adjust size in
    if size == 0
    then returns none s
    else if may_fit asize s.list
    then use_fit fuel asize (pick fuel asize s.list) s
    else extended asize s (mem_sbrk asize s.mem)

-- It returns nothing; the pointer in the outcome is NULL.
unfoldable pub mm_free : (fuel bptr : ℕ) → State → Outcome
mm_free fuel bptr s =
    let w = mark bptr (size_of s.list.words bptr) 0 s.list.words in
    let l = coalesce s.mem bptr (with_words w s.list) in
    after_add none s (add_free_block fuel bptr l)

-- The block is made smaller where it is.
unfoldable pub shrink : (fuel bptr old_size new_size : ℕ) → State → Outcome
shrink fuel bptr old_size new_size s =
    let w = mark bptr new_size 1 s.list.words in
    let rest = next_blkp w bptr in
    let w₁ = mark rest (old_size - new_size) 0 w in
    let l = coalesce s.mem rest (with_words w₁ s.list) in
    let split = after_add (some bptr) s (add_free_block fuel rest l) in
    if leb min_block_size (old_size - new_size)
    then split
    else returns (some bptr) (with_list (with_words w s.list) s)

-- `coalesce` has made the block at `bptr` larger. It returned `bptr`, so nothing is copied.
unfoldable pub grow_here : (fuel bptr new_size : ℕ) → State → Outcome
grow_here fuel bptr new_size s =
    let w = mark bptr new_size 1 s.list.words in
    let rest = next_blkp w bptr in
    let w₁ = put (hdrp rest) (pack_aligned (get_size w (hdrp rest - new_size)) 0) w in
    let w₂ = put (ftrp w₁ rest) (pack_aligned (get_size w₁ (hdrp rest - new_size)) 0) w₁ in
    after_add (some bptr) s (add_free_block fuel rest (with_words w₂ s.list))

unfoldable pub freed : ℕ → Outcome → Outcome
freed new_bptr (returns r s) = returns (some new_bptr) s
freed new_bptr searching = searching
freed new_bptr crashed = crashed

unfoldable pub copied : (fuel bptr old_size : ℕ) → Outcome → Outcome
copied fuel bptr old_size (returns (some new_bptr) s) =
    let w = memcpy new_bptr bptr (old_size - 8) s.list.words in
    freed new_bptr (mm_free fuel bptr (with_list (with_words w s.list) s))
copied fuel bptr old_size (returns none s) = crashed
copied fuel bptr old_size searching = searching
copied fuel bptr old_size crashed = crashed

unfoldable pub mm_realloc : (fuel bptr size : ℕ) → State → Outcome
mm_realloc fuel bptr size s =
    let old_size = size_of s.list.words bptr in
    let new_size = align size in
    let l = coalesce s.mem bptr s.list in
    let joined = size_of l.words bptr in
    if (bptr == null) && ltb 0 size
    then mm_malloc fuel size s
    else if size == 0
    then mm_free fuel bptr s
    else if new_size == old_size
    then returns (some bptr) s
    else if ltb new_size old_size
    then shrink fuel bptr old_size new_size s
    else if ltb old_size joined && ltb (add32 new_size 8) joined
    then grow_here fuel bptr new_size (with_list l s)
    else copied fuel bptr old_size (mm_malloc fuel (sub32 new_size old_size) (with_list l s))
