-- ===== src/Malloclab/FreeList/Boundary.antt =====
-- `coalesce` of malloclab/mm.c.
use git_sty.Base.{
  ◌%◌, ℕ, ◌+◌, ◌-◌, ◌≤◌, ◌≡◌, refl, Bool, false, ◌&&◌, ◌==◌, leb, ltb, if◌then◌else◌, arith,
}
use git_sty.Malloclab.Memlib.{Mem, mem_heap_lo, mem_heap_hi}
use git_sty.Malloclab.FirstFit.{put, get_alloc, pack, next_blkp, prev_blkp, put_both}
use git_sty.Malloclab.FreeList.{FreeList, next_ptr, prev_ptr, null, size_of, remove_free_block}

-- `PACK`, which rounds the size up to a multiple of 8.
abbrev pub pack_aligned : ℕ → ℕ → ℕ
pack_aligned size alloc = pack ((size + 7) - (size + 7) % 8) alloc

-- The test that is meant to find the ends of the heap: `bptr >= mem_heap_hi() && bptr < mem_heap_lo()`.
unfoldable pub heap_boundary : Mem → ℕ → Bool
heap_boundary m bptr = leb (mem_heap_hi m) bptr && ltb bptr (mem_heap_lo m)

-- Both branches take `other` off the free list, clear its pointers, and give `bptr` the size of itself and the
-- block at `next`.
unfoldable pub join : (bptr other next : ℕ) → FreeList → FreeList
join bptr other next l =
    let r = remove_free_block other l in
    let w = put (next_ptr other) null (put (prev_ptr other) null r.words) in
    let size = (size_of w bptr + size_of w next) % 4294967296 in
    record { words = put_both bptr (pack_aligned size 0) w; root = r.root; last = r.last }

-- The free list after it; it returns `bptr`. The alloc bits are read at the blocks, not at their headers.
unfoldable pub coalesce : Mem → ℕ → FreeList → FreeList
coalesce m bptr l =
    let prev_bptr = prev_blkp l.words bptr in
    let next_bptr = next_blkp l.words bptr in
    let boundary = heap_boundary m bptr in
    let joined = join bptr next_bptr next_bptr l in
    let l₁ = if boundary && (get_alloc l.words next_bptr == 0) then joined else l in
    let joined₁ = join bptr prev_bptr next_bptr l₁ in
    if boundary && (get_alloc l₁.words prev_bptr == 0) then joined₁ else l₁

-- Where the last byte of the heap is not below the first, `coalesce` changes nothing, whatever lies beside the block.
pub coalesce_lem :
    (m : Mem) (bptr : ℕ) (l : FreeList) → mem_heap_lo m ≤ mem_heap_hi m → coalesce m bptr l ≡ l
unfolding coalesce heap_boundary
coalesce_lem m bptr l h = let e : heap_boundary m bptr ≡ false = ground arith in rw e refl
