-- ===== src/Malloclab/FirstFit.antt =====
-- The allocator of malloclab/mm-firstfit.c: words of 32 bits at addresses that are multiples of 4,
-- `size_t` and pointers of 32 bits. Every block has its size and its allocated bit in a header and a
-- footer. Pointers stay below 2^32, where the simulated heap lies; what is printed is left out, but for
-- the complaints of `mm_checkheap`..
pub mod Words
pub mod Chain
pub mod Tags
pub mod Spans
pub mod Coalesce
pub mod Merge
pub mod Free
pub mod Extend
pub mod Serve
pub mod Owner
pub mod Allocate
pub mod Init
pub mod Joined
pub mod Bytes
pub mod Live
pub mod Payload
pub mod Reach
pub mod Safe
pub mod Realloc
pub mod Place
pub mod Malloc
pub mod Checkheap
mod Tests
use git_sty.Base.{
  ℕ, zero, suc, ◌+◌, ◌-◌, ◌*◌, ◌/◌, ◌%◌, Bool, true, false, ◌&&◌, ◌||◌, not, Option, none, some,
  List, [], ◌∷◌, ◌++◌, ◌==◌, leb, ltb, if◌then◌else◌,
}
use Prim.Native.Nat.{bit_and, bit_or}
use git_sty.Malloclab.Memlib.{Mem, mem_sbrk}

abbrev pub wsize : ℕ
wsize = 4

abbrev pub dsize : ℕ
dsize = 8

abbrev pub chunksize : ℕ
chunksize = 4096

abbrev pub overhead : ℕ
overhead = 8

abbrev pub word : ℕ
word = 4294967296

-- `a + b` and `a - b` on `size_t`.
abbrev pub add32 : ℕ → ℕ → ℕ
add32 a b = (a + b) % word

abbrev pub sub32 : ℕ → ℕ → ℕ
sub32 a b = ((a + word) - b) % word

unfoldable pub pack : ℕ → ℕ → ℕ
pack size alloc = bit_or size alloc

abbrev pub Words : Type 0
Words = ℕ → ℕ

unfoldable pub put : ℕ → ℕ → Words → Words
put p v h q = if p == q then v else h q

-- `& ~0x7`.
unfoldable pub get_size : Words → ℕ → ℕ
get_size h p = bit_and (h p) 4294967288

unfoldable pub get_alloc : Words → ℕ → ℕ
get_alloc h p = bit_and (h p) 1

abbrev pub hdrp : ℕ → ℕ
hdrp bp = bp - wsize

abbrev pub ftrp : Words → ℕ → ℕ
ftrp h bp = (bp + get_size h (hdrp bp)) - dsize

abbrev pub next_blkp : Words → ℕ → ℕ
next_blkp h bp = bp + get_size h (bp - wsize)

abbrev pub prev_blkp : Words → ℕ → ℕ
prev_blkp h bp = bp - get_size h (bp - dsize)

-- The words, the break and `heap_listp`.
pub record Heap : Type 0 where
  pub words : Words
  pub mem : Mem
  pub heap_listp : ℕ

abbrev pub with_words : Words → Heap → Heap
with_words w h = record { words = w; mem = h.mem; heap_listp = h.heap_listp }

-- `PUT(HDRP(bp), v); PUT(FTRP(bp), v)`: the footer's place is found after the header is written.
unfoldable pub put_both : ℕ → ℕ → Words → Words
put_both bp v w = let w₁ = put (hdrp bp) v w in put (ftrp w₁ bp) v w₁

-- The three merging cases of `coalesce`.
unfoldable pub merge_next : ℕ → ℕ → Words → ℕ × Words
merge_next bp size w =
    let s = add32 size (get_size w (hdrp (next_blkp w bp))) in (bp, put_both bp (pack s 0) w)

unfoldable pub merge_prev : ℕ → ℕ → Words → ℕ × Words
merge_prev bp size w =
    let s = add32 size (get_size w (hdrp (prev_blkp w bp))) in
    let w₁ = put (ftrp w bp) (pack s 0) w in
    let w₂ = put (hdrp (prev_blkp w₁ bp)) (pack s 0) w₁ in (prev_blkp w₂ bp, w₂)

unfoldable pub merge_both : ℕ → ℕ → Words → ℕ × Words
merge_both bp size w =
    let s =
      add32 size
        (add32 (get_size w (hdrp (prev_blkp w bp))) (get_size w (ftrp w (next_blkp w bp)))) in
    let w₁ = put (hdrp (prev_blkp w bp)) (pack s 0) w in
    let w₂ = put (ftrp w₁ (next_blkp w₁ bp)) (pack s 0) w₁ in (prev_blkp w₂ bp, w₂)

unfoldable pub coalesce : ℕ → Words → ℕ × Words
coalesce bp w =
    let prev_alloc = not (get_alloc w (ftrp w (prev_blkp w bp)) == 0) in
    let next_alloc = not (get_alloc w (hdrp (next_blkp w bp)) == 0) in
    let size = get_size w (hdrp bp) in
    if prev_alloc && next_alloc
    then (bp, w)
    else if prev_alloc && not next_alloc
    then merge_next bp size w
    else if not prev_alloc && next_alloc
    then merge_prev bp size w
    else merge_both bp size w

-- The new free block at `bp` and the epilogue behind it.
unfoldable pub free_block : ℕ → ℕ → Words → Words
free_block bp size w =
    let w₁ = put_both bp (pack size 0) w in put (hdrp (next_blkp w₁ bp)) (pack 0 1) w₁

unfoldable pub after_sbrk : ℕ → Heap → Option ℕ × Mem → Option ℕ × Heap
after_sbrk size h (none, m) = (none, record { words = h.words; mem = m; heap_listp = h.heap_listp })
after_sbrk size h (some bp, m) =
    let r = coalesce bp (free_block bp size h.words) in
    (some r.0, record { words = r.1; mem = m; heap_listp = h.heap_listp })

-- `NULL` is `none`.
unfoldable pub extend_heap : ℕ → Heap → Option ℕ × Heap
extend_heap words h =
    let size = if words % 2 == 0 then (words * wsize) % word else (add32 words 1 * wsize) % word in
    after_sbrk size h (mem_sbrk size h.mem)

-- `place`: split off what is at least a block of the smallest size.
unfoldable pub place : ℕ → ℕ → Words → Words
place bp asize w =
    let csize = get_size w (hdrp bp) in
    let w₁ = put_both bp (pack asize 1) w in
    if leb (dsize + overhead) (sub32 csize asize)
    then put_both (next_blkp w₁ bp) (pack (sub32 csize asize) 0) w₁
    else put_both bp (pack csize 1) w

pub data Found : Type 0 where
  found : ℕ → Found
  no_fit out_of_fuel : Found

-- The search; the fuel bounds the blocks it visits.
unfoldable pub find_fit : (fuel asize : ℕ) → ℕ → Words → Found
find_fit zero asize bp w = out_of_fuel
find_fit (suc k) asize bp w =
    let rest = find_fit k asize (next_blkp w bp) w in
    let size = get_size w (hdrp bp) in
    if size == 0
    then no_fit
    else if (get_alloc w (hdrp bp) == 0) && leb asize size
    then found bp
    else rest

-- The block size for a request of `size` bytes.
unfoldable pub adjust : ℕ → ℕ
adjust size =
    if leb size dsize
    then dsize + overhead
    else dsize * (add32 size (overhead + (dsize - 1)) / dsize)

-- The pointer that `mm_malloc` returns (`NULL` is `none`) and the heap after it.
pub data Malloced : Type 0 where
  malloced : Option ℕ → Heap → Malloced
  searching : Malloced

unfoldable pub after_extend : ℕ → Option ℕ × Heap → Malloced
after_extend asize (none, h) = malloced none h
after_extend asize (some bp, h) = malloced (some bp) (with_words (place bp asize h.words) h)

unfoldable pub use_fit : ℕ → Found → Heap → Malloced
use_fit asize (found bp) h = malloced (some bp) (with_words (place bp asize h.words) h)
use_fit asize no_fit h =
    let extendsize = if ltb chunksize asize then asize else chunksize in
    after_extend asize (extend_heap (extendsize / wsize) h)
use_fit asize out_of_fuel h = searching

unfoldable pub mm_malloc : (fuel size : ℕ) → Heap → Malloced
mm_malloc fuel size h =
    let asize = adjust size in
    if size == 0
    then malloced none h
    else use_fit asize (find_fit fuel asize h.heap_listp h.words) h

unfoldable pub mm_free : ℕ → Heap → Heap
mm_free bp h =
    let size = get_size h.words (hdrp bp) in
    with_words ((coalesce bp (put_both bp (pack size 0) h.words)).1) h

-- What `mem_sbrk` returns, as a pointer: -1 where it fails, which is not `NULL`.
abbrev pub address : Option ℕ → ℕ
address (some p) = p
address none = 4294967295

-- The prologue and the epilogue.
unfoldable pub first_words : ℕ → Words → Words
first_words p w =
    put (p + (wsize + dsize)) (pack 0 1)
      (put (p + dsize) (pack overhead 1) (put (p + wsize) (pack overhead 1) (put p 0 w)))

abbrev pub is_some : Option ℕ → Bool
is_some none = false
is_some (some p) = true

-- Whether `mm_init` returns 0, and the heap after it.
unfoldable pub mm_init : Heap → Bool × Heap
mm_init h =
    let r = mem_sbrk (4 * wsize) h.mem in
    let p = address r.0 in
    let h₁ : Heap = record { words = first_words p h.words; mem = r.1; heap_listp = p + dsize } in
    let e = extend_heap (chunksize / wsize) h₁ in
    if p == 0 then (false, with_words h.words h₁) else (is_some e.0, e.1)

-- The lines that `mm_checkheap` prints when it is not verbose.
pub data Complaint : Type 0 where
  bad_prologue bad_epilogue mismatch : Complaint
  not_aligned : ℕ → Complaint

unfoldable pub checkblock : ℕ → Words → List Complaint
checkblock bp w =
    (if bp % 8 == 0 then [] else not_aligned bp ∷ [])
    ++ (if w (hdrp bp) == w (ftrp w bp) then [] else mismatch ∷ [])
