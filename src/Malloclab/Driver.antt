-- ===== src/Malloclab/Driver.antt =====
-- The two evaluations of malloclab/mdriver.c, for any allocator. A block's bytes are read and filled
-- through the allocator's heap; sizes and indices come from the trace and are not negative.
pub mod FirstFit
pub mod Explicit
pub mod Service
pub mod Recorded
pub mod Slots
pub mod Passes
mod Tests
use git_sty.Base.{
  ℕ, zero, suc, ◌+◌, ◌%◌, Bool, true, ◌&&◌, Option, none, some, List, [], ◌∷◌, ◌==◌, ltb,
  if◌then◌else◌, set, get_or,
}
use git_sty.Malloclab.Memlib.{Mem}
use git_sty.Malloclab.Ranges.{
  Range, Complaint, Added, added, refused, no_memory, add_range, remove_range, clear_ranges,
}

-- An allocator on a heap `M` and what the driver needs of the heap. `none` is NULL.
pub record Allocator (M : Type 0) : Type 0 where
  pub mem : M → Mem
  pub mem_reset_brk : M → M
  pub mm_init : M → Bool × M
  pub mm_malloc : ℕ → M → Option ℕ × M
  pub mm_realloc : ℕ → ℕ → M → Option ℕ × M
  pub mm_free : ℕ → M → M
  pub load : M → ℕ → ℕ
  pub memset : (p c size : ℕ) → M → M

pub data TraceOp : Type 0 where
  alloc realloc : (index size : ℕ) → TraceOp
  free : (index : ℕ) → TraceOp

-- What `eval_mm_valid` answers: 1, 0 with a message, or the assertion of `add_range` or a lack of
-- memory for its record ends the driver.
pub data Verdict : Type 0 where
  valid init_failed malloc_failed realloc_failed data_lost aborted exited : Verdict
  bad_range : Complaint → Verdict

-- The heap, the range list, and the arrays `blocks` and `block_sizes` of the trace.
pub record Run (M : Type 0) : Type 0 where
  pub heap : M
  pub ranges : List Range
  pub blocks : List ℕ
  pub block_sizes : List ℕ

pub data Step (M : Type 0) : Type 0 where
  next : Run M → Step M
  stop : Verdict → Step M

-- Is each of the first `n` bytes at `p` the byte `c`? A `char` has a sign and `c` has none, so that a
-- byte from 128 on never is.
unfoldable pub preserved : {M : Type 0} → Allocator M → M → (p c n : ℕ) → Bool
preserved a m p c zero = true
preserved a m p c (suc n) = preserved a m p c n && ((a.load m (p + n) == c) && ltb c 128)

module _ {M : Type 0} (a : Allocator M) (memory : Bool) where
  -- Fill the block and remember it.
  unfoldable pub keep : (p index size : ℕ) → M → List Range → Run M → Run M
  keep p index size m rs r = record {
    heap = a.memset p (index % 256) size m;
    ranges = rs;
    blocks = set r.blocks index p;
    block_sizes = set r.block_sizes index size;
  }

  unfoldable pub check_alloc : (p index size : ℕ) → M → Run M → Added → Step M
  check_alloc p index size m r (added rs) = next (keep p index size m rs r)
  check_alloc p index size m r (refused c) = stop (bad_range c)
  check_alloc p index size m r no_memory = stop exited

  unfoldable pub after_malloc : (index size : ℕ) → Run M → Option ℕ × M → Step M
  after_malloc index size r (none, m) = stop malloc_failed
  after_malloc index size r (some p, m) =
      if size == 0
      then stop aborted
      else check_alloc p index size m r (add_range memory (a.mem m) r.ranges p size)

  unfoldable pub check_realloc : (p index size : ℕ) → M → Run M → Added → Step M
  check_realloc p index size m r (added rs) =
      let old = get_or r.block_sizes index 0 in
      let n = if ltb size old then size else old in
      if preserved a m p (index % 256) n then next (keep p index size m rs r) else stop data_lost
  check_realloc p index size m r (refused c) = stop (bad_range c)
  check_realloc p index size m r no_memory = stop exited

  unfoldable pub after_realloc : (oldp index size : ℕ) → Run M → Option ℕ × M → Step M
  after_realloc oldp index size r (none, m) = stop realloc_failed
  after_realloc oldp index size r (some p, m) =
      if size == 0
      then stop aborted
      else check_realloc p index size m r
          (add_range memory (a.mem m) (remove_range r.ranges oldp) p size)

  unfoldable pub valid_op : TraceOp → Run M → Step M
  valid_op (alloc index size) r = after_malloc index size r (a.mm_malloc size r.heap)
  valid_op (realloc index size) r =
      let oldp = get_or r.blocks index 0 in
      after_realloc oldp index size r (a.mm_realloc oldp size r.heap)
  valid_op (free index) r =
      let p = get_or r.blocks index 0 in
      next (record {
        heap = a.mm_free p r.heap;
        ranges = remove_range r.ranges p;
        blocks = r.blocks;
        block_sizes = r.block_sizes;
      })

  unfoldable pub valid_ops : List TraceOp → Run M → Verdict
  valid_ops [] r = valid
  valid_ops (op ∷ ops) r = elim (valid_op op r) [ next r' ↦ valid_ops ops r' | stop v ↦ v ]

  unfoldable pub eval_mm_valid : List TraceOp → Run M → Verdict
  eval_mm_valid ops r =
      let (ok, m) = a.mm_init (a.mem_reset_brk r.heap) in
      let r' : Run M = record {
        heap = m;
        ranges = clear_ranges r.ranges;
        blocks = r.blocks;
        block_sizes = r.block_sizes;
      } in
      let v = valid_ops ops r' in if ok then v else init_failed
