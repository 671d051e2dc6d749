-- ===== src/Malloclab/Util.antt =====
-- `eval_mm_util` of malloclab/mdriver.c, for any allocator. The sums are `int`s, as 32-bit patterns;
-- the quotient of `double`s is left as a pair.
use git_sty.Base.{
  ℕ, ◌+◌, ◌-◌, ◌%◌, ◌^◌, Bool, Option, none, some, List, [], ◌∷◌, ltb, if◌then◌else◌, set, get_or,
}
use git_sty.Malloclab.Memlib.{mem_heapsize}
use git_sty.Malloclab.Driver.{Allocator, TraceOp, alloc, realloc, free}

-- `x > y` on `int`.
abbrev pub greater : ℕ → ℕ → Bool
greater x y = ltb ((y + 2 ^ 31) % 2 ^ 32) ((x + 2 ^ 31) % 2 ^ 32)

-- The heap, the arrays of the trace, `total_size` and `max_total_size`.
pub record Usage (M : Type 0) : Type 0 where
  pub heap : M
  pub blocks : List ℕ
  pub block_sizes : List ℕ
  pub total_size : ℕ
  pub max_total_size : ℕ

module _ {M : Type 0} (a : Allocator M) where
  -- Remember the block and count what `total_size` becomes; `none` is NULL, which ends the driver.
  unfoldable pub remember : (index size total : ℕ) → Usage M → Option ℕ × M → Option (Usage M)
  remember index size total u (none, m) = none
  remember index size total u (some p, m) = some (record {
    heap = m;
    blocks = set u.blocks index p;
    block_sizes = set u.block_sizes index size;
    total_size = total;
    max_total_size = if greater total u.max_total_size then total else u.max_total_size;
  })

  unfoldable pub util_op : TraceOp → Usage M → Option (Usage M)
  util_op (alloc index size) u =
      remember index size ((u.total_size + size) % 2 ^ 32) u (a.mm_malloc size u.heap)
  util_op (realloc index newsize) u =
      let oldsize = get_or u.block_sizes index 0 in
      let diff = ((newsize + 2 ^ 32) - oldsize) % 2 ^ 32 in
      remember index newsize ((u.total_size + diff) % 2 ^ 32) u
        (a.mm_realloc (get_or u.blocks index 0) newsize u.heap)
  util_op (free index) u = some (record {
    heap = a.mm_free (get_or u.blocks index 0) u.heap;
    blocks = u.blocks;
    block_sizes = u.block_sizes;
    total_size = ((u.total_size + 2 ^ 32) - get_or u.block_sizes index 0) % 2 ^ 32;
    max_total_size = u.max_total_size;
  })

  unfoldable pub util_ops : List TraceOp → Usage M → Option (Usage M)
  util_ops [] u = some u
  util_ops (op ∷ ops) u = elim (util_op op u) [ none ↦ none | some u' ↦ util_ops ops u' ]

  -- The high water mark and the size of the heap.
  unfoldable pub utilization : Option (Usage M) → Option (ℕ × ℕ)
  utilization none = none
  utilization (some u) = some (u.max_total_size, mem_heapsize (a.mem u.heap))

  unfoldable pub eval_mm_util : List TraceOp → (blocks block_sizes : List ℕ) → M → Option (ℕ × ℕ)
  eval_mm_util ops blocks block_sizes m =
      let (ok, m') = a.mm_init (a.mem_reset_brk m) in
      let u : Usage M = record {
        heap = m';
        blocks = blocks;
        block_sizes = block_sizes;
        total_size = 0;
        max_total_size = 0;
      } in
      let r = utilization (util_ops ops u) in if ok then r else none
