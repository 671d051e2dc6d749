-- ===== src/Malloclab/Speed.antt =====
-- `eval_mm_speed` of malloclab/mdriver.c, for any allocator.
pub mod Finishes
mod Tests
use git_sty.Base.{ℕ, Bool, Option, none, some, List, [], ◌∷◌, if◌then◌else◌, set, get_or}
use git_sty.Malloclab.Driver.{Allocator, TraceOp, alloc, realloc, free}

-- Going on, with the heap and the array of blocks, or the message of `app_error`, which ends the driver.
pub data Finish (M : Type 0) : Type 0 where
  finished : M → List ℕ → Finish M
  init_error malloc_error realloc_error : Finish M

-- Store the pointer, or stop with the message `failure` where it is NULL.
unfoldable pub keep_block : {M : Type 0} → Finish M → ℕ → List ℕ → Option ℕ × M → Finish M
keep_block failure index blocks (none, m) = failure
keep_block failure index blocks (some p, m) = finished m (set blocks index p)

module _ {M : Type 0} (a : Allocator M) where
  unfoldable pub speed_op : TraceOp → M → List ℕ → Finish M
  speed_op (alloc index size) m blocks = keep_block malloc_error index blocks (a.mm_malloc size m)
  speed_op (realloc index newsize) m blocks =
      keep_block realloc_error index blocks (a.mm_realloc (get_or blocks index 0) newsize m)
  speed_op (free index) m blocks = finished (a.mm_free (get_or blocks index 0) m) blocks

  unfoldable pub speed_ops : List TraceOp → M → List ℕ → Finish M
  speed_ops [] m blocks = finished m blocks
  speed_ops (op ∷ ops) m blocks = elim (speed_op op m blocks) [
    | finished m' blocks' ↦ speed_ops ops m' blocks'
    | init_error ↦ init_error
    | malloc_error ↦ malloc_error
    | realloc_error ↦ realloc_error
  ]

  unfoldable pub eval_mm_speed : List TraceOp → M → List ℕ → Finish M
  eval_mm_speed ops m blocks =
      let (ok, m') = a.mm_init (a.mem_reset_brk m) in
      let r = speed_ops ops m' blocks in if ok then r else init_error
