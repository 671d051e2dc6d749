-- ===== src/Malloclab/Speed/Finishes.antt =====
-- `eval_mm_speed` on an allocator that keeps its contract.
use git_sty.Base.{ℕ, ◌≡◌, Bool, true, false, List, [], ◌∷◌, length}
use git_sty.Malloclab.FirstFit.Live.{Live}
use git_sty.Malloclab.Driver.{TraceOp, alloc, realloc, free}
use git_sty.Malloclab.Driver.Service.{Service}
use git_sty.Malloclab.Driver.Slots.{mark, Slots}
use git_sty.Malloclab.Speed.{Finish, finished, init_error, malloc_error, realloc_error}

-- The array holds the blocks in use at the used indices.
pub record Served {M : Type 0} (R : M → Live → Type 0) (n : ℕ) (used : ℕ → Bool) (m : M)
    (blocks : List ℕ) : Type 0 where
  pub live : Live
  pub reached : R m live
  pub slots : Slots live used blocks
  pub room : length blocks ≡ n

-- The array is served, or a request found no memory.
unfoldable pub Finishes : {M : Type 0} → (M → Live → Type 0) → ℕ → (ℕ → Bool) → Finish M → Type 0
Finishes R n used (finished m blocks) = Served R n used m blocks
Finishes R n used malloc_error = Unit
Finishes R n used init_error = ⊥
Finishes R n used realloc_error = ⊥

-- The indices that are used behind a trace.
unfoldable pub used_after : (ℕ → Bool) → List TraceOp → ℕ → Bool
used_after used [] = used
used_after used (alloc i size ∷ ops) = used_after (mark i true used) ops
used_after used (realloc i size ∷ ops) = used_after used ops
used_after used (free i ∷ ops) = used_after (mark i false used) ops
