-- ===== src/Malloclab/Driver/Passes.antt =====
-- The test of malloclab/mdriver.c on an allocator that keeps its contract: `eval_mm_valid` on traces that
-- allocate and free.
use git_sty.Base.{ℕ, ◌+◌, ◌≡◌, ◌⊎◌, inr, Bool, true, false, not, ◌&&◌, ltb, List, [], ◌∷◌, length}
use git_sty.Malloclab.FirstFit.Live.{Live}
use git_sty.Malloclab.Driver.{
  Allocator, TraceOp, alloc, realloc, free, Verdict, valid, malloc_failed, Run, Step, next, stop,
  valid_ops,
}
use git_sty.Malloclab.Driver.Service.{Service}
use git_sty.Malloclab.Driver.Slots.{mark, Slots}
use git_sty.Malloclab.Driver.Recorded.{Recorded}

-- A trace over `n` indices that allocates into an index that is not used, one byte or more and less
-- than overflows, and frees a used one. It does not reallocate.
unfoldable pub well_formed : ℕ → (ℕ → Bool) → List TraceOp → Bool
well_formed n used [] = true
well_formed n used (alloc i size ∷ ops) =
    let rest = well_formed n (mark i true used) ops in
    ltb i n && (not (used i) && (ltb 0 size && (ltb (size + 15) 4294967296 && rest)))
well_formed n used (realloc i size ∷ ops) = false
well_formed n used (free i ∷ ops) =
    let rest = well_formed n (mark i false used) ops in ltb i n && (used i && rest)

-- The driver's view and the allocator's agree: the ranges are the blocks in use, and each used index
-- holds the pointer to one of its own.
pub record Watched {M : Type 0} (R : M → Live → Type 0) (n : ℕ) (used : ℕ → Bool) (r : Run M)
    : Type 0 where
  pub live : Live
  pub reached : R r.heap live
  pub recorded : Recorded live r.ranges
  pub slots : Slots live used r.blocks
  pub room : length r.blocks ≡ n

abbrev pub Passes : Verdict → Type 0
Passes v = (v ≡ valid) ⊎ (v ≡ malloc_failed)

unfoldable Steps : {M : Type 0} → (M → Live → Type 0) → ℕ → (ℕ → Bool) → Step M → Type 0
Steps R n used (next r) = Watched R n used r
Steps R n used (stop v) = v ≡ malloc_failed

module _ {M : Type 0} (a : Allocator M) (h₀ : M) (sv : Service a h₀) (n : ℕ) where
  after :
      (ops : List TraceOp) (used : ℕ → Bool) (s : Step M)
      → Steps sv.Reached n used s
      → ((r : Run M) → Watched sv.Reached n used r → Passes (valid_ops a true ops r))
      → Passes (elim s [ next r' ↦ valid_ops a true ops r' | stop v ↦ v ])
  unfolding Steps
  after ops used (next r) w f = f r w
  after ops used (stop v) w f = inr w
