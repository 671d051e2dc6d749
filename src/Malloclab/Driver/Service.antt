-- ===== src/Malloclab/Driver/Service.antt =====
-- What malloclab/mdriver.c asks of an allocator, whichever it is.
use git_sty.Base.{ℕ, ◌+◌, ◌%◌, ◌≤◌, ◌<◌, ◌≡◌, true, Option, none, some}
use git_sty.Malloclab.FirstFit.Live.{Live, update}
use git_sty.Malloclab.Driver.{Allocator}

-- The answer to a request of `size` bytes: a block that was not in use, or NULL.
unfoldable pub Answered : {M : Type 0} → (M → Live → Type 0) → ℕ → Live → Option ℕ × M → Type 0
Answered R size live (some q, h) = (live q ≡ none) × R h (update q (some size) live)
Answered R size live (none, h) = R h live

-- From `h₀` on, however blocks of 1 to 2^32 - 16 bytes are allocated, filled and freed, the blocks in use are
-- aligned, inside the heap
-- and apart. `Reached` says which heaps serve which blocks.
pub record Service {M : Type 0} (a : Allocator M) (h₀ : M) : Type 1 where
  pub Reached : M → Live → Type 0
  pub starts : ((a.mm_init h₀).0 ≡ true) × Reached ((a.mm_init h₀).1) (λ q. none)
  pub allocates :
      (h : M) (live : Live) (size : ℕ)
      → Reached h live
      → 0 < size
      → size + 15 < 4294967296
      → Answered Reached size live (a.mm_malloc size h)
  pub frees :
      (h : M) (live : Live) (q size : ℕ)
      → Reached h live
      → live q ≡ some size
      → Reached (a.mm_free q h) (update q none live)
  pub fills :
      (h : M) (live : Live) (q c size : ℕ)
      → Reached h live
      → live q ≡ some size
      → Reached (a.memset q c size h) live
  pub inside :
      (h : M) (live : Live) (q size : ℕ)
      → Reached h live
      → live q ≡ some size
      → (q % 8 ≡ 0) × (((a.mem h).start_brk ≤ q) × (q + size + 8 ≤ (a.mem h).brk))
  pub apart :
      (h : M) (live : Live) (q r size next : ℕ)
      → Reached h live
      → live q ≡ some size
      → live r ≡ some next
      → q < r
      → q + size + 8 ≤ r
