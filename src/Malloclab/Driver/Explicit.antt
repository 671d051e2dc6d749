-- ===== src/Malloclab/Driver/Explicit.antt =====
-- The allocator malloclab/mm.c as one that malloclab/mdriver.c can test. Its `mm_realloc` is a
-- parameter: the program may crash in it.
use git_sty.Base.{ℕ, suc, ◌+◌, ◌≤◌, ◌≡◌, ◌<◌, refl, sym, Option, none, some, arith}
use mathlib.Core.Path.{subst}
use git_sty.Malloclab.Memlib
use git_sty.Malloclab.FirstFit.{adjust}
use git_sty.Malloclab.FirstFit.Bytes.{get_byte, memset_outside}
use git_sty.Malloclab.FirstFit.Bytes
use git_sty.Malloclab.FirstFit.Live.{Live, update}
use git_sty.Malloclab.FirstFit.Malloc.{adjust_lem}
use git_sty.Malloclab.Explicit.{State, with_list, with_words, Outcome, returns, searching, crashed}
use git_sty.Malloclab.Explicit
use git_sty.Malloclab.Explicit.Blocks.{Map}
use git_sty.Malloclab.Explicit.Heaped.{Mallocs}
use git_sty.Malloclab.Explicit.Calls.{mm_malloc-Mallocs, Frees, mm_free-Frees}
use git_sty.Malloclab.Explicit.Client.{
  Sound, CanStart, first_block, mm_init-Sound, allocated-Sound, freed-Sound, written-Sound,
  Sound_inside, Sound_apart,
}
use git_sty.Malloclab.Driver.{Allocator}
use git_sty.Malloclab.Driver.Service.{Answered, Service}

-- The pointer and the state of a call that returns. One that does not, as `mm_malloc` and `mm_free` never are
-- below, stands as NULL.
abbrev pub returned : State → Outcome → Option ℕ × State
returned s (returns p s') = (p, s')
returned s searching = (none, s)
returned s crashed = (none, s)

abbrev pub reset : State → State
reset s = record { list = s.list; mem = Memlib.mem_reset_brk s.mem; heap_listp = s.heap_listp }

abbrev pub explicit : (ℕ → ℕ → State → Option ℕ × State) → Allocator State
explicit realloc = record {
  mem = λ s. s.mem;
  mem_reset_brk = reset;
  mm_init = Explicit.mm_init;
  mm_malloc = λ size s. returned s (Explicit.mm_malloc (suc s.mem.brk) size s);
  mm_realloc = realloc;
  mm_free = λ q s. (returned s (Explicit.mm_free (suc s.mem.brk) q s)).1;
  load = λ s p. get_byte s.list.words p;
  memset = λ p c size s. with_list (with_words (Bytes.memset p c size s.list.words) s.list) s;
}

module _ (lo : ℕ) (s : State) (live : Live) (k : Sound lo s live) where
  answered :
      (size : ℕ) (o : Outcome)
      → size + 8 ≤ adjust size
      → Mallocs (adjust size) lo k.blocks s o
      → Answered (Sound lo) size live (returned s o)
  unfolding Mallocs Answered
  answered size (returns (some q) s') l g = allocated-Sound lo (adjust size) q size s s' live k l g
  answered size (returns none s') l (e, f) = subst (λ t. Sound lo t live) (sym e) k
  answered size searching l f = absurd f
  answered size crashed l f = absurd f

  still_served :
      (q : ℕ) (o : Outcome)
      → Frees q lo k.blocks s o
      → Sound lo ((returned s o).1) (update q none live)
  unfolding Frees
  still_served q (returns r s') (a, (b, (fs, (size, h)))) = freed-Sound lo q size s s' live fs k h
  still_served q searching f = absurd f
  still_served q crashed f = absurd f

malloc_returns :
    (asize lo : ℕ) (m : Map) (s : State) (o : Outcome)
    → Mallocs asize lo m s o
    → (p : Option ℕ) × ((s' : State) × (o ≡ returns p s'))
unfolding Mallocs
malloc_returns asize lo m s (returns p s') h = (p, (s', refl))
malloc_returns asize lo m s searching h = absurd h
malloc_returns asize lo m s crashed h = absurd h

free_returns :
    (q lo : ℕ) (m : Map) (s : State) (o : Outcome)
    → Frees q lo m s o
    → (p : Option ℕ) × ((s' : State) × (o ≡ returns p s'))
unfolding Frees
free_returns q lo m s (returns p s') h = (p, (s', refl))
free_returns q lo m s searching h = absurd h
free_returns q lo m s crashed h = absurd h

abbrev explicit_service :
    (re : ℕ → ℕ → State → Option ℕ × State) (s₀ : State) → CanStart s₀ → Service (explicit re) s₀
explicit_service re s₀ c =
    let lo = first_block s₀ in
    record {
      Reached = Sound lo;
      starts = mm_init-Sound s₀ c;
      allocates = λ s live size k z o.
          answered lo s live k size (Explicit.mm_malloc (suc s.mem.brk) size s)
            ((adjust_lem size o).1.1)
            (mm_malloc-Mallocs s lo k.blocks k.free (suc s.mem.brk) size k.heaped z o
              (omega arith));
      frees = λ s live q size k e.
          let b = k.serving q size e in
          still_served lo s live k q (Explicit.mm_free (suc s.mem.brk) q s) (
            mm_free-Frees s lo k.blocks k.free (suc s.mem.brk) q b.bytes k.heaped b.block
              (omega arith));
      fills = λ s live q v size k e.
          let i = Sound_inside lo s live k q size e in
          written-Sound lo s live k q size (Bytes.memset q v size s.list.words) e
            (λ r d. memset_outside q v size r s.list.words (omega (arith, i.0)) d);
      inside = λ s live q size k e.
          let i = Sound_inside lo s live k q size e in
          (i.0, (omega (arith, i.1.0, k.heaped.start), i.1.1));
      apart = λ s live q r size next k e f l. Sound_apart lo s live k q r size next e f l;
    }

-- The contract is kept, by calls that return.
pub record Keeps (re : ℕ → ℕ → State → Option ℕ × State) (s₀ : State) : Type 1 where
  pub service : Service (explicit re) s₀
  pub malloc_ends :
      (s : State) (live : Live) (size : ℕ)
      → service.Reached s live
      → 0 < size
      → size + 15 < 4294967296
      → (p : Option ℕ) × ((s' : State) × (Explicit.mm_malloc (suc s.mem.brk) size s ≡ returns p s'))
  pub free_ends :
      (s : State) (live : Live) (q size : ℕ)
      → service.Reached s live
      → live q ≡ some size
      → (p : Option ℕ) × ((s' : State) × (Explicit.mm_free (suc s.mem.brk) q s ≡ returns p s'))

-- On a heap that has room for the first 16 bytes, the allocator malloclab/mm.c keeps the contract of an allocator:
-- however blocks of 1 to 2^32 - 16 bytes are allocated, filled and freed, a block that is returned was not in
-- use, the blocks in use are aligned, inside the heap and apart, and each such call of `mm_malloc` and `mm_free`
-- returns: it neither crashes nor runs out of the fuel, the break and one more.
pub explicit-Service :
    (re : ℕ → ℕ → State → Option ℕ × State) (s₀ : State) → CanStart s₀ → Keeps re s₀
explicit-Service re s₀ c =
    let lo = first_block s₀ in
    record {
      service = explicit_service re s₀ c;
      malloc_ends = λ s live size k z o.
          malloc_returns (adjust size) lo k.blocks s (Explicit.mm_malloc (suc s.mem.brk) size s) (
            mm_malloc-Mallocs s lo k.blocks k.free (suc s.mem.brk) size k.heaped z o (omega arith));
      free_ends = λ s live q size k e.
          let b = k.serving q size e in
          free_returns q lo k.blocks s (Explicit.mm_free (suc s.mem.brk) q s) (
            mm_free-Frees s lo k.blocks k.free (suc s.mem.brk) q b.bytes k.heaped b.block
              (omega arith));
    }
