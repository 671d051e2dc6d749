-- ===== src/Malloclab/Explicit/Calls.antt =====
-- `mm_malloc` and `mm_free` of malloclab/mm.c on a heap in order.
use git_sty.Base.{
  ℕ, ◌+◌, ◌<◌, ◌≡◌, inl, inr, refl, Option, none, some, List, ◌==◌, false, Bool-cases, arith,
}
use git_sty.Malloclab.Memlib.{mem_sbrk}
use git_sty.Malloclab.Memlib.Bounds.{mem_sbrk-Grows}
use git_sty.Malloclab.FirstFit.{adjust}
use git_sty.Malloclab.FirstFit.Chain.{Block}
use git_sty.Malloclab.FirstFit.Malloc.{adjust_lem}
use git_sty.Malloclab.FreeList.{FreeList, add_free_block}
use git_sty.Malloclab.FreeList.Boundary.{coalesce_lem}
use git_sty.Malloclab.Explicit.{
  State, with_words, Outcome, returns, searching, crashed, mark, after_add, pick, may_fit,
  mm_malloc, mm_free,
}
use git_sty.Malloclab.Explicit.Blocks.{Map, enter, Fits, size_of_lem}
use git_sty.Malloclab.Explicit.Listed.{other-NotAmong, mark-Listed}
use git_sty.Malloclab.Explicit.Moves.{StillListed, add-StillListed}
use git_sty.Malloclab.Explicit.Count.{length-free}
use git_sty.Malloclab.Explicit.Pick.{pick-Picks}
use git_sty.Malloclab.Explicit.Heaped.{Heaped, Mallocs, with_list-Heaped}
use git_sty.Malloclab.Explicit.Fit.{pick-Mallocs}
use git_sty.Malloclab.Explicit.Grow.{extended-Mallocs}

-- On a heap in order, a request of at least one byte whose rounding does not overflow ends, where
-- the search may take more steps than the break has bytes.
pub mm_malloc-Mallocs :
    (s : State) (lo : ℕ) (m : Map) (fs : List ℕ) (fuel size : ℕ)
    → Heaped s lo m fs
    → 0 < size
    → size + 15 < 4294967296
    → s.mem.brk < fuel
    → Mallocs (adjust size) lo m s (mm_malloc fuel size s)
unfolding mm_malloc
mm_malloc-Mallocs s lo m fs fuel size h z o n =
    let a = adjust_lem size o in
    let asize = adjust size in
    let e : (size == 0) ≡ false = ground arith in
    let l = length-free s.list lo s.mem.brk m fs h.listed in
    elim (Bool-cases (may_fit asize s.list)) [
      | inl x ↦
          rw (e, x)
            (pick-Mallocs s lo m fs h fuel asize a.0 a.1.0 n (pick fuel asize s.list)
              (pick-Picks fuel asize s.list fs h.listed.holds x (omega (arith, l, n))))
      | inr x ↦
          rw (e, x)
            (extended-Mallocs s lo m fs h fuel asize a.0 a.1.0 n (mem_sbrk asize s.mem)
              (mem_sbrk-Grows asize s.mem h.bounds))
    ]

-- What `mm_free` of the block at `q` owes: the others are as they were.
unfoldable pub Frees : ℕ → ℕ → Map → State → Outcome → Type 0
Frees q lo m s (returns r s') =
    (r ≡ none)
    × ((s'.mem ≡ s.mem) × ((fs : List ℕ) × ((size : ℕ) × Heaped s' lo (enter q size 0 m) fs)))
Frees q lo m s searching = ⊥
Frees q lo m s crashed = ⊥

added-Frees :
    (s : State) (lo q size : ℕ) (m : Map) (fs : List ℕ) (r : Option FreeList)
    → Heaped s lo m fs
    → StillListed lo s.mem.brk (enter q size 0 m) r
    → Frees q lo m s (after_add none s r)
unfolding StillListed after_add Frees
added-Frees s lo q size m fs (some l) h (gs, k) =
    (refl, (refl, (gs, (size, with_list-Heaped s lo m (enter q size 0 m) fs gs l h k))))
added-Frees s lo q size m fs none h k = k

pub mm_free-Frees :
    (s : State) (lo : ℕ) (m : Map) (fs : List ℕ) (fuel q size : ℕ)
    → Heaped s lo m fs
    → m q ≡ some (record { size = size; alloc = 1 })
    → s.mem.brk < fuel
    → Frees q lo m s (mm_free fuel q s)
unfolding mm_free
mm_free-Frees s lo m fs fuel q size h e n =
    let b : Block = record { size = size; alloc = 1 } in
    let hi = s.mem.brk in
    let t = h.listed.blocks.tagged q b e in
    let f : Fits lo hi q size m = record {
      aligned = t.aligned;
      size_ok = t.size_ok;
      least = t.least;
      low = t.low;
      high = t.high;
      room = h.listed.blocks.apart q b e;
    } in
    let d = other-NotAmong m q fs (λ r g v. ground (arith, g.1, v, e)) h.listed.free in
    let k = mark-Listed lo hi h.low s.list m fs q size 0 (omega arith) f d h.listed in
    let l = with_words (mark q size 0 s.list.words) s.list in
    let m' = enter q size 0 m in
    let c = coalesce_lem s.mem q l (omega (arith, h.start, t.low, t.high, t.least)) in
    rw (size_of_lem s.list.words lo hi q b t, c)
      (added-Frees s lo q size m fs (add_free_block fuel q l) h (
        add-StillListed lo hi l m' fs fuel q h.low (size, ground arith) d
          (omega (arith, n, length-free s.list lo hi m fs h.listed)) k))
