-- ===== src/Malloclab/Ranges.antt =====
-- The range list of malloclab/mdriver.c, with which the driver checks the blocks an allocator hands
-- out.
pub mod Disjoint
mod Tests
use git_sty.Base.{
  ℕ, ◌+◌, ◌-◌, ◌%◌, Bool, true, false, ◌&&◌, ◌||◌, not, List, [], ◌∷◌, ◌==◌, leb, ltb,
  if◌then◌else◌,
}
use git_sty.Malloclab.Memlib.{Mem, mem_heap_lo, mem_heap_hi}

abbrev pub alignment : ℕ
alignment = 8

pub record Range : Type 0 where
  pub lo : ℕ
  pub hi : ℕ

pub data Complaint : Type 0 where
  not_aligned outside_heap : Complaint
  overlaps : Range → Complaint

-- What `add_range` does: record the block, complain, or exit because `malloc` has no memory.
pub data Added : Type 0 where
  added : List Range → Added
  refused : Complaint → Added
  no_memory : Added

unfoldable pub within : Range → ℕ → ℕ → Bool
within p lo hi = (leb p.lo lo && leb lo p.hi) || (leb p.lo hi && leb hi p.hi)

unfoldable pub in_heap : Mem → ℕ → ℕ → Bool
in_heap m lo hi = not (
    ltb lo (mem_heap_lo m)
    || (ltb (mem_heap_hi m) lo || (ltb hi (mem_heap_lo m) || ltb (mem_heap_hi m) hi)))

-- The loop over the ranges, and what comes after it.
unfoldable pub no_overlap : List Range → (memory : Bool) → List Range → ℕ → ℕ → Added
no_overlap [] memory all lo hi =
    if memory then added (record { lo = lo; hi = hi } ∷ all) else no_memory
no_overlap (p ∷ ps) memory all lo hi =
    let rest = no_overlap ps memory all lo hi in
    if within p lo hi then refused (overlaps p) else rest

-- For a `size` above 0, which the code asserts. `memory`: `malloc` has a record for the block.
unfoldable pub add_range : (memory : Bool) → Mem → List Range → (lo size : ℕ) → Added
add_range memory m ranges lo size =
    let hi = (lo + size) - 1 in
    let checked = no_overlap ranges memory ranges lo hi in
    if not (lo % alignment == 0)
    then refused not_aligned
    else if not (in_heap m lo hi)
    then refused outside_heap
    else checked

unfoldable pub remove_range : List Range → ℕ → List Range
remove_range [] lo = []
remove_range (p ∷ ps) lo = let rest = remove_range ps lo in if p.lo == lo then ps else p ∷ rest

abbrev pub clear_ranges : List Range → List Range
clear_ranges ranges = []
