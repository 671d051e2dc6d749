-- ===== src/Malloclab/Ranges/Disjoint.antt =====
-- The range list stays a list of disjoint blocks, unless a block swallows a recorded one.
use git_sty.Base.{
  ℕ, ◌+◌, ◌-◌, ◌%◌, ◌<◌, ◌≤◌, ◌≡◌, ◌⊎◌, inl, inr, refl, Bool, true, false, not, ◌||◌, ◌&&◌, List,
  [], ◌∷◌, ◌==◌, arith, Bool-cases,
}
use git_sty.Malloclab.Memlib.{Mem, mem_heap_lo, mem_heap_hi}
use git_sty.Malloclab.Ranges.{
  Range, Added, added, refused, no_memory, within, in_heap, no_overlap, add_range, remove_range,
  alignment,
}

unfoldable pub Apart : Range → Range → Type 0
Apart p q = (p.hi < q.lo) ⊎ (q.hi < p.lo)

unfoldable pub AllApart : Range → List Range → Type 0
AllApart r [] = Unit
AllApart r (p ∷ ps) = Apart r p × AllApart r ps

-- Blocks of at least one byte, no two of which share one.
unfoldable pub Disjoint : List Range → Type 0
Disjoint [] = Unit
Disjoint (p ∷ ps) = (p.lo ≤ p.hi) × (AllApart p ps × Disjoint ps)

-- No recorded block lies between `lo` and `hi` with room on both sides.
unfoldable pub NoneInside : ℕ → ℕ → List Range → Type 0
NoneInside lo hi [] = Unit
NoneInside lo hi (p ∷ ps) = ((p.lo ≤ lo) ⊎ (hi ≤ p.hi)) × NoneInside lo hi ps

-- Each recorded block does.
unfoldable pub AllInside : ℕ → ℕ → List Range → Type 0
AllInside lo hi [] = Unit
AllInside lo hi (p ∷ ps) = ((lo < p.lo) × (p.hi < hi)) × AllInside lo hi ps

-- What a successful `add_range` leaves is disjoint.
unfoldable pub KeepsDisjoint : Added → Type 0
KeepsDisjoint (added rs) = Disjoint rs
KeepsDisjoint (refused c) = Unit
KeepsDisjoint no_memory = Unit

Apart-block :
    (p : Range) (lo hi : ℕ)
    → within p lo hi ≡ false
    → p.lo ≤ p.hi
    → lo ≤ hi
    → (p.lo ≤ lo) ⊎ (hi ≤ p.hi)
    → Apart (record { lo = lo; hi = hi }) p
unfolding within Apart
Apart-block p lo hi e a b c = ground arith

no_overlap-KeepsDisjoint :
    (ps : List Range) (memory : Bool) (all : List Range) (lo hi : ℕ)
    → lo ≤ hi
    → Disjoint ps
    → NoneInside lo hi ps
    → (AllApart (record { lo = lo; hi = hi }) ps → Disjoint (record { lo = lo; hi = hi } ∷ all))
    → KeepsDisjoint (no_overlap ps memory all lo hi)
unfolding no_overlap KeepsDisjoint Disjoint NoneInside AllApart
no_overlap-KeepsDisjoint [] true all lo hi l d n k = k tt
no_overlap-KeepsDisjoint [] false all lo hi l d n k = tt
no_overlap-KeepsDisjoint (p ∷ ps) memory all lo hi l (x, (y, z)) (n, m) k =
    elim (Bool-cases (within p lo hi)) [
      | inl e ↦ rw e tt
      | inr e ↦ rw e (
          no_overlap-KeepsDisjoint ps memory all lo hi l z m
            (λ a. k (Apart-block p lo hi e x l n, a)))
    ]

-- If the recorded blocks are disjoint and none of them lies strictly inside the new block of `size`
-- bytes, at least one, at `lo`, then after an accepted `add_range` the recorded blocks are again disjoint.
pub add_range-KeepsDisjoint :
    (memory : Bool) (m : Mem) (rs : List Range) (lo size : ℕ)
    → 0 < size
    → Disjoint rs
    → NoneInside lo ((lo + size) - 1) rs
    → KeepsDisjoint (add_range memory m rs lo size)
unfolding add_range KeepsDisjoint Disjoint
add_range-KeepsDisjoint memory m rs lo size z d n =
    let kept =
      no_overlap-KeepsDisjoint rs memory rs lo ((lo + size) - 1) (omega arith) d n
        (λ a. (omega arith, (a, d))) in
    elim (Bool-cases (lo % alignment == 0)) [
      | inr e ↦ rw e tt
      | inl e ↦ elim (Bool-cases (in_heap m lo ((lo + size) - 1))) [
        | inl f ↦ rw (e, f) kept
        | inr f ↦ rw (e, f) tt
      ]
    ]

swallowed : (p : Range) (lo hi : ℕ) → p.lo ≤ p.hi → lo < p.lo → p.hi < hi → within p lo hi ≡ false
unfolding within
swallowed p lo hi a b c = ground arith

no_overlap_swallows :
    (ps all : List Range) (lo hi : ℕ)
    → Disjoint ps
    → AllInside lo hi ps
    → no_overlap ps true all lo hi ≡ added (record { lo = lo; hi = hi } ∷ all)
unfolding no_overlap AllInside Disjoint
no_overlap_swallows [] all lo hi d a = refl
no_overlap_swallows (p ∷ ps) all lo hi (x, (y, z)) ((b, c), a) =
    rw (swallowed p lo hi x b c) (no_overlap_swallows ps all lo hi z a)

pub inside :
    (m : Mem) (lo size : ℕ)
    → mem_heap_lo m ≤ lo
    → lo + size ≤ mem_heap_hi m
    → 0 < size
    → in_heap m lo ((lo + size) - 1) ≡ true
unfolding in_heap
inside m lo size a b c = ground arith

-- An aligned block inside the heap that swallows each of the recorded blocks, which are disjoint, with
-- room on both sides, is accepted and recorded where `malloc` has memory for its record.
pub add_range_gap :
    (m : Mem) (rs : List Range) (lo size : ℕ)
    → Disjoint rs
    → (lo % alignment == 0) ≡ true
    → mem_heap_lo m ≤ lo
    → lo + size ≤ mem_heap_hi m
    → 0 < size
    → AllInside lo ((lo + size) - 1) rs
    → add_range true m rs lo size ≡ added (record { lo = lo; hi = (lo + size) - 1 } ∷ rs)
unfolding add_range
add_range_gap m rs lo size d e a b c i =
    rw (e, inside m lo size a b c) (no_overlap_swallows rs rs lo ((lo + size) - 1) d i)

unfoldable pub starts : ℕ → List Range → Bool
starts l [] = false
starts l (p ∷ ps) = (p.lo == l) || starts l ps

apart_starts :
    (p : Range) (ps : List Range)
    → p.lo ≤ p.hi
    → Disjoint ps
    → AllApart p ps
    → starts p.lo ps ≡ false
unfolding starts AllApart Apart Disjoint
apart_starts p [] l d a = refl
apart_starts p (q ∷ ps) l (x, (y, z)) (b, a) = ground (arith, apart_starts p ps l z a)

-- In a list of disjoint blocks `remove_range` forgets the one block that starts at `lo` and keeps each
-- other: the starts recorded afterwards are those before without `lo`.
pub starts-remove_range :
    (rs : List Range) (lo l : ℕ)
    → Disjoint rs
    → starts l (remove_range rs lo) ≡ (not (l == lo) && starts l rs)
unfolding starts remove_range Disjoint
starts-remove_range [] lo l d = ground arith
starts-remove_range (p ∷ ps) lo l (x, (y, z)) =
    ground (arith, starts-remove_range ps lo l z, apart_starts p ps x z y)
