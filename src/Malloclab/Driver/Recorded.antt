-- ===== src/Malloclab/Driver/Recorded.antt =====
-- The range list of malloclab/mdriver.c beside the blocks that an allocator has in use.
use git_sty.Base.{
  ltb, ℕ, ◌+◌, ◌-◌, ◌%◌, ◌≤◌, ◌<◌, ◌≡◌, ◌≢◌, refl, true, false, ◌==◌, Option, none, some, List, [],
  ◌∷◌, arith, Bool-cases, inl, inr,
}
use git_sty.Malloclab.Memlib.{Mem}
use git_sty.Malloclab.Ranges.{
  Range, added, within, in_heap, no_overlap, add_range, remove_range, alignment,
}
use git_sty.Malloclab.Ranges.Disjoint.{starts, inside}
use git_sty.Malloclab.FirstFit.Live.{Live, update}

-- Each range is a block in use, with the bytes that were asked for, and no two start at one place.
unfoldable pub Recorded : Live → List Range → Type 0
Recorded live [] = Unit
Recorded live (p ∷ ps) =
    ((s : ℕ) × ((live p.lo ≡ some s) × ((0 < s) × (p.hi ≡ (p.lo + s) - 1))))
    × ((starts p.lo ps ≡ false) × Recorded live ps)

-- A block that was not in use has no range.
pub unused_starts :
    (live : Live) (q : ℕ) (ps : List Range) → live q ≡ none → Recorded live ps → starts q ps ≡ false
unfolding Recorded starts
unused_starts live q [] e r = refl
unused_starts live q (p ∷ ps) e ((s, (f, (z, g))), (t, r)) = elim (Bool-cases (p.lo == q)) [
  | inl d ↦ absurd (ground arith)
  | inr d ↦ rw d (unused_starts live q ps e r)
]

-- A change of what is in use at `q` does not matter to ranges that start elsewhere.
pub Recorded-update :
    (live : Live) (q : ℕ) (v : Option ℕ) (ps : List Range)
    → starts q ps ≡ false
    → Recorded live ps
    → Recorded (update q v live) ps
unfolding Recorded starts
Recorded-update live q v [] e r = tt
Recorded-update live q v (p ∷ ps) e ((s, (f, (z, g))), (t, r)) =
    ((s, (ground arith, (z, g))), (t, Recorded-update live q v ps (ground arith) r))

starts-remove :
    (l lo : ℕ) (ps : List Range) → starts l ps ≡ false → starts l (remove_range ps lo) ≡ false
unfolding starts remove_range
starts-remove l lo [] e = refl
starts-remove l lo (p ∷ ps) e = ground (arith, starts-remove l lo ps)

-- A block that is given free has its range removed.
pub Recorded-remove_range :
    (live : Live) (q : ℕ) (ps : List Range)
    → Recorded live ps
    → Recorded (update q none live) (remove_range ps q)
unfolding Recorded remove_range
Recorded-remove_range live q [] r = tt
Recorded-remove_range live q (p ∷ ps) ((s, (f, (z, g))), (t, r)) = elim (Bool-cases (p.lo == q)) [
  | inl d ↦ let m : p.lo ≡ q = ground arith in rw d (Recorded-update live q none ps (rw (← m) t) r)
  | inr d ↦
      rw d (
        (s, (ground arith, (z, g))),
        (starts-remove p.lo q ps t, Recorded-remove_range live q ps r),
      )
]

apart_within :
    (p : Range) (q size s : ℕ)
    → 0 < s
    → 0 < size
    → p.hi ≡ (p.lo + s) - 1
    → p.lo ≢ q
    → (p.lo < q → p.lo + s + 8 ≤ q)
    → (q < p.lo → q + size + 8 ≤ p.lo)
    → within p q ((q + size) - 1) ≡ false
unfolding within
apart_within p q size s z y e n a b = elim (Bool-cases (ltb p.lo q)) [
  | inl d ↦ let k = a (ground arith) in ground arith
  | inr d ↦ let k = b (ground arith) in ground arith
]

-- `live` with a block of `size` bytes at `q`, in the heap `mem`.
module _ (mem : Mem) (live : Live) (q size : ℕ)
    (apart : (p r a b : ℕ)
      → update q (some size) live p ≡ some a
      → update q (some size) live r ≡ some b
      → p < r
      → p + a + 8 ≤ r)
    (place : (q % 8 ≡ 0) × ((mem.start_brk ≤ q) × (q + size + 8 ≤ mem.brk))) (z : 0 < size)
    (e : live q ≡ none) where
  own : update q (some size) live q ≡ some size
  own = ground arith

  no_overlap-Recorded :
      (ps all : List Range)
      → Recorded live ps
      → no_overlap ps true all q ((q + size) - 1)
        ≡ added (record { lo = q; hi = (q + size) - 1 } ∷ all)
  unfolding no_overlap Recorded
  no_overlap-Recorded [] all r = refl
  no_overlap-Recorded (p ∷ ps) all ((s, (f, (y, g))), (u, r)) =
      let other : p.lo ≢ q = λ d. ground (arith, d) in
      let f' : update q (some size) live p.lo ≡ some s = ground (arith, other) in
      let w =
        apart_within p q size s y z g other (λ l. apart p.lo q s size f' own l)
          (λ l. apart q p.lo size s own f' l) in
      rw w (no_overlap-Recorded ps all r)

  pub add_range-Recorded :
      (ps : List Range)
      → Recorded live ps
      → add_range true mem ps q size ≡ added (record { lo = q; hi = (q + size) - 1 } ∷ ps)
  unfolding add_range
  add_range-Recorded ps r =
      let x : (q % alignment == 0) ≡ true = ground (arith, place.0) in
      let y : in_heap mem q ((q + size) - 1) ≡ true =
        inside mem q size place.1.0 (omega (arith, place.1.1)) z in
      rw (x, y) (no_overlap-Recorded ps ps r)
