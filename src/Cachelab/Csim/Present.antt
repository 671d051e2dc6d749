-- ===== src/Cachelab/Csim/Present.antt =====
-- Which tags a set holds, before and after an access.
use git_sty.Base.{
  ℕ, ◌+◌, ◌-◌, ◌≡◌, refl, ◌≤◌, Bool, true, false, List, [], ◌∷◌, ltb, ◌==◌, if◌then◌else◌, ◌&&◌,
  ◌||◌, not, arith, length,
}
use git_sty.Cachelab.Csim.{Line, hit, miss, eviction, scan, fill_first, evict, access_set}

module _ (tag_of : ℕ → ℕ) where
  abbrev pub present : ℕ → List Line → Bool
  present t [] = false
  present t (l ∷ ls) = (l.valid && (t == tag_of l.line)) || present t ls

  -- No two valid lines have one tag.
  abbrev pub Distinct : List Line → Type 0
  Distinct [] = Unit
  Distinct (l ∷ ls) = ((not l.valid || not (present (tag_of l.line) ls)) ≡ true) × Distinct ls

abbrev pub full : List Line → Bool
full [] = true
full (l ∷ ls) = l.valid && full ls

abbrev valids : List Line → ℕ
valids [] = 0
valids (l ∷ ls) = (if l.valid then 1 else 0) + valids ls

valids-le : (ls : List Line) → valids ls ≤ length ls
valids-le [] = omega arith
valids-le (l ∷ ls) = ground (arith, valids-le ls)

valids-full : (ls : List Line) → ltb (valids ls) (length ls) ≡ not (full ls)
valids-full [] = refl
valids-full (l ∷ ls) = ground (arith, valids-full ls, valids-le ls)

module _ (tag_of : ℕ → ℕ) (t : ℕ) where
  pub scan-hit : (ls : List Line) (free : ℕ) → (scan tag_of t ls free).2 ≡ present tag_of t ls
  unfolding scan
  scan-hit [] free = refl
  scan-hit (l ∷ ls) free = ground (arith, scan-hit ls free, scan-hit ls (free - 1))

  scan-free :
      (ls : List Line) (free : ℕ)
      → present tag_of t ls ≡ false
      → length ls ≤ free
      → (scan tag_of t ls free).1 + valids ls ≡ free
  unfolding scan
  scan-free [] free p h = omega arith
  scan-free (l ∷ ls) free p h =
      ground (arith, scan-free ls free, scan-free ls (free - 1), valids-le ls)

  pub scan-present :
      (ls : List Line) (free u : ℕ)
      → present tag_of u (scan tag_of t ls free).0 ≡ present tag_of u ls
  unfolding scan
  scan-present [] free u = refl
  scan-present (l ∷ ls) free u =
      ground (arith, scan-present ls free u, scan-present ls (free - 1) u)

  pub scan-full : (ls : List Line) (free : ℕ) → full (scan tag_of t ls free).0 ≡ full ls
  unfolding scan
  scan-full [] free = refl
  scan-full (l ∷ ls) free = ground (arith, scan-full ls free, scan-full ls (free - 1))

  pub length-scan : (ls : List Line) (free : ℕ) → length (scan tag_of t ls free).0 ≡ length ls
  unfolding scan
  length-scan [] free = refl
  length-scan (l ∷ ls) free = ground (arith, length-scan ls free, length-scan ls (free - 1))

  pub scan-Distinct :
      (ls : List Line) (free : ℕ) → Distinct tag_of ls → Distinct tag_of (scan tag_of t ls free).0
  unfolding scan
  scan-Distinct [] free d = tt
  scan-Distinct (l ∷ ls) free d = ground (
    arith,
    scan-Distinct ls free,
    scan-Distinct ls (free - 1),
    scan-present ls free (tag_of l.line),
    scan-present ls (free - 1) (tag_of l.line),
  )

module _ (tag_of : ℕ → ℕ) (assoc addr : ℕ) (ls : List Line) (size : length ls ≡ assoc) where
  abbrev pub scanned : List Line
  scanned = (scan tag_of (tag_of addr) ls assoc).0

  -- An access is a hit exactly if a valid line of the set has the tag; a miss evicts exactly if every
  -- line is valid. What `scan` leaves of the set then stays, has its oldest line replaced or its first
  -- free line filled.
  pub access_set_lem : access_set tag_of assoc addr ls ≡ (
      if present tag_of (tag_of addr) ls
      then (scanned, hit)
      else if full ls
      then (evict addr scanned, eviction)
      else (fill_first addr scanned, miss))
  unfolding access_set
  access_set_lem = ground (
    arith,
    scan-hit tag_of (tag_of addr) ls assoc,
    scan-free tag_of (tag_of addr) ls assoc,
    valids-full ls,
    valids-le ls,
  )
