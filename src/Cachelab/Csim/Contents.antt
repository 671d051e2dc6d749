-- ===== src/Cachelab/Csim/Contents.antt =====
-- Which tags an access brings into a set and which it drops.
use git_sty.Base.{
  ℕ, zero, suc, ◌≡◌, refl, ◌<◌, Bool, true, false, List, [], ◌∷◌, ◌==◌, ◌&&◌, ◌||◌, not, arith,
  Bool-cases, inl, inr, get_or, set, length, length-set, ◌∙◌,
}
use git_sty.Cachelab.Csim.{
  Line, Outcome, hit, miss, eviction, scan, fresh, fill_first, oldest, evict, access_set,
}
use git_sty.Cachelab.Csim.Present.{
  present, Distinct, full, scan-present, scan-full, scan-Distinct, length-scan, access_set_lem,
}
use git_sty.Cachelab.Csim.Victim.{blank, oldest-IsOldest}

module _ (tag_of : ℕ → ℕ) (addr : ℕ) where
  present-fill_first :
      (ls : List Line) (u : ℕ)
      → full ls ≡ false
      → present tag_of u (fill_first addr ls) ≡ ((u == tag_of addr) || present tag_of u ls)
  unfolding fill_first
  present-fill_first [] u f = ground arith
  present-fill_first (l ∷ ls) u f = ground (arith, present-fill_first ls u)

  fill_first-Distinct :
      (ls : List Line)
      → full ls ≡ false
      → present tag_of (tag_of addr) ls ≡ false
      → Distinct tag_of ls
      → Distinct tag_of (fill_first addr ls)
  unfolding fill_first
  fill_first-Distinct [] f p d = ground arith
  fill_first-Distinct (l ∷ ls) f p d =
      ground (arith, fill_first-Distinct ls, present-fill_first ls (tag_of l.line))

  length-fill_first : (ls : List Line) → length (fill_first addr ls) ≡ length ls
  unfolding fill_first
  length-fill_first [] = refl
  length-fill_first (l ∷ ls) = ground (arith, length-fill_first ls)

  present-get :
      (ls : List Line) (k : ℕ)
      → k < length ls
      → full ls ≡ true
      → present tag_of (tag_of (get_or ls k blank).line) ls ≡ true
  present-get [] k h f = elim h [ ]
  present-get (l ∷ ls) zero h f = ground arith
  present-get (l ∷ ls) (suc k) h f = ground (arith, present-get ls k)

  -- The tag of line `k` goes, the new one comes.
  present-set :
      (ls : List Line) (k u : ℕ)
      → k < length ls
      → full ls ≡ true
      → Distinct tag_of ls
      → present tag_of u (set ls k (fresh addr)) ≡ (
          (u == tag_of addr) || (present tag_of u ls && not (u == tag_of (get_or ls k blank).line)))
  unfolding fresh
  present-set [] k u h f d = elim h [ ]
  present-set (l ∷ ls) zero u h f d = ground arith
  present-set (l ∷ ls) (suc k) u h f d = ground (arith, present-set ls k u, present-get ls k)

  set-Distinct :
      (ls : List Line) (k : ℕ)
      → k < length ls
      → full ls ≡ true
      → present tag_of (tag_of addr) ls ≡ false
      → Distinct tag_of ls
      → Distinct tag_of (set ls k (fresh addr))
  unfolding fresh
  set-Distinct [] k h f p d = elim h [ ]
  set-Distinct (l ∷ ls) zero h f p d = ground arith
  set-Distinct (l ∷ ls) (suc k) h f p d =
      ground (arith, set-Distinct ls k, present-set ls k (tag_of l.line))

abbrev pub evicts : Outcome → Bool
evicts eviction = true
evicts _ = false

-- A set of `assoc` lines with distinct tags.
pub record IsCacheSet (tag_of : ℕ → ℕ) (assoc : ℕ) (ls : List Line) : Type 0 where
  pub size : length ls ≡ assoc
  pub distinct : Distinct tag_of ls

module _ (tag_of : ℕ → ℕ) (assoc addr : ℕ) (ls : List Line) where
  abbrev pub aged : List Line
  aged = (scan tag_of (tag_of addr) ls assoc).0

  -- The line that an eviction replaces: the oldest when the scan has aged the set.
  abbrev pub victim : Line
  victim = get_or aged (oldest aged 0 0 0) blank

  abbrev pub Contents : List Line × Outcome → Type 0
  Contents (ls', o) =
      IsCacheSet tag_of assoc ls'
      × ((u : ℕ)
          → present tag_of u ls' ≡ (
              (u == tag_of addr)
              || (present tag_of u ls && not (evicts o && (u == tag_of victim.line)))))

  module _ (pos : 0 < assoc) (v : IsCacheSet tag_of assoc ls) where
    aged_size : length aged ≡ assoc
    aged_size = length-scan tag_of (tag_of addr) ls assoc ∙ v.size

    aged-Distinct : Distinct tag_of aged
    aged-Distinct = scan-Distinct tag_of (tag_of addr) ls assoc v.distinct

    aged-present : (u : ℕ) → present tag_of u aged ≡ present tag_of u ls
    aged-present u = scan-present tag_of (tag_of addr) ls assoc u

    aged-full : full aged ≡ full ls
    aged-full = scan-full tag_of (tag_of addr) ls assoc

    inside : oldest aged 0 0 0 < length aged
    inside = (oldest-IsOldest aged (omega (arith, aged_size))).inside

    hit-Contents : present tag_of (tag_of addr) ls ≡ true → Contents (aged, hit)
    hit-Contents p =
        (record { size = aged_size; distinct = aged-Distinct }, λ u. ground (arith, aged-present u))

    miss-Contents :
        present tag_of (tag_of addr) ls ≡ false
        → full ls ≡ false
        → Contents (fill_first addr aged, miss)
    miss-Contents p f = (
      record {
        size = length-fill_first tag_of addr aged ∙ aged_size;
        distinct =
            fill_first-Distinct tag_of addr aged (aged-full ∙ f) (aged-present (tag_of addr) ∙ p)
              aged-Distinct;
      },
      λ u. ground (arith, aged-present u, present-fill_first tag_of addr aged u (aged-full ∙ f)),
    )

    eviction-Contents :
        present tag_of (tag_of addr) ls ≡ false
        → full ls ≡ true
        → Contents (evict addr aged, eviction)
    unfolding evict
    eviction-Contents p f = (
      record {
        size = length-set aged (oldest aged 0 0 0) (fresh addr) ∙ aged_size;
        distinct =
            set-Distinct tag_of addr aged (oldest aged 0 0 0) inside (aged-full ∙ f)
              (aged-present (tag_of addr) ∙ p) aged-Distinct;
      },
      λ u. ground (
        arith,
        aged-present u,
        present-set tag_of addr aged (oldest aged 0 0 0) u inside (aged-full ∙ f) aged-Distinct,
      ),
    )

    -- After an access to a set of `assoc` lines with distinct tags, the set holds the accessed tag,
    -- every tag that it held before except, on an eviction, that of the replaced line, and no other;
    -- it still has `assoc` lines with distinct tags.
    pub access_set_contents : Contents (access_set tag_of assoc addr ls)
    access_set_contents =
        rw (access_set_lem tag_of assoc addr ls v.size)
          (elim (Bool-cases (present tag_of (tag_of addr) ls)) [
            | inl p ↦ rw p (hit-Contents p)
            | inr p ↦ elim (Bool-cases (full ls)) [
              | inl f ↦ rw (p, f) (eviction-Contents p f)
              | inr f ↦ rw (p, f) (miss-Contents p f)
            ]
          ])
