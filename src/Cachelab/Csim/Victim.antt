-- ===== src/Cachelab/Csim/Victim.antt =====
-- The loop that looks for the oldest line.
use git_sty.Base.{
  ℕ, suc, ◌+◌, ◌≡◌, refl, ◌≤◌, ◌<◌, ◌⊎◌, inl, inr, false, List, [], ◌∷◌, leb, arith, Bool-cases,
  get_or, length, drop,
}
use git_sty.Cachelab.Csim.{Line, oldest}

abbrev pub blank : Line
blank = record { valid = false; last_used = 0; line = 0 }

abbrev pub used : List Line → ℕ → ℕ
used ls k = (get_or ls k blank).last_used

abbrev pub AllLe : ℕ → List Line → Type 0
AllLe m [] = Unit
AllLe m (l ∷ ls) = (l.last_used ≤ m) × AllLe m ls

abbrev pub AllLt : ℕ → List Line → Type 0
AllLt m [] = Unit
AllLt m (l ∷ ls) = (l.last_used < m) × AllLt m ls

AllLt-le : (m n : ℕ) (ls : List Line) → m ≤ n → AllLt m ls → AllLe n ls
AllLt-le m n [] h a = tt
AllLt-le m n (l ∷ ls) h a = (omega (arith, a.0), AllLt-le m n ls h a.1)

-- Line `k` is the last of the lines with the greatest `last_used`.
pub record IsOldest (ls : List Line) (k : ℕ) : Type 0 where
  pub inside : k < length ls
  pub greatest : AllLe (used ls k) ls
  pub last : AllLt (used ls k) (drop (suc k) ls)

oldest-cases :
    (ls : List Line) (i max index : ℕ)
    → (AllLt max ls × (oldest ls i max index ≡ index))
      ⊎ ((k : ℕ) × (oldest ls i max index ≡ i + k) × (max ≤ used ls k) × IsOldest ls k)
unfolding oldest
oldest-cases [] i max index = inl (tt, refl)
oldest-cases (l ∷ ls) i max index = elim (Bool-cases (leb max l.last_used)) [
  | inl t ↦ inr (elim (oldest-cases ls (i + 1) l.last_used i) [
    | inl (a, e) ↦ (
      0,
      rw t (omega (arith, e)),
      ground arith,
      record {
        inside = omega arith;
        greatest = (omega arith, AllLt-le _ _ ls (omega arith) a);
        last = a;
      },
    )
    | inr (k, e, m, o) ↦ (
      suc k,
      rw t (omega (arith, e)),
      ground (arith, m),
      record { inside = omega (arith, o.inside); greatest = (m, o.greatest); last = o.last },
    )
  ])
  | inr t ↦ elim (oldest-cases ls (i + 1) max index) [
    | inl (a, e) ↦ inl ((ground arith, a), rw t e)
    | inr (k, e, m, o) ↦ inr (
      suc k,
      rw t (omega (arith, e)),
      m,
      record {
        inside = omega (arith, o.inside);
        greatest = (ground (arith, m), o.greatest);
        last = o.last;
      },
    )
  ]
]

-- In a set with a line, the loop finds the last of the lines whose `last_used` is greatest.
pub oldest-IsOldest : (ls : List Line) → 0 < length ls → IsOldest ls (oldest ls 0 0 0)
oldest-IsOldest [] h = elim h [ ]
oldest-IsOldest (l ∷ ls) h = elim (oldest-cases (l ∷ ls) 0 0 0) [
  | inl (a, e) ↦ absurd (omega (arith, a.0))
  | inr (k, e, m, o) ↦ let e' : oldest (l ∷ ls) 0 0 0 ≡ k = omega (arith, e) in rw e' o
]
