-- ===== src/Malloclab/FirstFit/Merge.antt =====
-- `coalesce` with a free block behind, and all its cases together.
use git_sty.Base.{
  ℕ, ◌+◌, ◌-◌, ◌≡◌, inl, inr, ◌∙◌, ap, refl, true, false, List, [], ◌∷◌, ◌++◌, ◌==◌, if◌then◌else◌,
  arith, Bool-cases,
}
use git_sty.Malloclab.FirstFit.{
  Words, get_size, hdrp, ftrp, next_blkp, prev_blkp, pack, put, add32, coalesce, merge_next,
  merge_both,
}
use git_sty.Malloclab.FirstFit.Words.{IsBlockSize, get_size-pack, put_ne}
use mathlib.Core.List.{append_assoc}
use git_sty.Malloclab.FirstFit.Chain.{Block}
use git_sty.Malloclab.FirstFit.Coalesce.{
  merge, at_prev, at_free, low_pp, prev_at, next_at, behind, coalesce_cases, size_prev, not_bar,
  coalesce_prev, coalesce_none,
}
use git_sty.Malloclab.FirstFit.Spans.{free_of, spans_both, spans_up}
use git_sty.Malloclab.FirstFit.Tags.{total, total-append, Tagged, Seg, Laid}

-- A block taken from the end of the blocks before.
pub Laid-shift :
    (w : Words) (first : ℕ) (xs : List Block) (p : Block) (ys : List Block)
    → Laid w first (xs ++ (p ∷ ys))
    → Laid w first ((xs ++ (p ∷ [])) ++ ys)
Laid-shift w first xs p ys l = rw (append_assoc xs (p ∷ []) ys) l

module _ (w : Words) (first s : ℕ) (xs : List Block) (p n : Block) (ys : List Block)
    (l : Laid w first (xs ++ (p ∷ free_of s ∷ n ∷ ys))) (e : (n.alloc == 0) ≡ true) where
  abbrev at : ℕ
  at = first + total xs

  abbrev here : ℕ
  here = at + p.size

  sum : total (xs ++ (p ∷ free_of s ∷ n ∷ ys)) ≡ total xs + (p.size + (s + (n.size + total ys)))
  sum = total-append xs (p ∷ free_of s ∷ n ∷ ys)

  at_next : Tagged w (here + s) n
  unfolding Seg
  at_next = (behind w first s xs p (n ∷ ys) l).0

  next_here : (v : Words) → v (hdrp here) ≡ w (hdrp here) → next_blkp v here ≡ here + s
  next_here = next_at w first s xs p (n ∷ ys) l

  prev_here : (v : Words) → v (here - 8) ≡ w (here - 8) → prev_blkp v here ≡ at
  prev_here = prev_at w first s xs p (n ∷ ys) l

  size_next : get_size w (hdrp (here + s)) ≡ n.size
  size_next =
      get_size-pack w (hdrp (here + s)) n.size n.alloc at_next.size_ok at_next.bit at_next.header

  size_before : get_size w (hdrp at) ≡ p.size
  size_before = size_prev w first s xs p (n ∷ ys) l

  t_prev : Tagged w at p
  t_prev = at_prev w first s xs p (n ∷ ys) l

  t_free : Tagged w here (free_of s)
  t_free = at_free w first s xs p (n ∷ ys) l

  two : add32 s n.size ≡ s + n.size
  two = omega (arith, l.room, sum)

  two_ok : IsBlockSize (s + n.size)
  unfolding IsBlockSize
  two_ok = omega (arith, l.room, sum, t_free.size_ok, at_next.size_ok)

  coalesce_next :
      (p.alloc == 0) ≡ false
      → ((coalesce here w).0 ≡ here)
        × Laid ((coalesce here w).1) first (xs ++ (p ∷ free_of (s + n.size) ∷ ys))
  unfolding merge_next
  coalesce_next f =
      rw (coalesce_cases w first s xs p (n ∷ ys) l, e, f, next_here w refl, size_next, two)
        (
          refl,
          rw (← append_assoc xs (p ∷ []) (free_of (s + n.size) ∷ ys)) (
              spans_both w first here (s + n.size) (xs ++ (p ∷ [])) (free_of s ∷ n ∷ []) ys
                (Laid-shift w first xs p (free_of s ∷ n ∷ ys) l)
                (omega (arith, total-append xs (p ∷ []))) (omega arith) two_ok
                (omega (arith, t_free.least))),
        )

  all_three : add32 s (add32 p.size n.size) ≡ p.size + (s + n.size)
  all_three = omega (arith, l.room, sum)

  three_ok : IsBlockSize (p.size + (s + n.size))
  unfolding IsBlockSize
  three_ok = omega (arith, l.room, sum, t_free.size_ok, at_next.size_ok, t_prev.size_ok)

  foot_size : get_size w (ftrp w (here + s)) ≡ n.size
  foot_size =
      ap (λ k. get_size w ((here + s + k) - 8)) size_next
      ∙ get_size-pack w ((here + s + n.size) - 8) n.size n.alloc at_next.size_ok at_next.bit
          at_next.footer

  coalesce_both :
      (p.alloc == 0) ≡ true
      → ((coalesce here w).0 ≡ at)
        × Laid ((coalesce here w).1) first (xs ++ (free_of (p.size + (s + n.size)) ∷ ys))
  unfolding merge_both
  coalesce_both f =
      let S = p.size + (s + n.size) in
      let v = pack S 0 in
      let w₁ = put (hdrp at) v w in
      let w₂ = put ((at + S) - 8) v w₁ in
      let bar = not_bar w first s xs p (n ∷ ys) l in
      let low = low_pp w first s xs p (n ∷ ys) l in
      let head : w₁ (hdrp here) ≡ w (hdrp here) =
        put_ne (hdrp at) v (hdrp here) w (omega (arith, t_prev.least, low)) in
      let far : w₁ (hdrp (here + s)) ≡ w (hdrp (here + s)) =
        put_ne (hdrp at) v (hdrp (here + s)) w (omega (arith, t_prev.least, low)) in
      let foot : ftrp w₁ (here + s) ≡ (at + S) - 8 =
        ap (λ k. (here + s + k) - 8)
          (get_size-pack w₁ (hdrp (here + s)) n.size n.alloc at_next.size_ok at_next.bit
            (far ∙ at_next.header))
        ∙ omega arith in
      let back : w₂ (here - 8) ≡ w (here - 8) =
        put_ne ((at + S) - 8) v (here - 8) w₁ (omega (arith, t_free.least, low))
        ∙ put_ne (hdrp at) v (here - 8) w (omega (arith, bar)) in
      rw
        (
          coalesce_cases w first s xs p (n ∷ ys) l,
          e,
          f,
          prev_here w refl,
          next_here w refl,
          size_before,
          foot_size,
          all_three,
          next_here w₁ head,
          foot,
        )
        (
          prev_here w₂ back,
          spans_up w first at S xs (p ∷ free_of s ∷ n ∷ []) ys l refl (omega arith) three_ok
              (omega (arith, t_prev.least)),
        )

-- What `coalesce` returns for the block behind `p`.
abbrev pub merged_at : Block → ℕ → ℕ
merged_at p q = if p.alloc == 0 then q else q + p.size

abbrev pub IsMerged : ℕ → List Block → Block → ℕ → List Block → ℕ × Words → Type 0
IsMerged first xs p s ys r =
    (r.0 ≡ merged_at p (first + total xs)) × Laid r.1 first (xs ++ merge p s ys)

-- In a heap that is laid out with the blocks `xs`, then `p`, a free block of `s` bytes and `ys`,
-- `coalesce` of the free block joins it with `p`, with the first of `ys`, or with both, where they are
-- free, changes no other block, and returns where the joined block begins.
pub coalesce-IsMerged :
    (w : Words) (first s : ℕ) (xs : List Block) (p : Block) (ys : List Block)
    → Laid w first (xs ++ (p ∷ free_of s ∷ ys))
    → IsMerged first xs p s ys (coalesce (first + total xs + p.size) w)
unfolding merge
coalesce-IsMerged w first s xs p [] l = elim (Bool-cases (p.alloc == 0)) [
  | inl e ↦ rw e (coalesce_prev w first s xs p [] l e refl)
  | inr e ↦ rw e (coalesce_none w first s xs p [] l e refl)
]
coalesce-IsMerged w first s xs p (n ∷ ys) l = elim (Bool-cases (n.alloc == 0)) [
  | inl f ↦ elim (Bool-cases (p.alloc == 0)) [
    | inl e ↦ rw (f, e) (coalesce_both w first s xs p n ys l f e)
    | inr e ↦ rw (f, e) (coalesce_next w first s xs p n ys l f e)
  ]
  | inr f ↦ elim (Bool-cases (p.alloc == 0)) [
    | inl e ↦ rw (f, e) (coalesce_prev w first s xs p (n ∷ ys) l e f)
    | inr e ↦ rw (f, e) (coalesce_none w first s xs p (n ∷ ys) l e f)
  ]
]
