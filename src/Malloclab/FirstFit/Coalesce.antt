-- ===== src/Malloclab/FirstFit/Coalesce.antt =====
-- `coalesce` joins a free block with the free blocks on both sides of it.
use git_sty.Base.{
  ℕ, ◌+◌, ◌-◌, ◌≤◌, ◌≡◌, ◌≢◌, ◌∙◌, ap, refl, true, false, not, ◌&&◌, List, [], ◌∷◌, ◌++◌, ◌==◌,
  if◌then◌else◌, arith,
}
use git_sty.Malloclab.FirstFit.{
  Words, get_size, get_alloc, hdrp, ftrp, next_blkp, prev_blkp, pack, put, add32, coalesce,
  merge_next, merge_prev, merge_both,
}
use git_sty.Malloclab.FirstFit.Words.{IsBlockSize, get_size-pack, get_alloc-pack, put_ne}
use git_sty.Malloclab.FirstFit.Chain.{Block}
use git_sty.Malloclab.FirstFit.Spans.{free_of, spans_down}
use git_sty.Malloclab.FirstFit.Tags.{total, total-append, Tagged, Seg, Seg-split, Laid}

-- A free block of `s` bytes joined with the block behind it, if that is free.
abbrev pub with_next : ℕ → List Block → List Block
with_next s [] = free_of s ∷ []
with_next s (n ∷ ys) = if n.alloc == 0 then free_of (s + n.size) ∷ ys else free_of s ∷ n ∷ ys

-- And the result, a free block first, with the block before it.
abbrev pub with_prev : Block → List Block → List Block
with_prev p [] = p ∷ []
with_prev p (b ∷ ys) = if p.alloc == 0 then free_of (p.size + b.size) ∷ ys else p ∷ b ∷ ys

-- What `coalesce` makes of the blocks `p`, a free one of `s` bytes, and `ys`.
unfoldable pub merge : Block → ℕ → List Block → List Block
merge p s ys = with_prev p (with_next s ys)

abbrev pub bit_of : List Block → ℕ
bit_of [] = 1
bit_of (n ∷ ys) = n.alloc

-- The bit in the header behind the blocks before `q`: of the next block or the epilogue.
bit_at :
    (w : Words) (q : ℕ) (ys : List Block)
    → Seg w q ys
    → w (hdrp (q + total ys)) ≡ pack 0 1
    → get_alloc w (hdrp q) ≡ bit_of ys
unfolding Seg IsBlockSize
bit_at w q [] s e =
    get_alloc-pack w (hdrp q) 0 1 (omega arith) (omega arith)
      (ap (λ n. w (hdrp n)) (omega arith) ∙ e)
bit_at w q (n ∷ ys) (t, s) e = get_alloc-pack w (hdrp q) n.size n.alloc t.size_ok t.bit t.header

module _ (w : Words) (first s : ℕ) (xs : List Block) (p : Block) (ys : List Block)
    (l : Laid w first (xs ++ (p ∷ free_of s ∷ ys))) where
  -- The blocks before and at the pointer.
  abbrev pub pp : ℕ
  pp = first + total xs

  abbrev pub bp : ℕ
  bp = pp + p.size

  pub at_prev : Tagged w pp p
  unfolding Seg
  at_prev = (Seg-split w first xs (p ∷ free_of s ∷ ys) l.blocks).1.0

  pub at_free : Tagged w bp (free_of s)
  unfolding Seg
  at_free = (Seg-split w first xs (p ∷ free_of s ∷ ys) l.blocks).1.1.0

  pub behind : Seg w (bp + s) ys
  unfolding Seg
  behind = (Seg-split w first xs (p ∷ free_of s ∷ ys) l.blocks).1.1.1

  last : w (hdrp (bp + s + total ys)) ≡ pack 0 1
  last = ap (λ n. w (hdrp n)) (omega (arith, total-append xs (p ∷ free_of s ∷ ys))) ∙ l.epilogue

  pub low_pp : 8 ≤ pp
  low_pp = omega (arith, l.low)

  low_bp : 16 ≤ bp
  low_bp = omega (arith, low_pp, at_prev.least)

  pub size_here : get_size w (hdrp bp) ≡ s
  size_here = get_size-pack w (hdrp bp) s 0 at_free.size_ok (omega arith) at_free.header

  foot_prev : w (bp - 8) ≡ pack p.size p.alloc
  foot_prev = at_prev.footer

  pub prev_at : (v : Words) → v (bp - 8) ≡ w (bp - 8) → prev_blkp v bp ≡ pp
  prev_at v e =
      ap (λ n. bp - n)
        (get_size-pack v (bp - 8) p.size p.alloc at_prev.size_ok at_prev.bit (e ∙ foot_prev))
      ∙ omega arith

  pub next_at : (v : Words) → v (hdrp bp) ≡ w (hdrp bp) → next_blkp v bp ≡ bp + s
  next_at v e =
      ap (λ n. bp + n)
        (get_size-pack v (hdrp bp) s 0 at_free.size_ok (omega arith) (e ∙ at_free.header))

  ftrp_prev : ftrp w pp ≡ bp - 8
  ftrp_prev =
      ap (λ n. (pp + n) - 8)
        (get_size-pack w (hdrp pp) p.size p.alloc at_prev.size_ok at_prev.bit at_prev.header)

  prev_bit : get_alloc w (ftrp w (prev_blkp w bp)) ≡ p.alloc
  prev_bit =
      ap (λ q. get_alloc w (ftrp w q)) (prev_at w refl)
      ∙ ap (get_alloc w) ftrp_prev
      ∙ get_alloc-pack w (bp - 8) p.size p.alloc at_prev.size_ok at_prev.bit foot_prev

  next_bit : get_alloc w (hdrp (next_blkp w bp)) ≡ bit_of ys
  next_bit = ap (λ q. get_alloc w (hdrp q)) (next_at w refl) ∙ bit_at w (bp + s) ys behind last

  pub coalesce_cases : coalesce bp w ≡ (
      if not (p.alloc == 0) && not (bit_of ys == 0)
      then (bp, w)
      else if not (p.alloc == 0) && not (not (bit_of ys == 0))
      then merge_next bp s w
      else if not (not (p.alloc == 0)) && not (bit_of ys == 0)
      then merge_prev bp s w
      else merge_both bp s w)
  unfolding coalesce
  coalesce_cases = rw (prev_bit, next_bit, size_here) refl

  pub size_prev : get_size w (hdrp pp) ≡ p.size
  size_prev = get_size-pack w (hdrp pp) p.size p.alloc at_prev.size_ok at_prev.bit at_prev.header

  -- The size of the two blocks together.
  pub joined : add32 s p.size ≡ p.size + s
  joined = omega (arith, l.room, total-append xs (p ∷ free_of s ∷ ys))

  pub joined_ok : IsBlockSize (p.size + s)
  unfolding IsBlockSize
  joined_ok =
      omega (arith, l.room, total-append xs (p ∷ free_of s ∷ ys), at_prev.size_ok, at_free.size_ok)

  foot_here : ftrp w bp ≡ (pp + (p.size + s)) - 8
  foot_here = ap (λ n. (bp + n) - 8) size_here ∙ omega arith

  pub not_bar : pp + p.size - 8 ≢ hdrp pp
  unfolding IsBlockSize
  not_bar = omega (arith, at_prev.size_ok.0, at_prev.least, low_pp)

  pub coalesce_prev :
      (p.alloc == 0) ≡ true
      → (bit_of ys == 0) ≡ false
      → ((coalesce bp w).0 ≡ pp)
        × Laid ((coalesce bp w).1) first (xs ++ (free_of (p.size + s) ∷ ys))
  unfolding merge_prev
  coalesce_prev e f =
      let v = pack (p.size + s) 0 in
      let w₁ = put ((pp + (p.size + s)) - 8) v w in
      let w₂ = put (hdrp pp) v w₁ in
      let keeps : w₁ (bp - 8) ≡ w (bp - 8) =
        put_ne ((pp + (p.size + s)) - 8) v (bp - 8) w (omega (arith, at_free.least, low_pp)) in
      let keeps' : w₂ (bp - 8) ≡ w (bp - 8) =
        put_ne (hdrp pp) v (bp - 8) w₁ (omega (arith, not_bar)) ∙ keeps in
      rw (coalesce_cases, e, f, prev_at w refl, size_prev, joined, foot_here, prev_at w₁ keeps)
        (
          prev_at w₂ keeps',
          spans_down w first pp (p.size + s) xs (p ∷ free_of s ∷ []) ys l refl (omega arith)
              joined_ok (omega (arith, at_prev.least)),
        )

  pub coalesce_none :
      (p.alloc == 0) ≡ false
      → (bit_of ys == 0) ≡ false
      → ((coalesce bp w).0 ≡ bp) × Laid ((coalesce bp w).1) first (xs ++ (p ∷ free_of s ∷ ys))
  coalesce_none e f = rw (coalesce_cases, e, f) (refl, l)
