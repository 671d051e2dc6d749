-- ===== src/Malloclab/Explicit/Fit.antt =====
-- `mm_malloc` of malloclab/mm.c from the free list.
use git_sty.Base.{
  ℕ, ◌+◌, ◌-◌, ◌≤◌, ◌<◌, ◌≡◌, inl, inr, ap, refl, some, List, ◌∷◌, ◌++◌, leb, Bool-cases, arith,
}
use mathlib.Core.Path.{subst}
use git_sty.Malloclab.FirstFit.{next_blkp, sub32}
use git_sty.Malloclab.FirstFit.Words.{IsBlockSize}
use git_sty.Malloclab.FirstFit.Chain.{Block}
use git_sty.Malloclab.FreeList.{
  FreeList, Sought, reached, lost, size_of, add_free_block, remove_free_block,
}
use git_sty.Malloclab.FreeList.Chained.{NotAmong}
use git_sty.Malloclab.Explicit.{State, with_words, mark, after_add, use_fit}
use git_sty.Malloclab.Explicit.Blocks.{Map, enter, mark_size, size_of_lem}
use git_sty.Malloclab.Explicit.Listed.{AllFree, AllFree-cut, Listed, mark-Listed}
use git_sty.Malloclab.Explicit.Moves.{add-StillListed, remove-Listed}
use git_sty.Malloclab.Explicit.Count.{length-free}
use git_sty.Malloclab.Explicit.Carve.{taken-Fits, rest-Fits, rest-NotAmong, taken-Keeps, rest-Keeps}
use git_sty.Malloclab.Explicit.Pick.{Picked, Picks}
use git_sty.Malloclab.Explicit.Heaped.{Heaped, Mallocs, sub32_lem, with_list-Heaped, split-Mallocs}

was_free :
    (m : Map) (q c : ℕ) (d : Block)
    → m q ≡ some (record { size = c; alloc = 0 })
    → m q ≡ some d
    → d.alloc ≡ 0
was_free m q c d e f = ground (arith, e, f)

module _ (s : State) (lo : ℕ) (m : Map) (fs : List ℕ) (h : Heaped s lo m fs) (fuel asize : ℕ)
    (i : IsBlockSize asize) (least : 16 ≤ asize) (enough : s.mem.brk < fuel) where
  -- The list has gone without the block; what is left of it goes back.
  divided :
      (l : FreeList) (gs : List ℕ) (q c : ℕ)
      → (e : m q ≡ some (record { size = c; alloc = 0 })) → Listed l lo s.mem.brk m gs
      → asize ≤ c
      → 16 ≤ c - asize
      → NotAmong q gs
      → Mallocs asize lo m s (
          after_add (some q) s (
            add_free_block fuel
              (q + asize)
              (with_words (mark (q + asize) (c - asize) 0 (mark q asize 1 l.words)) l)))
  divided l gs q c e k large x n =
      let hi = s.mem.brk in
      let m₁ = enter q asize 1 m in
      let m₂ = enter (q + asize) (c - asize) 0 m₁ in
      let k₁ =
        mark-Listed lo hi h.low l m gs q asize 1 (omega arith)
          (taken-Fits lo hi asize q c l.words m h.low e k.blocks i least large) n k in
      let w = mark q asize 1 l.words in
      let n₁ =
        rest-NotAmong lo hi asize q c l.words m h.low e k.blocks i least large gs x k₁.free in
      let k₂ =
        mark-Listed lo hi h.low (with_words w l) m₁ gs (q + asize) (c - asize) 0 (omega arith)
          (rest-Fits lo hi asize q c l.words m h.low e k.blocks i least large x) n₁ k₁ in
      let w₂ = mark (q + asize) (c - asize) 0 w in
      split-Mallocs s lo asize q m m₂ fs (add_free_block fuel (q + asize) (with_words w₂ l)) h
        (ground (arith, least)) (λ d f. was_free m q c d e f)
        (rest-Keeps lo hi asize q c l.words m h.low e k.blocks i least large x)
        (add-StillListed lo hi (with_words w₂ l) m₂ gs fuel (q + asize) h.low
          (c - asize, ground arith) n₁ (omega (arith, enough, length-free l lo hi m gs k)) k₂)

  fit-Mallocs :
      (q : ℕ) → Picked s.list fs asize q → Mallocs asize lo m s (use_fit fuel asize (reached q) s)
  unfolding use_fit AllFree Mallocs
  fit-Mallocs q p =
      let hi = s.mem.brk in
      let gs = p.before ++ p.after in
      let k = subst (Listed s.list lo hi m) p.parts h.listed in
      let (c, e) = (AllFree-cut m p.before (q ∷ p.after) k.free).1.0 in
      let (k₁, n) = remove-Listed lo hi s.list m p.before q p.after h.low k in
      let b : Block = record { size = c; alloc = 0 } in
      let l = remove_free_block q s.list in
      let w = mark q asize 1 l.words in
      let t = k.blocks.tagged q b e in
      let large : asize ≤ c = omega (arith, p.large, size_of_lem s.list.words lo hi q b t) in
      let size : size_of l.words q ≡ c = size_of_lem l.words lo hi q b (k₁.blocks.tagged q b e) in
      let less : sub32 c asize ≡ c - asize =
        sub32_lem c asize large (omega (arith, t.high, h.bounds.high, h.small)) in
      let m₁ = enter q asize 1 m in
      let k₂ =
        mark-Listed lo hi h.low l m gs q asize 1 (omega arith)
          (taken-Fits lo hi asize q c l.words m h.low e k₁.blocks i least large) n k₁ in
      let next : next_blkp w q ≡ q + asize =
        ap (λ v. q + v)
          (mark_size l.words q asize 1 i (omega arith) (omega (arith, h.low, t.low))) in
      elim (Bool-cases (leb 16 (c - asize))) [
        | inl x ↦ rw (size, less, x, next) (divided l gs q c e k₁ large (ground arith) n)
        | inr x ↦
            rw (size, less, x)
              (record {
                blocks = m₁;
                free = gs;
                heaped = with_list-Heaped s lo m m₁ fs gs (with_words w l) h k₂;
                own = ground arith;
                fresh = λ d f. was_free m q c d e f;
                keeps = taken-Keeps lo hi asize q c l.words m h.low e k₁.blocks i least large;
                start = refl;
              })
      ]

  pub pick-Mallocs :
      (r : Sought) → Picks s.list fs asize r → Mallocs asize lo m s (use_fit fuel asize r s)
  unfolding Picks
  pick-Mallocs (reached q) p = fit-Mallocs q p
  pick-Mallocs lost p = absurd p
