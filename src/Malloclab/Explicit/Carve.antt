-- ===== src/Malloclab/Explicit/Carve.antt =====
-- A free block of malloclab/mm.c is divided: what `mm_malloc` takes, and the rest.
use git_sty.Base.{
  ℕ, ◌+◌, ◌-◌, ◌≤◌, ◌<◌, ◌≡◌, ◌≢◌, ap, sym, ◌∙◌, some, ◌==◌, List, Bool-cases, inl, inr, arith,
}
use git_sty.Malloclab.FirstFit.{Words}
use git_sty.Malloclab.FirstFit.Words.{IsBlockSize}
use git_sty.Malloclab.FirstFit.Chain.{Block}
use git_sty.Malloclab.FreeList.Chained.{NotAmong}
use git_sty.Malloclab.Explicit.Blocks.{
  Map, enter, entered, Tagged, Room-shrink, Blocks, Fits, Keeps,
}
use git_sty.Malloclab.Explicit.Listed.{AllFree, other-NotAmong}

module _ (lo hi asize b c : ℕ) (w : Words) (m : Map) (z : 8 ≤ lo)
    (e : m b ≡ some (record { size = c; alloc = 0 })) (k : Blocks w lo hi m) (i : IsBlockSize asize)
    (least : 16 ≤ asize) (large : asize ≤ c) where
  t : Tagged w lo hi b (record { size = c; alloc = 0 })
  t = k.tagged b (record { size = c; alloc = 0 }) e

  pub taken-Fits : Fits lo hi b asize m
  taken-Fits = record {
    aligned = t.aligned;
    size_ok = i;
    least = least;
    low = t.low;
    high = omega (arith, t.high, large);
    room = Room-shrink m b c asize large (k.apart b (record { size = c; alloc = 0 }) e);
  }

  -- No block begins where the rest will.
  pub rest_new : (d : Block) → m (b + asize) ≡ some d → asize < c → ⊥
  rest_new d g l =
      let n : b + asize ≢ b = λ v. omega (arith, v, least) in
      let u = k.tagged (b + asize) d g in
      let r = k.apart b (record { size = c; alloc = 0 }) e (b + asize) d g n in
      ground (arith, r, u.least, l)

  pub rest-Fits : 16 ≤ c - asize → Fits lo hi (b + asize) (c - asize) (enter b asize 1 m)
  unfolding IsBlockSize
  rest-Fits h = record {
    aligned = omega (arith, t.aligned, i);
    size_ok = omega (arith, t.size_ok, i);
    least = h;
    low = omega (arith, t.low);
    high = omega (arith, t.high, large);
    room = λ q d g n. elim (Bool-cases (q == b)) [
      | inl x ↦ let f = (entered b q asize 1 m d x g).0 in inl (ground (arith, f))
      | inr x ↦
          let v : q ≢ b = ground arith in
          let r = k.apart b (record { size = c; alloc = 0 }) e q d (ground (arith, g)) v in
          ground (arith, r)
    ];
  }

  -- The rest is not on the free list.
  pub rest-NotAmong :
      (fs : List ℕ) → 16 ≤ c - asize → AllFree (enter b asize 1 m) fs → NotAmong (b + asize) fs
  rest-NotAmong fs h f =
      other-NotAmong (enter b asize 1 m) (b + asize) fs
        (λ q g v.
          rest_new (record { size = g.0; alloc = 0 }) (ground (arith, g.1, v, least))
            (omega (arith, h)))
        f

  pub taken-Keeps : Keeps m (enter b asize 1 m)
  taken-Keeps r d g a = ground (arith, e, g, a)

  pub rest-Keeps : 16 ≤ c - asize → Keeps m (enter (b + asize) (c - asize) 0 (enter b asize 1 m))
  rest-Keeps h r d g a = elim (Bool-cases (r == b + asize)) [
    | inl x ↦
        let v : r ≡ b + asize = ground arith in
        absurd (rest_new d (ap m (sym v) ∙ g) (omega (arith, h)))
    | inr x ↦ rw x (taken-Keeps r d g a)
  ]
