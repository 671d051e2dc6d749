-- ===== src/Malloclab/Explicit/Grow.antt =====
-- `mm_malloc` of malloclab/mm.c above the break.
use git_sty.Base.{
  ℕ, ◌+◌, ◌-◌, ◌%◌, ◌≤◌, ◌<◌, ◌≡◌, inl, ap, refl, Option, none, some, List, ◌==◌, false, arith,
}
use git_sty.Malloclab.Memlib.{Mem}
use git_sty.Malloclab.Memlib.Bounds.{Grows}
use git_sty.Malloclab.FirstFit.{put, hdrp, next_blkp}
use git_sty.Malloclab.FirstFit.Words.{IsBlockSize}
use git_sty.Malloclab.FreeList.{next_ptr, prev_ptr, FreeList}
use git_sty.Malloclab.FreeList.Boundary.{pack_aligned}
use git_sty.Malloclab.FreeList.Chained.{NotAmong, put_elsewhere}
use git_sty.Malloclab.Explicit.{State, with_words, mark, extended}
use git_sty.Malloclab.Explicit.Blocks.{Map, enter, Blocks-frame, Fits, mark_size}
use git_sty.Malloclab.Explicit.Listed.{Listed, other-NotAmong, Holds-frame, mark-Listed}
use git_sty.Malloclab.Explicit.Heaped.{Heaped, Mallocs}

module _ (s : State) (lo : ℕ) (m : Map) (fs : List ℕ) (h : Heaped s lo m fs) (fuel asize : ℕ)
    (i : IsBlockSize asize) (least : 16 ≤ asize) (enough : s.mem.brk < fuel) where
  -- The bytes above the break.
  brk-Fits : Fits lo (s.mem.brk + asize) s.mem.brk asize m
  brk-Fits = record {
    aligned = h.top;
    size_ok = i;
    least = least;
    low = h.above;
    high = omega arith;
    room = λ q c e n. inl ((h.listed.blocks.tagged q c e).high);
  }

  grown-Listed : Listed s.list lo (s.mem.brk + asize) m fs
  grown-Listed = record {
    blocks =
        Blocks-frame s.list.words s.list.words lo s.mem.brk (s.mem.brk + asize) m (omega arith)
          (λ p b e. (refl, refl)) h.listed.blocks;
    holds = h.listed.holds;
    free = h.listed.free;
  }

  above-NotAmong : (p : ℕ) → s.mem.brk ≤ p → NotAmong p fs
  above-NotAmong p l =
      other-NotAmong m p fs
        (λ q g v.
          let t = h.listed.blocks.tagged q (record { size = g.0; alloc = 0 }) g.1 in
          omega (arith, v, t.high, t.least))
        h.listed.free

  -- The epilogue lies behind every block.
  epilogue-Listed :
      (hi v : ℕ) (l : FreeList) (m' : Map)
      → hi % 8 ≡ 0
      → 8 ≤ hi
      → NotAmong hi fs
      → Listed l lo hi m' fs
      → Listed (with_words (put (hdrp hi) v l.words) l) lo hi m' fs
  unfolding IsBlockSize
  epilogue-Listed hi v l m' a b n k = record {
    blocks =
        Blocks-frame l.words (put (hdrp hi) v l.words) lo hi hi m' (omega arith)
          (λ p c e.
            let t = k.blocks.tagged p c e in
            let j = t.size_ok.0 in
            (
              put_elsewhere (hdrp hi) v (hdrp p) l.words
                  (λ x. omega (arith, x, b, t.low, h.low, t.high, t.least)),
              put_elsewhere (hdrp hi) v ((p + c.size) - 8) l.words
                  (λ x. omega (arith, x, a, b, t.low, h.low, t.aligned, t.least, j)),
            ))
          k.blocks;
    holds =
        Holds-frame l (put (hdrp hi) v l.words) m' hi fs
          (λ q c e d.
            let t = k.blocks.tagged q c e in
            (
              put_elsewhere (hdrp hi) v (next_ptr q) l.words
                  (λ x. omega (arith, x, a, b, t.low, h.low, t.aligned)),
              put_elsewhere (hdrp hi) v (prev_ptr q) l.words
                  (λ x. omega (arith, x, b, t.low, h.low, t.high, t.least)),
            ))
          n k.free k.holds;
    free = k.free;
  }

  pub extended-Mallocs :
      (r : Option ℕ × Mem) → Grows asize s.mem r → Mallocs asize lo m s (extended asize s r)
  unfolding Grows extended Mallocs IsBlockSize
  extended-Mallocs (none, m') (e, o) =
      (ap (λ (t : Mem). record { list = s.list; mem = t; heap_listp = s.heap_listp }) e, o)
  extended-Mallocs (some p, m') (e, (f, (g, (b, t)))) =
      let hi = s.mem.brk in
      let w = mark hi asize 1 s.list.words in
      let m₁ = enter hi asize 1 m in
      let k =
        mark-Listed lo (hi + asize) h.low s.list m fs hi asize 1 (omega arith) brk-Fits
          (above-NotAmong hi (omega arith)) grown-Listed in
      let z : 8 ≤ hi = omega (arith, h.low, h.above) in
      let next : next_blkp w hi ≡ hi + asize =
        ap (λ v. hi + v) (mark_size s.list.words hi asize 1 i (omega arith) z) in
      rw (e, next)
        (record {
          blocks = m₁;
          free = fs;
          heaped = record {
            listed = rw f (
                epilogue-Listed (hi + asize) (pack_aligned 0 1) (with_words w s.list) m₁
                  (omega (arith, h.top, i.0)) (omega (arith, z))
                  (above-NotAmong (hi + asize) (omega arith)) k);
            bounds = b;
            small = omega (arith, t, h.small);
            top = omega (arith, f, h.top, i.0);
            above = omega (arith, f, h.above);
            low = h.low;
            start = omega (arith, g, h.start);
          };
          own = ground arith;
          fresh = λ c x.
              let u = h.listed.blocks.tagged hi c x in absurd (omega (arith, u.high, u.least));
          keeps = λ r c x y.
              let u = h.listed.blocks.tagged r c x in
              let d : (r == hi) ≡ false = ground (arith, u.high, u.least) in rw d x;
          start = g;
        })
