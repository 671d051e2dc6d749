-- ===== src/Malloclab/Explicit/Realloc.antt =====
-- `mm_realloc` of malloclab/mm.c on blocks in use.
use git_sty.Base.{ℕ, ◌+◌, ◌-◌, ◌≤◌, ◌<◌, ◌≡◌, refl, some, List, ◌==◌, ltb, leb, true, false, arith}
use git_sty.Malloclab.FirstFit.{adjust, sub32}
use git_sty.Malloclab.FirstFit.Words.{IsBlockSize}
use git_sty.Malloclab.FirstFit.Chain.{Block}
use git_sty.Malloclab.FreeList.{null, size_of}
use git_sty.Malloclab.FreeList.Boundary.{coalesce_lem}
use git_sty.Malloclab.Explicit.{
  State, with_list, with_words, Outcome, returns, mark, align, shrink, copied, mm_malloc,
  mm_realloc,
}
use git_sty.Malloclab.Explicit.Blocks.{Map, mark_size, size_of_lem}
use git_sty.Malloclab.Explicit.Heaped.{Heaped, Mallocs}
use git_sty.Malloclab.Explicit.Calls.{mm_malloc-Mallocs}

-- What a `mm_realloc` is that leaves the block at `q` where it is, with `bytes` bytes.
pub record Shortened (q bytes : ℕ) (o : Outcome) : Type 0 where
  pub after : State
  pub stays : o ≡ returns (some q) after
  pub size : size_of after.list.words q ≡ bytes

align-adjust : (size : ℕ) → 8 < size → size + 15 < 4294967296 → align size + 8 ≡ adjust size
unfolding adjust
align-adjust size l o = ground arith

align_size : (size : ℕ) → size + 15 < 4294967296 → IsBlockSize (align size)
unfolding IsBlockSize
align_size size o = (omega arith, omega (arith, o))

-- `align` rounds up.
align_bounds : (size : ℕ) → size + 15 < 4294967296 → (size ≤ align size) × (align size < size + 8)
align_bounds size o = (omega (arith, o), omega (arith, o))

module _ (s : State) (lo : ℕ) (m : Map) (fs : List ℕ) (fuel q : ℕ) (h : Heaped s lo m fs) where
  -- On a heap in order, for a size above 8 and below 2^32 - 15: `mm_realloc`, to that size, of a block of
  -- the bytes that `mm_malloc` takes for it makes the block 8 bytes shorter: it then has no room for that many
  -- bytes, the header and the footer.
  pub mm_realloc_same :
      (size : ℕ)
      → m q ≡ some (record { size = adjust size; alloc = 1 })
      → 8 < size
      → size + 15 < 4294967296
      → Shortened q (align size) (mm_realloc fuel q size s) × (align size < size + 8)
  unfolding mm_realloc shrink
  mm_realloc_same size e l o =
      let t = h.listed.blocks.tagged q (record { size = adjust size; alloc = 1 }) e in
      let old : size_of s.list.words q ≡ adjust size =
        size_of_lem s.list.words lo s.mem.brk q (record { size = adjust size; alloc = 1 }) t in
      let a = align-adjust size l o in
      let z : (q == null) ≡ false = ground (arith, t.low, h.low) in
      let y : (size == 0) ≡ false = ground arith in
      let x : (align size == adjust size) ≡ false = ground (arith, a) in
      let w : ltb (align size) (adjust size) ≡ true = ground (arith, a) in
      let v : leb 16 (adjust size - align size) ≡ false = ground (arith, a) in
      let w₁ = mark q (align size) 1 s.list.words in
      (
        rw (z, y, old, x, w, v)
            (record {
              after = with_list (with_words w₁ s.list) s;
              stays = refl;
              size =
                  mark_size s.list.words q (align size) 1 (align_size size o) (omega arith)
                    (omega (arith, t.low, h.low));
            }),
        (align_bounds size o).1,
      )

  -- The branch that asks `mm_malloc` for the difference.
  pub mm_realloc_grows :
      (old size : ℕ)
      → m q ≡ some (record { size = old; alloc = 1 })
      → old < align size
      → size + 15 < 4294967296
      → s.mem.brk < fuel
      → (mm_realloc fuel q size s ≡ copied fuel q old (mm_malloc fuel (align size - old) s))
        × Mallocs (adjust (align size - old)) lo m s (mm_malloc fuel (align size - old) s)
  unfolding mm_realloc
  mm_realloc_grows old size e l o n =
      let b : Block = record { size = old; alloc = 1 } in
      let t = h.listed.blocks.tagged q b e in
      let size_q : size_of s.list.words q ≡ old = size_of_lem s.list.words lo s.mem.brk q b t in
      let r = align_bounds size o in
      let z : (q == null) ≡ false = ground (arith, t.low, h.low) in
      let y : (size == 0) ≡ false = ground (arith, l, r.1, t.least) in
      let x : (align size == old) ≡ false = ground (arith, l) in
      let w : ltb (align size) old ≡ false = ground (arith, l) in
      let v : ltb old old ≡ false = ground arith in
      let c = coalesce_lem s.mem q s.list (omega (arith, h.start, t.low, t.high, t.least)) in
      let d : sub32 (align size) old ≡ align size - old = omega (arith, l, r.1, o) in
      (
        rw (c, size_q, z, y, x, w, v, d) refl,
        mm_malloc-Mallocs s lo m fs fuel (align size - old) h (omega (arith, l))
            (omega (arith, r.1, o, t.least)) n,
      )
