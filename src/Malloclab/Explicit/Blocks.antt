-- ===== src/Malloclab/Explicit/Blocks.antt =====
-- The blocks of malloclab/mm.c as a map from pointers, with gaps between them where bytes are lost.
use git_sty.Base.{
  ℕ, ◌+◌, ◌-◌, ◌%◌, ◌≤◌, ◌<◌, ◌≡◌, ◌≢◌, ◌⊎◌, inl, inr, ◌∙◌, ap, sym, refl, Option, some, ◌==◌, true,
  if◌then◌else◌, Bool-cases, arith,
}
use git_sty.Malloclab.FirstFit.{Words, pack, hdrp}
use git_sty.Malloclab.FirstFit.Words.{
  IsBlockSize, get_size-pack, put_both_ne, put_both_header, put_both_at_footer,
}
use git_sty.Malloclab.FirstFit.Chain.{Block}
use git_sty.Malloclab.FreeList.{size_of}
use git_sty.Malloclab.FreeList.Boundary.{pack_aligned}
use git_sty.Malloclab.Explicit.{mark}

abbrev pub Map : Type 0
Map = ℕ → Option Block

abbrev pub enter : ℕ → ℕ → ℕ → Map → Map
enter p size alloc m q = if q == p then some (record { size = size; alloc = alloc }) else m q

-- The block `b` at `p`, between `lo` and `hi`.
pub record Tagged (w : Words) (lo hi p : ℕ) (b : Block) : Type 0 where
  pub aligned : p % 8 ≡ 0
  pub size_ok : IsBlockSize b.size
  pub least : 16 ≤ b.size
  pub bit : b.alloc < 2
  pub low : lo ≤ p
  pub high : p + b.size ≤ hi
  pub header : w (hdrp p) ≡ pack b.size b.alloc
  pub footer : w ((p + b.size) - 8) ≡ pack b.size b.alloc

-- The `s` bytes at `p` belong to no block but the one at `p`.
abbrev pub Room : Map → ℕ → ℕ → Type 0
Room m p s = (q : ℕ) (c : Block) → m q ≡ some c → q ≢ p → (q + c.size ≤ p) ⊎ (p + s ≤ q)

pub record Blocks (w : Words) (lo hi : ℕ) (m : Map) : Type 0 where
  pub tagged : (p : ℕ) (b : Block) → m p ≡ some b → Tagged w lo hi p b
  pub apart : (p : ℕ) (b : Block) → m p ≡ some b → Room m p b.size

pub Room-shrink : (m : Map) (p s t : ℕ) → t ≤ s → Room m p s → Room m p t
Room-shrink m p s t l r q c e n = elim (r q c e n) [
  | inl d ↦ inl d
  | inr d ↦ inr (omega (arith, d, l))
]

-- The tags of a map's blocks are kept.
pub Blocks-frame :
    (w w' : Words) (lo hi hi' : ℕ) (m : Map)
    → hi ≤ hi'
    → ((p : ℕ) (b : Block)
        → m p ≡ some b
        → (w' (hdrp p) ≡ w (hdrp p)) × (w' ((p + b.size) - 8) ≡ w ((p + b.size) - 8)))
    → Blocks w lo hi m
    → Blocks w' lo hi' m
Blocks-frame w w' lo hi hi' m l f k = record {
  tagged = λ p b e.
      let t = k.tagged p b e in
      let (x, y) = f p b e in
      record {
        aligned = t.aligned;
        size_ok = t.size_ok;
        least = t.least;
        bit = t.bit;
        low = t.low;
        high = omega (arith, t.high, l);
        header = x ∙ t.header;
        footer = y ∙ t.footer;
      };
  apart = k.apart;
}

pub pack_aligned_lem : (s a : ℕ) → IsBlockSize s → pack_aligned s a ≡ pack s a
unfolding IsBlockSize
pack_aligned_lem s a (e, l) =
    let d : (s + 7) - (s + 7) % 8 ≡ s = omega (arith, e) in ap (λ t. pack t a) d

-- The header says how large a block is.
pub size_of_lem : (w : Words) (lo hi p : ℕ) (b : Block) → Tagged w lo hi p b → size_of w p ≡ b.size
size_of_lem w lo hi p b t = get_size-pack w (hdrp p) b.size b.alloc t.size_ok t.bit t.header

module _ (w : Words) (p s a : ℕ) (i : IsBlockSize s) (b : a < 2) where
  pub mark_ne : (q : ℕ) → hdrp p ≢ q → (p + s) - 8 ≢ q → mark p s a w q ≡ w q
  mark_ne q n m = rw (pack_aligned_lem s a i) (put_both_ne p s a w i b q n m)

  pub mark_header : 8 ≤ p → mark p s a w (hdrp p) ≡ pack s a
  mark_header l = rw (pack_aligned_lem s a i) (put_both_header p s a w i b l)

  pub mark_footer : mark p s a w ((p + s) - 8) ≡ pack s a
  mark_footer = rw (pack_aligned_lem s a i) (put_both_at_footer p s a w i b)

  pub mark_size : 8 ≤ p → size_of (mark p s a w) p ≡ s
  mark_size l = get_size-pack (mark p s a w) (hdrp p) s a i b (mark_header l)

-- The blocks in use are still there.
abbrev pub Keeps : Map → Map → Type 0
Keeps m m' = (r : ℕ) (c : Block) → m r ≡ some c → c.alloc ≡ 1 → m' r ≡ some c

-- What it takes to put a block of `s` bytes at `p`.
pub record Fits (lo hi p s : ℕ) (m : Map) : Type 0 where
  pub aligned : p % 8 ≡ 0
  pub size_ok : IsBlockSize s
  pub least : 16 ≤ s
  pub low : lo ≤ p
  pub high : p + s ≤ hi
  pub room : Room m p s

pub entered :
    (p q s a : ℕ) (m : Map) (c : Block)
    → (q == p) ≡ true
    → enter p s a m q ≡ some c
    → (c.size ≡ s) × (c.alloc ≡ a)
entered p q s a m c d e = (ground arith, ground arith)

module _ (w : Words) (lo hi p s a : ℕ) (m : Map) (z : 8 ≤ lo) (b : a < 2)
    (f : Fits lo hi p s m) where
  new_Tagged :
      (q : ℕ) (c : Block) → q ≡ p → (c.size ≡ s) × (c.alloc ≡ a) → Tagged (mark p s a w) lo hi q c
  new_Tagged q c e (d, g) = rw e (record {
    aligned = f.aligned;
    size_ok = rw d f.size_ok;
    least = rw d f.least;
    bit = rw g b;
    low = f.low;
    high = rw d f.high;
    header = rw (d, g) (mark_header w p s a f.size_ok b (omega (arith, z, f.low)));
    footer = rw (d, g) (mark_footer w p s a f.size_ok b);
  })

  -- No tag of another block is one of the new block's.
  tags_apart :
      (q : ℕ) (c : Block)
      → Tagged w lo hi q c
      → (q + c.size ≤ p) ⊎ (p + s ≤ q)
      → (x : ℕ) → (x ≡ hdrp q) ⊎ (x ≡ (q + c.size) - 8)
      → (x ≡ hdrp p) ⊎ (x ≡ (p + s) - 8)
      → ⊥
  unfolding IsBlockSize
  tags_apart q c t r x h g =
      let i = f.size_ok.0 in
      let j = t.size_ok.0 in
      ground (arith, r, h, g, z, f.low, f.least, f.aligned, t.low, t.least, t.aligned, i, j)

  kept_Tagged :
      (q : ℕ) (c : Block)
      → Tagged w lo hi q c
      → (q + c.size ≤ p) ⊎ (p + s ≤ q)
      → Tagged (mark p s a w) lo hi q c
  kept_Tagged q c t r =
      let kept_at = λ (x : ℕ) (h : (x ≡ hdrp q) ⊎ (x ≡ (q + c.size) - 8)).
        mark_ne w p s a f.size_ok b x (λ v. tags_apart q c t r x h (inl (sym v)))
          (λ v. tags_apart q c t r x h (inr (sym v))) in
      record {
        aligned = t.aligned;
        size_ok = t.size_ok;
        least = t.least;
        bit = t.bit;
        low = t.low;
        high = t.high;
        header = kept_at (hdrp q) (inl refl) ∙ t.header;
        footer = kept_at ((q + c.size) - 8) (inr refl) ∙ t.footer;
      }

-- A block's tags are written: the map has it, whether or not a block began there.
pub mark-Blocks :
    (w : Words) (lo hi p s a : ℕ) (m : Map)
    → 8 ≤ lo
    → a < 2
    → Fits lo hi p s m
    → Blocks w lo hi m
    → Blocks (mark p s a w) lo hi (enter p s a m)
mark-Blocks w lo hi p s a m z b f k = record {
  tagged = λ q c e. elim (Bool-cases (q == p)) [
    | inl d ↦ new_Tagged w lo hi p s a m z b f q c (ground arith) (entered p q s a m c d e)
    | inr d ↦
        kept_Tagged w lo hi p s a m z b f q c (k.tagged q c (ground arith))
          (f.room q c (ground arith) (λ v. ground arith))
  ];
  apart = λ q c e r d g n. elim (Bool-cases (q == p)) [
    | inl x ↦
        let v : q ≡ p = ground arith in
        let u : r ≢ p = λ y. n (omega (arith, v, y)) in
        let o = f.room r d (ground (arith, u)) u in
        let h = (entered p q s a m c x e).0 in ground (arith, o, h)
    | inr x ↦ elim (Bool-cases (r == p)) [
      | inl y ↦
          let v : r ≡ p = ground arith in
          let u : q ≢ p = λ t. n (omega (arith, v, t)) in
          let o = f.room q c (ground (arith, u)) u in
          let h = (entered p r s a m d y g).0 in ground (arith, o, h)
      | inr y ↦ k.apart q c (ground arith) r d (ground arith) n
    ]
  ];
}
