-- ===== src/Malloclab/FirstFit/Free.antt =====
-- `mm_free` on a heap that is laid out up to the break.
use git_sty.Base.{ℕ, ◌+◌, ◌<◌, ◌≡◌, refl, ◌==◌, List, [], ◌∷◌, ◌++◌, arith, Bool-cases, inl, inr}
use mathlib.Core.List.{append_assoc}
use git_sty.Malloclab.Memlib.Bounds.{InBounds}
use git_sty.Malloclab.FirstFit.{Words, Heap, hdrp, pack, put_both, mm_free}
use git_sty.Malloclab.FirstFit.Words.{get_size-pack}
use git_sty.Malloclab.FirstFit.Chain.{Block}
use git_sty.Malloclab.FirstFit.Tags.{total, total-append, Seg, Seg-split, Laid}
use git_sty.Malloclab.FirstFit.Spans.{free_of, spans_both}
use git_sty.Malloclab.FirstFit.Coalesce.{merge, with_next, with_prev}
use git_sty.Malloclab.FirstFit.Merge.{Laid-shift, coalesce-IsMerged}

-- The heap holds the blocks `bs` from `heap_listp` to the break, below 2^32.
pub record Ready (h : Heap) (bs : List Block) : Type 0 where
  pub laid : Laid h.words h.heap_listp bs
  pub top : h.mem.brk ≡ h.heap_listp + total bs
  pub bounds : InBounds h.mem
  pub small : h.mem.max_addr < 4294967296

total-with_next : (s : ℕ) (ys : List Block) → total (with_next s ys) ≡ s + total ys
total-with_next s [] = refl
total-with_next s (n ∷ ys) = elim (Bool-cases (n.alloc == 0)) [
  | inl e ↦ rw e (omega arith)
  | inr e ↦ rw e refl
]

total-with_prev : (p : Block) (ys : List Block) → total (with_prev p ys) ≡ p.size + total ys
total-with_prev p [] = refl
total-with_prev p (b ∷ ys) = elim (Bool-cases (p.alloc == 0)) [
  | inl e ↦ rw e (omega arith)
  | inr e ↦ rw e refl
]

pub total-merge :
    (p : Block) (s : ℕ) (ys : List Block) → total (merge p s ys) ≡ p.size + (s + total ys)
unfolding merge
total-merge p s ys = omega (arith, total-with_prev p (with_next s ys), total-with_next s ys)

-- Writing the two words of a block that is given free.
freed-Laid :
    (w : Words) (first : ℕ) (xs : List Block) (p b : Block) (ys : List Block)
    → Laid w first (xs ++ (p ∷ b ∷ ys))
    → Laid
        (put_both (first + total xs + p.size) (pack b.size 0) w)
        first
        (xs ++ (p ∷ free_of b.size ∷ ys))
unfolding Seg
freed-Laid w first xs p b ys l =
    let t = (Seg-split w first xs (p ∷ b ∷ ys) l.blocks).1.1.0 in
    rw (← append_assoc xs (p ∷ []) (free_of b.size ∷ ys)) (
      spans_both w first (first + total xs + p.size) b.size (xs ++ (p ∷ [])) (b ∷ []) ys
        (Laid-shift w first xs p (b ∷ ys) l) (omega (arith, total-append xs (p ∷ []))) (omega arith)
        t.size_ok t.least)

-- Where the heap holds `xs`, `p`, `b` and `ys`, `mm_free` of the pointer to `b` leaves a heap that holds
-- `xs` and then `b` as a free block, joined with `p` and the first of `ys` where these are free. No
-- other block changes.
pub mm_free-Ready :
    (h : Heap) (xs : List Block) (p b : Block) (ys : List Block)
    → Ready h (xs ++ (p ∷ b ∷ ys))
    → Ready (mm_free (h.heap_listp + total xs + p.size) h) (xs ++ merge p b.size ys)
unfolding mm_free Seg
mm_free-Ready h xs p b ys r =
    let q = h.heap_listp + total xs + p.size in
    let t = (Seg-split h.words h.heap_listp xs (p ∷ b ∷ ys) r.laid.blocks).1.1.0 in
    let size = get_size-pack h.words (hdrp q) b.size b.alloc t.size_ok t.bit t.header in
    let f = freed-Laid h.words h.heap_listp xs p b ys r.laid in
    let m = coalesce-IsMerged (put_both q (pack b.size 0) h.words) h.heap_listp b.size xs p ys f in
    rw size (record {
      laid = m.1;
      top = omega (
        arith,
        r.top,
        total-append xs (p ∷ b ∷ ys),
        total-append xs (merge p b.size ys),
        total-merge p b.size ys,
      );
      bounds = r.bounds;
      small = r.small;
    })
