-- ===== src/Malloclab/FirstFit/Extend.antt =====
-- `extend_heap` appends a free block, joined with the last one where that is free.
use git_sty.Base.{
  ℕ, ◌+◌, ◌-◌, ◌*◌, ◌/◌, ◌%◌, ◌≤◌, ◌<◌, ◌≡◌, ◌⊎◌, ◌∙◌, ap, refl, true, ◌==◌, Option, none, some,
  List, [], ◌∷◌, ◌++◌, arith,
}
use mathlib.Core.List.{append_assoc}
use git_sty.Malloclab.Memlib.{Mem, mem_sbrk}
use git_sty.Malloclab.Memlib.Bounds.{Grows, mem_sbrk-Grows}
use git_sty.Malloclab.FirstFit.{
  Words, Heap, hdrp, next_blkp, pack, put, put_both, free_block, after_sbrk, extend_heap,
}
use git_sty.Malloclab.FirstFit.Words.{
  IsBlockSize, get_size-pack, put_self, put_ne, put_both_ne, put_both_header, put_both_at_footer,
}
use git_sty.Malloclab.FirstFit.Chain.{Block}
use git_sty.Malloclab.FirstFit.Tags.{total, total-append, Tagged, Seg, Seg-frame, Seg-append, Laid}
use git_sty.Malloclab.FirstFit.Spans.{free_of}
use git_sty.Malloclab.FirstFit.Coalesce.{merge}
use git_sty.Malloclab.FirstFit.Merge.{merged_at, coalesce-IsMerged}
use git_sty.Malloclab.FirstFit.Free.{Ready, total-merge}

module _ (w : Words) (first s : ℕ) (bs : List Block) (l : Laid w first bs) (i : IsBlockSize s)
    (least : 8 ≤ s) (room : first + total bs + s < 4294967296) where
  abbrev bp : ℕ
  bp = first + total bs

  w₁ : Words
  w₁ = put_both bp (pack s 0) w

  next_at : next_blkp w₁ bp ≡ bp + s
  unfolding w₁
  next_at =
      ap (λ n. bp + n)
        (get_size-pack w₁ (hdrp bp) s 0 i (omega arith)
          (put_both_header bp s 0 w i (omega arith) (omega (arith, l.low))))

  w₂ : Words
  w₂ = put (hdrp (bp + s)) (pack 0 1) w₁

  laid_out : free_block bp s w ≡ w₂
  unfolding free_block w₂ w₁
  laid_out = ap (λ q. put (hdrp q) (pack 0 1) w₁) next_at

  tagged : Tagged w₂ bp (free_of s)
  unfolding w₂ w₁
  tagged = record {
    header =
        put_ne (hdrp (bp + s)) (pack 0 1) (hdrp bp) w₁ (omega (arith, least, l.low))
        ∙ put_both_header bp s 0 w i (omega arith) (omega (arith, l.low));
    footer =
        put_ne (hdrp (bp + s)) (pack 0 1) ((bp + s) - 8) w₁ (omega (arith, least, l.low))
        ∙ put_both_at_footer bp s 0 w i (omega arith);
    size_ok = i;
    least = least;
    bit = omega arith;
  }

  kept : (q : ℕ) → q < hdrp bp → w₂ q ≡ w q
  unfolding w₂ w₁
  kept q c =
      put_ne (hdrp (bp + s)) (pack 0 1) q w₁ (omega (arith, c, l.low))
      ∙ put_both_ne bp s 0 w i (omega arith) q (omega (arith, c)) (omega (arith, c, least, l.low))

  pub free_block-Laid : Laid (free_block bp s w) first (bs ++ (free_of s ∷ []))
  unfolding Seg w₂
  free_block-Laid = rw laid_out (record {
    blocks =
        Seg-append w₂ first bs (free_of s ∷ [])
          (Seg-frame w w₂ first bs l.low (λ q a c. kept q c) l.blocks) (tagged, tt);
    epilogue =
        ap (λ n. w₂ (hdrp n)) (omega (arith, total-append bs (free_of s ∷ [])))
        ∙ put_self (hdrp (bp + s)) (pack 0 1) w₁;
    low = l.low;
    room = omega (arith, room, total-append bs (free_of s ∷ []));
  })

-- The heap after `extend_heap`, which ended in the block `p`.
unfoldable pub Extends : Heap → List Block → Block → ℕ → Option ℕ × Heap → Type 0
Extends h xs p s (some q, h') =
    (q ≡ merged_at p (h.heap_listp + total xs))
    × ((h'.heap_listp ≡ h.heap_listp) × Ready h' (xs ++ merge p s []))
Extends h xs p s (none, h') = (h' ≡ h) × ((2147483648 ≤ s) ⊎ (h.mem.max_addr < h.mem.brk + s))

after_sbrk-Extends :
    (h : Heap) (xs : List Block) (p : Block) (s : ℕ) (r : Option ℕ × Mem)
    → Ready h (xs ++ (p ∷ []))
    → IsBlockSize s
    → 8 ≤ s
    → Grows s h.mem r
    → Extends h xs p s (after_sbrk s h r)
unfolding after_sbrk Grows Extends
after_sbrk-Extends h xs p s (none, m) r i z (e, g) =
    (ap (λ n. record { words = h.words; mem = n; heap_listp = h.heap_listp }) e, g)
after_sbrk-Extends h xs p s (some q, m) r i z (e, (b, (c, (d, x)))) =
    let first = h.heap_listp in
    let at : q ≡ first + total xs + p.size = omega (arith, e, r.top, total-append xs (p ∷ [])) in
    let end : first + total (xs ++ (p ∷ [])) ≡ first + total xs + p.size =
      omega (arith, total-append xs (p ∷ [])) in
    let laid =
      free_block-Laid h.words first s (xs ++ (p ∷ [])) r.laid i z
        (omega (arith, r.top, b, x, d.high, r.small)) in
    let w = free_block (first + total xs + p.size) s h.words in
    let shifted : Laid w first (xs ++ (p ∷ free_of s ∷ [])) =
      rw (← append_assoc xs (p ∷ []) (free_of s ∷ []), ← end) laid in
    let m' = coalesce-IsMerged w first s xs p [] shifted in
    rw at (
      m'.0,
      (
        refl,
        record {
          laid = m'.1;
          top = omega (
            arith,
            b,
            r.top,
            total-append xs (p ∷ []),
            total-append xs (merge p s []),
            total-merge p s [],
          );
          bounds = d;
          small = omega (arith, x, r.small);
        },
      ),
    )

even : (s : ℕ) → IsBlockSize s → (s / 4 % 2 == 0) ≡ true
unfolding IsBlockSize
even s (m, l) = ground arith

words_of : (s : ℕ) → IsBlockSize s → s / 4 * 4 % 4294967296 ≡ s
unfolding IsBlockSize
words_of s (m, l) = omega arith

-- On a heap that ends in the block `p`, `extend_heap` by `s` bytes, a multiple of 8, appends a free
-- block of `s` bytes, joined with `p` if that is free, and returns where it begins; or the heap has no
-- room for them, and `extend_heap` returns NULL and changes nothing.
pub extend_heap-Extends :
    (h : Heap) (xs : List Block) (p : Block) (s : ℕ)
    → Ready h (xs ++ (p ∷ []))
    → IsBlockSize s
    → 8 ≤ s
    → Extends h xs p s (extend_heap (s / 4) h)
unfolding extend_heap
extend_heap-Extends h xs p s r i z =
    rw (even s i, words_of s i)
      (after_sbrk-Extends h xs p s (mem_sbrk s h.mem) r i z (mem_sbrk-Grows s h.mem r.bounds))
