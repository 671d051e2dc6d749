-- ===== src/Malloclab/FirstFit/Init.antt =====
-- `mm_init` lays out the prologue and one free block.
use git_sty.Base.{
  ℕ, ◌+◌, ◌%◌, ◌≤◌, ◌<◌, ◌≡◌, refl, true, false, ◌==◌, Option, none, some, [], ◌∷◌, arith, inl, inr,
}
use git_sty.Malloclab.Memlib.{mem_sbrk}
use git_sty.Malloclab.Memlib.Bounds.{InBounds}
use git_sty.Malloclab.FirstFit.{Words, Heap, put, first_words, extend_heap, mm_init, is_some}
use git_sty.Malloclab.FirstFit.Words.{IsBlockSize}
use git_sty.Malloclab.FirstFit.Chain.{Block}
use git_sty.Malloclab.FirstFit.Tags.{Seg, Laid}
use git_sty.Malloclab.FirstFit.Spans.{free_of}
use git_sty.Malloclab.FirstFit.Coalesce.{merge}
use git_sty.Malloclab.FirstFit.Free.{Ready}
use git_sty.Malloclab.FirstFit.Extend.{Extends, extend_heap-Extends}

abbrev pub prologue : Block
prologue = record { size = 8; alloc = 1 }

first_words-Laid :
    (p : ℕ) (w : Words) → p + 16 < 4294967296 → Laid (first_words p w) (p + 8) (prologue ∷ [])
unfolding first_words Seg IsBlockSize put
first_words-Laid p w h = record {
  blocks = (
    record {
      header = ground arith;
      footer = ground arith;
      size_ok = omega arith;
      least = omega arith;
      bit = omega arith;
    },
    tt,
  );
  epilogue = ground arith;
  low = omega arith;
  room = omega arith;
}

-- A heap before `mm_init`: there is room for the first words and the first free block.
pub record CanStart (h : Heap) : Type 0 where
  pub bounds : InBounds h.mem
  pub small : h.mem.max_addr < 4294967296
  pub room : h.mem.brk + 4112 ≤ h.mem.max_addr
  pub above : 0 < h.mem.brk
  pub aligned : h.mem.brk % 8 ≡ 0

abbrev pub after_first : Heap → Heap
after_first h = record {
  words = first_words h.mem.brk h.words;
  mem = record { start_brk = h.mem.start_brk; brk = h.mem.brk + 16; max_addr = h.mem.max_addr };
  heap_listp = h.mem.brk + 8;
}

after_first-Ready : (h : Heap) → CanStart h → Ready (after_first h) (prologue ∷ [])
after_first-Ready h c = record {
  laid = first_words-Laid h.mem.brk h.words (omega (arith, c.small, c.room));
  top = omega arith;
  bounds = record { low = omega (arith, c.bounds.low); high = omega (arith, c.room) };
  small = c.small;
}

sbrk_first : (h : Heap) → CanStart h → mem_sbrk 16 h.mem ≡ (some h.mem.brk, (after_first h).mem)
unfolding mem_sbrk
sbrk_first h c = ground (arith, c.room)

mm_init_eq :
    (h : Heap)
    → CanStart h
    → mm_init h
      ≡ (is_some (extend_heap 1024 (after_first h)).0, (extend_heap 1024 (after_first h)).1)
unfolding mm_init
mm_init_eq h c =
    let e : (h.mem.brk == 0) ≡ false = ground (arith, c.above) in rw (sbrk_first h c, e) refl

extended-Ready :
    (h : Heap) (r : Option ℕ × Heap)
    → h.mem.brk + 4096 ≤ h.mem.max_addr
    → Extends h [] prologue 4096 r
    → (is_some r.0 ≡ true)
      × ((r.1.heap_listp ≡ h.heap_listp) × Ready r.1 (prologue ∷ free_of 4096 ∷ []))
unfolding Extends merge
extended-Ready h (some q, h') g (e, (l, r)) = (refl, (l, r))
extended-Ready h (none, h') g (e, inl x) = absurd (omega (arith, x))
extended-Ready h (none, h') g (e, inr x) = absurd (omega (arith, x, g))

-- Where the heap has room for 4112 bytes, `mm_init` returns 0 and lays out the prologue block of 8 bytes
-- and a free block of 4096, from 8 bytes above the old break to the new one.
pub mm_init-Ready :
    (h : Heap)
    → CanStart h
    → ((mm_init h).0 ≡ true)
      × (((mm_init h).1.heap_listp ≡ h.mem.brk + 8)
          × Ready ((mm_init h).1) (prologue ∷ free_of 4096 ∷ []))
unfolding IsBlockSize
mm_init-Ready h c = rw (mm_init_eq h c) (
    extended-Ready (after_first h) (extend_heap 1024 (after_first h)) (omega (arith, c.room)) (
      extend_heap-Extends (after_first h) [] prologue 4096 (after_first-Ready h c) (omega arith)
        (omega arith)))
