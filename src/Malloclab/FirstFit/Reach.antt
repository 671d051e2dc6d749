-- ===== src/Malloclab/FirstFit/Reach.antt =====
-- Every sequence of `mm_malloc` and of `mm_free` of blocks that are in use, from `mm_init` on.
use git_sty.Base.{
  ℕ, ◌+◌, ◌≤◌, ◌<◌, ◌≡◌, ◌∙◌, ap, sym, refl, true, ◌==◌, none, some, List, [], ◌∷◌, ◌++◌, length,
  arith, Bool-cases, inl, inr, ◌⊎◌,
}
use mathlib.Core.Path.{subst}
use git_sty.Malloclab.FirstFit.{
  Words, Heap, malloced, mm_init, mm_malloc, mm_free, adjust, with_words,
}
use git_sty.Malloclab.FirstFit.Chain.{Block}
use git_sty.Malloclab.FirstFit.Tags.{total}
use git_sty.Malloclab.FirstFit.Coalesce.{merge}
use git_sty.Malloclab.FirstFit.Spans.{free_of}
use git_sty.Malloclab.FirstFit.Owner.{Seg-Positive, owner, owner-free}
use git_sty.Malloclab.FirstFit.Free.{Ready, mm_free-Ready}
use git_sty.Malloclab.FirstFit.Allocate.{Allocates, malloc_blocks, mm_malloc-Allocates, Ready-eq}
use git_sty.Malloclab.FirstFit.Init.{CanStart, prologue, mm_init-Ready}
use git_sty.Malloclab.FirstFit.Joined.{joined, joined-malloc_blocks, joined-merge}
use git_sty.Malloclab.FirstFit.Payload.{Laid-payload, payload-Outside}
use git_sty.Malloclab.FirstFit.Live.{
  Live, update, Serving, Serving-grow, Serving-shrink, owner-Inner, length-total, last_of,
}

-- The fuel is more than the bytes of the heap.
pub data Reach (h₀ : Heap) : Heap → Live → Type 0 where
  start : Reach h₀ ((mm_init h₀).1) (λ q. none)
  allocates :
      {h h' : Heap} {live : Live} (fuel size q : ℕ)
      → Reach h₀ h live
      → size + 15 < 4294967296
      → h.mem.brk < fuel
      → mm_malloc fuel size h ≡ malloced (some q) h'
      → Reach h₀ h' (update q (some size) live)
  refuses :
      {h h' : Heap} {live : Live} (fuel size : ℕ)
      → Reach h₀ h live
      → size + 15 < 4294967296
      → h.mem.brk < fuel
      → mm_malloc fuel size h ≡ malloced none h'
      → Reach h₀ h' live
  frees :
      {h : Heap} {live : Live} (q size : ℕ)
      → Reach h₀ h live
      → live q ≡ some size
      → Reach h₀ (mm_free q h) (update q none live)
  -- The program writes into a block that it has in use.
  writes :
      {h : Heap} {live : Live} (q size : ℕ) (w : Words)
      → Reach h₀ h live
      → live q ≡ some size
      → ((r : ℕ) → (r < q) ⊎ (q + size ≤ r) → w r ≡ h.words r)
      → Reach h₀ (with_words w h) live

-- The invariant: the heap is laid out, from 8 bytes above the old break on, and serves what is in use.
pub record Sound (h₀ h : Heap) (live : Live) : Type 0 where
  pub blocks : List Block
  pub ready : Ready h blocks
  pub first : h.heap_listp ≡ h₀.mem.brk + 8
  pub coalesced : joined blocks ≡ true
  pub serving : Serving h.heap_listp blocks live

start-Sound : (h₀ : Heap) → CanStart h₀ → Sound h₀ ((mm_init h₀).1) (λ q. none)
unfolding owner joined
start-Sound h₀ c =
    let i = mm_init-Ready h₀ c in
    record {
      blocks = prologue ∷ free_of 4096 ∷ [];
      ready = i.1.1;
      first = i.1.0;
      coalesced = refl;
      serving = record { prologue = refl; owns = λ q s e. absurd (ground arith) };
    }

-- `mm_malloc` on a sound heap, with fuel enough.
pub malloc_on :
    (h₀ h : Heap) (live : Live) (fuel size : ℕ) (s : Sound h₀ h live)
    → 0 < size
    → size + 15 < 4294967296
    → h.mem.brk < fuel
    → Allocates (adjust size) h s.blocks (mm_malloc fuel size h)
malloc_on h₀ h live fuel size s z o n =
    let (xs, (p, e)) = last_of s.blocks 0 8 s.serving.prologue in
    let l = length-total h.words h.heap_listp s.blocks s.ready.laid.blocks in
    subst (λ b. Allocates (adjust size) h b (mm_malloc fuel size h)) (sym e)
      (mm_malloc-Allocates fuel size h xs p z o (Ready-eq h s.blocks (xs ++ (p ∷ [])) e s.ready)
        (omega (arith, l, n, s.ready.top, ap (λ b. length b) e)))

allocated-Sound :
    (h₀ h h' : Heap) (live : Live) (size q : ℕ) (s : Sound h₀ h live)
    → size + 15 < 4294967296
    → Allocates (adjust size) h s.blocks (malloced (some q) h')
    → Sound h₀ h' (update q (some size) live)
unfolding Allocates
allocated-Sound h₀ h h' live size q s o (l, (r, (n, (e, g)))) = record {
  blocks = malloc_blocks (adjust size) s.blocks;
  ready = r;
  first = l ∙ s.first;
  coalesced = joined-malloc_blocks (adjust size) s.blocks s.coalesced;
  serving = rw l (
      Serving-grow h.heap_listp n q size s.blocks (malloc_blocks (adjust size) s.blocks) live e o g
        s.serving);
}

-- A request of no bytes is refused, and the heap stays.
mm_malloc_zero :
    (fuel size : ℕ) (h : Heap) → (size == 0) ≡ true → mm_malloc fuel size h ≡ malloced none h
unfolding mm_malloc
mm_malloc_zero fuel size h e = rw e refl

positive : (fuel size q : ℕ) (h h' : Heap) → mm_malloc fuel size h ≡ malloced (some q) h' → 0 < size
positive fuel size q h h' e = elim (Bool-cases (size == 0)) [
  | inl d ↦ absurd (cc (e, mm_malloc_zero fuel size h d))
  | inr d ↦ ground arith
]

refused-Sound :
    (h₀ h h' : Heap) (live : Live) (fuel size : ℕ)
    → Sound h₀ h live
    → size + 15 < 4294967296
    → h.mem.brk < fuel
    → mm_malloc fuel size h ≡ malloced none h'
    → h' ≡ h
unfolding Allocates
refused-Sound h₀ h h' live fuel size s o n e = elim (Bool-cases (size == 0)) [
  | inl d ↦ cc (e, mm_malloc_zero fuel size h d)
  | inr d ↦
      (subst (Allocates (adjust size) h s.blocks) e
        (malloc_on h₀ h live fuel size s (ground arith) o n)).0
]

freed-Sound :
    (h₀ h : Heap) (live : Live) (q size : ℕ)
    → Sound h₀ h live
    → live q ≡ some size
    → Sound h₀ (mm_free q h) (update q none live)
unfolding mm_free
freed-Sound h₀ h live q size s e =
    let o = s.serving.owns q size e in
    let i = owner-Inner s.blocks o.offset o.bytes o.owned o.later in
    let bs = i.before ++ (i.previous ∷ i.block ∷ i.after) in
    let r = Ready-eq h s.blocks bs i.parts s.ready in
    let at : h.heap_listp + total i.before + i.previous.size ≡ q = omega (arith, o.at, i.offset) in
    record {
      blocks = i.before ++ merge i.previous i.block.size i.after;
      ready =
          subst (λ p. Ready (mm_free p h) (i.before ++ merge i.previous i.block.size i.after)) at
            (mm_free-Ready h i.before i.previous i.block i.after r);
      first = s.first;
      coalesced =
          joined-merge i.before i.previous i.block i.after i.taken
            (ap joined (sym i.parts) ∙ s.coalesced);
      serving =
          Serving-shrink h.heap_listp o.offset q s.blocks
            (i.before ++ merge i.previous i.block.size i.after) live o.at o.later
            (λ k.
              rw (i.parts, i.offset)
                (owner-free k i.before i.previous i.block i.after
                  (Seg-Positive h.words h.heap_listp bs r.laid.blocks)))
            s.serving;
    }

written-Sound :
    (h₀ h : Heap) (live : Live) (q size : ℕ) (w : Words)
    → Sound h₀ h live
    → live q ≡ some size
    → ((r : ℕ) → (r < q) ⊎ (q + size ≤ r) → w r ≡ h.words r)
    → Sound h₀ (with_words w h) live
written-Sound h₀ h live q size w s e f =
    let o = s.serving.owns q size e in
    record {
      blocks = s.blocks;
      ready = record {
        laid =
            Laid-payload h.words w h.heap_listp o.offset o.bytes s.blocks o.owned
              (λ r d. f r (payload-Outside h.heap_listp s.blocks q size o r d)) s.ready.laid;
        top = s.ready.top;
        bounds = s.ready.bounds;
        small = s.ready.small;
      };
      first = s.first;
      coalesced = s.coalesced;
      serving = s.serving;
    }

-- Whatever is allocated, written and freed from `mm_init` on, in a heap that had room to start
-- (`CanStart`), as long as only blocks in use are freed or written, inside the bytes that were
-- asked for, and no size is so large that its rounding overflows, the heap from 8 bytes above the
-- old break to the new one is laid out in blocks, no two free ones lie side by side, and each
-- block in use is an allocated one of the size that its request rounds to or more.
pub Reach-Sound : (h₀ h : Heap) (live : Live) → CanStart h₀ → Reach h₀ h live → Sound h₀ h live
Reach-Sound h₀ h live c start = start-Sound h₀ c
Reach-Sound h₀ h live c (allocates {h = g} {live = v} fuel size q r o n e) =
    let s = Reach-Sound h₀ g v c r in
    allocated-Sound h₀ g h v size q s o (
      subst (Allocates (adjust size) g s.blocks) e
        (malloc_on h₀ g v fuel size s (positive fuel size q g h e) o n))
Reach-Sound h₀ h live c (refuses {h = g} fuel size r o n e) =
    let s = Reach-Sound h₀ g live c r in
    subst (λ t. Sound h₀ t live) (sym (refused-Sound h₀ g h live fuel size s o n e)) s
Reach-Sound h₀ h live c (frees {h = g} {live = v} q size r e) =
    freed-Sound h₀ g v q size (Reach-Sound h₀ g v c r) e
Reach-Sound h₀ h live c (writes {h = g} q size w r e f) =
    written-Sound h₀ g live q size w (Reach-Sound h₀ g live c r) e f
