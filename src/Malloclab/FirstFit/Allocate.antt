-- ===== src/Malloclab/FirstFit/Allocate.antt =====
-- `mm_malloc` on a heap that is laid out up to the break, with and without a fit.
use git_sty.Base.{
  ℕ, ◌+◌, ◌/◌, ◌≤◌, ◌<◌, ◌≡◌, ◌⊎◌, inl, inr, ◌∙◌, ap, sym, refl, true, false, ◌==◌, ltb,
  if◌then◌else◌, Option, none, some, List, [], ◌∷◌, ◌++◌, length, arith, Bool-cases,
}
use mathlib.Core.List.{append_assoc, append-nil}
use mathlib.Core.Path.{subst}
use git_sty.Malloclab.FirstFit.{
  Heap, place, Found, found, no_fit, out_of_fuel, find_fit, adjust, Malloced, malloced, searching,
  use_fit, after_extend, extend_heap, mm_malloc, with_words, chunksize,
}
use git_sty.Malloclab.FirstFit.Words.{IsBlockSize}
use git_sty.Malloclab.FirstFit.Chain.{Block, split, allocate}
use git_sty.Malloclab.FirstFit.Malloc.{adjust_lem}
use git_sty.Malloclab.FirstFit.Tags.{total, total-append}
use git_sty.Malloclab.FirstFit.Spans.{free_of}
use git_sty.Malloclab.FirstFit.Coalesce.{merge}
use git_sty.Malloclab.FirstFit.Merge.{merged_at}
use git_sty.Malloclab.FirstFit.Free.{Ready}
use git_sty.Malloclab.FirstFit.Extend.{Extends, extend_heap-Extends}
use git_sty.Malloclab.FirstFit.Owner.{
  Positive, Seg-Positive, Positive-append, owner, Gains, Gains-from, split-Gains, owner-merge_last,
}
use git_sty.Malloclab.FirstFit.Serve.{total-split, place-Laid, Laid-Chain, Finds, find_fit-Finds}

-- What becomes of the last block `p` when `ext` bytes are appended and `asize` of them are taken.
abbrev pub grow_block : ℕ → ℕ → Block → List Block
grow_block asize ext p =
    if p.alloc == 0 then split asize (free_of (p.size + ext)) else p ∷ split asize (free_of ext)

unfoldable pub grow_last : ℕ → ℕ → List Block → List Block
grow_last asize ext [] = []
grow_last asize ext (p ∷ []) = grow_block asize ext p
grow_last asize ext (p ∷ q ∷ r) = p ∷ grow_last asize ext (q ∷ r)

abbrev pub extension : ℕ → ℕ
extension asize = if ltb chunksize asize then asize else chunksize

abbrev pub or_grow : ℕ → List Block → Option (List Block) → List Block
or_grow asize bs (some rs) = rs
or_grow asize bs none = grow_last asize (extension asize) bs

-- First fit on the list of blocks, which grows at its end where none fits.
unfoldable pub malloc_blocks : ℕ → List Block → List Block
malloc_blocks asize bs = or_grow asize bs (allocate asize bs)

-- What `mm_malloc` owes for a block of `asize` bytes to a heap with the blocks `bs`.
unfoldable pub Allocates : ℕ → Heap → List Block → Malloced → Type 0
Allocates asize h bs (malloced (some q) h') =
    (h'.heap_listp ≡ h.heap_listp)
    × (Ready h' (malloc_blocks asize bs)
        × ((n : ℕ) × ((q ≡ h.heap_listp + n) × Gains asize n bs (malloc_blocks asize bs))))
Allocates asize h bs (malloced none h') =
    (h' ≡ h)
    × ((allocate asize bs ≡ none)
        × ((2147483648 ≤ extension asize) ⊎ (h.mem.max_addr < h.mem.brk + extension asize)))
Allocates asize h bs searching = ⊥

Ready-Positive : (h : Heap) (bs : List Block) → Ready h bs → Positive bs
Ready-Positive h bs r = Seg-Positive h.words h.heap_listp bs r.laid.blocks

-- Placing in any layout of the right total keeps the heap ready.
place-Ready :
    (h : Heap) (asize q : ℕ) (xs : List Block) (b : Block) (ys : List Block)
    → Ready h (xs ++ (b ∷ ys))
    → IsBlockSize asize
    → 16 ≤ asize
    → asize ≤ b.size
    → q ≡ h.heap_listp + total xs
    → Ready (with_words (place q asize h.words) h) (xs ++ (split asize b ++ ys))
place-Ready h asize q xs b ys r i z m e = record {
  laid = rw e (place-Laid h.words h.heap_listp asize xs b ys r.laid i z m);
  top = omega (
    arith,
    r.top,
    total-append xs (b ∷ ys),
    total-append xs (split asize b ++ ys),
    total-append (split asize b) ys,
    total-split asize b m,
  );
  bounds = r.bounds;
  small = r.small;
}

grow_last-append :
    (asize ext : ℕ) (xs : List Block) (p : Block)
    → grow_last asize ext (xs ++ (p ∷ [])) ≡ xs ++ grow_block asize ext p
unfolding grow_last
grow_last-append asize ext [] p = refl
grow_last-append asize ext (x ∷ []) p = refl
grow_last-append asize ext (x ∷ y ∷ xs) p = ap (λ t. x ∷ t) (grow_last-append asize ext (y ∷ xs) p)

-- The blocks `bs'`, with a block gained at `q`, for a heap that starts where `h` does.
abbrev Serves : ℕ → Heap → (bs bs' : List Block) → ℕ → Heap → Type 0
Serves asize h bs bs' q h' =
    (h'.heap_listp ≡ h.heap_listp)
    × (Ready h' bs' × ((n : ℕ) × ((q ≡ h.heap_listp + n) × Gains asize n bs bs')))

-- The last block of a heap that grew is placed.
grown :
    (asize : ℕ) (h h' : Heap) (q : ℕ) (xs : List Block) (b : Block) (bs : List Block)
    → h'.heap_listp ≡ h.heap_listp
    → Ready h' (xs ++ (b ∷ []))
    → ((k : ℕ) → owner k (xs ++ (b ∷ [])) ≡ owner k bs)
    → (b.alloc == 0) ≡ true
    → IsBlockSize asize
    → 16 ≤ asize
    → asize ≤ b.size
    → q ≡ h.heap_listp + total xs
    → Serves asize h bs (xs ++ split asize b) q (with_words (place q asize h'.words) h')
grown asize h h' q xs b bs l r o u i z m e = rw (← append-nil (split asize b)) (
  l,
  (
    place-Ready h' asize q xs b [] r i z m (omega (arith, e, l)),
    (
      total xs,
      (
        e,
        Gains-from asize (total xs) bs (xs ++ (b ∷ [])) (xs ++ (split asize b ++ [])) o (
            split-Gains asize xs b []
              ((Positive-append xs (b ∷ []) (Ready-Positive h' (xs ++ (b ∷ [])) r)).0) u
              (omega (arith, z)) m),
      ),
    ),
  ),
)

pub Ready-eq : (h : Heap) (bs bs' : List Block) → bs ≡ bs' → Ready h bs → Ready h bs'
Ready-eq h bs bs' e r = subst (λ b. Ready h b) e r

merge_free :
    (ext : ℕ) (p : Block) → (p.alloc == 0) ≡ true → merge p ext [] ≡ free_of (p.size + ext) ∷ []
unfolding merge
merge_free ext p a = rw a refl

merge_taken : (ext : ℕ) (p : Block) → (p.alloc == 0) ≡ false → merge p ext [] ≡ p ∷ free_of ext ∷ []
unfolding merge
merge_taken ext p a = rw a refl

merged_above : (p : Block) (q : ℕ) → (p.alloc == 0) ≡ false → merged_at p q ≡ q + p.size
merged_above p q a = rw a refl

after_extend-Serves :
    (asize ext : ℕ) (h h' : Heap) (q : ℕ) (xs : List Block) (p : Block)
    → IsBlockSize asize
    → 16 ≤ asize
    → asize ≤ ext
    → Extends h xs p ext (some q, h')
    → Serves asize h
        (xs ++ (p ∷ []))
        (xs ++ grow_block asize ext p)
        q
        (with_words (place q asize h'.words) h')
unfolding Extends merge
after_extend-Serves asize ext h h' q xs p i z m (e, (l, r)) =
    let pos =
      (Positive-append xs (merge p ext []) (Ready-Positive h' (xs ++ merge p ext []) r)).0 in
    let same = λ (k : ℕ). owner-merge_last k xs p ext pos in
    elim (Bool-cases (p.alloc == 0)) [
      | inl a ↦
          let f : xs ++ merge p ext [] ≡ xs ++ (free_of (p.size + ext) ∷ []) =
            ap (λ t. xs ++ t) (merge_free ext p a) in
          rw a (
            grown asize h h' q xs (free_of (p.size + ext)) (xs ++ (p ∷ [])) l
              (Ready-eq h' (xs ++ merge p ext []) (xs ++ (free_of (p.size + ext) ∷ [])) f r)
              (λ k. ap (owner k) (sym f) ∙ same k) refl i z (omega (arith, m)) (e ∙ rw a refl))
      | inr a ↦
          let f : xs ++ merge p ext [] ≡ (xs ++ (p ∷ [])) ++ (free_of ext ∷ []) =
            ap (λ t. xs ++ t) (merge_taken ext p a)
            ∙ sym (append_assoc xs (p ∷ []) (free_of ext ∷ [])) in
          rw (a, ← append_assoc xs (p ∷ []) (split asize (free_of ext)))
            (grown asize h h' q (xs ++ (p ∷ [])) (free_of ext) (xs ++ (p ∷ [])) l
              (Ready-eq h' (xs ++ merge p ext []) ((xs ++ (p ∷ [])) ++ (free_of ext ∷ [])) f r)
              (λ k. ap (owner k) (sym f) ∙ same k) refl i z m
              (omega
                (arith, merged_above p (h.heap_listp + total xs) a, e, total-append xs (p ∷ []))))
    ]

after_extend-Allocates :
    (asize : ℕ) (h : Heap) (xs : List Block) (p : Block) (r : Option ℕ × Heap)
    → IsBlockSize asize
    → 16 ≤ asize
    → allocate asize (xs ++ (p ∷ [])) ≡ none
    → Extends h xs p (extension asize) r
    → Allocates asize h (xs ++ (p ∷ [])) (after_extend asize r)
unfolding Allocates after_extend malloc_blocks Extends
after_extend-Allocates asize h xs p (some q, h') i z e x =
    rw (e, grow_last-append asize (extension asize) xs p)
      (after_extend-Serves asize (extension asize) h h' q xs p i z (ground arith) x)
after_extend-Allocates asize h xs p (none, h') i z e x = (x.0, (e, x.1))

extension_ok : (asize : ℕ) → IsBlockSize asize → IsBlockSize (extension asize)
unfolding IsBlockSize
extension_ok asize (m, l) = ground arith

use_fit-Allocates :
    (asize : ℕ) (h : Heap) (xs : List Block) (p : Block) (r : Found)
    → IsBlockSize asize
    → 16 ≤ asize
    → Ready h (xs ++ (p ∷ []))
    → Finds asize (xs ++ (p ∷ [])) h.heap_listp r
    → Allocates asize h (xs ++ (p ∷ [])) (use_fit asize r h)
unfolding Finds Allocates use_fit malloc_blocks
use_fit-Allocates asize h xs p (found q) i z r (n, (e, f)) = rw f.allocated (
  refl,
  (
    place-Ready h asize q f.before f.block f.after
        (Ready-eq h (xs ++ (p ∷ [])) (f.before ++ (f.block ∷ f.after)) f.parts r) i z f.room
        (omega (arith, e, f.offset)),
    (
      total f.before,
      (
        omega (arith, e, f.offset),
        Gains-from asize (total f.before) (xs ++ (p ∷ [])) (f.before ++ (f.block ∷ f.after))
            (f.before ++ (split asize f.block ++ f.after)) (λ k. ap (owner k) (sym f.parts))
            (split-Gains asize f.before f.block f.after
              ((Positive-append f.before (f.block ∷ f.after)
                (subst Positive f.parts (Ready-Positive h (xs ++ (p ∷ [])) r))).0)
              f.unused (omega (arith, z)) f.room),
      ),
    ),
  ),
)
use_fit-Allocates asize h xs p no_fit i z r e =
    after_extend-Allocates asize h xs p (extend_heap (extension asize / 4) h) i z e
      (extend_heap-Extends h xs p (extension asize) r (extension_ok asize i) (ground arith))
use_fit-Allocates asize h xs p out_of_fuel i z r e = e

-- On a heap that is laid out up to the break, with one block or more, a request of at least one byte
-- whose rounding does not overflow ends, with fuel for each block and one more, in one of two ways. Either
-- `mm_malloc` returns a pointer at which no allocated block began and one of the rounded size or more
-- does now, every other allocated block is where and as large as it was, and the heap holds the blocks
-- that first fit gives, grown at the end where none fits; or none fits and `mem_sbrk` has no
-- room, and `mm_malloc` returns NULL and changes nothing.
pub mm_malloc-Allocates :
    (fuel size : ℕ) (h : Heap) (xs : List Block) (p : Block)
    → 0 < size
    → size + 15 < 4294967296
    → Ready h (xs ++ (p ∷ []))
    → length (xs ++ (p ∷ [])) < fuel
    → Allocates (adjust size) h (xs ++ (p ∷ [])) (mm_malloc fuel size h)
unfolding mm_malloc
mm_malloc-Allocates fuel size h xs p z o r n =
    let a = adjust_lem size o in
    let e : (size == 0) ≡ false = ground arith in
    rw e (
      use_fit-Allocates (adjust size) h xs p (find_fit fuel (adjust size) h.heap_listp h.words) a.0
        a.1.0 r
        (find_fit-Finds fuel (adjust size) h.heap_listp h.words (xs ++ (p ∷ []))
          (Laid-Chain h.words h.heap_listp (xs ++ (p ∷ [])) r.laid) n))
