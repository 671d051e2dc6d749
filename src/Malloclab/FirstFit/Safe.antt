-- ===== src/Malloclab/FirstFit/Safe.antt =====
-- What a program that uses the allocator may count on.
use git_sty.Base.{
  ℕ, ◌+◌, ◌%◌, ◌≤◌, ◌<◌, ◌≡◌, ◌∙◌, ap, sym, refl, Option, none, some, List, arith, ◌⊎◌,
}
use git_sty.Malloclab.FirstFit.{Heap, Malloced, malloced, searching, mm_malloc, adjust}
use git_sty.Malloclab.FirstFit.Chain.{Block}
use git_sty.Malloclab.FirstFit.Owner.{owner, owner_bound, owner_apart}
use git_sty.Malloclab.FirstFit.Init.{CanStart}
use git_sty.Malloclab.FirstFit.Allocate.{Allocates, extension}
use git_sty.Malloclab.FirstFit.Live.{some-none, Live, Owns, owner_aligned}
use git_sty.Malloclab.FirstFit.Reach.{Reach, Sound, Reach-Sound, malloc_on}

-- In a heap that was reached from `mm_init` on, which had room to start (`CanStart`), two blocks
-- in use do not overlap: the one at the lower pointer ends, with the bytes that were asked for
-- and 8 more, at or below the other.
pub Reach_apart :
    (h₀ h : Heap) (live : Live) (q r a b : ℕ)
    → CanStart h₀
    → Reach h₀ h live
    → live q ≡ some a
    → live r ≡ some b
    → q < r
    → q + a + 8 ≤ r
Reach_apart h₀ h live q r a b c t e f l =
    let s = Reach-Sound h₀ h live c t in
    let o = s.serving.owns q a e in
    let p = s.serving.owns r b f in
    let m : o.offset < p.offset = omega (arith, o.at, p.at) in
    let d = owner_apart s.blocks o.offset o.bytes p.offset p.bytes o.owned p.owned m in
    omega (arith, d, o.at, p.at, o.payload)

-- In a heap that was reached from `mm_init` on, which had room to start (`CanStart`), each block
-- in use begins on a multiple of 8 bytes, at or above 16 bytes over the old break, and ends, with
-- the bytes that were asked for and 8 more, at or below the break.
pub Reach_inside :
    (h₀ h : Heap) (live : Live) (q a : ℕ)
    → CanStart h₀
    → Reach h₀ h live
    → live q ≡ some a
    → (q % 8 ≡ 0) × ((h₀.mem.brk + 16 ≤ q) × (q + a + 8 ≤ h.mem.brk))
Reach_inside h₀ h live q a c t e =
    let s = Reach-Sound h₀ h live c t in
    let o = s.serving.owns q a e in
    let m =
      owner_aligned h.words h.heap_listp o.offset o.bytes s.blocks s.ready.laid.blocks o.owned in
    let d = owner_bound s.blocks o.offset o.bytes o.owned in
    (
      omega (arith, m, o.at, s.first, c.aligned),
      (omega (arith, m, o.at, o.later, s.first), omega (arith, d, o.at, o.payload, s.ready.top)),
    )

-- The answer `r` to a request of `asize` bytes, rounded, from a heap with the blocks `live` in use.
unfoldable pub Answers : ℕ → Heap → Live → Malloced → Type 0
Answers asize h live (malloced (some q) h') = live q ≡ none
Answers asize h live (malloced none h') =
    (h' ≡ h) × ((2147483648 ≤ extension asize) ⊎ (h.mem.max_addr < h.mem.brk + extension asize))
Answers asize h live searching = ⊥

Owns-none :
    (first n q size : ℕ) (bs : List Block)
    → q ≡ first + n
    → owner n bs ≡ none
    → Owns first bs q size
    → ⊥
Owns-none first n q size bs e f o =
    let m : o.offset ≡ n = omega (arith, o.at, e) in
    some-none o.bytes (sym o.owned ∙ ap (λ k. owner k bs) m ∙ f)

pub not_live :
    (live : Live) (q : ℕ) (v : Option ℕ)
    → live q ≡ v
    → ((size : ℕ) → live q ≡ some size → ⊥)
    → live q ≡ none
not_live live q none e f = e
not_live live q (some s) e f = absurd (f s e)

Allocates-Answers :
    (h₀ h : Heap) (live : Live) (asize : ℕ) (r : Malloced) (s : Sound h₀ h live)
    → Allocates asize h s.blocks r
    → Answers asize h live r
unfolding Allocates Answers
Allocates-Answers h₀ h live asize (malloced (some q) h') s (l, (r, (n, (e, g)))) =
    not_live live q (live q) refl
      (λ size d. Owns-none h.heap_listp n q size s.blocks e g.fresh (s.serving.owns q size d))
Allocates-Answers h₀ h live asize (malloced none h') s (e, (f, x)) = (e, x)
Allocates-Answers h₀ h live asize searching s a = a

-- In a heap that was reached from `mm_init` on, which had room to start (`CanStart`), a request
-- of at least one byte whose rounding does not overflow ends, with more fuel than the break has
-- bytes. A pointer that it returns is not in use; NULL means that the increment, the rounded size
-- or 4096 where that is more, is 2^31 or more or takes the break above its limit, and the heap is
-- as it was.
pub Reach_answers :
    (h₀ h : Heap) (live : Live) (fuel size : ℕ)
    → CanStart h₀
    → Reach h₀ h live
    → 0 < size
    → size + 15 < 4294967296
    → h.mem.brk < fuel
    → Answers (adjust size) h live (mm_malloc fuel size h)
Reach_answers h₀ h live fuel size c t z o n =
    let s = Reach-Sound h₀ h live c t in
    Allocates-Answers h₀ h live (adjust size) (mm_malloc fuel size h) s
      (malloc_on h₀ h live fuel size s z o n)
