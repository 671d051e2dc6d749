-- ===== src/Malloclab/Driver/FirstFit.antt =====
-- The first-fit allocator as one that malloclab/mdriver.c can test. Its `mm_realloc` is a parameter:
-- the program exits in it where `mm_malloc` fails.
use git_sty.Base.{
  ℕ, suc, ◌+◌, ◌≡◌, refl, Option, none, some, ◌∙◌, ◌≤◌, ◌<◌, ◌%◌, ◌*◌, ◌/◌, if◌then◌else◌, ltb,
  arith, Bool-cases, inl, inr, ◌==◌,
}
use git_sty.Malloclab.Memlib.{Mem, mem_sbrk}
use git_sty.Malloclab.Memlib
use git_sty.Malloclab.FirstFit.{
  Heap, Malloced, malloced, searching, with_words, adjust, Found, found, no_fit, out_of_fuel,
  find_fit, use_fit, after_extend, extend_heap, after_sbrk, address, first_words,
}
use git_sty.Malloclab.FirstFit
use git_sty.Malloclab.FirstFit.Bytes.{get_byte, memset_outside}
use git_sty.Malloclab.FirstFit.Bytes
use git_sty.Malloclab.FirstFit.Init.{CanStart, mm_init-Ready}
use git_sty.Malloclab.FirstFit.Live.{Live}
use git_sty.Malloclab.FirstFit.Reach.{Reach, start, allocates, refuses, frees, writes}
use git_sty.Malloclab.FirstFit.Safe.{Answers, Reach_answers, Reach_inside, Reach_apart}
use git_sty.Malloclab.Driver.{Allocator}
use git_sty.Malloclab.Driver.Service.{Answered, Service}

-- The pointer and the heap of a search that ends. One that does not, as none is below, stands as NULL.
abbrev pub returned : Heap → Malloced → Option ℕ × Heap
returned h (malloced p h') = (p, h')
returned h searching = (none, h)

abbrev pub reset : Heap → Heap
reset h = record { words = h.words; mem = Memlib.mem_reset_brk h.mem; heap_listp = h.heap_listp }

abbrev pub first_fit : (ℕ → ℕ → Heap → Option ℕ × Heap) → Allocator Heap
first_fit realloc = record {
  mem = λ h. h.mem;
  mem_reset_brk = reset;
  mm_init = FirstFit.mm_init;
  mm_malloc = λ size h. returned h (FirstFit.mm_malloc (suc h.mem.brk) size h);
  mm_realloc = realloc;
  mm_free = FirstFit.mm_free;
  load = λ h p. get_byte h.words p;
  memset = λ p c size h. with_words (Bytes.memset p c size h.words) h;
}

-- The heap's start never moves.
abbrev start_of : Heap → Malloced → ℕ
start_of h r = (returned h r).1.mem.start_brk

sbrk_start : (incr : ℕ) (m : Mem) → (mem_sbrk incr m).1.start_brk ≡ m.start_brk
unfolding mem_sbrk
sbrk_start incr m = ground arith

after_sbrk_start :
    (size : ℕ) (h : Heap) (r : Option ℕ × Mem)
    → (after_sbrk size h r).1.mem.start_brk ≡ r.1.start_brk
unfolding after_sbrk
after_sbrk_start size h (none, m) = refl
after_sbrk_start size h (some p, m) = refl

after_extend_start :
    (asize : ℕ) (h : Heap) (r : Option ℕ × Heap)
    → start_of h (after_extend asize r) ≡ r.1.mem.start_brk
unfolding after_extend
after_extend_start asize h (none, h') = refl
after_extend_start asize h (some p, h') = refl

abbrev extend_size : ℕ → ℕ
extend_size n = if n % 2 == 0 then (n * 4) % 4294967296 else ((n + 1) % 4294967296 * 4) % 4294967296

extend_heap_start : (n : ℕ) (h : Heap) → (extend_heap n h).1.mem.start_brk ≡ h.mem.start_brk
unfolding extend_heap
extend_heap_start n h =
    let size = extend_size n in
    after_sbrk_start size h (mem_sbrk size h.mem) ∙ sbrk_start size h.mem

use_fit_start :
    (asize : ℕ) (r : Found) (h : Heap) → start_of h (use_fit asize r h) ≡ h.mem.start_brk
unfolding use_fit
use_fit_start asize (found p) h = refl
use_fit_start asize no_fit h =
    let n = (if ltb 4096 asize then asize else 4096) / 4 in
    after_extend_start asize h (extend_heap n h) ∙ extend_heap_start n h
use_fit_start asize out_of_fuel h = refl

pub malloc_start :
    (fuel size : ℕ) (h : Heap)
    → (returned h (FirstFit.mm_malloc fuel size h)).1.mem.start_brk ≡ h.mem.start_brk
unfolding FirstFit.mm_malloc
malloc_start fuel size h = elim (Bool-cases (size == 0)) [
  | inl e ↦ rw e refl
  | inr e ↦ rw e (use_fit_start (adjust size) (find_fit fuel (adjust size) h.heap_listp h.words) h)
]

pub init_start : (h : Heap) → ((FirstFit.mm_init h).1).mem.start_brk ≡ h.mem.start_brk
unfolding FirstFit.mm_init
init_start h =
    let r = mem_sbrk 16 h.mem in
    let p = address r.0 in
    let h₁ : Heap = record { words = first_words p h.words; mem = r.1; heap_listp = p + 8 } in
    elim (Bool-cases (p == 0)) [
      | inl e ↦ rw e (sbrk_start 16 h.mem)
      | inr e ↦ rw e (extend_heap_start 1024 h₁ ∙ sbrk_start 16 h.mem)
    ]

-- A block is reached, and the heap starts where it did.
abbrev Served : Heap → Heap → Live → Type 0
Served h₀ h live = Reach h₀ h live × (h.mem.start_brk ≤ h₀.mem.brk)

module _ (h₀ : Heap) (c : CanStart h₀) where
  answered :
      (h : Heap) (live : Live) (size : ℕ) (m : Malloced)
      → Served h₀ h live
      → size + 15 < 4294967296
      → FirstFit.mm_malloc (suc h.mem.brk) size h ≡ m
      → Answers (adjust size) h live m
      → (returned h m).1.mem.start_brk ≡ h.mem.start_brk
      → Answered (Served h₀) size live (returned h m)
  unfolding Answers Answered
  answered h live size (malloced (some q) h') (t, l) o e a s =
      (a, (allocates (suc h.mem.brk) size q t o (omega arith) e, omega (arith, l, s)))
  answered h live size (malloced none h') (t, l) o e a s =
      (refuses (suc h.mem.brk) size t o (omega arith) e, omega (arith, l, s))
  answered h live size searching (t, l) o e a s = absurd a

malloc_returns :
    (asize : ℕ) (h : Heap) (live : Live) (m : Malloced)
    → Answers asize h live m
    → (p : Option ℕ) × ((h' : Heap) × (m ≡ malloced p h'))
unfolding Answers
malloc_returns asize h live (malloced p h') a = (p, (h', refl))
malloc_returns asize h live searching a = absurd a

abbrev first_fit_service :
    (re : ℕ → ℕ → Heap → Option ℕ × Heap) (h₀ : Heap) → CanStart h₀ → Service (first_fit re) h₀
unfolding FirstFit.mm_free
first_fit_service re h₀ c = record {
  Reached = Served h₀;
  starts = ((mm_init-Ready h₀ c).0, (start, omega (arith, init_start h₀, c.bounds.low)));
  allocates = λ h live size t z o.
      answered h₀ c h live size (FirstFit.mm_malloc (suc h.mem.brk) size h) t o refl
        (Reach_answers h₀ h live (suc h.mem.brk) size c t.0 z o (omega arith))
        (malloc_start (suc h.mem.brk) size h);
  frees = λ h live q size t e. (frees q size t.0 e, t.1);
  fills = λ h live q c' size t e.
      let i = Reach_inside h₀ h live q size c t.0 e in
      (
        writes q size (Bytes.memset q c' size h.words) t.0 e
            (λ r d. memset_outside q c' size r h.words (omega (arith, i.0)) d),
        t.1,
      );
  inside = λ h live q size t e.
      let i = Reach_inside h₀ h live q size c t.0 e in (i.0, (omega (arith, i.1.0, t.1), i.1.1));
  apart = λ h live q r size next t e f l. Reach_apart h₀ h live q r size next c t.0 e f l;
}

-- The contract is kept, by calls that return.
pub record Keeps (re : ℕ → ℕ → Heap → Option ℕ × Heap) (h₀ : Heap) : Type 1 where
  pub service : Service (first_fit re) h₀
  pub malloc_ends :
      (h : Heap) (live : Live) (size : ℕ)
      → service.Reached h live
      → 0 < size
      → size + 15 < 4294967296
      → (p : Option ℕ) × ((h' : Heap) × (FirstFit.mm_malloc (suc h.mem.brk) size h ≡ malloced p h'))

-- On a heap that has room for what `mm_init` takes, the first-fit allocator keeps the contract of an
-- allocator: however blocks of 1 to 2^32 - 16 bytes are allocated, filled and freed, a block that is returned
-- was not in use, the blocks in use are aligned, inside the heap and apart, and each such call of `mm_malloc`
-- returns within the fuel, the break and one more.
pub first_fit-Service :
    (re : ℕ → ℕ → Heap → Option ℕ × Heap) (h₀ : Heap) → CanStart h₀ → Keeps re h₀
unfolding FirstFit.mm_free
first_fit-Service re h₀ c = record {
  service = first_fit_service re h₀ c;
  malloc_ends = λ h live size t z o.
      malloc_returns (adjust size) h live (FirstFit.mm_malloc (suc h.mem.brk) size h)
        (Reach_answers h₀ h live (suc h.mem.brk) size c t.0 z o (omega arith));
}
