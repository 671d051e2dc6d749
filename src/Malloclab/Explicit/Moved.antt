-- ===== src/Malloclab/Explicit/Moved.antt =====
-- `mm_realloc` of malloclab/mm.c to a size that is larger: the block moves.
use git_sty.Base.{
  ℕ, ◌+◌, ◌-◌, ◌%◌, ◌≤◌, ◌<◌, ◌≡◌, ◌≢◌, ◌⊎◌, inl, inr, refl, sym, ap, ◌∙◌, none, some, List, ◌==◌,
  Bool-cases, arith,
}
use mathlib.Core.Path.{subst}
use git_sty.Malloclab.FirstFit.{Words, adjust}
use git_sty.Malloclab.FirstFit.Bytes.{get_byte, memcpy, memcpy_outside, get_byte-memcpy_inside}
use git_sty.Malloclab.FirstFit.Chain.{Block}
use git_sty.Malloclab.FirstFit.Live.{update}
use git_sty.Malloclab.Explicit.{
  State, with_list, with_words, Outcome, returns, searching, crashed, align, freed, copied,
  mm_malloc, mm_free, mm_realloc,
}
use git_sty.Malloclab.Explicit.Blocks.{Map, enter}
use git_sty.Malloclab.Explicit.Heaped.{Heaped, Granted, Mallocs, with_list-Heaped}
use git_sty.Malloclab.Explicit.Calls.{Frees, mm_free-Frees}
use git_sty.Malloclab.Explicit.Client.{Sound, written-Listed}
use git_sty.Malloclab.Explicit.Realloc.{mm_realloc_grows}

-- The block at `q` of `old` bytes has moved to `r`, for which `mm_malloc` was asked for `n` bytes:
-- that block was not in use, all but 8 of the old bytes were copied there and no byte elsewhere was
-- changed, and then the old block was freed.
pub record Moved (fuel q old n lo : ℕ) (m : Map) (s : State) (r : ℕ) (s' : State) : Type 0 where
  pub middle : State
  pub malloc : mm_malloc fuel n s ≡ returns (some r) middle
  pub granted : Granted (adjust n) r lo m s middle
  pub after_copy : Words
  pub copies :
      (j : ℕ) → j < old - 8 → get_byte after_copy (r + j) ≡ get_byte middle.list.words (q + j) % 256
  pub elsewhere : (p : ℕ) → (p < r) ⊎ (r + (old - 8) ≤ p) → after_copy p ≡ middle.list.words p
  pub free : mm_free fuel q (with_list (with_words after_copy middle.list) middle) ≡ returns none s'
  pub free_list : List ℕ
  pub bytes : ℕ
  pub heaped : Heaped s' lo (enter q bytes 0 granted.blocks) free_list

unfoldable pub Moves : (fuel q old n lo : ℕ) → Map → State → Outcome → Type 0
Moves fuel q old n lo m s (returns (some r) s') = Moved fuel q old n lo m s r s'
Moves fuel q old n lo m s (returns none s') = ⊥
Moves fuel q old n lo m s searching = ⊥
Moves fuel q old n lo m s crashed =
    (mm_malloc fuel n s ≡ returns none s)
    × ((2147483648 ≤ adjust n) ⊎ (s.mem.max_addr < s.mem.brk + adjust n))

module _ (fuel q old n lo : ℕ) (m : Map) (s : State)
    (e : m q ≡ some (record { size = old; alloc = 1 })) (fit : old ≤ adjust n) (least : 16 ≤ old)
    (enough : 4294967296 ≤ fuel) where
  finish :
      (r : ℕ) (s₁ : State) (w : Words) (o : Outcome) (g : Granted (adjust n) r lo m s s₁)
      → mm_malloc fuel n s ≡ returns (some r) s₁
      → ((j : ℕ) → j < old - 8 → get_byte w (r + j) ≡ get_byte s₁.list.words (q + j) % 256)
      → ((p : ℕ) → (p < r) ⊎ (r + (old - 8) ≤ p) → w p ≡ s₁.list.words p)
      → mm_free fuel q (with_list (with_words w s₁.list) s₁) ≡ o
      → Frees q lo g.blocks (with_list (with_words w s₁.list) s₁) o
      → Moves fuel q old n lo m s (freed r o)
  unfolding Frees Moves freed
  finish r s₁ w (returns p s') g a b c d (x, (y, (fs, (size, h)))) = record {
    middle = s₁;
    malloc = a;
    granted = g;
    after_copy = w;
    copies = b;
    elsewhere = c;
    free = subst (λ t. mm_free fuel q (with_list (with_words w s₁.list) s₁) ≡ returns t s') x d;
    free_list = fs;
    bytes = size;
    heaped = h;
  }
  finish r s₁ w searching g a b c d f = absurd f
  finish r s₁ w crashed g a b c d f = absurd f

  -- The heap behind `mm_malloc`, with `old - 8` bytes of its block in use.
  abbrev granted_sound :
      (r : ℕ) (s₁ : State) (g : Granted (adjust n) r lo m s s₁)
      → Sound lo s₁ (update r (some (old - 8)) (λ p. none))
  granted_sound r s₁ g = record {
    blocks = g.blocks;
    free = g.free;
    heaped = g.heaped;
    serving = λ p t f. elim (Bool-cases (p == r)) [
      | inl d ↦ record {
        bytes = adjust n;
        block = ground (arith, g.own);
        payload = ground (arith, fit, least);
      }
      | inr d ↦ absurd (ground arith)
    ];
  }

  granted_lem :
      (r : ℕ) (s₁ : State) (g : Granted (adjust n) r lo m s s₁)
      → mm_malloc fuel n s ≡ returns (some r) s₁
      → Moves fuel q old n lo m s (copied fuel q old (returns (some r) s₁))
  unfolding copied
  granted_lem r s₁ g a =
      let b : Block = record { size = old; alloc = 1 } in
      let c : Block = record { size = adjust n; alloc = 1 } in
      let mine = g.keeps q b e refl in
      let h = g.heaped.listed.blocks in
      let t = h.tagged r c g.own in
      let other : r ≢ q = λ x. omega (arith, g.fresh b (ap m x ∙ e)) in
      let x = h.apart q b mine r c g.own other in
      let w = memcpy r q (old - 8) s₁.list.words in
      let live = update r (some (old - 8)) (λ p. none) in
      let f : (p : ℕ) → (p < r) ⊎ (r + (old - 8) ≤ p) → w p ≡ s₁.list.words p =
        λ p d. memcpy_outside r q (old - 8) p s₁.list.words (omega (arith, t.aligned)) d in
      let k = granted_sound r s₁ g in
      let l = written-Listed lo s₁ live k r (old - 8) w (ground arith) f in
      let s₂ = with_list (with_words w s₁.list) s₁ in
      let h₂ =
        with_list-Heaped s₁ lo g.blocks g.blocks g.free g.free (with_words w s₁.list) g.heaped l in
      finish r s₁ w (mm_free fuel q s₂) g a
        (λ j d. get_byte-memcpy_inside r q (old - 8) j s₁.list.words (ground (arith, x, fit)) d) f
        refl
        (mm_free-Frees s₂ lo g.blocks g.free fuel q old h₂ mine
          (omega (arith, g.heaped.bounds.high, g.heaped.small, enough)))

  moved :
      (o : Outcome)
      → mm_malloc fuel n s ≡ o
      → Mallocs (adjust n) lo m s o
      → Moves fuel q old n lo m s (copied fuel q old o)
  unfolding Mallocs Moves copied
  moved (returns (some r) s₁) a g = granted_lem r s₁ g a
  moved (returns none s₁) a (b, c) = (subst (λ t. mm_malloc fuel n s ≡ returns none t) b a, c)
  moved searching a f = absurd f
  moved crashed a f = absurd f

-- On a heap in order, `mm_realloc` of a block of `old` bytes to a size below 2^32 - 15 whose rounding is more
-- asks `mm_malloc` for the difference only. Where the block that serves the difference has `old` bytes, and with
-- fuel of 2^32: either `mm_malloc` refuses and the program crashes, or that block was not in use, all but 8
-- of the old bytes are copied to it, the copy changes nothing else, the old block is freed, the heap is in order
-- again and the new block is returned.
pub mm_realloc_moves :
    (s : State) (lo : ℕ) (m : Map) (fs : List ℕ) (fuel q old size : ℕ)
    → Heaped s lo m fs
    → m q ≡ some (record { size = old; alloc = 1 })
    → old < align size
    → size + 15 < 4294967296
    → old ≤ adjust (align size - old)
    → 4294967296 ≤ fuel
    → Moves fuel q old (align size - old) lo m s (mm_realloc fuel q size s)
mm_realloc_moves s lo m fs fuel q old size h e l o fit enough =
    let n = align size - old in
    let t = h.listed.blocks.tagged q (record { size = old; alloc = 1 }) e in
    let (a, b) =
      mm_realloc_grows s lo m fs fuel q h old size e l o
        (omega (arith, h.bounds.high, h.small, enough)) in
    subst (λ x. Moves fuel q old n lo m s x) (sym a)
      (moved fuel q old n lo m s e fit t.least enough (mm_malloc fuel n s) refl b)
