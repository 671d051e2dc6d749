-- ===== src/Malloclab/Explicit/Heaped.antt =====
-- A heap of malloclab/mm.c in order, and what `mm_malloc` owes.
use git_sty.Base.{ℕ, ◌+◌, ◌-◌, ◌%◌, ◌≤◌, ◌<◌, ◌≡◌, ◌⊎◌, refl, Option, none, some, List, arith}
use git_sty.Malloclab.Memlib.Bounds.{InBounds}
use git_sty.Malloclab.FirstFit.{sub32}
use git_sty.Malloclab.FirstFit.Chain.{Block}
use git_sty.Malloclab.FreeList.{FreeList}
use git_sty.Malloclab.Explicit.{State, with_list, Outcome, returns, searching, crashed, after_add}
use git_sty.Malloclab.Explicit.Blocks.{Map, Keeps}
use git_sty.Malloclab.Explicit.Listed.{Listed}
use git_sty.Malloclab.Explicit.Moves.{StillListed}

-- The blocks lie between `lo` and the break.
pub record Heaped (s : State) (lo : ℕ) (m : Map) (fs : List ℕ) : Type 0 where
  pub listed : Listed s.list lo s.mem.brk m fs
  pub bounds : InBounds s.mem
  pub small : s.mem.max_addr < 4294967296
  pub top : s.mem.brk % 8 ≡ 0
  pub above : lo ≤ s.mem.brk
  pub low : 8 ≤ lo
  pub start : s.mem.start_brk ≤ lo

-- A block of `asize` bytes at `q`, which was not in use.
pub record Granted (asize q lo : ℕ) (m : Map) (s s' : State) : Type 0 where
  pub blocks : Map
  pub free : List ℕ
  pub heaped : Heaped s' lo blocks free
  pub own : blocks q ≡ some (record { size = asize; alloc = 1 })
  pub fresh : (c : Block) → m q ≡ some c → c.alloc ≡ 0
  pub keeps : Keeps m blocks
  pub start : s'.mem.start_brk ≡ s.mem.start_brk

unfoldable pub Mallocs : ℕ → ℕ → Map → State → Outcome → Type 0
Mallocs asize lo m s (returns (some q) s') = Granted asize q lo m s s'
Mallocs asize lo m s (returns none s') =
    (s' ≡ s) × ((2147483648 ≤ asize) ⊎ (s.mem.max_addr < s.mem.brk + asize))
Mallocs asize lo m s searching = ⊥
Mallocs asize lo m s crashed = ⊥

pub sub32_lem : (a b : ℕ) → b ≤ a → a < 4294967296 → sub32 a b ≡ a - b
sub32_lem a b h l = omega arith

pub with_list-Heaped :
    (s : State) (lo : ℕ) (m m' : Map) (fs fs' : List ℕ) (l : FreeList)
    → Heaped s lo m fs
    → Listed l lo s.mem.brk m' fs'
    → Heaped (with_list l s) lo m' fs'
with_list-Heaped s lo m m' fs fs' l h k = record {
  listed = k;
  bounds = h.bounds;
  small = h.small;
  top = h.top;
  above = h.above;
  low = h.low;
  start = h.start;
}

-- What `mm_malloc` owes once the rest of the block is on the free list.
pub split-Mallocs :
    (s : State) (lo asize q : ℕ) (m m' : Map) (fs : List ℕ) (r : Option FreeList)
    → Heaped s lo m fs
    → m' q ≡ some (record { size = asize; alloc = 1 })
    → ((c : Block) → m q ≡ some c → c.alloc ≡ 0)
    → Keeps m m'
    → StillListed lo s.mem.brk m' r
    → Mallocs asize lo m s (after_add (some q) s r)
unfolding StillListed after_add Mallocs
split-Mallocs s lo asize q m m' fs (some l) h o f p (gs, k) = record {
  blocks = m';
  free = gs;
  heaped = with_list-Heaped s lo m m' fs gs l h k;
  own = o;
  fresh = f;
  keeps = p;
  start = refl;
}
split-Mallocs s lo asize q m m' fs none h o f p k = k
