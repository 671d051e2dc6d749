-- ===== src/Malloclab/Explicit/Tests.antt =====
-- Runs of the allocator malloclab/mm.c.
use git_sty.Base.{ℕ, ◌+◌, ◌-◌, ◌<◌, ◌≡◌, refl, Option, none, some, [], arith}
use git_sty.Malloclab.Memlib.{mem_sbrk}
use git_sty.Malloclab.FirstFit.{adjust, put, get_size, pack, first_words, put_both}
use git_sty.Malloclab.FirstFit.Words.{IsBlockSize}
use git_sty.Malloclab.FreeList.{FreeList, add_free_block, remove_free_block}
use git_sty.Malloclab.FreeList.Chained.{Chained, Pointers, Distinct, NotAmong, last_or}
use git_sty.Malloclab.FreeList.Boundary.{coalesce, heap_boundary}
use git_sty.Malloclab.Explicit.{
  State, with_words, Outcome, returns, searching, crashed, mark, align, mm_init, after_sbrk,
  after_add, pick, use_fit, extended, may_fit, mm_malloc, mm_free, mm_realloc,
}
use git_sty.Malloclab.Explicit.Blocks.{Map, enter}
use git_sty.Malloclab.Explicit.Listed.{AllFree, Listed, mark-Listed}
use git_sty.Malloclab.Explicit.Heaped.{Heaped, Mallocs}
use git_sty.Malloclab.Explicit.Calls.{mm_malloc-Mallocs, Frees, mm_free-Frees}
use git_sty.Malloclab.Explicit.Realloc.{Shortened, mm_realloc_same}
use git_sty.Malloclab.Explicit.Moved.{Moves, mm_realloc_moves}

abbrev nothing : Map
nothing = λ q. none

abbrev empty_list : FreeList
empty_list = record { words = λ q. 0; root = 0; last = 0 }

abbrev empty-Listed : Listed empty_list 24 48 nothing []
unfolding AllFree Chained Pointers Distinct last_or
empty-Listed = record {
  blocks = record {
    tagged = λ p b e. absurd (ground arith);
    apart = λ p b e q c f n. absurd (ground arith);
  };
  holds = record { root = refl; last = refl; chained = tt; pointers = tt; distinct = tt };
  free = tt;
}

-- One block of 24 bytes at 24, which a request of 16 bytes has got.
abbrev one_block : State
one_block = record {
  list = with_words (mark 24 24 1 (λ q. 0)) empty_list;
  mem = record { start_brk = 8; brk = 48; max_addr = 20971528 };
  heap_listp = 16;
}

abbrev blocks : Map
blocks = enter 24 24 1 nothing

abbrev one_block-Heaped : Heaped one_block 24 blocks []
unfolding NotAmong IsBlockSize
one_block-Heaped = record {
  listed =
      mark-Listed 24 48 (omega arith) empty_list nothing [] 24 24 1 (omega arith)
        (record {
          aligned = refl;
          size_ok = (refl, omega arith);
          least = omega arith;
          low = omega arith;
          high = omega arith;
          room = λ q c e n. absurd (ground arith);
        })
        tt empty-Listed;
  bounds = record { low = omega arith; high = omega arith };
  small = omega arith;
  top = refl;
  above = omega arith;
  low = omega arith;
  start = omega arith;
}

mm_malloc-Mallocs_example : Mallocs (adjust 100) 24 blocks one_block (mm_malloc 50 100 one_block)
mm_malloc-Mallocs_example =
    mm_malloc-Mallocs one_block 24 blocks [] 50 100 one_block-Heaped (omega arith) (omega arith)
      (omega arith)

mm_free-Frees_example : Frees 24 24 blocks one_block (mm_free 50 24 one_block)
mm_free-Frees_example =
    mm_free-Frees one_block 24 blocks [] 50 24 24 one_block-Heaped refl (omega arith)

mm_realloc_same_example :
    Shortened 24 (align 16) (mm_realloc 50 24 16 one_block) × (align 16 < 16 + 8)
unfolding adjust
mm_realloc_same_example =
    mm_realloc_same one_block 24 blocks [] 50 24 one_block-Heaped 16 refl (omega arith)
      (omega arith)

mm_realloc_moves_example :
    Moves 4294967296 24 24
      (align 100 - 24)
      24
      blocks
      one_block
      (mm_realloc 4294967296 24 100 one_block)
unfolding adjust
mm_realloc_moves_example =
    mm_realloc_moves one_block 24 blocks [] 4294967296 24 24 100 one_block-Heaped refl (omega arith)
      (omega arith) (omega arith) (omega arith)

-- The pointers of a run: two blocks, the first one given back and divided.
abbrev pointer : Outcome → Option ℕ
pointer (returns p s) = p
pointer searching = none
pointer crashed = none

abbrev state : Outcome → State
state (returns p s) = s
state searching = one_block
state crashed = one_block

abbrev started : State
started =
    (mm_init (record {
      list = empty_list;
      mem = record { start_brk = 8; brk = 8; max_addr = 20971528 };
      heap_listp = 0;
    })).1

abbrev first : Outcome
first = mm_malloc 3 100 started

abbrev second : Outcome
second = mm_malloc 3 40 (state first)

abbrev given_back : State
given_back = state (mm_free 3 24 (state second))

first_pointer : pointer first ≡ some 24
unfolding mm_malloc mm_init after_sbrk may_fit extended mem_sbrk adjust
first_pointer = refl

reused : pointer (mm_malloc 3 100 given_back) ≡ some 24
unfolding mm_malloc mm_init mm_free after_sbrk after_add may_fit extended mem_sbrk adjust coalesce
    add_free_block put get_size first_words put_both pack pick use_fit remove_free_block
    heap_boundary
reused = refl

-- A request that is smaller than every free block gets none of them.
not_reused : pointer (mm_malloc 3 16 given_back) ≡ some 184
unfolding mm_malloc mm_init mm_free after_sbrk after_add may_fit extended mem_sbrk adjust coalesce
    add_free_block put get_size first_words put_both pack pick use_fit remove_free_block
    heap_boundary
not_reused = refl
