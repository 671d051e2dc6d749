-- ===== src/Malloclab/FirstFit/Tests.antt =====
-- Runs of the allocator on the heap that `mm_init` lays out at address 8.
use git_sty.Base.{◌<◌, none, ◌+◌, ◌≡◌, ◌≤◌, refl, [], ◌∷◌, some, true, arith}
use git_sty.Malloclab.Memlib.{mem_sbrk}
use git_sty.Malloclab.FirstFit.{
  Heap, mm_init, extend_heap, after_sbrk, coalesce, free_block, put_both, put, pack, get_size,
  get_alloc, first_words, place, adjust, mm_malloc, find_fit, use_fit, Malloced, malloced,
  searching,
}
use git_sty.Malloclab.FirstFit.Chain.{Block, allocate, split}
use git_sty.Malloclab.FirstFit.Merge.{IsMerged, coalesce-IsMerged}
use git_sty.Malloclab.FirstFit.Spans.{free_of}
use git_sty.Malloclab.FirstFit.Free.{Ready}
use git_sty.Malloclab.FirstFit.Init.{CanStart, prologue, mm_init-Ready}
use git_sty.Malloclab.FirstFit.Allocate.{Allocates, malloc_blocks, mm_malloc-Allocates}
use git_sty.Malloclab.FirstFit.Live.{Live, update}
use git_sty.Malloclab.FirstFit.Reach.{Reach, start, allocates, Sound, Reach-Sound}
use git_sty.Malloclab.FirstFit.Safe.{Reach_apart, Reach_answers, Answers}

abbrev at_start : Heap
at_start = record {
  words = λ q. 0;
  mem = record { start_brk = 8; brk = 8; max_addr = 20971528 };
  heap_listp = 0;
}

abbrev ready : Heap
ready = (mm_init at_start).1

mm_init_ready : (mm_init at_start).0 ≡ true
unfolding mm_init mem_sbrk extend_heap after_sbrk coalesce free_block put_both put pack get_size
    get_alloc first_words
mm_init_ready = refl

abbrev can_start : CanStart at_start
can_start = record {
  bounds = record { low = omega arith; high = omega arith };
  small = omega arith;
  room = omega arith;
  above = omega arith;
  aligned = refl;
}

abbrev ready_Ready : Ready ready (prologue ∷ free_of 4096 ∷ [])
ready_Ready = (mm_init-Ready at_start can_start).1.1

mm_malloc-Allocates_example :
    Allocates (adjust 13) ready (prologue ∷ free_of 4096 ∷ []) (mm_malloc 5 13 ready)
mm_malloc-Allocates_example =
    mm_malloc-Allocates 5 13 ready (prologue ∷ []) (free_of 4096) (omega arith) (omega arith)
      ready_Ready (omega arith)

abbrev heap_of : Malloced → Heap
heap_of (malloced p h) = h
heap_of searching = ready

-- The heap after one request, and after another.
abbrev one : Heap
one = heap_of (mm_malloc 9999 13 ready)

abbrev two : Heap
two = heap_of (mm_malloc 9999 20 one)

one_served : mm_malloc 9999 13 ready ≡ malloced (some 24) one
unfolding adjust mm_init mem_sbrk extend_heap after_sbrk coalesce free_block put_both put pack
    get_size get_alloc first_words mm_malloc find_fit use_fit place
one_served = refl

two_served : mm_malloc 9999 20 one ≡ malloced (some 48) two
unfolding adjust mm_init mem_sbrk extend_heap after_sbrk coalesce free_block put_both put pack
    get_size get_alloc first_words mm_malloc find_fit use_fit place
two_served = refl

abbrev live_two : Live
live_two = update 48 (some 20) (update 24 (some 13) (λ q. none))

brk_one : one.mem.brk < 9999
unfolding adjust mm_init mem_sbrk extend_heap after_sbrk coalesce free_block put_both put pack
    get_size get_alloc first_words mm_malloc find_fit use_fit place
brk_one = omega arith

brk_ready : ready.mem.brk < 9999
unfolding adjust mm_init mem_sbrk extend_heap after_sbrk coalesce free_block put_both put pack
    get_size get_alloc first_words
brk_ready = omega arith

reached : Reach at_start two live_two
reached =
    allocates 9999 20 48 (allocates 9999 13 24 start (omega arith) brk_ready one_served)
      (omega arith) brk_one two_served

Reach_apart_example : 24 + 13 + 8 ≤ 48
Reach_apart_example =
    Reach_apart at_start two live_two 24 48 13 20 can_start reached refl refl (omega arith)

Reach_answers_example : Answers (adjust 3) ready (λ q. none) (mm_malloc 9999 3 ready)
Reach_answers_example =
    Reach_answers at_start ready (λ q. none) 9999 3 can_start start (omega arith) (omega arith)
      brk_ready

Reach-Sound_example : Sound at_start two live_two
Reach-Sound_example = Reach-Sound at_start two live_two can_start reached

abbrev taken : Block
taken = record { size = 24; alloc = 1 }

one_Ready : Ready one (prologue ∷ taken ∷ free_of 4072 ∷ [])
unfolding adjust mm_init mem_sbrk extend_heap after_sbrk coalesce free_block put_both put pack
    get_size get_alloc first_words mm_malloc find_fit use_fit place Allocates malloc_blocks allocate
    split
one_Ready =
    (mm_malloc-Allocates 9999 13 ready (prologue ∷ []) (free_of 4096) (omega arith) (omega arith)
      ready_Ready (omega arith)).1.0

coalesce-IsMerged_example : IsMerged 16 [] prologue 4096 [] (coalesce (16 + 0 + 8) ready.words)
unfolding mm_init mem_sbrk extend_heap after_sbrk
coalesce-IsMerged_example = coalesce-IsMerged ready.words 16 4096 [] prologue [] ready_Ready.laid
