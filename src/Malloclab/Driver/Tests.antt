-- ===== src/Malloclab/Driver/Tests.antt =====
-- The contract of an allocator, kept by both, and a run of the driver's test.
use git_sty.Base.{ℕ, refl, Option, none, List, [], ◌∷◌, arith}
use git_sty.Malloclab.FirstFit.{Heap}
use git_sty.Malloclab.FirstFit.Init.{CanStart}
use git_sty.Malloclab.Driver.{TraceOp, alloc, free, Run}
use git_sty.Malloclab.Explicit.{State}
use git_sty.Malloclab.Explicit.Client
use git_sty.Malloclab.Driver.Explicit
use git_sty.Malloclab.Driver.FirstFit
use git_sty.Malloclab.Driver.Explicit.{explicit-Service}
use git_sty.Malloclab.Driver.FirstFit.{reset, first_fit-Service}
use git_sty.Malloclab.Driver.Passes.{Passes}
use git_sty.Malloclab.Memlib.{mem_reset_brk}

abbrev used_heap : Heap
used_heap = record {
  words = λ q. 0;
  mem = record { start_brk = 8; brk = 4120; max_addr = 20971528 };
  heap_listp = 16;
}

abbrev can_start : CanStart (reset used_heap)
unfolding mem_reset_brk
can_start = record {
  bounds = record { low = omega arith; high = omega arith };
  small = omega arith;
  room = omega arith;
  above = omega arith;
  aligned = refl;
}

-- A `mm_realloc` that fails.
abbrev fails : ℕ → ℕ → Heap → Option ℕ × Heap
fails p size h = (none, h)

abbrev run : Run Heap
run = record { heap = used_heap; ranges = []; blocks = 0 ∷ 0 ∷ []; block_sizes = 0 ∷ 0 ∷ [] }

abbrev trace : List TraceOp
trace = alloc 0 13 ∷ alloc 1 500 ∷ free 0 ∷ alloc 0 4000 ∷ free 1 ∷ free 0 ∷ []

first_fit-Service_example : FirstFit.Keeps fails (reset used_heap)
first_fit-Service_example = first_fit-Service fails (reset used_heap) can_start

abbrev new_state : State
new_state = record {
  list = record { words = λ q. 0; root = 0; last = 0 };
  mem = record { start_brk = 8; brk = 8; max_addr = 20971528 };
  heap_listp = 0;
}

abbrev state_can_start : Client.CanStart new_state
state_can_start = record {
  bounds = record { low = omega arith; high = omega arith };
  small = omega arith;
  room = omega arith;
  above = omega arith;
  aligned = refl;
}

-- A `mm_realloc` that fails.
abbrev fails_too : ℕ → ℕ → State → Option ℕ × State
fails_too p size s = (none, s)

explicit-Service_example : Explicit.Keeps fails_too new_state
explicit-Service_example = explicit-Service fails_too new_state state_can_start
