-- ===== src/Malloclab/Speed/Tests.antt =====
-- A timed run.
use git_sty.Base.{ℕ, refl, Option, none, List, [], ◌∷◌, arith}
use git_sty.Malloclab.Explicit.{State}
use git_sty.Malloclab.Explicit.Client.{CanStart}
use git_sty.Malloclab.Driver.{TraceOp, alloc, free}
use git_sty.Malloclab.Driver.Service.{Service}
use git_sty.Malloclab.Driver.Explicit.{explicit, explicit-Service, reset}
use git_sty.Malloclab.Memlib.{mem_reset_brk}
use git_sty.Malloclab.Speed.Finishes.{Finishes}

abbrev used_state : State
used_state = record {
  list = record { words = λ q. 0; root = 0; last = 0 };
  mem = record { start_brk = 8; brk = 4120; max_addr = 20971528 };
  heap_listp = 16;
}

abbrev can_start : CanStart (reset used_state)
unfolding mem_reset_brk
can_start = record {
  bounds = record { low = omega arith; high = omega arith };
  small = omega arith;
  room = omega arith;
  above = omega arith;
  aligned = refl;
}

abbrev fails : ℕ → ℕ → State → Option ℕ × State
fails p size s = (none, s)

abbrev service : Service (explicit fails) (reset used_state)
service = (explicit-Service fails (reset used_state) can_start).service

abbrev trace : List TraceOp
trace = alloc 0 13 ∷ alloc 1 500 ∷ free 0 ∷ alloc 0 4000 ∷ free 1 ∷ []
