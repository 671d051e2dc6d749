-- ===== src/Malloclab/Memlib.antt =====
-- The simulated break of malloclab/memlib.c. An `int` argument is its 32-bit pattern.
pub mod Bounds
use git_sty.Base.{
  ℕ, ◌+◌, ◌-◌, ◌^◌, ◌≡◌, ◌≤◌, ◌<◌, refl, Option, none, some, ◌||◌, not, if◌then◌else◌, ltb, arith,
}

-- `MAX_HEAP` of config.h.
abbrev pub max_heap : ℕ
max_heap = 20971520

pub record Mem : Type 0 where
  pub start_brk : ℕ
  pub brk : ℕ
  pub max_addr : ℕ

-- `mem_init`, where `malloc` gives `p`; without memory the driver exits.
unfoldable pub mem_init : Option ℕ → Option Mem
mem_init none = none
mem_init (some p) = some (record { start_brk = p; brk = p; max_addr = p + max_heap })

unfoldable pub mem_reset_brk : Mem → Mem
mem_reset_brk m = record { start_brk = m.start_brk; brk = m.start_brk; max_addr = m.max_addr }

-- The old break, or -1 (`none`).
unfoldable pub mem_sbrk : ℕ → Mem → Option ℕ × Mem
mem_sbrk incr m =
    if not (ltb incr 2147483648) || ltb m.max_addr (m.brk + incr)
    then (none, m)
    else (some m.brk, record { start_brk = m.start_brk; brk = m.brk + incr; max_addr = m.max_addr })

abbrev pub mem_heap_lo : Mem → ℕ
mem_heap_lo m = m.start_brk

abbrev pub mem_heap_hi : Mem → ℕ
mem_heap_hi m = m.brk - 1

abbrev pub mem_heapsize : Mem → ℕ
mem_heapsize m = m.brk - m.start_brk
