-- ===== src/Malloclab/Ranges/Tests.antt =====
-- Runs of the range list.
use git_sty.Base.{true, List, [], ◌∷◌, arith, inl}
use git_sty.Malloclab.Memlib.{Mem}
use git_sty.Malloclab.Ranges.{Range, add_range}
use git_sty.Malloclab.Ranges.Disjoint.{
  AllApart, Disjoint, NoneInside, KeepsDisjoint, add_range-KeepsDisjoint,
}

abbrev heap : Mem
heap = record { start_brk = 8; brk = 4096; max_addr = 8192 }

abbrev one : List Range
one = record { lo = 32; hi = 39 } ∷ []

one-Disjoint : Disjoint one
unfolding Disjoint AllApart
one-Disjoint = (omega arith, (tt, tt))

add_range-KeepsDisjoint_example : KeepsDisjoint (add_range true heap one 48 16)
unfolding NoneInside
add_range-KeepsDisjoint_example =
    add_range-KeepsDisjoint true heap one 48 16 (omega arith) one-Disjoint (inl (omega arith), tt)
