-- ===== src/Malloclab/FreeList/Tests.antt =====
-- A free list of two blocks, and one that comes between them.
use git_sty.Base.{◌++◌, ◌==◌, if◌then◌else◌, refl, [], ◌∷◌, arith}
use git_sty.Malloclab.FirstFit.{Words}
use git_sty.Malloclab.FreeList.{FreeList, add_free_block, remove_free_block}
use git_sty.Malloclab.FreeList.Chained.{Chained, Pointers, NotAmong, Distinct, last_or, Holds}
use git_sty.Malloclab.FreeList.Add.{Adds, add_free_block-Adds}
use git_sty.Malloclab.FreeList.Remove.{remove_free_block-Holds}

-- Blocks of 24, 40 and 32 bytes at 16, 64 and 128.
abbrev words : Words
words q =
    if q == 12
    then 24
    else if q == 60
    then 40
    else if q == 124
    then 32
    else if q == 16
    then 64
    else if q == 68
    then 16
    else 0

abbrev two : FreeList
two = record { words = words; root = 16; last = 64 }

abbrev two_Holds : Holds two (16 ∷ 64 ∷ [])
unfolding Chained Pointers NotAmong Distinct last_or
two_Holds = record {
  root = refl;
  last = refl;
  chained = (refl, (refl, tt));
  pointers = ((refl, omega arith), ((refl, omega arith), tt));
  distinct = (((λ e. omega (arith, e)), tt), (tt, tt));
}

add_free_block-Adds_example : Adds words 128 (16 ∷ 64 ∷ []) (add_free_block 3 128 two)
unfolding NotAmong
add_free_block-Adds_example =
    add_free_block-Adds 3 128 two (16 ∷ 64 ∷ []) two_Holds (refl, omega arith)
      ((λ e. omega (arith, e)), ((λ e. omega (arith, e)), tt)) (omega arith)

remove_free_block-Holds_example : Holds (remove_free_block 64 two) ((16 ∷ []) ++ [])
remove_free_block-Holds_example = remove_free_block-Holds two (16 ∷ []) 64 [] two_Holds
