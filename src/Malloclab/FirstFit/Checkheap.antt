-- ===== src/Malloclab/FirstFit/Checkheap.antt =====
-- `mm_checkheap` of malloclab/mm-firstfit.c, not verbose: the lines that it prints. The fuel bounds the
-- blocks that it visits, and `none` means that more of them follow.
use git_sty.Base.{
  ℕ, zero, suc, Option, none, some, List, [], ◌∷◌, ◌++◌, ◌==◌, ◌&&◌, not, if◌then◌else◌,
}
use git_sty.Malloclab.FirstFit.{
  Words, Heap, Complaint, bad_prologue, bad_epilogue, get_size, get_alloc, hdrp, next_blkp, dsize,
  checkblock,
}

abbrev pub printed : List Complaint → Option (List Complaint) → Option (List Complaint)
printed cs none = none
printed cs (some ds) = some (cs ++ ds)

unfoldable pub check_blocks : ℕ → ℕ → Words → Option (List Complaint)
check_blocks zero bp w = none
check_blocks (suc k) bp w =
    let rest = check_blocks k (next_blkp w bp) w in
    if get_size w (hdrp bp) == 0
    then some (if not (get_alloc w (hdrp bp) == 0) then [] else bad_epilogue ∷ [])
    else printed (checkblock bp w) rest

unfoldable pub mm_checkheap : ℕ → Heap → Option (List Complaint)
mm_checkheap fuel h =
    let p = hdrp h.heap_listp in
    let ok = (get_size h.words p == dsize) && not (get_alloc h.words p == 0) in
    printed ((if ok then [] else bad_prologue ∷ []) ++ checkblock h.heap_listp h.words)
      (check_blocks fuel h.heap_listp h.words)
