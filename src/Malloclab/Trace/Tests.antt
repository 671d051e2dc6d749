-- ===== src/Malloclab/Trace/Tests.antt =====
-- Traces that are read.
use git_sty.Base.{suc, ◌≡◌, refl, true, List, [], ◌∷◌, length, arith}
use git_sty.Malloclab.Driver.{TraceOp, alloc, realloc, free}
use git_sty.Malloclab.Trace.{
  letter, number, read, bogus, aborted, smashed, scan_number, request, release, read_line, finish,
  read_lines, read_trace,
}
use git_sty.Malloclab.Trace.RoundTrip.{
  line_of, lines_of, file_of, largest, read_trace-file_of, read_trace_smashed,
}

abbrev ops : List TraceOp
ops = alloc 0 100 ∷ alloc 1 20 ∷ realloc 0 300 ∷ free 1 ∷ free 0 ∷ []

read_trace-file_of_example :
    read_trace true 7 (file_of 20000 (suc (largest 0 ops)) (length ops) 1 ops)
    ≡ read (suc (largest 0 ops)) (length ops) ops
unfolding largest
read_trace-file_of_example =
    read_trace-file_of 7 20000 1 ops (omega arith) (omega arith) (ground arith)

read_trace_smashed_example : read_trace true 7 (file_of 20000 2 4 1 ops) ≡ smashed
read_trace_smashed_example = read_trace_smashed 7 20000 2 4 1 ops (omega arith)

-- A freed index beyond the arrays is not noticed; an index that is never allocated is.
freed_beyond :
    read_trace true 7 (file_of 0 1 2 1 (alloc 0 8 ∷ free 5 ∷ []))
    ≡ read 1 2 (alloc 0 8 ∷ free 5 ∷ [])
unfolding read_trace file_of lines_of line_of scan_number request release read_line finish
    read_lines
freed_beyond = refl

too_many_ids : read_trace true 7 (file_of 0 3 1 1 (alloc 0 8 ∷ [])) ≡ aborted
unfolding read_trace file_of lines_of line_of scan_number request release read_line finish
    read_lines
too_many_ids = refl

wrong_word :
    read_trace true 7 (number 0 ∷ number 1 ∷ number 1 ∷ number 1 ∷ letter 120 ∷ []) ≡ bogus 120
unfolding read_trace scan_number read_line read_lines
wrong_word = refl
