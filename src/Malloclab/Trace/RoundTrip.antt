-- ===== src/Malloclab/Trace/RoundTrip.antt =====
-- What a trace file says is what `read_trace` reads.
use git_sty.Base.{
  ℕ, zero, suc, ◌+◌, ◌-◌, ◌%◌, ◌≡◌, ◌≤◌, ◌<◌, ◌∙◌, ap, sym, refl, true, List, [], ◌∷◌, ◌++◌, ◌==◌,
  ltb, if◌then◌else◌, length, length-append, arith, Bool-cases, inl, inr,
}
use mathlib.Core.List.{append_assoc, append-nil}
use git_sty.Malloclab.Driver.{TraceOp, alloc, realloc, free}
use git_sty.Malloclab.Trace.{
  Token, letter, number, Outcome, read, smashed, scan_number, Reader, request, release, read_line,
  finish, read_lines, read_trace,
}

-- The lines of a trace.
unfoldable pub line_of : TraceOp → List Token
line_of (alloc i n) = letter 97 ∷ number i ∷ number n ∷ []
line_of (realloc i n) = letter 114 ∷ number i ∷ number n ∷ []
line_of (free i) = letter 102 ∷ number i ∷ []

unfoldable pub lines_of : List TraceOp → List Token
lines_of [] = []
lines_of (op ∷ ops) = line_of op ++ lines_of ops

-- A file: the header with the two numbers that are not used, and the lines.
unfoldable pub file_of : (sugg_heapsize num_ids num_ops weight : ℕ) → List TraceOp → List Token
file_of h i n w ops = number h ∷ number i ∷ number n ∷ number w ∷ lines_of ops

-- The largest index that is allocated or reallocated, from `m` on.
unfoldable pub largest : ℕ → List TraceOp → ℕ
largest m [] = m
largest m (alloc i n ∷ ops) = largest (if ltb m i then i else m) ops
largest m (realloc i n ∷ ops) = largest (if ltb m i then i else m) ops
largest m (free i ∷ ops) = largest m ops

-- The numbers of an operation fit an `int`.
abbrev IsSmall : TraceOp → Type 0
IsSmall (alloc i n) = (i < 2147483648) × (n < 2147483648)
IsSmall (realloc i n) = (i < 2147483648) × (n < 2147483648)
IsSmall (free i) = i < 2147483648

abbrev pub AreSmall : List TraceOp → Type 0
AreSmall [] = Unit
AreSmall (op ∷ ops) = IsSmall op × AreSmall ops

kept : (n : ℕ) → n < 2147483648 → n % 4294967296 ≡ n
kept n l = omega (arith, l)

-- One more operation is stored, and the others are read.
stored :
    (op : TraceOp) (ops : List TraceOp) (ids c : ℕ) (done : List TraceOp) (o : Outcome)
    → c ≡ length done + length (op ∷ ops)
    → o ≡ read ids c ((done ++ (op ∷ [])) ++ ops)
    → (if ltb (length done) c then o else smashed) ≡ read ids c (done ++ (op ∷ ops))
stored op ops ids c done o n e =
    let room : ltb (length done) c ≡ true = ground (arith, n) in
    rw room (e ∙ ap (read ids c) (append_assoc done (op ∷ []) ops))

-- The reader behind a line.
abbrev after : TraceOp → Reader → Reader
after (alloc i z) r = record {
  index = i;
  size = z;
  max_index = if ltb r.max_index i then i else r.max_index;
  ops = r.ops ++ (alloc i z ∷ []);
}
after (realloc i z) r = record {
  index = i;
  size = z;
  max_index = if ltb r.max_index i then i else r.max_index;
  ops = r.ops ++ (realloc i z ∷ []);
}
after (free i) r = record {
  index = i;
  size = r.size;
  max_index = r.max_index;
  ops = r.ops ++ (free i ∷ []);
}

one_more :
    (op : TraceOp) (ops : List TraceOp) (c : ℕ) (done : List TraceOp)
    → c ≡ length done + length (op ∷ ops)
    → c ≡ length (done ++ (op ∷ [])) + length ops
one_more op ops c done n = omega (arith, n, length-append done (op ∷ []))

-- With room for the operations to come, the lines are read.
read_lines-lines_of :
    (ops : List TraceOp) (fuel ids c : ℕ) (r : Reader)
    → length (lines_of ops) < fuel
    → c ≡ length r.ops + length ops
    → ids ≡ suc (largest r.max_index ops)
    → ids < 4294967296
    → AreSmall ops
    → read_lines fuel ids c (lines_of ops) r ≡ read ids c (r.ops ++ ops)
unfolding read_lines lines_of line_of read_line request release scan_number largest finish
read_lines-lines_of ops zero ids c r l n g b a = absurd (omega (arith, l))
read_lines-lines_of [] (suc k) ids c r l n g b a =
    let x : (r.max_index == ((ids + 4294967296) - 1) % 4294967296) ≡ true = ground (arith, g, b) in
    let y : (c == length r.ops) ≡ true = ground (arith, n) in
    rw (x, y) (ap (read ids c) (sym (append-nil r.ops)))
read_lines-lines_of (alloc i z ∷ ops) (suc k) ids c r l n g b ((ai, az), as') =
    rw (kept i ai, kept z az)
      (let op = alloc i z in
        let r' = after op r in
        stored op ops ids c r.ops (read_lines k ids c (lines_of ops) r') n (
          read_lines-lines_of ops k ids c r' (omega (arith, l)) (one_more op ops c r.ops n) g b
            as'))
read_lines-lines_of (realloc i z ∷ ops) (suc k) ids c r l n g b ((ai, az), as') =
    rw (kept i ai, kept z az)
      (let op = realloc i z in
        let r' = after op r in
        stored op ops ids c r.ops (read_lines k ids c (lines_of ops) r') n (
          read_lines-lines_of ops k ids c r' (omega (arith, l)) (one_more op ops c r.ops n) g b
            as'))
read_lines-lines_of (free i ∷ ops) (suc k) ids c r l n g b (ai, as') = rw (kept i ai) (
    let op = free i in
    let r' = after op r in
    stored op ops ids c r.ops (read_lines k ids c (lines_of ops) r') n
      (read_lines-lines_of ops k ids c r' (omega (arith, l)) (one_more op ops c r.ops n) g b as'))

-- From a file with fewer than 2^31 lines and with all indices and sizes below 2^31, whose header has the
-- number of its lines and one more than the largest index that is allocated or reallocated, itself below 2^31,
-- `read_trace` reads these two numbers and the operations of the lines in order, whichever indices are freed.
pub read_trace-file_of :
    (junk h w : ℕ) (ops : List TraceOp)
    → suc (largest 0 ops) < 2147483648
    → length ops < 2147483648
    → AreSmall ops
    → read_trace true junk (file_of h (suc (largest 0 ops)) (length ops) w ops)
      ≡ read (suc (largest 0 ops)) (length ops) ops
unfolding read_trace file_of scan_number
read_trace-file_of junk h w ops b n a =
    rw (kept (suc (largest 0 ops)) b, kept (length ops) n)
      (read_lines-lines_of ops (suc (length (lines_of ops))) (suc (largest 0 ops)) (length ops)
        (record { index = 0; size = junk; max_index = 0; ops = [] }) (omega arith) (omega arith)
        refl (omega (arith, b)) a)

-- A line is refused, or the lines behind it are.
refused :
    (op : TraceOp) (c n : ℕ) (done : List TraceOp) (o : Outcome)
    → c < length done + suc n
    → (length (done ++ (op ∷ [])) ≤ c → c < length (done ++ (op ∷ [])) + n → o ≡ smashed)
    → (if ltb (length done) c then o else smashed) ≡ smashed
refused op c n done o l f = elim (Bool-cases (ltb (length done) c)) [
  | inl d ↦
      let a = length-append done (op ∷ []) in
      let m : length done < c = ground arith in rw d (f (omega (arith, a, m)) (omega (arith, a, l)))
  | inr d ↦ rw d refl
]

-- More lines than there is room for.
read_lines_smashed :
    (ops : List TraceOp) (fuel ids c : ℕ) (r : Reader)
    → length (lines_of ops) < fuel
    → length r.ops ≤ c
    → c < length r.ops + length ops
    → read_lines fuel ids c (lines_of ops) r ≡ smashed
unfolding read_lines lines_of line_of read_line request release scan_number
read_lines_smashed ops zero ids c r l m n = absurd (omega (arith, l))
read_lines_smashed [] (suc k) ids c r l m n = absurd (omega (arith, m, n))
read_lines_smashed (alloc i z ∷ ops) (suc k) ids c r l m n =
    refused (alloc (i % 4294967296) (z % 4294967296)) c (length ops) r.ops
      (read_lines k ids c (lines_of ops) (after (alloc (i % 4294967296) (z % 4294967296)) r)) n
      (λ a b.
        read_lines_smashed ops k ids c (after (alloc (i % 4294967296) (z % 4294967296)) r)
          (omega (arith, l)) a b)
read_lines_smashed (realloc i z ∷ ops) (suc k) ids c r l m n =
    refused (realloc (i % 4294967296) (z % 4294967296)) c (length ops) r.ops
      (read_lines k ids c (lines_of ops) (after (realloc (i % 4294967296) (z % 4294967296)) r)) n
      (λ a b.
        read_lines_smashed ops k ids c (after (realloc (i % 4294967296) (z % 4294967296)) r)
          (omega (arith, l)) a b)
read_lines_smashed (free i ∷ ops) (suc k) ids c r l m n =
    refused (free (i % 4294967296)) c (length ops) r.ops
      (read_lines k ids c (lines_of ops) (after (free (i % 4294967296)) r)) n
      (λ a b.
        read_lines_smashed ops k ids c (after (free (i % 4294967296)) r) (omega (arith, l)) a b)

-- From a file with more lines than its header says, `read_trace` writes behind the array of operations; the
-- assertion on their number would come too late.
pub read_trace_smashed :
    (junk h i c w : ℕ) (ops : List TraceOp)
    → c < length ops
    → read_trace true junk (file_of h i c w ops) ≡ smashed
unfolding read_trace file_of scan_number
read_trace_smashed junk h i c w ops l =
    read_lines_smashed ops (suc (length (lines_of ops))) (i % 4294967296) (c % 4294967296)
      (record { index = 0; size = junk; max_index = 0; ops = [] }) (omega arith) (omega arith)
      (omega (arith, l))
