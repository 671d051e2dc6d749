-- ===== src/Malloclab/Trace.antt =====
-- `read_trace` of malloclab/mdriver.c. The file is a list of words, of which `fscanf` has taken the first
-- character or the number; `%u` and `%d` leave their variable and the word where no number stands. A
-- variable, like a field of the trace, is its 32-bit pattern, and `num_ids` and `num_ops` are not negative.
pub mod RoundTrip
mod Tests
use git_sty.Base.{
  ℕ, zero, suc, ◌+◌, ◌-◌, ◌%◌, ◌^◌, Bool, Option, none, some, List, [], ◌∷◌, ◌++◌, ◌==◌, ltb,
  if◌then◌else◌, length,
}
use git_sty.Malloclab.Driver.{TraceOp, alloc, realloc, free}

pub data Token : Type 0 where
  letter number : ℕ → Token

-- `read` returns the trace; `bogus` is a word of another kind, `aborted` an assertion that fails, `failed` a
-- missing file or memory, `smashed` a store behind the array of operations.
pub data Outcome : Type 0 where
  read : (num_ids num_ops : ℕ) → List TraceOp → Outcome
  bogus : ℕ → Outcome
  aborted failed smashed unfinished : Outcome

unfoldable pub scan_number : ℕ → List Token → ℕ × List Token
scan_number old [] = (old, [])
scan_number old (letter c ∷ ts) = (old, letter c ∷ ts)
scan_number old (number n ∷ ts) = (n % 4294967296, ts)

-- `index`, `size`, `max_index`, and the operations stored so far.
pub record Reader : Type 0 where
  pub index : ℕ
  pub size : ℕ
  pub max_index : ℕ
  pub ops : List TraceOp

-- A line behind its first word: the words that follow and the variables after it. 97, 114 and 102 are
-- `a`, `r` and `f`.
unfoldable pub request : (ℕ → ℕ → TraceOp) → List Token → Reader → List Token × Reader
request make ts r =
    let (index, ts₁) = scan_number r.index ts in
    let (size, ts₂) = scan_number r.size ts₁ in
    (
      ts₂,
      record {
        index = index;
        size = size;
        max_index = if ltb r.max_index index then index else r.max_index;
        ops = r.ops ++ (make index size ∷ []);
      },
    )

unfoldable pub release : List Token → Reader → List Token × Reader
release ts r =
    let (index, ts₁) = scan_number r.index ts in
    (
      ts₁,
      record {
        index = index;
        size = r.size;
        max_index = r.max_index;
        ops = r.ops ++ (free index ∷ []);
      },
    )

unfoldable pub read_line : ℕ → List Token → Reader → Option (List Token × Reader)
read_line type ts r =
    if type == 97
    then some (request alloc ts r)
    else if type == 114
    then some (request realloc ts r)
    else if type == 102
    then some (release ts r)
    else none

-- The two assertions.
unfoldable pub finish : (num_ids num_ops : ℕ) → Reader → Outcome
finish num_ids num_ops r =
    if r.max_index == ((num_ids + 2 ^ 32) - 1) % 2 ^ 32
    then (if num_ops == length r.ops then read num_ids num_ops r.ops else aborted)
    else aborted

-- Each line takes one word or more, so as much fuel as there are words is enough, and one more.
unfoldable pub read_lines : (fuel num_ids num_ops : ℕ) → List Token → Reader → Outcome
read_lines zero num_ids num_ops ts r = unfinished
read_lines (suc k) num_ids num_ops [] r = finish num_ids num_ops r
read_lines (suc k) num_ids num_ops (number n ∷ ts) r = bogus n
read_lines (suc k) num_ids num_ops (letter c ∷ ts) r = elim (read_line c ts r) [
  | none ↦ bogus c
  | some t ↦
      let rest = read_lines k num_ids num_ops t.0 t.1 in
      if ltb (length r.ops) num_ops then rest else smashed
]

-- `junk` is what the memory of the record and of `size` holds; `opened` is whether the file is there and
-- `malloc` has memory.
unfoldable pub read_trace : (opened : Bool) (junk : ℕ) → List Token → Outcome
read_trace opened junk ts =
    let (sugg_heapsize, ts₁) = scan_number junk ts in
    let (num_ids, ts₂) = scan_number junk ts₁ in
    let (num_ops, ts₃) = scan_number junk ts₂ in
    let (weight, ts₄) = scan_number junk ts₃ in
    let r : Reader = record { index = 0; size = junk; max_index = 0; ops = [] } in
    let rest = read_lines (suc (length ts₄)) num_ids num_ops ts₄ r in
    if opened then rest else failed
