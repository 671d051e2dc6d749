-- ===== src/Shlab/Parse/Total.antt =====
-- The loop of `parseline` ends.
use git_sty.Base.{
  ℕ, zero, suc, ◌+◌, ◌≡◌, ◌≢◌, ◌≤◌, ◌<◌, some, List, [], ◌∷◌, Text, split_at, length, arith,
  Option-cases, inl, inr,
}
use git_sty.Shlab.Parse.{
  space, quote, out_of_fuel, blank_last, skip_spaces, next_arg, arg_loop, background, finish,
  parseline,
}

length-split_at :
    (c : ℕ) (xs : Text) {a r : Text} → split_at c xs ≡ some (a, r) → length r < length xs
unfolding split_at
length-split_at c [] e = ground arith
length-split_at c (x ∷ xs) e = elim (Option-cases (split_at c xs)) [
  | inl n ↦ ground arith
  | inr ((f, t), n) ↦ ground (arith, length-split_at c xs {a = f} {r = t})
]

pub length-skip_spaces : (xs : Text) → length (skip_spaces xs) ≤ length xs
unfolding skip_spaces
length-skip_spaces [] = omega arith
length-skip_spaces (x ∷ xs) = ground (arith, length-skip_spaces xs)

length-next_arg : (buf : Text) {a r : Text} → next_arg buf ≡ some (a, r) → length r < length buf
unfolding next_arg
length-next_arg [] {a} {r} e = length-split_at space [] e
length-next_arg (x ∷ xs) {a} {r} e = ground (
  arith,
  length-split_at quote xs {a = a} {r = r},
  length-split_at space (x ∷ xs) {a = a} {r = r},
)

arg_loop-ends :
    (k : ℕ) (buf : Text) → length buf < k → (args : List Text) × (arg_loop k buf ≡ some args)
unfolding arg_loop
arg_loop-ends zero buf h = absurd (omega arith)
arg_loop-ends (suc k) buf h = elim (Option-cases (next_arg buf)) [
  | inl n ↦ ([], rw (n, arg_loop))
  | inr ((a, r), n) ↦
      let (rest, e) =
        arg_loop-ends k (skip_spaces r)
          (omega (arith, length-next_arg buf n, length-skip_spaces r)) in
      (a ∷ rest, rw (n, arg_loop) (rw (e, arg_loop)))
]

-- `parseline` ends on every line: the fuel that the model gives its loop never runs out.
pub parseline_ends : (line : Text) → parseline line ≢ out_of_fuel
unfolding parseline finish background
parseline_ends line =
    let buf = skip_spaces (blank_last line) in
    let (args, e) = arg_loop-ends (length buf + 1) buf (omega arith) in go args e
  where
    go :
        (args : List Text)
        → arg_loop (length (skip_spaces (blank_last line)) + 1) (skip_spaces (blank_last line))
          ≡ some args
        → parseline line ≢ out_of_fuel
    go [] e = ground arith
    go (x ∷ xs) e = ground arith
