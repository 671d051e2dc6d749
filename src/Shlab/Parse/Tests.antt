-- ===== src/Shlab/Parse/Tests.antt =====
-- Runs of `parseline`, and the theorems at them.
use git_sty.Base.{
  ℕ, ◌≡◌, ◌≢◌, refl, true, false, [], ◌∷◌, arith, codes, replicate, zero, suc, split_at,
}
use git_sty.Shlab.Parse.{
  parsed, out_of_fuel, parseline, blank_last, skip_spaces, next_arg, arg_loop, finish, background,
  is_amp, last_arg,
}
use git_sty.Shlab.Parse.Total.{parseline_ends}
use git_sty.Shlab.Parse.RoundTrip.{Arg, AllArgs, parseline_foreground}

-- A quote that is not closed drops the rest of the line.
unclosed : parseline (codes "echo 'a b\n") ≡ parsed false (codes "echo" ∷ [])
unfolding parseline blank_last skip_spaces next_arg arg_loop finish background split_at is_amp
    last_arg
unclosed = refl

blank_line : parseline (codes "  \n") ≡ parsed true []
unfolding parseline blank_last skip_spaces next_arg arg_loop finish background split_at
blank_line = refl

abbrev echo : Arg
echo = record { gap = 2; quoted = false; word = codes "echo" }

abbrev spaced : Arg
spaced = record { gap = 0; quoted = true; word = codes "a b" }

parseline_ends_example : parseline (codes "echo 'a b\n") ≢ out_of_fuel
parseline_ends_example = parseline_ends (codes "echo 'a b\n")

parseline_foreground_example :
    parseline (codes "  echo 'a b'\n") ≡ parsed false (codes "echo" ∷ codes "a b" ∷ [])
unfolding is_amp last_arg
parseline_foreground_example =
    parseline_foreground echo (spaced ∷ []) (refl, (refl, tt)) (omega arith) refl

AllArgs-replicate : (n : ℕ) → AllArgs (replicate n echo)
AllArgs-replicate zero = tt
AllArgs-replicate (suc n) = (refl, AllArgs-replicate n)
