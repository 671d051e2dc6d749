-- ===== src/Shlab/Shell/Foreground.antt =====
-- `eval` leaves no foreground job behind, and faults on a blank line.
use git_sty.Base.{
  replicate, ℕ, ◌≡◌, refl, Bool, true, false, List, [], ◌∷◌, ◌++◌, arith, ◌==◌, Text, Option-cases,
  inl, inr, Bool-cases,
}
use git_sty.Shlab.Jobs.{Job, Shell, fg, bg, addjob, deletejob, fgpid, terminated, stopped, Line}
use git_sty.Shlab.Jobs.Foreground.{
  FgOnly, NoFg, FgOnly-NoFg, addjob-FgOnly, addjob-NoFg, deletejob-FgOnly, deletejob-NoFg,
  jobs-listjobs,
}
use git_sty.Shlab.Parse.RoundTrip.{parseline_blank}
use git_sty.Shlab.Parse.{space, parseline, Parsed, parsed, smashed, out_of_fuel}
use git_sty.Shlab.Shell.{
  Run, ok, exited, fault, waiting, execed, and_then, unix_error, Status, Signal, sigchld, sigint,
  sigtstp, Kernel, reap, sigchld_handler, forward, sigint_handler, sigtstp_handler, handle,
  handle_all, waitfg, do_bgfg, builtin_cmd, Answers, child, parent, spawn, run_line, eval,
}

-- What holds of the jobs if the run returns to the shell.
abbrev pub Ensures {ℓ} : {A : Type ℓ} → (List Job → Type 0) → Run A → Type 0
Ensures P (ok a s) = P s.jobs
Ensures P (exited c s) = Unit
Ensures P fault = Unit
Ensures P (waiting s) = Unit
Ensures P (execed v) = Unit

and_then-Ensures :
    {A B : Type 0} (P Q : List Job → Type 0) (m : Run A) (f : A → Shell → Run B)
    → Ensures P m
    → ((a : A) (s : Shell) → P s.jobs → Ensures Q (f a s))
    → Ensures Q (and_then m f)
and_then-Ensures P Q (ok a s) f h g = g a s h
and_then-Ensures P Q (exited c s) f h g = tt
and_then-Ensures P Q fault f h g = tt
and_then-Ensures P Q (waiting s) f h g = tt
and_then-Ensures P Q (execed v) f h g = tt

-- The handlers only delete jobs.
module _ (P : List Job → Type 0)
    (closed : (s : Shell) (q : ℕ) → P s.jobs → P (deletejob s q).0.jobs) where
  pub reap_keeps : (cs : List (ℕ × Status)) (s : Shell) → P s.jobs → P (reap cs s).jobs
  unfolding reap
  reap_keeps [] s p = p
  reap_keeps ((pid, status) ∷ more) s p = reap_keeps more (deletejob s pid).0 (closed s pid p)

  forward_keeps :
      (k : Kernel) (sig : ℕ) (notice : ℕ → ℕ → ℕ → Line) (s : Shell)
      → P s.jobs
      → Ensures P (forward k sig notice s)
  unfolding forward unix_error
  forward_keeps k sig notice s p = ground arith

  handle_keeps : (k : Kernel) (x : Signal) (s : Shell) → P s.jobs → Ensures P (handle k x s)
  unfolding handle sigchld_handler sigint_handler sigtstp_handler unix_error
  handle_keeps k (sigchld r) s p = ground (arith, reap_keeps r.children s p)
  handle_keeps k sigint s p = forward_keeps k 2 terminated s p
  handle_keeps k sigtstp s p = forward_keeps k 20 stopped s p

  handle_all_keeps :
      (k : Kernel) (xs : List Signal) (s : Shell) → P s.jobs → Ensures P (handle_all k xs s)
  unfolding handle_all
  handle_all_keeps k [] s p = p
  handle_all_keeps k (x ∷ xs) s p =
      and_then-Ensures P P (handle k x s) _ (handle_keeps k x s p)
        (λ a s' p'. handle_all_keeps k xs s' p')

waitfg-NoFg :
    (k : Kernel) (pid : ℕ) (xs : List (List Signal)) (s : Shell)
    → FgOnly pid s.jobs
    → Ensures NoFg (waitfg k pid xs s)
unfolding waitfg
waitfg-NoFg k pid [] s f = elim (Bool-cases (pid == fgpid s.jobs)) [
  | inl e ↦ rw e tt
  | inr e ↦ rw e (FgOnly-NoFg pid s.jobs f e)
]
waitfg-NoFg k pid (x ∷ xs) s f = elim (Bool-cases (pid == fgpid s.jobs)) [
  | inl e ↦ rw e (
      and_then-Ensures (FgOnly pid) NoFg (handle_all k x s) _
        (handle_all_keeps (FgOnly pid) (λ t q. deletejob-FgOnly t pid q) k x s f)
        (λ a s' f'. waitfg-NoFg k pid xs s' f'))
  | inr e ↦ rw e (FgOnly-NoFg pid s.jobs f e)
]

spawn-NoFg :
    (k : Kernel) (e : Answers) (back : Bool) (argv : List Text) (c : Text) (s : Shell)
    → NoFg s.jobs
    → Ensures NoFg (spawn k e back argv c s)
unfolding spawn child unix_error
spawn-NoFg k e back argv c s n = elim (Option-cases e.fork) [
  | inl w ↦ ground arith
  | inr (pid, w) ↦ ground (arith, parent-NoFg back pid)
]
  where
    parent-NoFg : (b : Bool) (pid : ℕ) → Ensures NoFg (parent k e pid b c s)
    parent-NoFg true pid =
        unfold parent in
        and_then-Ensures NoFg NoFg (handle_all k e.pending (addjob s pid bg c).0) _
          (handle_all_keeps NoFg deletejob-NoFg k e.pending _ (addjob-NoFg s pid bg c refl n))
          (λ a s' n'. n')
    parent-NoFg false pid =
        unfold parent in
        and_then-Ensures (FgOnly pid) NoFg (handle_all k e.pending (addjob s pid fg c).0) _
          (handle_all_keeps (FgOnly pid) (λ t q. deletejob-FgOnly t pid q) k e.pending _
            (addjob-FgOnly s pid c n))
          (λ a s' f'. waitfg-NoFg k pid e.sleeps s' f')

builtin_cmd-NoFg : (argv : List Text) (s : Shell) → NoFg s.jobs → Ensures NoFg (builtin_cmd argv s)
unfolding builtin_cmd do_bgfg
builtin_cmd-NoFg [] s n = tt
builtin_cmd-NoFg (a ∷ more) s n = ground (arith, jobs-listjobs s)

run_line-NoFg :
    (k : Kernel) (e : Answers) (c : Text) (s : Shell) (p : Parsed)
    → NoFg s.jobs
    → Ensures NoFg (run_line k e c s p)
unfolding run_line
run_line-NoFg k e c s (parsed back argv) n =
    and_then-Ensures NoFg NoFg (builtin_cmd argv s) _ (builtin_cmd-NoFg argv s n)
      (λ done s' n'. ground (arith, spawn-NoFg k e back argv c s' n'))
run_line-NoFg k e c s smashed n = tt
run_line-NoFg k e c s out_of_fuel n = tt

-- Started without a foreground job, `eval` leaves none when it returns, whatever the line, the
-- kernel's answers and the signals that arrive.
pub eval-NoFg :
    (k : Kernel) (e : Answers) (c : Text) (s : Shell) {rest : List (List Signal)} {s' : Shell}
    → NoFg s.jobs
    → eval k e c s ≡ ok rest s'
    → NoFg s'.jobs
unfolding eval
eval-NoFg k e c s n h = rw h at (run_line-NoFg k e c s (parseline c) n)

-- On a line of spaces alone `eval` reads through `argv[0]`, which is NULL: the shell faults.
pub eval_blank :
    (k : Kernel) (e : Answers) (n : ℕ) (s : Shell)
    → eval k e (replicate n space ++ (b'\n' ∷ [])) s ≡ fault
unfolding eval
eval_blank k e n s = rw (parseline_blank n) (unfold run_line builtin_cmd in refl)
