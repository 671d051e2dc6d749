-- ===== src/Shlab/Shell/Tests.antt =====
-- Runs of the shell, and the theorems at them.
use git_sty.Base.{
  ℕ, ◌≡◌, refl, true, false, List, [], ◌∷◌, none, some, ◌==◌, arith, codes, if◌then◌else◌, text_eq,
  split_at,
}
use git_sty.Shlab.Jobs.{
  Shell, fg, addjob, fgpid, start, fill_free, deletejob, clear_pid, clearjob, bump_jid, maxjid,
}
use git_sty.Shlab.Jobs.Table.{IsTable, has_pid, entry_of, start-IsTable}
use git_sty.Shlab.Jobs.Invariant.{addjob-IsTable}
use git_sty.Shlab.Jobs.Foreground.{NoFg, start-NoFg, addjob-FgOnly}
use git_sty.Shlab.Parse.{
  parseline, blank_last, skip_spaces, next_arg, arg_loop, finish, background, is_amp, last_arg,
}
use git_sty.Shlab.Shell.{
  Run, ok, Reaped, suspended, Signal, sigchld, Kernel, Answers, echild, sigchld_handler, waitfg,
  eval, builtin_cmd, spawn, parent, run_line, handle, handle_all, reap,
}
use git_sty.Shlab.Shell.Reap.{reaps, sigchld_handler-reaps}
use git_sty.Shlab.Shell.Foreground.{eval-NoFg}
use git_sty.Shlab.Shell.Wait.{waitfg_returns}

abbrev kernel : Kernel
kernel = record { getpgid = λ p. some p; kill = λ g s. true }

abbrev one : Shell
one = (addjob start 7 fg (codes "ls\n")).0

abbrev stopped_7 : Reaped
stopped_7 = record { children = (7, suspended) ∷ []; errno = echild }

one-IsTable : IsTable one
unfolding start
one-IsTable = addjob-IsTable start 7 fg (codes "ls\n") refl start-IsTable

-- A job that is stopped by ctrl-z is forgotten.
sigchld_handler-reaps_example :
    (s' : Shell) × (sigchld_handler stopped_7 one ≡ ok tt s')
    × IsTable s'
    × ((q : ℕ)
        → (q == 0) ≡ false
        → entry_of s'.jobs q
          ≡ (if reaps ((7, suspended) ∷ []) q then none else entry_of one.jobs q))
sigchld_handler-reaps_example = sigchld_handler-reaps stopped_7 one one-IsTable refl

waitfg_returns_example :
    (s' : Shell) × (waitfg kernel 7 ((sigchld stopped_7 ∷ []) ∷ []) one ≡ ok [] s')
    × (has_pid s'.jobs 7 ≡ false)
    × NoFg s'.jobs
unfolding fgpid start addjob fill_free
waitfg_returns_example =
    waitfg_returns kernel 7 stopped_7 [] one one-IsTable
      (addjob-FgOnly start 7 (codes "ls\n") start-NoFg) (omega arith) refl refl refl

abbrev answers : Answers
answers = record {
  fork = some 7;
  setpgid = true;
  execve = true;
  pending = [];
  sleeps = (sigchld stopped_7 ∷ []) ∷ [];
}

-- A foreground job that ends in the first sleep.
finished : Run (List (List Signal))
finished = eval kernel answers (codes "ls -l\n") start

after : Run (List (List Signal)) → Shell
after (ok rest s) = s
after _ = start

eval-NoFg_example : NoFg (after finished).jobs
unfolding finished after eval run_line parseline blank_last skip_spaces next_arg arg_loop split_at
    finish background is_amp last_arg builtin_cmd text_eq spawn parent addjob start fill_free
    handle_all waitfg fgpid handle sigchld_handler reap deletejob clear_pid clearjob bump_jid maxjid
eval-NoFg_example =
    eval-NoFg kernel answers (codes "ls -l\n") start {rest = []} {s' = after finished} start-NoFg
      refl
