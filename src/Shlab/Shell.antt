-- ===== src/Shlab/Shell.antt =====
-- `eval`, the built-in commands, `waitfg` and the signal handlers of shlab/tsh.c. What the kernel
-- answers is an argument: the results of `fork`, `execve`, `getpgid` and `kill`, and the signals that
-- are delivered when SIGCHLD is unblocked and during each `sleep` of `waitfg`. The calls that set
-- signal masks are taken to succeed.
pub mod Reap
pub mod Foreground
pub mod Wait
mod Tests
use git_sty.Base.{
  ℕ, zero, suc, ◌+◌, Bool, true, false, Option, none, some, List, [], ◌∷◌, ◌++◌, ltb, ◌==◌,
  if◌then◌else◌, Text, not, text_eq, codes, ◌||◌,
}
use git_sty.Shlab.Jobs.{
  JobState, fg, bg, Line, started, terminated, stopped, failed, sent, Shell, addjob, deletejob,
  fgpid, pid2jid, listjobs,
}
use Prim.Native.String.{String}
use git_sty.Shlab.Parse.{Parsed, parsed, smashed, out_of_fuel, parseline}

-- `exited` is `exit` with its status, `fault` a read or write through a bad pointer, `waiting` the
-- state of `waitfg` when the signals given to the model are used up, `execed` the child's new program.
pub data Run {ℓ} (A : Type ℓ) : Type ℓ where
  ok : A → Shell → Run A
  exited : ℕ → Shell → Run A
  fault : Run A
  waiting : Shell → Run A
  execed : List Text → Run A

module _ {ℓ κ} {A : Type ℓ} {B : Type κ} where
  abbrev pub and_then : Run A → (A → Shell → Run B) → Run B
  and_then (ok a s) f = f a s
  and_then (exited c s) f = exited c s
  and_then fault f = fault
  and_then (waiting s) f = waiting s
  and_then (execed v) f = execed v

abbrev pub say : Shell → Line → Shell
say s l = record s { out = s.out ++ (l ∷ []) }

pub unix_error {ℓ} : {A : Type ℓ} → String → Shell → Run A
unix_error msg s = exited 1 (say s (failed (codes msg)))

pub data Status : Type 0 where
  normal signaled suspended : Status

-- What one run of `sigchld_handler` reaps, and `errno` when `waitpid` gives no more.
pub record Reaped : Type 0 where
  pub children : List (ℕ × Status)
  pub errno : ℕ

pub data Signal : Type 0 where
  sigchld : Reaped → Signal
  sigint sigtstp : Signal

abbrev pub echild : ℕ
echild = 10

-- `getpgid` and whether `kill` succeeds.
pub record Kernel : Type 0 where
  pub getpgid : ℕ → Option ℕ
  pub kill : ℕ → ℕ → Bool

-- The three tests of the status have empty bodies.
pub reap : List (ℕ × Status) → Shell → Shell
reap [] s = s
reap ((pid, status) ∷ more) s = reap more (deletejob s pid).0

pub sigchld_handler : Reaped → Shell → Run (Unit {0})
unfolding reap unix_error
sigchld_handler r s =
    let s' = reap r.children s in
    if not (r.errno == echild) then unix_error "waitpid error" s' else ok tt s'

module _ (k : Kernel) where
  -- The body that SIGINT (2) and SIGTSTP (20) share: `notice` is the line printed at the end.
  pub forward : ℕ → (ℕ → ℕ → ℕ → Line) → Shell → Run (Unit {0})
  unfolding unix_error
  forward sig notice s =
      let pid = fgpid s.jobs in
      if pid == 0 then ok tt s else elim (k.getpgid pid) [
        | none ↦ unix_error "Getpgid error." s
        | some pgid ↦
            let jid = pid2jid s.jobs pid in
            let s' = say s (sent pgid sig) in
            if jid == 0
            then ok tt s
            else if k.kill pgid sig
            then ok tt (say s' (notice jid pid sig))
            else unix_error "Kill error." s'
      ]

  pub sigint_handler : Shell → Run (Unit {0})
  unfolding forward
  sigint_handler s = forward 2 terminated s

  pub sigtstp_handler : Shell → Run (Unit {0})
  unfolding forward
  sigtstp_handler s = forward 20 stopped s

  pub handle : Signal → Shell → Run (Unit {0})
  handle (sigchld r) s = sigchld_handler r s
  handle sigint s = sigint_handler s
  handle sigtstp s = sigtstp_handler s

  pub handle_all : List Signal → Shell → Run (Unit {0})
  handle_all [] s = ok tt s
  handle_all (x ∷ xs) s = and_then (handle x s) (λ _ s'. handle_all xs s')

  -- Each element of the schedule is what one `sleep(2)` lets in; what is left of it is returned.
  pub waitfg : ℕ → List (List Signal) → Shell → Run (List (List Signal))
  waitfg pid [] s = if pid == fgpid s.jobs then waiting s else ok [] s
  waitfg pid (x ∷ xs) s =
      let slept = and_then (handle_all x s) (λ _ s'. waitfg pid xs s') in
      if pid == fgpid s.jobs then slept else ok (x ∷ xs) s

pub do_bgfg : List Text → Shell → Shell
do_bgfg argv s = s

-- `strcmp(argv[0], …)` reads through `argv[0]`, which is NULL without arguments.
pub builtin_cmd : List Text → Shell → Run ℕ
builtin_cmd [] s = fault
builtin_cmd (a ∷ more) s =
    if text_eq a (codes "quit")
    then exited 0 s
    else if text_eq a (codes "jobs")
    then ok 1 (listjobs s)
    else if text_eq a (codes "fg") || text_eq a (codes "bg")
    then ok 1 (do_bgfg (a ∷ more) s)
    else ok 0 s

-- What the kernel answers to one `eval`: `fork` gives 0 in the child.
pub record Answers : Type 0 where
  pub fork : Option ℕ
  pub setpgid : Bool
  pub execve : Bool
  pub pending : List Signal
  pub sleeps : List (List Signal)

pub child : Answers → List Text → Shell → Run (List (List Signal))
unfolding unix_error
child e argv s =
    if e.setpgid
    then if e.execve then execed argv else exited 0 (say s (failed (codes "Command not found.")))
    else unix_error "Setpgid error." s

module _ (k : Kernel) where
  pub parent : Answers → ℕ → Bool → Text → Shell → Run (List (List Signal))
  parent e pid true cmdline s =
      and_then (handle_all k e.pending (addjob s pid bg cmdline).0)
        λ _ s'. ok e.sleeps (say s' (started (pid2jid s'.jobs pid) pid cmdline))
  parent e pid false cmdline s =
      and_then (handle_all k e.pending (addjob s pid fg cmdline).0) λ _ s'. waitfg k pid e.sleeps s'

  pub spawn : Answers → Bool → List Text → Text → Shell → Run (List (List Signal))
  unfolding unix_error
  spawn e back argv cmdline s = elim e.fork [
    | none ↦ unix_error "Fork error." s
    | some pid ↦ if pid == 0 then child e argv s else parent e pid back cmdline s
  ]

  -- The rest of `eval` behind `parseline`.
  pub run_line : Answers → Text → Shell → Parsed → Run (List (List Signal))
  run_line e cmdline s (parsed back argv) =
      and_then (builtin_cmd argv s)
        λ done s'. if done == 0 then spawn e back argv cmdline s' else ok e.sleeps s'
  run_line e cmdline s smashed = fault
  run_line e cmdline s out_of_fuel = fault

  pub eval : Answers → Text → Shell → Run (List (List Signal))
  eval e cmdline s = run_line e cmdline s (parseline cmdline)
