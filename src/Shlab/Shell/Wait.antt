-- ===== src/Shlab/Shell/Wait.antt =====
-- `waitfg` returns when its job is reaped, and SIGINT and SIGTSTP reach the group of the foreground
-- job.
use git_sty.Base.{ℕ, ◌≡◌, ◌≢◌, refl, true, false, List, [], ◌∷◌, ◌++◌, some, arith, ◌==◌}
use git_sty.Shlab.Jobs.{Shell, fgpid, pid2jid, sent, Line}
use git_sty.Shlab.Jobs.Table.{IsTable, has_pid}
use git_sty.Shlab.Jobs.Lookup.{has_pid-fgpid}
use git_sty.Shlab.Jobs.Foreground.{FgOnly, NoFg, FgOnly-NoFg, deletejob-FgOnly}
use git_sty.Shlab.Shell.{
  ok, Reaped, Signal, sigchld, Kernel, reap, sigchld_handler, forward, handle, handle_all, waitfg,
  echild, say,
}
use git_sty.Shlab.Shell.Reap.{reaps, has_pid-reap}
use git_sty.Shlab.Shell.Foreground.{reap_keeps}

waitfg-done :
    (k : Kernel) (pid : ℕ) (xs : List (List Signal)) (s : Shell)
    → (pid == fgpid s.jobs) ≡ false
    → waitfg k pid xs s ≡ ok xs s
unfolding waitfg
waitfg-done k pid [] s e = rw e
waitfg-done k pid (x ∷ xs) s e = rw e

handle_all-sigchld :
    (k : Kernel) (r : Reaped) (s : Shell)
    → r.errno ≡ echild
    → handle_all k (sigchld r ∷ []) s ≡ ok tt (reap r.children s)
unfolding handle_all handle sigchld_handler
handle_all-sigchld k r s e = ground arith

-- In a well-formed table whose foreground job has the pid, which is not 0, and where no other job is
-- in the foreground: if the first `sleep` lets in a SIGCHLD whose handler reaps that pid and ends with
-- `errno` at ECHILD, `waitfg` returns after it, with that job out of the list and no other in the
-- foreground.
pub waitfg_returns :
    (k : Kernel) (pid : ℕ) (r : Reaped) (later : List (List Signal)) (s : Shell)
    → IsTable s
    → FgOnly pid s.jobs
    → pid ≢ 0
    → fgpid s.jobs ≡ pid
    → r.errno ≡ echild
    → reaps r.children pid ≡ true
    → (s' : Shell) × (waitfg k pid ((sigchld r ∷ []) ∷ later) s ≡ ok later s')
      × (has_pid s'.jobs pid ≡ false)
      × NoFg s'.jobs
unfolding waitfg
waitfg_returns k pid r later s v f z here done found =
    let s' = reap r.children s in
    let z' : (pid == 0) ≡ false = ground arith in
    let gone = has_pid-reap r.children s pid v z' found in
    let left : (pid == fgpid s'.jobs) ≡ false = ground (arith, has_pid-fgpid s'.jobs) in
    let now : (pid == fgpid s.jobs) ≡ true = ground arith in
    (
      s',
      rw (now, handle_all-sigchld k r s done) (waitfg-done k pid later s' left),
      gone,
      FgOnly-NoFg pid s'.jobs
          (reap_keeps (FgOnly pid) (λ t q. deletejob-FgOnly t pid q) r.children s f) left,
    )

-- Where `getpgid` and `kill` succeed: with a foreground job whose pid and job ID are not 0, the
-- handlers of SIGINT and SIGTSTP send their signal (2, 20) to that job's process group and then
-- print their notice; without one they do nothing. The job list is not touched.
pub forward_lem :
    (k : Kernel) (s : Shell) (sig pgid : ℕ) (notice : ℕ → ℕ → ℕ → Line)
    → k.getpgid (fgpid s.jobs) ≡ some pgid
    → k.kill pgid sig ≡ true
    → let jid = pid2jid s.jobs (fgpid s.jobs) in
      (fgpid s.jobs ≡ 0 → forward k sig notice s ≡ ok tt s)
      × (fgpid s.jobs ≢ 0
          → jid ≢ 0
          → (s' : Shell) × (forward k sig notice s ≡ ok tt s')
            × (s'.out ≡ s.out ++ (sent pgid sig ∷ []) ++ (notice jid (fgpid s.jobs) sig ∷ []))
            × (s'.jobs ≡ s.jobs))
unfolding forward
forward_lem k s sig pgid notice group killed = (
  λ z. ground arith,
  λ n m. (
    say (say s (sent pgid sig)) (notice (pid2jid s.jobs (fgpid s.jobs)) (fgpid s.jobs) sig),
    ground arith,
    refl,
    refl,
  ),
)
