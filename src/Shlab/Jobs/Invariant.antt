-- ===== src/Shlab/Jobs/Invariant.antt =====
-- `addjob` and `deletejob` keep the invariant of the job list.
use git_sty.Base.{ℕ, ◌≡◌, false, arith, Text, Option-cases, inl, inr}
use git_sty.Shlab.Jobs.{JobState, Job, Shell, fill_free, addjob, clear_pid, deletejob}
use git_sty.Shlab.Jobs.Table.{
  has_pid, IsTable, fill_free-length, fill_free-Cleared, fill_free-Distinct, clear_pid-length,
  clear_pid-Cleared, clear_pid-Distinct,
}

-- Adding a job whose pid is not in the list keeps the table at MAXJOBS entries with distinct pids
-- and cleared free entries, whether or not an entry was free.
pub addjob-IsTable :
    (s : Shell) (pid : ℕ) (state : JobState) (cmdline : Text)
    → has_pid s.jobs pid ≡ false
    → IsTable s
    → IsTable (addjob s pid state cmdline).0
unfolding addjob
addjob-IsTable s pid state cmdline new v = elim (Option-cases (fill_free s.jobs job)) [
  | inl e ↦ ground arith
  | inr (js, e) ↦ ground (
    arith,
    fill_free-length job s.jobs {js' = js},
    fill_free-Cleared job s.jobs {js' = js},
    fill_free-Distinct s.jobs job {js' = js},
  )
]
  where
    job : Job
    job = record { pid = pid; jid = s.nextjid; state = state; cmdline = cmdline }

-- Deleting by any pid keeps it too.
pub deletejob-IsTable : (s : Shell) (pid : ℕ) → IsTable s → IsTable (deletejob s pid).0
unfolding deletejob
deletejob-IsTable s pid v = elim (Option-cases (clear_pid s.jobs pid)) [
  | inl e ↦ ground arith
  | inr (js, e) ↦ ground (
    arith,
    clear_pid-length s.jobs pid {js' = js},
    clear_pid-Cleared s.jobs pid {js' = js},
    clear_pid-Distinct s.jobs pid {js' = js},
  )
]
