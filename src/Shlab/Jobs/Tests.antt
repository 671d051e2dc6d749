-- ===== src/Shlab/Jobs/Tests.antt =====
-- Runs of the job list, and the theorems at them.
use git_sty.Base.{ℕ, ◌+◌, ◌≡◌, refl, List, [], ◌∷◌, codes, zero, suc}
use git_sty.Shlab.Jobs.{
  Shell, fg, bg, addjob, deletejob, start, fill_free, clear_pid, maxjid, max_loop, clearjob,
  bump_jid, Job,
}
use git_sty.Shlab.Jobs.Table.{start-IsTable}
use git_sty.Shlab.Jobs.Lookup.{Adds, addjob_lem}

abbrev entry : ℕ → ℕ → Job
entry p j = record { pid = p; jid = j; state = bg; cmdline = codes "x" }

abbrev entries : ℕ → ℕ → List Job
entries zero j = []
entries (suc n) j = entry (100 + j) j ∷ entries n (j + 1)

-- 16 jobs are started in the background, and two of them end.
add_all : ℕ → ℕ → Shell → Shell
add_all zero j s = s
add_all (suc n) j s = add_all n (j + 1) (addjob s (100 + j) bg (codes "x")).0

abbrev busy : Shell
busy = (deletejob (deletejob (add_all 16 1 start) 105).0 106).0

busy_nextjid : busy.nextjid ≡ 17
unfolding add_all addjob deletejob start fill_free clear_pid maxjid max_loop clearjob bump_jid
busy_nextjid = refl

abbrev ls : Job
ls = record { pid = 7; jid = 1; state = fg; cmdline = codes "ls" }

addjob_lem_example :
    Adds start ls (addjob start 7 fg (codes "ls")).0 (addjob start 7 fg (codes "ls")).1
unfolding start
addjob_lem_example = addjob_lem start 7 fg (codes "ls") refl start-IsTable
