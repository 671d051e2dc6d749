-- ===== src/Shlab/Jobs/Duplicate.antt =====
-- The wrap of `nextjid` in `addjob` does not ask whether the ID is still in use.
use git_sty.Base.{ℕ, ◌≡◌, ◌≤◌, false, arith, ◌==◌, Text, Option-cases, inl, inr, ◌≢◌}
use git_sty.Shlab.Jobs.{max_jobs, Job, Shell, JobState, fill_free, bump_jid, addjob, pid2jid}
use git_sty.Shlab.Jobs.Table.{has_pid, has_pid-fill_free}
use git_sty.Shlab.Jobs.Lookup.{pid2jid-addjob}

nextjid-addjob :
    (s : Shell) (pid : ℕ) (state : JobState) (cmdline : Text)
    → (addjob s pid state cmdline).1 ≡ 1
    → (addjob s pid state cmdline).0.nextjid ≡ bump_jid s.nextjid
unfolding addjob
nextjid-addjob s pid state cmdline h = ground arith

has_pid-addjob :
    (s : Shell) (pid : ℕ) (state : JobState) (cmdline : Text) (q : ℕ)
    → has_pid s.jobs q ≡ false
    → (pid == q) ≡ false
    → has_pid (addjob s pid state cmdline).0.jobs q ≡ false
unfolding addjob
has_pid-addjob s pid state cmdline q h n = elim (Option-cases (fill_free s.jobs job)) [
  | inl e ↦ ground arith
  | inr (js, e) ↦ ground (arith, has_pid-fill_free s.jobs job q {js' = js})
]
  where
    job : Job
    job = record { pid = pid; jid = s.nextjid; state = state; cmdline = cmdline }

-- Once `nextjid` has reached MAXJOBS, two jobs added in a row give the second one the ID 1, also
-- where an old job holds that ID: two running jobs are then known by one job ID.
pub addjob_duplicate :
    (s : Shell) (old p q : ℕ) (state : JobState) (c d : Text)
    → max_jobs ≤ s.nextjid
    → pid2jid s.jobs old ≡ 1
    → has_pid s.jobs p ≡ false
    → has_pid s.jobs q ≡ false
    → p ≢ q
    → p ≢ old
    → q ≢ old
    → (addjob s p state c).1 ≡ 1
    → (addjob (addjob s p state c).0 q state d).1 ≡ 1
    → let t = (addjob (addjob s p state c).0 q state d).0 in
      (pid2jid t.jobs old ≡ 1) × (pid2jid t.jobs q ≡ 1)
unfolding bump_jid
addjob_duplicate s old p q state c d wrap holds np nq pq po qo r1 r2 = ground (
  arith,
  nextjid-addjob s p state c,
  (pid2jid-addjob s p state c np).1 old,
  (pid2jid-addjob s1 q state d nq').1 old,
  (pid2jid-addjob s1 q state d nq').1 q,
)
  where
    s1 : Shell
    s1 = (addjob s p state c).0

    nq' : has_pid s1.jobs q ≡ false
    nq' = has_pid-addjob s p state c q nq (ground arith)
