-- ===== src/Shlab/Jobs/Lookup.antt =====
-- What `addjob` and `deletejob` return, and what they do to the lookup of every pid.
use git_sty.Base.{
  ℕ, ◌+◌, ◌≡◌, none, some, false, true, ◌&&◌, List, arith, ltb, ◌==◌, Text, if◌then◌else◌, [], ◌∷◌,
  Option-cases, inl, inr,
}
use git_sty.Shlab.Jobs.{
  max_jobs, JobState, Job, Shell, fill_free, bump_jid, addjob, clear_pid, deletejob, pid2jid, fgpid,
}
use git_sty.Shlab.Jobs.Invariant.{addjob-IsTable}
use git_sty.Shlab.Jobs.Table.{
  has_pid, entry_of, entry_of-fill_free, entry_of-clear_pid, entry_of-absent, IsTable,
  jid_of-fill_free, jid_of-absent, jid_of-clear_pid, clear_pid-none, has_pid-fill_free-none,
  has_pid-fill_free-some, has_pid-clear_pid-some, has_pid-clear_pid, has_pid-clear_pid_self,
}

-- `addjob` answers 1 exactly if the pid is positive and an entry is free; then the new pid, and no
-- other, is looked up anew, with the job ID that `nextjid` held, and a refusal changes no lookup.
pub pid2jid-addjob :
    (s : Shell) (pid : ℕ) (state : JobState) (cmdline : Text)
    → has_pid s.jobs pid ≡ false
    → let (s', r) = addjob s pid state cmdline in
      (r ≡ (if ltb 0 pid && has_pid s.jobs 0 then 1 else 0))
      × ((q : ℕ)
          → pid2jid s'.jobs q ≡ (if (r == 1) && (pid == q) then s.nextjid else pid2jid s.jobs q))
unfolding addjob pid2jid
pid2jid-addjob s pid state cmdline new = elim (Option-cases (fill_free s.jobs job)) [
  | inl e ↦ (ground (arith, has_pid-fill_free-none s.jobs job), λ q. ground arith)
  | inr (js, e) ↦ (
    ground (arith, has_pid-fill_free-some s.jobs job {js' = js}),
    λ q. ground (arith, jid_of-fill_free s.jobs job q {js' = js}),
  )
]
  where
    job : Job
    job = record { pid = pid; jid = s.nextjid; state = state; cmdline = cmdline }

-- The job that is added, and the table around it.
pub record Adds (s : Shell) (new : Job) (s' : Shell) (r : ℕ) : Type 0 where
  pub result : r ≡ (if ltb 0 new.pid && has_pid s.jobs 0 then 1 else 0)
  pub table : IsTable s'
  pub entries :
      (q : ℕ)
      → (q == 0) ≡ false
      → entry_of s'.jobs q ≡ (if (r == 1) && (new.pid == q) then some new else entry_of s.jobs q)
  pub nextjid :
      s'.nextjid
      ≡ (if r == 1 then (if ltb s.nextjid max_jobs then s.nextjid + 1 else 1) else s.nextjid)

-- On a well-formed table that has no entry with the pid, `addjob` answers 1 exactly if the pid is positive
-- and an entry is free. Then the pid has an entry with the state, the command line and the job ID that
-- `nextjid` held, and `nextjid` counts on, back to 1 behind MAXJOBS; otherwise it stays. Every other pid but 0 keeps
-- its entry or has none as before, and the table is well-formed again.
pub addjob_lem :
    (s : Shell) (pid : ℕ) (state : JobState) (cmdline : Text)
    → has_pid s.jobs pid ≡ false
    → IsTable s
    → Adds s
        (record { pid = pid; jid = s.nextjid; state = state; cmdline = cmdline })
        (addjob s pid state cmdline).0
        (addjob s pid state cmdline).1
unfolding addjob bump_jid
addjob_lem s pid state cmdline new v =
    let t = addjob-IsTable s pid state cmdline new v in
    elim (Option-cases (fill_free s.jobs job)) [
      | inl e ↦ record {
        result = ground (arith, has_pid-fill_free-none s.jobs job);
        table = t;
        entries = λ q z. ground arith;
        nextjid = ground arith;
      }
      | inr (js, e) ↦ record {
        result = ground (arith, has_pid-fill_free-some s.jobs job {js' = js});
        table = t;
        entries = λ q z. ground (arith, entry_of-fill_free s.jobs job q {js' = js});
        nextjid = ground arith;
      }
    ]
  where
    job : Job
    job = record { pid = pid; jid = s.nextjid; state = state; cmdline = cmdline }

-- On a well-formed table `deletejob` answers 1 exactly if the pid is in use; afterwards that pid is
-- not found and every other pid is found as before.
pub pid2jid-deletejob :
    (s : Shell) (pid : ℕ)
    → IsTable s
    → let (s', r) = deletejob s pid in
      (r ≡ (if ltb 0 pid && has_pid s.jobs pid then 1 else 0))
      × ((q : ℕ) → pid2jid s'.jobs q ≡ (if pid == q then 0 else pid2jid s.jobs q))
unfolding deletejob pid2jid
pid2jid-deletejob s pid v = elim (Option-cases (clear_pid s.jobs pid)) [
  | inl e ↦ (
    ground (arith, clear_pid-none s.jobs pid),
    λ q. ground (arith, clear_pid-none s.jobs pid, jid_of-absent s.jobs q),
  )
  | inr (js, e) ↦ (
    ground (arith, has_pid-clear_pid-some s.jobs pid {js' = js}),
    λ q. ground (arith, jid_of-clear_pid s.jobs pid q {js' = js}),
  )
]

pub entry_of-deletejob :
    (s : Shell) (pid q : ℕ)
    → IsTable s
    → (q == 0) ≡ false
    → entry_of (deletejob s pid).0.jobs q ≡ (if pid == q then none else entry_of s.jobs q)
unfolding deletejob
entry_of-deletejob s pid q v z = elim (Option-cases (clear_pid s.jobs pid)) [
  | inl e ↦ ground (arith, clear_pid-none s.jobs pid, entry_of-absent s.jobs q)
  | inr (js, e) ↦ ground (arith, entry_of-clear_pid s.jobs pid q {js' = js}, v.distinct)
]

pub has_pid-deletejob :
    (s : Shell) (p q : ℕ)
    → (q == 0) ≡ false
    → has_pid s.jobs q ≡ false
    → has_pid (deletejob s p).0.jobs q ≡ false
unfolding deletejob
has_pid-deletejob s p q z h = elim (Option-cases (clear_pid s.jobs p)) [
  | inl e ↦ ground arith
  | inr (js, e) ↦ ground (arith, has_pid-clear_pid s.jobs p q {js' = js})
]

pub has_pid-deletejob_self :
    (s : Shell) (q : ℕ) → IsTable s → (q == 0) ≡ false → has_pid (deletejob s q).0.jobs q ≡ false
unfolding deletejob
has_pid-deletejob_self s q v z = elim (Option-cases (clear_pid s.jobs q)) [
  | inl e ↦ ground (arith, clear_pid-none s.jobs q)
  | inr (js, e) ↦ ground (arith, has_pid-clear_pid_self s.jobs q {js' = js} v.distinct)
]

pub has_pid-fgpid : (js : List Job) → (fgpid js == 0) ≡ false → has_pid js (fgpid js) ≡ true
unfolding fgpid
has_pid-fgpid [] h = ground arith
has_pid-fgpid (j ∷ js) h = ground (arith, has_pid-fgpid js)
