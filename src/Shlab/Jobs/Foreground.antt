-- ===== src/Shlab/Jobs/Foreground.antt =====
-- Which jobs of the list are in the foreground, under `addjob` and `deletejob`.
use git_sty.Base.{
  ℕ, ◌≡◌, refl, true, false, not, ◌||◌, List, [], ◌∷◌, some, arith, ◌==◌, Text, Option-cases, inl,
  inr, Bool-cases,
}
use git_sty.Shlab.Jobs.{
  Job, Shell, JobState, fg, is_fg, clearjob, fill_free, addjob, clear_pid, deletejob, fgpid, start,
  listjobs,
}

-- Every foreground job has pid `p`.
abbrev pub FgOnly : ℕ → List Job → Type 0
FgOnly p [] = Unit
FgOnly p (j ∷ js) = ((not (is_fg j.state) || (j.pid == p)) ≡ true) × FgOnly p js

abbrev pub NoFg : List Job → Type 0
NoFg [] = Unit
NoFg (j ∷ js) = (is_fg j.state ≡ false) × NoFg js

pub NoFg-FgOnly : (p : ℕ) (js : List Job) → NoFg js → FgOnly p js
NoFg-FgOnly p [] n = tt
NoFg-FgOnly p (j ∷ js) n = (ground (arith, n.0), NoFg-FgOnly p js n.1)

pub FgOnly-NoFg : (p : ℕ) (js : List Job) → FgOnly p js → (p == fgpid js) ≡ false → NoFg js
unfolding fgpid
FgOnly-NoFg p [] f h = tt
FgOnly-NoFg p (j ∷ js) f h = elim (Bool-cases (is_fg j.state)) [
  | inl e ↦ ground (arith, f.0)
  | inr e ↦ (e, FgOnly-NoFg p js f.1 (ground arith))
]

pub NoFg-fgpid : (js : List Job) → NoFg js → fgpid js ≡ 0
unfolding fgpid
NoFg-fgpid [] n = refl
NoFg-fgpid (j ∷ js) n = ground (arith, n.0, NoFg-fgpid js n.1)

fill_free-FgOnly :
    (p : ℕ) (js : List Job) (new : Job) {js' : List Job}
    → (not (is_fg new.state) || (new.pid == p)) ≡ true
    → FgOnly p js
    → fill_free js new ≡ some js'
    → FgOnly p js'
unfolding fill_free
fill_free-FgOnly p [] new h f e = ground arith
fill_free-FgOnly p (j ∷ js) new h f e = elim (Option-cases (fill_free js new)) [
  | inl e' ↦ ground arith
  | inr (r, e') ↦ ground (arith, fill_free-FgOnly p js new {js' = r})
]

fill_free-NoFg :
    (js : List Job) (new : Job) {js' : List Job}
    → is_fg new.state ≡ false
    → NoFg js
    → fill_free js new ≡ some js'
    → NoFg js'
unfolding fill_free
fill_free-NoFg [] new h f e = ground arith
fill_free-NoFg (j ∷ js) new h f e = elim (Option-cases (fill_free js new)) [
  | inl e' ↦ ground arith
  | inr (r, e') ↦ ground (arith, fill_free-NoFg js new {js' = r})
]

clear_pid-FgOnly :
    (p : ℕ) (js : List Job) (q : ℕ) {js' : List Job}
    → FgOnly p js
    → clear_pid js q ≡ some js'
    → FgOnly p js'
unfolding clear_pid clearjob
clear_pid-FgOnly p [] q f e = ground arith
clear_pid-FgOnly p (j ∷ js) q f e = elim (Option-cases (clear_pid js q)) [
  | inl e' ↦ ground arith
  | inr (r, e') ↦ ground (arith, clear_pid-FgOnly p js q {js' = r})
]

clear_pid-NoFg :
    (js : List Job) (q : ℕ) {js' : List Job} → NoFg js → clear_pid js q ≡ some js' → NoFg js'
unfolding clear_pid clearjob
clear_pid-NoFg [] q f e = ground arith
clear_pid-NoFg (j ∷ js) q f e = elim (Option-cases (clear_pid js q)) [
  | inl e' ↦ ground arith
  | inr (r, e') ↦ ground (arith, clear_pid-NoFg js q {js' = r})
]

pub addjob-FgOnly : (s : Shell) (p : ℕ) (c : Text) → NoFg s.jobs → FgOnly p (addjob s p fg c).0.jobs
unfolding addjob
addjob-FgOnly s p c n = elim (Option-cases (fill_free s.jobs job)) [
  | inl e ↦ ground (arith, NoFg-FgOnly p s.jobs n)
  | inr (js, e) ↦ ground (arith, NoFg-FgOnly p s.jobs n, fill_free-FgOnly p s.jobs job {js' = js})
]
  where
    job : Job
    job = record { pid = p; jid = s.nextjid; state = fg; cmdline = c }

pub addjob-NoFg :
    (s : Shell) (p : ℕ) (state : JobState) (c : Text)
    → is_fg state ≡ false
    → NoFg s.jobs
    → NoFg (addjob s p state c).0.jobs
unfolding addjob
addjob-NoFg s p state c b n = elim (Option-cases (fill_free s.jobs job)) [
  | inl e ↦ ground arith
  | inr (js, e) ↦ ground (arith, fill_free-NoFg s.jobs job {js' = js})
]
  where
    job : Job
    job = record { pid = p; jid = s.nextjid; state = state; cmdline = c }

pub deletejob-FgOnly : (s : Shell) (p q : ℕ) → FgOnly p s.jobs → FgOnly p (deletejob s q).0.jobs
unfolding deletejob
deletejob-FgOnly s p q f = elim (Option-cases (clear_pid s.jobs q)) [
  | inl e ↦ ground arith
  | inr (js, e) ↦ ground (arith, clear_pid-FgOnly p s.jobs q {js' = js})
]

pub deletejob-NoFg : (s : Shell) (q : ℕ) → NoFg s.jobs → NoFg (deletejob s q).0.jobs
unfolding deletejob
deletejob-NoFg s q f = elim (Option-cases (clear_pid s.jobs q)) [
  | inl e ↦ ground arith
  | inr (js, e) ↦ ground (arith, clear_pid-NoFg s.jobs q {js' = js})
]

pub start-NoFg : NoFg start.jobs
unfolding start
start-NoFg = ground arith

pub jobs-listjobs : (s : Shell) → (listjobs s).jobs ≡ s.jobs
unfolding listjobs
jobs-listjobs s = refl
