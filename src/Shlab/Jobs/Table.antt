-- ===== src/Shlab/Jobs/Table.antt =====
-- The invariant of the job list, kept by `addjob` and `deletejob`, and what each does to every
-- lookup by pid.
use git_sty.Base.{
  ℕ, ◌≡◌, refl, Bool, true, false, ◌||◌, not, Option, none, some, List, [], ◌∷◌, arith, ◌==◌,
  if◌then◌else◌, length, Option-cases, inl, inr,
}
use git_sty.Shlab.Jobs.{max_jobs, undef, Job, Shell, clearjob, fill_free, clear_pid, jid_of, start}

abbrev pub has_pid : List Job → ℕ → Bool
has_pid [] pid = false
has_pid (j ∷ js) pid = (j.pid == pid) || has_pid js pid

-- No two entries in use have one pid.
abbrev pub Distinct : List Job → Type 0
Distinct [] = Unit
Distinct (j ∷ js) = (((j.pid == 0) || not (has_pid js j.pid)) ≡ true) × Distinct js

abbrev pub Blank : Job → Type 0
Blank j = j ≡ record { pid = 0; jid = 0; state = undef; cmdline = [] }

-- Every entry that is not in use is cleared.
abbrev pub Cleared : List Job → Type 0
Cleared [] = Unit
Cleared (j ∷ js) = (j.pid ≡ 0 → Blank j) × Cleared js

-- The first entry with the pid.
unfoldable pub entry_of : List Job → ℕ → Option Job
entry_of [] pid = none
entry_of (j ∷ js) pid = if j.pid == pid then some j else entry_of js pid

pub record IsTable (s : Shell) : Type 0 where
  pub size : length s.jobs ≡ max_jobs
  pub distinct : Distinct s.jobs
  pub cleared : Cleared s.jobs

-- The job list that `main` starts with satisfies the invariant.
pub start-IsTable : IsTable start
unfolding start
start-IsTable = record { size = refl; distinct = ground arith; cleared = ground arith }

pub has_pid-fill_free :
    (js : List Job) (new : Job) (q : ℕ) {js' : List Job}
    → has_pid js q ≡ false
    → (new.pid == q) ≡ false
    → fill_free js new ≡ some js'
    → has_pid js' q ≡ false
unfolding fill_free
has_pid-fill_free [] new q h n e = ground arith
has_pid-fill_free (j ∷ js) new q h n e = elim (Option-cases (fill_free js new)) [
  | inl e' ↦ ground arith
  | inr (r, e') ↦ ground (arith, has_pid-fill_free js new q {js' = r})
]

pub fill_free-Distinct :
    (js : List Job) (new : Job) {js' : List Job}
    → has_pid js new.pid ≡ false
    → Distinct js
    → fill_free js new ≡ some js'
    → Distinct js'
unfolding fill_free
fill_free-Distinct [] new h d e = ground arith
fill_free-Distinct (j ∷ js) new h d e = elim (Option-cases (fill_free js new)) [
  | inl e' ↦ ground arith
  | inr (r, e') ↦
      ground (arith, fill_free-Distinct js new {js' = r}, has_pid-fill_free js new j.pid {js' = r})
]

pub jid_of-fill_free :
    (js : List Job) (new : Job) (q : ℕ) {js' : List Job}
    → has_pid js new.pid ≡ false
    → (q == 0) ≡ false
    → fill_free js new ≡ some js'
    → jid_of js' q ≡ (if new.pid == q then new.jid else jid_of js q)
unfolding fill_free jid_of
jid_of-fill_free [] new q h z e = ground arith
jid_of-fill_free (j ∷ js) new q h z e = elim (Option-cases (fill_free js new)) [
  | inl e' ↦ ground arith
  | inr (r, e') ↦ ground (arith, jid_of-fill_free js new q {js' = r})
]

module _ (new : Job) where
  pub fill_free-length :
      (js : List Job) {js' : List Job} → fill_free js new ≡ some js' → length js' ≡ length js
  unfolding fill_free
  fill_free-length [] e = ground arith
  fill_free-length (j ∷ js) e = elim (Option-cases (fill_free js new)) [
    | inl e' ↦ ground arith
    | inr (r, e') ↦ ground (arith, fill_free-length js {js' = r})
  ]

  pub fill_free-Cleared :
      (js : List Job) {js' : List Job}
      → (new.pid == 0) ≡ false
      → Cleared js
      → fill_free js new ≡ some js'
      → Cleared js'
  unfolding fill_free
  fill_free-Cleared [] z c e = ground arith
  fill_free-Cleared (j ∷ js) z c e = elim (Option-cases (fill_free js new)) [
    | inl e' ↦ ground (arith, c.0)
    | inr (r, e') ↦ ground (arith, fill_free-Cleared js {js' = r})
  ]

-- Some entry is free exactly if `addjob` finds one.
pub has_pid-fill_free-none :
    (js : List Job) (new : Job) → fill_free js new ≡ none → has_pid js 0 ≡ false
unfolding fill_free
has_pid-fill_free-none [] new e = refl
has_pid-fill_free-none (j ∷ js) new e = elim (Option-cases (fill_free js new)) [
  | inl e' ↦ ground (arith, has_pid-fill_free-none js new)
  | inr (r, e') ↦ ground arith
]

pub has_pid-clear_pid :
    (js : List Job) (p q : ℕ) {js' : List Job}
    → (q == 0) ≡ false
    → has_pid js q ≡ false
    → clear_pid js p ≡ some js'
    → has_pid js' q ≡ false
unfolding clear_pid clearjob
has_pid-clear_pid [] p q z h e = ground arith
has_pid-clear_pid (j ∷ js) p q z h e = elim (Option-cases (clear_pid js p)) [
  | inl e' ↦ ground arith
  | inr (r, e') ↦ ground (arith, has_pid-clear_pid js p q {js' = r})
]

pub clear_pid-Distinct :
    (js : List Job) (p : ℕ) {js' : List Job}
    → Distinct js
    → clear_pid js p ≡ some js'
    → Distinct js'
unfolding clear_pid clearjob
clear_pid-Distinct [] p d e = ground arith
clear_pid-Distinct (j ∷ js) p d e = elim (Option-cases (clear_pid js p)) [
  | inl e' ↦ ground arith
  | inr (r, e') ↦
      ground (arith, clear_pid-Distinct js p {js' = r}, has_pid-clear_pid js p j.pid {js' = r})
]

pub clear_pid-Cleared :
    (js : List Job) (p : ℕ) {js' : List Job} → Cleared js → clear_pid js p ≡ some js' → Cleared js'
unfolding clear_pid clearjob
clear_pid-Cleared [] p c e = ground arith
clear_pid-Cleared (j ∷ js) p c e = elim (Option-cases (clear_pid js p)) [
  | inl e' ↦ ground (arith, c.0)
  | inr (r, e') ↦ ground (arith, clear_pid-Cleared js p {js' = r})
]

pub clear_pid-length :
    (js : List Job) (p : ℕ) {js' : List Job} → clear_pid js p ≡ some js' → length js' ≡ length js
unfolding clear_pid
clear_pid-length [] p e = ground arith
clear_pid-length (j ∷ js) p e = elim (Option-cases (clear_pid js p)) [
  | inl e' ↦ ground arith
  | inr (r, e') ↦ ground (arith, clear_pid-length js p {js' = r})
]

pub jid_of-absent : (js : List Job) (q : ℕ) → has_pid js q ≡ false → jid_of js q ≡ 0
unfolding jid_of
jid_of-absent [] q h = refl
jid_of-absent (j ∷ js) q h = ground (arith, jid_of-absent js q)

pub jid_of-clear_pid :
    (js : List Job) (p q : ℕ) {js' : List Job}
    → (p == 0) ≡ false
    → (q == 0) ≡ false
    → Distinct js
    → clear_pid js p ≡ some js'
    → jid_of js' q ≡ (if p == q then 0 else jid_of js q)
unfolding clear_pid jid_of clearjob
jid_of-clear_pid [] p q zp zq d e = ground arith
jid_of-clear_pid (j ∷ js) p q zp zq d e = elim (Option-cases (clear_pid js p)) [
  | inl e' ↦ ground (arith, jid_of-absent js q)
  | inr (r, e') ↦ ground (arith, jid_of-clear_pid js p q {js' = r}, jid_of-absent js q)
]

pub clear_pid-none : (js : List Job) (p : ℕ) → clear_pid js p ≡ none → has_pid js p ≡ false
unfolding clear_pid
clear_pid-none [] p e = refl
clear_pid-none (j ∷ js) p e = elim (Option-cases (clear_pid js p)) [
  | inl e' ↦ ground (arith, clear_pid-none js p)
  | inr (r, e') ↦ ground arith
]

pub has_pid-fill_free-some :
    (js : List Job) (new : Job) {js' : List Job} → fill_free js new ≡ some js' → has_pid js 0 ≡ true
unfolding fill_free
has_pid-fill_free-some [] new e = ground arith
has_pid-fill_free-some (j ∷ js) new e = elim (Option-cases (fill_free js new)) [
  | inl e' ↦ ground arith
  | inr (r, e') ↦ ground (arith, has_pid-fill_free-some js new {js' = r})
]

pub has_pid-clear_pid-some :
    (js : List Job) (p : ℕ) {js' : List Job} → clear_pid js p ≡ some js' → has_pid js p ≡ true
unfolding clear_pid
has_pid-clear_pid-some [] p e = ground arith
has_pid-clear_pid-some (j ∷ js) p e = elim (Option-cases (clear_pid js p)) [
  | inl e' ↦ ground arith
  | inr (r, e') ↦ ground (arith, has_pid-clear_pid-some js p {js' = r})
]

pub has_pid-clear_pid_self :
    (js : List Job) (p : ℕ) {js' : List Job}
    → Distinct js
    → (p == 0) ≡ false
    → clear_pid js p ≡ some js'
    → has_pid js' p ≡ false
unfolding clear_pid clearjob
has_pid-clear_pid_self [] p d z e = ground arith
has_pid-clear_pid_self (j ∷ js) p d z e = elim (Option-cases (clear_pid js p)) [
  | inl e' ↦ ground arith
  | inr (r, e') ↦ ground (arith, has_pid-clear_pid_self js p {js' = r})
]

pub entry_of-fill_free :
    (js : List Job) (new : Job) (q : ℕ) {js' : List Job}
    → has_pid js new.pid ≡ false
    → (q == 0) ≡ false
    → fill_free js new ≡ some js'
    → entry_of js' q ≡ (if new.pid == q then some new else entry_of js q)
unfolding fill_free entry_of
entry_of-fill_free [] new q h z e = ground arith
entry_of-fill_free (j ∷ js) new q h z e = elim (Option-cases (fill_free js new)) [
  | inl e' ↦ ground arith
  | inr (r, e') ↦ ground (arith, entry_of-fill_free js new q {js' = r})
]

pub entry_of-absent : (js : List Job) (q : ℕ) → has_pid js q ≡ false → entry_of js q ≡ none
unfolding entry_of
entry_of-absent [] q h = refl
entry_of-absent (j ∷ js) q h = ground (arith, entry_of-absent js q)

pub entry_of-clear_pid :
    (js : List Job) (p q : ℕ) {js' : List Job}
    → (p == 0) ≡ false
    → (q == 0) ≡ false
    → Distinct js
    → clear_pid js p ≡ some js'
    → entry_of js' q ≡ (if p == q then none else entry_of js q)
unfolding clear_pid entry_of clearjob
entry_of-clear_pid [] p q zp zq d e = ground arith
entry_of-clear_pid (j ∷ js) p q zp zq d e = elim (Option-cases (clear_pid js p)) [
  | inl e' ↦ ground (arith, entry_of-absent js q)
  | inr (r, e') ↦ ground (arith, entry_of-clear_pid js p q {js' = r}, entry_of-absent js q)
]
