-- ===== src/Shlab/Jobs.antt =====
-- The job list of shlab/tsh.c. The global `jobs[MAXJOBS]` is a list of that length and `nextjid`
-- a field beside it; what the program prints is appended to `out`. A pid is a natural number:
-- every routine that is given a pid below 1 returns at once, and 0 stands for those. A command
-- line is the text before its NUL.
pub mod Table
pub mod Invariant
pub mod Fresh
pub mod Lookup
pub mod Duplicate
pub mod Foreground
mod Tests
use git_sty.Base.{
  ℕ, zero, suc, ◌+◌, ◌≡◌, Bool, true, false, Option, none, some, List, [], ◌∷◌, ◌++◌, map, ltb,
  ◌==◌, if◌then◌else◌, Text, replicate, not,
}

abbrev pub max_jobs : ℕ
max_jobs = 16

pub data JobState : Type 0 where
  undef fg bg st : JobState

abbrev pub is_fg : JobState → Bool
is_fg fg = true
is_fg _ = false

pub record Job : Type 0 where
  pub pid : ℕ
  pub jid : ℕ
  pub state : JobState
  pub cmdline : Text

-- What leaves the shell: a line that it prints, or a signal that it sends to a process group.
pub data Line : Type 0 where
  added : (jid pid : ℕ) → Text → Line
  too_many : Line
  listed : (jid pid : ℕ) → JobState → Text → Line
  started : (jid pid : ℕ) → Text → Line
  sent : (pgid sig : ℕ) → Line
  terminated : (jid pid sig : ℕ) → Line
  stopped : (jid pid sig : ℕ) → Line
  failed : Text → Line

pub record Shell : Type 0 where
  pub jobs : List Job
  pub nextjid : ℕ
  pub verbose : Bool
  pub out : List Line

unfoldable pub clearjob : Job → Job
clearjob j = record { pid = 0; jid = 0; state = undef; cmdline = [] }

pub initjobs : List Job → List Job
initjobs js = map clearjob js

-- `max` starts at 0.
max_loop : List Job → ℕ → ℕ
max_loop [] max = max
max_loop (j ∷ js) max = max_loop js (if ltb max j.jid then j.jid else max)

unfoldable pub maxjid : List Job → ℕ
unfolding max_loop
maxjid js = max_loop js 0

-- The first entry with pid 0 is overwritten; `none` if there is none.
unfoldable pub fill_free : List Job → Job → Option (List Job)
fill_free [] new = none
fill_free (j ∷ js) new =
    if j.pid == 0
    then some (new ∷ js)
    else elim (fill_free js new) [ none ↦ none | some js' ↦ some (j ∷ js') ]

-- `nextjid++`, back to 1 above MAXJOBS.
unfoldable pub bump_jid : ℕ → ℕ
bump_jid n = if ltb max_jobs (n + 1) then 1 else n + 1

abbrev say : Shell → Line → Shell
say s l = record s { out = s.out ++ (l ∷ []) }

unfoldable pub addjob : Shell → ℕ → JobState → Text → Shell × ℕ
addjob s pid state cmdline =
    if ltb pid 1
    then (s, 0)
    else elim (fill_free s.jobs
        (record { pid = pid; jid = s.nextjid; state = state; cmdline = cmdline })) [
          | none ↦ (say s too_many, 0)
          | some js ↦
              let s' = record s { jobs = js; nextjid = bump_jid s.nextjid } in
              (if s.verbose then say s' (added s.nextjid pid cmdline) else s', 1)
        ]

-- The first entry with this pid is cleared; `none` if there is none.
unfoldable pub clear_pid : List Job → ℕ → Option (List Job)
clear_pid [] pid = none
clear_pid (j ∷ js) pid =
    if j.pid == pid
    then some (clearjob j ∷ js)
    else elim (clear_pid js pid) [ none ↦ none | some js' ↦ some (j ∷ js') ]

unfoldable pub deletejob : Shell → ℕ → Shell × ℕ
deletejob s pid = if ltb pid 1 then (s, 0) else elim (clear_pid s.jobs pid) [
  | none ↦ (s, 0)
  | some js ↦ (record s { jobs = js; nextjid = maxjid js + 1 }, 1)
]

unfoldable pub fgpid : List Job → ℕ
fgpid [] = 0
fgpid (j ∷ js) = if is_fg j.state then j.pid else fgpid js

-- A `struct job_t *` into the table is the entry's index, `none` is NULL.
index_by : (Job → Bool) → List Job → Option ℕ
index_by test [] = none
index_by test (j ∷ js) =
    if test j then some 0 else elim (index_by test js) [ none ↦ none | some i ↦ some (suc i) ]

pub getjobpid : List Job → ℕ → Option ℕ
getjobpid js pid = if ltb pid 1 then none else index_by (λ j. j.pid == pid) js

pub getjobjid : List Job → ℕ → Option ℕ
getjobjid js jid = if ltb jid 1 then none else index_by (λ j. j.jid == jid) js

pub jid_of : List Job → ℕ → ℕ
jid_of [] pid = 0
jid_of (j ∷ js) pid = if j.pid == pid then j.jid else jid_of js pid

pub pid2jid : List Job → ℕ → ℕ
pid2jid js pid = if ltb pid 1 then 0 else jid_of js pid

-- One line for each entry in use.
list_lines : List Job → List Line
list_lines [] = []
list_lines (j ∷ js) =
    if not (j.pid == 0) then listed j.jid j.pid j.state j.cmdline ∷ list_lines js else list_lines js

pub listjobs : Shell → Shell
listjobs s = record s { out = s.out ++ list_lines s.jobs }

-- The globals when `main` has called `initjobs`.
unfoldable pub start : Shell
unfolding initjobs clearjob
start = record {
  jobs = initjobs (replicate max_jobs (record { pid = 0; jid = 0; state = undef; cmdline = [] }));
  nextjid = 1;
  verbose = false;
  out = [];
}
