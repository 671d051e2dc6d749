-- ===== src/Shlab/Shell/Reap.antt =====
-- `sigchld_handler` on the job list.
use git_sty.Base.{
  ℕ, ◌≡◌, ◌≢◌, refl, Bool, none, true, false, ◌||◌, List, [], ◌∷◌, arith, ◌==◌, if◌then◌else◌,
  codes, Bool-cases, inl, inr, ==_iff,
}
use git_sty.Shlab.Jobs.{Shell, deletejob, failed}
use git_sty.Shlab.Jobs.Table.{IsTable, has_pid, entry_of}
use git_sty.Shlab.Jobs.Invariant.{deletejob-IsTable}
use git_sty.Shlab.Jobs.Lookup.{entry_of-deletejob, has_pid-deletejob, has_pid-deletejob_self}
use git_sty.Shlab.Shell.{ok, exited, Status, Reaped, echild, reap, sigchld_handler, unix_error, say}

abbrev pub reaps : List (ℕ × Status) → ℕ → Bool
reaps [] q = false
reaps ((p, status) ∷ more) q = (p == q) || reaps more q

reap_lem :
    (cs : List (ℕ × Status)) (s : Shell)
    → IsTable s
    → IsTable (reap cs s)
      × ((q : ℕ)
          → (q == 0) ≡ false
          → entry_of (reap cs s).jobs q ≡ (if reaps cs q then none else entry_of s.jobs q))
unfolding reap
reap_lem [] s v = (v, λ q z. refl)
reap_lem ((p, status) ∷ more) s v =
    let rest = reap_lem more (deletejob s p).0 (deletejob-IsTable s p v) in
    (rest.0, λ q z. ground (arith, rest.1 q z, entry_of-deletejob s p q v z))

has_pid_stays :
    (cs : List (ℕ × Status)) (s : Shell) (q : ℕ)
    → (q == 0) ≡ false
    → has_pid s.jobs q ≡ false
    → has_pid (reap cs s).jobs q ≡ false
unfolding reap
has_pid_stays [] s q z h = h
has_pid_stays ((p, status) ∷ more) s q z h =
    has_pid_stays more (deletejob s p).0 q z (has_pid-deletejob s p q z h)

pub has_pid-reap :
    (cs : List (ℕ × Status)) (s : Shell) (q : ℕ)
    → IsTable s
    → (q == 0) ≡ false
    → reaps cs q ≡ true
    → has_pid (reap cs s).jobs q ≡ false
unfolding reap
has_pid-reap [] s q v z h = ground arith
has_pid-reap ((p, status) ∷ more) s q v z h = elim (Bool-cases (p == q)) [
  | inl e ↦
      has_pid_stays more (deletejob s p).0 q z
        (ground (arith, has_pid-deletejob_self s q v z, (==_iff p q).0 e))
  | inr e ↦ has_pid-reap more (deletejob s p).0 q (deletejob-IsTable s p v) z (ground arith)
]

-- Where the table is well-formed and `waitpid` ends with `errno` at ECHILD, the handler returns with a
-- well-formed table in which no entry has a reaped pid, be the child stopped or ended, and every other
-- pid but 0 has the entry that it had, or none as before.
pub sigchld_handler-reaps :
    (r : Reaped) (s : Shell)
    → IsTable s
    → r.errno ≡ echild
    → (s' : Shell) × (sigchld_handler r s ≡ ok tt s')
      × IsTable s'
      × ((q : ℕ)
          → (q == 0) ≡ false
          → entry_of s'.jobs q ≡ (if reaps r.children q then none else entry_of s.jobs q))
unfolding sigchld_handler
sigchld_handler-reaps r s v e =
    let (v', look) = reap_lem r.children s v in (reap r.children s, ground arith, v', look)

-- Where `errno` holds anything else, as it may when a child is still running and `waitpid` returned 0,
-- the handler makes the shell exit with status 1.
pub sigchld_handler_exits :
    (r : Reaped) (s : Shell) → r.errno ≢ echild → (s' : Shell) × (sigchld_handler r s ≡ exited 1 s')
unfolding sigchld_handler unix_error
sigchld_handler_exits r s n =
    (say (reap r.children s) (failed (codes "waitpid error")), ground arith)
