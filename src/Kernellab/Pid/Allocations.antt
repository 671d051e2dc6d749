-- ===== src/Kernellab/Pid/Allocations.antt =====
-- What `pid_write` leaves allocated.
use git_sty.Base.{
  ℕ, ◌≡◌, refl, Bool, true, false, not, ◌&&◌, Option, none, some, List, [], ◌∷◌, if◌then◌else◌,
  arith, Bool-cases, inl, inr,
}
use git_sty.Kernellab.Pid.{
  Kernel, PidInfo, SysfsMessage, Allocation, message, info, Call, allocated, freed, report, answer,
  find_task, pid_write,
}

abbrev same : Allocation → Allocation → Bool
same message message = true
same info info = true
same _ _ = false

-- Take one piece of memory out of those held; `none` if it is not held.
abbrev take_out : Allocation → List Allocation → Option (List Allocation)
take_out a [] = none
take_out a (b ∷ bs) =
    if same a b then some bs else elim (take_out a bs) [ none ↦ none | some cs ↦ some (b ∷ cs) ]

-- What is held behind the calls; `none` if one of them frees what is not held, as a second `kfree` does.
abbrev pub held : List Allocation → List Call → Option (List Allocation)
held as' [] = some as'
held as' (allocated a ∷ cs) = held (a ∷ as') cs
held as' (freed a ∷ cs) = elim (take_out a as') [ none ↦ none | some bs ↦ held bs cs ]

-- Both allocations, as the calls before `copy_from_user` record them.
abbrev both : List Call
both = allocated message ∷ allocated info ∷ []

report_held :
    (u : Bool) (count address : ℕ) (i : Option PidInfo)
    → held [] (report u count address i both).calls ≡ some []
unfolding report
report_held u count address none = refl
report_held u count address (some i) = ground arith

answer_held :
    (k : Kernel) (count : ℕ) (m : Option SysfsMessage)
    → held [] (answer k count m both).calls ≡ some []
unfolding answer
answer_held k count none = refl
answer_held k count (some m) = report_held k.to_user count m.address (find_task m.pid k.processes)

-- Whatever the kernel answers, `pid_write` calls `kfree` only with memory that it holds and has freed all that
-- `kmalloc` handed out, except where the second `kmalloc` fails behind the first: the message then stays
-- allocated.
pub pid_write_held :
    (k : Kernel) (count : ℕ)
    → held [] (pid_write k count).calls
      ≡ some (if k.has_message && not k.has_info then message ∷ [] else [])
unfolding pid_write
pid_write_held k count = elim (Bool-cases k.has_message) [
  | inl e ↦ elim (Bool-cases k.has_info) [
    | inl f ↦ simp (e, f, answer_held k count k.from_user)
    | inr f ↦ simp (e, f)
  ]
  | inr e ↦ elim (Bool-cases k.has_info) [ inl f ↦ simp (e, f) | inr f ↦ simp (e, f) ]
]
