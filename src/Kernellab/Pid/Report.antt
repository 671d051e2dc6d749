-- ===== src/Kernellab/Pid/Report.antt =====
-- What `pid_write` reports to user space.
use git_sty.Base.{
  ℕ, zero, suc, ◌-◌, ◌≡◌, ◌<◌, ◌≤◌, ◌∙◌, ◌++◌, get_or, ap, refl, Bool, true, false, ◌||◌, Option,
  none, some, List, [], ◌∷◌, Text, length, take, replicate, ◌==◌, Bool-cases, arith, inl, inr,
  length-append, length-take, length-replicate,
}
use git_sty.Kernellab.Pid.{
  Call, allocated, message, info, Task, PidInfo, SysfsMessage, comm_field, report, answer,
  find_task, pid_write,
}

unfoldable pub runs : ℕ → List Task → Bool
runs pid [] = false
runs pid (t ∷ ts) = (t.pid == pid) || runs pid ts

-- The field holds the first 15 characters of the name, zeros behind it, and a zero at its end.
pub record IsName (comm field : Text) : Type 0 where
  pub size : length field ≡ 16
  pub same : (k : ℕ) → k < 15 → get_or field k 0 ≡ get_or comm k 0
  pub ends : get_or field 15 0 ≡ 0

-- The first process with the pid, as `pid_write` writes it down.
pub record IsFirst (pid : ℕ) (ts : List Task) (i : PidInfo) : Type 0 where
  pub earlier : List Task
  pub task : Task
  pub later : List Task
  pub split : ts ≡ earlier ++ (task ∷ later)
  pub first : runs pid earlier ≡ false
  pub found : task.pid ≡ pid
  pub same_pid : i.pid ≡ pid
  pub state : i.state ≡ task.state
  pub name : IsName task.comm i.comm

-- What the loop finds: the first process with the pid, unless none runs.
unfoldable pub Found : ℕ → List Task → Option PidInfo → Type 0
Found pid ts none = runs pid ts ≡ false
Found pid ts (some i) = IsFirst pid ts i

get_or-replicate : (n k : ℕ) → get_or {A = ℕ} (replicate n 0) k 0 ≡ 0
get_or-replicate zero k = refl
get_or-replicate (suc n) zero = refl
get_or-replicate (suc n) (suc k) = get_or-replicate n k

-- A text cut to `n` places and filled up with zeros, `m` of them for an empty one.
get_or-padded :
    (n m k : ℕ) (c : Text)
    → k < n
    → get_or (take n c ++ replicate (m - length (take n c)) 0) k 0 ≡ get_or c k 0
get_or-padded zero m k c h = absurd (omega (arith, h))
get_or-padded (suc n) m k [] h = get_or-replicate (m - 0) k
get_or-padded (suc n) m zero (x ∷ c) h = refl
get_or-padded (suc n) m (suc k) (x ∷ c) h =
    let e : m - suc (length (take n c)) ≡ (m - 1) - length (take n c) = omega arith in
    rw e (get_or-padded n (m - 1) k c (omega (arith, h)))

get_or-past :
    (n m k : ℕ) (c : Text)
    → n ≤ k
    → get_or (take n c ++ replicate (m - length (take n c)) 0) k 0 ≡ 0
get_or-past zero m k c h = get_or-replicate (m - 0) k
get_or-past (suc n) m k [] h = get_or-replicate (m - 0) k
get_or-past (suc n) m zero (x ∷ c) h = absurd (omega (arith, h))
get_or-past (suc n) m (suc k) (x ∷ c) h =
    let e : m - suc (length (take n c)) ≡ (m - 1) - length (take n c) = omega arith in
    rw e (get_or-past n (m - 1) k c (omega (arith, h)))

comm_field-IsName : (c : Text) → IsName c (comm_field c)
unfolding comm_field
comm_field-IsName c = record {
  size =
      length-append (take 15 c) (replicate (16 - length (take 15 c)) 0)
      ∙ omega (arith, length-take 15 c, length-replicate {A = ℕ} (16 - length (take 15 c)) 0);
  same = λ k l. get_or-padded 15 16 k c l;
  ends = get_or-past 15 16 15 c (omega arith);
}

skip-Found :
    (pid : ℕ) (t : Task) (ts : List Task) (r : Option PidInfo)
    → (t.pid == pid) ≡ false
    → Found pid ts r
    → Found pid (t ∷ ts) r
unfolding Found runs
skip-Found pid t ts none e f = rw e f
skip-Found pid t ts (some i) e f = record {
  earlier = t ∷ f.earlier;
  task = f.task;
  later = f.later;
  split = ap (λ us. t ∷ us) f.split;
  first = rw e f.first;
  found = f.found;
  same_pid = f.same_pid;
  state = f.state;
  name = f.name;
}

find_task-Found : (pid : ℕ) (ts : List Task) → Found pid ts (find_task pid ts)
unfolding find_task Found runs
find_task-Found pid [] = refl
find_task-Found pid (t ∷ ts) = elim (Bool-cases (t.pid == pid)) [
  | inl e ↦
      let p : t.pid ≡ pid = ground arith in
      rw e (record {
        earlier = [];
        task = t;
        later = ts;
        split = refl;
        first = refl;
        found = p;
        same_pid = p;
        state = refl;
        name = comm_field-IsName t.comm;
      })
  | inr e ↦ rw e (skip-Found pid t ts (find_task pid ts) e (find_task-Found pid ts))
]

-- The number returned and what was copied, for a message that asks for `m.pid`.
unfoldable pub Reports : List Task → ℕ → SysfsMessage → Option ℕ → Option (ℕ × PidInfo) → Type 0
Reports ts count m (some n) (some (a, i)) = (n ≡ count) × ((a ≡ m.address) × IsFirst m.pid ts i)
Reports ts count m none none = runs m.pid ts ≡ false
Reports ts count m (some n) none = ⊥
Reports ts count m none (some c) = ⊥

report-Reports :
    (ts : List Task) (count : ℕ) (m : SysfsMessage) (r : Option PidInfo) (cs : List Call)
    → (m.pid == 4294967295) ≡ false
    → Found m.pid ts r
    → Reports ts count m
        (report true count m.address r cs).returned
        (report true count m.address r cs).copied
unfolding Found Reports report
report-Reports ts count m none cs h f = f
report-Reports ts count m (some i) cs h f =
    rw (ap (λ p. p == 4294967295) f.same_pid ∙ h) (refl, (refl, f))

-- Where both `kmalloc` and both copies succeed and the pid asked for is not -1: if a process has that
-- pid, `pid_write` returns `count` and copies the pid and the state of the first such process to the message's
-- address, and in 16 characters the first 15 of its name, with zeros behind the name and a zero at the end;
-- if none has it, it returns -EINVAL and copies nothing.
pub pid_write-Reports :
    (ts : List Task) (m : SysfsMessage) (count : ℕ)
    → (m.pid == 4294967295) ≡ false
    → let w =
        pid_write
          (record {
            has_message = true;
            has_info = true;
            from_user = some m;
            to_user = true;
            processes = ts;
          })
          count in
      Reports ts count m w.returned w.copied
unfolding pid_write answer
pid_write-Reports ts m count h =
    report-Reports ts count m (find_task m.pid ts) (allocated message ∷ allocated info ∷ []) h
      (find_task-Found m.pid ts)
