-- ===== src/Kernellab/Pid.antt =====
-- The two writers of kernellab/kernellab/kernellab.c. An `int` is its 32-bit pattern, a string stands
-- without its closing zero, and what is printed is left out. What the kernel answers is an argument, and
-- the calls of `kmalloc` that handed out memory and those of `kfree` are recorded in their order.
pub mod Allocations
pub mod Report
mod Tests
use git_sty.Base.{
  ℕ, ◌-◌, Bool, true, false, Option, none, some, List, [], ◌∷◌, ◌++◌, ◌==◌, if◌then◌else◌, not,
  Text, take, length, replicate,
}

-- The fields of `struct task_struct` that the module reads.
pub record Task : Type 0 where
  pub pid : ℕ
  pub comm : Text
  pub state : ℕ

-- `struct pid_info`: `comm` is an array of 16 characters.
pub record PidInfo : Type 0 where
  pub pid : ℕ
  pub comm : Text
  pub state : ℕ

-- `struct sysfs_message`.
pub record SysfsMessage : Type 0 where
  pub pid : ℕ
  pub address : ℕ

-- The memory that `mess` and `info` point to.
pub data Allocation : Type 0 where
  message info : Allocation

-- `kmalloc` handed out the memory, `kfree` got it.
pub data Call : Type 0 where
  allocated freed : Allocation → Call

-- The answers of `kmalloc` (for the message, then for the info), `copy_from_user`, and of
-- `copy_to_user`, and the processes in the order of `for_each_process`.
pub record Kernel : Type 0 where
  pub has_message : Bool
  pub has_info : Bool
  pub from_user : Option SysfsMessage
  pub to_user : Bool
  pub processes : List Task

-- The number returned (`none` is -EINVAL), what was copied to user space and where, and the calls.
pub record Written : Type 0 where
  pub returned : Option ℕ
  pub copied : Option (ℕ × PidInfo)
  pub calls : List Call

abbrev pub einval : List Call → Written
einval calls = record { returned = none; copied = none; calls = calls }

-- The call of `kmalloc` with its answer, and whether it is NULL.
abbrev pub kmalloc : Bool → Allocation → List Call → Bool × List Call
kmalloc true a calls = (false, calls ++ (allocated a ∷ []))
kmalloc false a calls = (true, calls)

abbrev pub kfree : Allocation → List Call → List Call
kfree a calls = calls ++ (freed a ∷ [])

-- `kcurrent_write`: the number of bytes of the request, or `none`, and the pid copied.
pub kcurrent_write : (to_user : Bool) → (current count : ℕ) → Option ℕ × Option ℕ
kcurrent_write true current count = (some count, some current)
kcurrent_write false current count = (none, none)

-- `strncpy` of 16 characters, then a zero as the last one.
unfoldable pub comm_field : Text → Text
comm_field comm = let c = take 15 comm in c ++ replicate (16 - length c) 0

-- The loop over the processes: the first one with the pid.
unfoldable pub find_task : ℕ → List Task → Option PidInfo
find_task pid [] = none
find_task pid (t ∷ ts) =
    let rest = find_task pid ts in
    if t.pid == pid
    then some (record { pid = t.pid; comm = comm_field t.comm; state = t.state })
    else rest

-- From `if (test_pid == -1)` on, for what the loop left in `info` and `test_pid`.
unfoldable pub report :
    (to_user : Bool) → (count address : ℕ) → Option PidInfo → List Call → Written
report to_user count address none calls = einval (kfree info (kfree message calls))
report to_user count address (some i) calls =
    if i.pid == 4294967295
    then einval (kfree info (kfree message calls))
    else if not to_user
    then einval (kfree info (kfree message calls))
    else record {
      returned = some count;
      copied = some (address, i);
      calls = kfree info (kfree message calls);
    }

-- From `copy_from_user` on.
unfoldable pub answer : Kernel → ℕ → Option SysfsMessage → List Call → Written
answer k count none calls = einval (kfree info (kfree message calls))
answer k count (some m) calls = report k.to_user count m.address (find_task m.pid k.processes) calls

unfoldable pub pid_write : Kernel → ℕ → Written
pid_write k count =
    let (no_message, calls) = kmalloc k.has_message message [] in
    let (no_info, calls₁) = kmalloc k.has_info info calls in
    if no_message
    then einval calls
    else if no_info
    then einval calls₁
    else answer k count k.from_user calls₁
