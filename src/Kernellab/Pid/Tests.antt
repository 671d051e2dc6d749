-- ===== src/Kernellab/Pid/Tests.antt =====
-- Runs of `pid_write`.
use git_sty.Base.{◌≡◌, refl, true, not, ◌&&◌, some, List, [], ◌∷◌, if◌then◌else◌}
use git_sty.Kernellab.Pid.{Kernel, Task, SysfsMessage, message, pid_write}
use git_sty.Kernellab.Pid.Allocations.{held, pid_write_held}
use git_sty.Kernellab.Pid.Report.{Reports, pid_write-Reports}

abbrev tasks : List Task
tasks =
    record { pid = 1; comm = 105 ∷ 110 ∷ []; state = 0 }
    ∷ record { pid = 7; comm = 115 ∷ 104 ∷ []; state = 1 }
    ∷ []

abbrev asks : SysfsMessage
asks = record { pid = 7; address = 4096 }

abbrev kernel : Kernel
kernel = record {
  has_message = true;
  has_info = true;
  from_user = some asks;
  to_user = true;
  processes = tasks;
}

pid_write_held_example :
    held [] (pid_write kernel 4).calls
    ≡ some (if kernel.has_message && not kernel.has_info then message ∷ [] else [])
pid_write_held_example = pid_write_held kernel 4

pid_write-Reports_example :
    Reports tasks 4 asks (pid_write kernel 4).returned (pid_write kernel 4).copied
pid_write-Reports_example = pid_write-Reports tasks asks 4 refl
