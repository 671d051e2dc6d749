-- ===== src/Proxylab/Connect.antt =====
-- `open_clientfd_ts` and `Open_clientfd_ts` of proxylab/proxy.c, which share the mutex `ts_lock` between the
-- threads. What `socket`, `gethostbyname` and `connect` answer is an argument.
pub mod Lock
mod Tests
use git_sty.Base.{ℕ, ◌+◌, Bool, true, false, List, [], ◌∷◌, if◌then◌else◌, Option, none, some}

-- The answers for one call: the descriptor, whether the name is known, and whether the server accepts.
pub record Answers : Type 0 where
  pub socket : Option ℕ
  pub host_known : Bool
  pub accepted : Bool

-- The mutex, and the sockets that the process has open.
pub record Process : Type 0 where
  pub ts_lock : Bool
  pub sockets : List ℕ

-- -1 and -2.
pub data Failure : Type 0 where
  unix_failure dns_failure : Failure

pub data Opened : Type 0 where
  descriptor : ℕ → Process → Opened
  failed : Failure → Process → Opened
  -- `pthread_mutex_lock` does not return as long as the mutex is held.
  blocked : Process → Opened

-- From `connect` on.
unfoldable pub connect_to : Answers → ℕ → Process → Opened
connect_to a fd p = if a.accepted then descriptor fd p else failed unix_failure p

-- From the taking of the lock to its release.
unfoldable pub look_up : Answers → ℕ → Process → Opened
look_up a fd p =
    let held : Process = record { ts_lock = true; sockets = p.sockets } in
    let released : Process = record { ts_lock = false; sockets = p.sockets } in
    if p.ts_lock
    then blocked p
    else if a.host_known
    then connect_to a fd released
    else failed dns_failure held

unfoldable pub with_socket : Answers → Option ℕ → Process → Opened
with_socket a none p = failed unix_failure p
with_socket a (some fd) p = look_up a fd (record { ts_lock = p.ts_lock; sockets = fd ∷ p.sockets })

unfoldable pub open_clientfd_ts : Answers → Process → Opened
open_clientfd_ts a p = with_socket a a.socket p

-- `Open_clientfd_ts` hands each result on.
unfoldable pub pass_on : Opened → Opened
pass_on (descriptor fd p) = descriptor fd p
pass_on (failed unix_failure p) = failed unix_failure p
pass_on (failed dns_failure p) = failed dns_failure p
pass_on (blocked p) = blocked p

unfoldable pub open_clientfd : Answers → Process → Opened
open_clientfd a p = pass_on (open_clientfd_ts a p)

abbrev pub process_of : Opened → Process
process_of (descriptor fd p) = p
process_of (failed f p) = p
process_of (blocked p) = p

-- The calls of the threads, one after another; the process after them.
unfoldable pub requests : List Answers → Process → Process
requests [] p = p
requests (a ∷ more) p = requests more (process_of (open_clientfd a p))
