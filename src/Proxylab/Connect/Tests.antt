-- ===== src/Proxylab/Connect/Tests.antt =====
-- Requests to a name that is known and to one that is not.
use git_sty.Base.{refl, true, false, [], some}
use git_sty.Proxylab.Connect.{Answers, Process, open_clientfd}
use git_sty.Proxylab.Connect.Lock.{Answered, open_clientfd-Answered}

abbrev known : Answers
known = record { socket = some 5; host_known = true; accepted = true }

abbrev unknown : Answers
unknown = record { socket = some 4; host_known = false; accepted = true }

abbrev at_start : Process
at_start = record { ts_lock = false; sockets = [] }

open_clientfd-Answered_example : Answered known at_start (open_clientfd known at_start)
open_clientfd-Answered_example = open_clientfd-Answered known at_start refl
