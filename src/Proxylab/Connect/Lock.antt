-- ===== src/Proxylab/Connect/Lock.antt =====
-- When the mutex of `open_clientfd_ts` is free again.
use git_sty.Base.{
  ℕ, ◌≡◌, refl, true, false, List, [], ◌∷◌, Option, none, some, Bool-cases, inl, inr,
}
use git_sty.Proxylab.Connect.{
  Answers, Process, unix_failure, dns_failure, Opened, descriptor, failed, blocked, connect_to,
  look_up, with_socket, open_clientfd_ts, pass_on, open_clientfd, process_of, requests,
}

-- What a call owes to a process whose mutex is free.
unfoldable pub Answered : Answers → Process → Opened → Type 0
Answered a p (descriptor fd p') =
    (a.socket ≡ some fd)
    × ((a.host_known ≡ true)
        × ((a.accepted ≡ true) × (p' ≡ record { ts_lock = false; sockets = fd ∷ p.sockets })))
Answered a p (failed unix_failure p') = p'.ts_lock ≡ false
Answered a p (failed dns_failure p') = (a.host_known ≡ false) × (p'.ts_lock ≡ true)
Answered a p (blocked p') = ⊥

with_socket-Answered :
    (a : Answers) (p : Process) (s : Option ℕ)
    → p.ts_lock ≡ false
    → a.socket ≡ s
    → Answered a p (pass_on (with_socket a s p))
unfolding with_socket look_up connect_to pass_on Answered
with_socket-Answered a p none l e = l
with_socket-Answered a p (some fd) l e = elim (Bool-cases a.host_known) [
  | inl h ↦ elim (Bool-cases a.accepted) [
    | inl c ↦ rw (l, h, c) (e, (refl, (refl, refl)))
    | inr c ↦ rw (l, h, c) refl
  ]
  | inr h ↦ rw (l, h) (refl, refl)
]

-- If the mutex is free, `Open_clientfd_ts` ends. It returns a descriptor only if it got a socket, the name is
-- known and the server accepts, and leaves the mutex free then and when it returns -1. When it returns
-- -2, for an unknown name, the mutex is still held.
pub open_clientfd-Answered :
    (a : Answers) (p : Process) → p.ts_lock ≡ false → Answered a p (open_clientfd a p)
unfolding open_clientfd open_clientfd_ts
open_clientfd-Answered a p l = with_socket-Answered a p a.socket l refl

-- Nobody releases the mutex for a thread that has returned.
with_socket_held :
    (a : Answers) (p : Process) (s : Option ℕ)
    → p.ts_lock ≡ true
    → (process_of (pass_on (with_socket a s p))).ts_lock ≡ true
unfolding with_socket look_up pass_on
with_socket_held a p none l = l
with_socket_held a p (some fd) l = rw l refl

still_held :
    (more : List Answers) (p : Process) → p.ts_lock ≡ true → (requests more p).ts_lock ≡ true
unfolding requests open_clientfd open_clientfd_ts
still_held [] p l = l
still_held (a ∷ more) p l =
    still_held more (process_of (open_clientfd a p)) (with_socket_held a p a.socket l)

lookup_held :
    (a : Answers) (fd : ℕ) (p : Process)
    → p.ts_lock ≡ false
    → a.socket ≡ some fd
    → a.host_known ≡ false
    → (process_of (open_clientfd a p)).ts_lock ≡ true
unfolding open_clientfd open_clientfd_ts with_socket look_up pass_on
lookup_held a fd p l e h = rw (e, l, h) refl

blocks :
    (a : Answers) (fd : ℕ) (p : Process)
    → p.ts_lock ≡ true
    → a.socket ≡ some fd
    → open_clientfd a p ≡ blocked (record { ts_lock = p.ts_lock; sockets = fd ∷ p.sockets })
unfolding open_clientfd open_clientfd_ts with_socket look_up pass_on
blocks a fd p l e = rw (e, l) refl

-- Once a thread that had a socket asked for a name that is not known, every later request that gets a socket
-- waits for the mutex, whatever requests came between.
pub lookup_jams :
    (a b : Answers) (more : List Answers) (fd fd' : ℕ) (p : Process)
    → p.ts_lock ≡ false
    → a.socket ≡ some fd
    → a.host_known ≡ false
    → b.socket ≡ some fd'
    → let q = requests (a ∷ more) p in
      open_clientfd b q ≡ blocked (record { ts_lock = q.ts_lock; sockets = fd' ∷ q.sockets })
unfolding requests
lookup_jams a b more fd fd' p l e h f =
    let held = still_held more (process_of (open_clientfd a p)) (lookup_held a fd p l e h) in
    blocks b fd' (requests more (process_of (open_clientfd a p))) held f
