-- ===== src/Proxylab/Threads.antt =====
-- The loop of `main` in proxylab/proxy.c: the arguments of the threads lie in an array that the loop uses
-- again after MAXTHREADS connections. A thread reads its argument when it first runs, which may be late.
pub mod Own
mod Tests
use git_sty.Base.{ℕ, ◌+◌, ◌%◌, List, [], ◌∷◌, ◌++◌, set, get_or, replicate}

-- `MAXTHREADS`.
abbrev pub maxthreads : ℕ
maxthreads = 300

-- The array `t` of `connfd` and `clientaddr`, the next `thread_id`, and for each thread that was created the
-- place of its argument.
pub record Server (A : Type 0) : Type 0 where
  pub t : List A
  pub thread_id : ℕ
  pub args : List ℕ

abbrev pub started : {A : Type 0} → A → Server A
started junk = record { t = replicate maxthreads junk; thread_id = 0; args = [] }

-- A connection: fill the place, create the thread, go on to the next place.
unfoldable pub accept : {A : Type 0} → A → Server A → Server A
accept c s = record {
  t = set s.t s.thread_id c;
  thread_id = (s.thread_id + 1) % maxthreads;
  args = s.args ++ (s.thread_id ∷ []);
}

unfoldable pub accept_all : {A : Type 0} → List A → Server A → Server A
accept_all [] s = s
accept_all (c ∷ cs) s = accept_all cs (accept c s)

-- What the thread created `n`-th, from 0, finds as its argument if it first runs now.
unfoldable pub argument : {A : Type 0} → A → ℕ → Server A → A
argument junk n s = get_or s.t (get_or s.args n 0) junk
