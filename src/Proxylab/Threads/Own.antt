-- ===== src/Proxylab/Threads/Own.antt =====
-- Which argument a thread reads.
use git_sty.Base.{
  ℕ, zero, suc, ◌+◌, ◌%◌, ◌≡◌, ◌∙◌, ◌≤◌, ◌<◌, ap, sym, refl, List, [], ◌∷◌, ◌++◌, length, set,
  get_or, length-set, length-append, length-replicate, get_or-set_self, get_or-set_ne, arith,
}
use git_sty.Proxylab.Threads.{Server, maxthreads, started, accept, accept_all, argument}

get_or-append_here : (xs : List ℕ) (x : ℕ) → get_or (xs ++ (x ∷ [])) (length xs) 0 ≡ x
get_or-append_here [] x = refl
get_or-append_here (y ∷ xs) x = get_or-append_here xs x

get_or-append_before :
    (xs : List ℕ) (x n : ℕ) → n < length xs → get_or (xs ++ (x ∷ [])) n 0 ≡ get_or xs n 0
get_or-append_before [] x n h = absurd (omega (arith, h))
get_or-append_before (y ∷ xs) x zero h = refl
get_or-append_before (y ∷ xs) x (suc n) h = get_or-append_before xs x n (omega (arith, h))

-- A server that has created `k` threads.
pub record Numbered {A : Type 0} (k : ℕ) (s : Server A) : Type 0 where
  pub next : s.thread_id ≡ k % maxthreads
  pub room : length s.t ≡ maxthreads
  pub created : length s.args ≡ k

module _ {A : Type 0} (junk : A) where
  started-Numbered : Numbered 0 (started junk)
  started-Numbered = record { next = refl; room = length-replicate maxthreads junk; created = refl }

  accept-Numbered : (k : ℕ) (c : A) (s : Server A) → Numbered k s → Numbered (suc k) (accept c s)
  unfolding accept
  accept-Numbered k c s n = record {
    next = omega (arith, n.next);
    room = length-set s.t s.thread_id c ∙ n.room;
    created = omega (arith, n.created, length-append s.args (s.thread_id ∷ []));
  }

  accept_all-Numbered :
      (cs : List A) (k : ℕ) (s : Server A)
      → Numbered k s
      → Numbered (length cs + k) (accept_all cs s)
  unfolding accept_all
  accept_all-Numbered [] k s n = record {
    next = omega (arith, n.next);
    room = n.room;
    created = omega (arith, n.created);
  }
  accept_all-Numbered (c ∷ cs) k s n =
      let r = accept_all-Numbered cs (suc k) (accept c s) (accept-Numbered k c s n) in
      record { next = omega (arith, r.next); room = r.room; created = omega (arith, r.created) }

  -- The place of the thread `n` and what stands there.
  record Holds (n : ℕ) (c : A) (s : Server A) : Type 0 where
    slot : get_or s.args n 0 ≡ n % maxthreads
    value : get_or s.t (n % maxthreads) junk ≡ c

  new-Holds : (n : ℕ) (c : A) (s : Server A) → Numbered n s → Holds n c (accept c s)
  unfolding accept
  new-Holds n c s m = record {
    slot =
        ap (λ k. get_or (s.args ++ (s.thread_id ∷ [])) k 0) (sym m.created)
        ∙ get_or-append_here s.args s.thread_id
        ∙ m.next;
    value =
        ap (λ i. get_or (set s.t s.thread_id c) i junk) (sym m.next)
        ∙ get_or-set_self s.t s.thread_id c junk (omega (arith, m.next, m.room));
  }

  accept_all-Holds :
      (cs : List A) (n k : ℕ) (c : A) (s : Server A)
      → Numbered k s
      → Holds n c s
      → n < k
      → length cs + k ≤ n + maxthreads
      → Holds n c (accept_all cs s)
  unfolding accept_all accept
  accept_all-Holds [] n k c s m h l b = h
  accept_all-Holds (d ∷ cs) n k c s m h l b =
      accept_all-Holds cs n (suc k) c (accept d s) (accept-Numbered k d s m)
        (record {
          slot = get_or-append_before s.args s.thread_id n (omega (arith, l, m.created)) ∙ h.slot;
          value =
              get_or-set_ne s.t s.thread_id (n % maxthreads) d junk
                (λ e. omega (arith, e, m.next, l, b))
              ∙ h.value;
        })
        (omega (arith, l)) (omega (arith, b))

  accept_all-append :
      (xs ys : List A) (s : Server A) → accept_all (xs ++ ys) s ≡ accept_all ys (accept_all xs s)
  unfolding accept_all
  accept_all-append [] ys s = refl
  accept_all-append (x ∷ xs) ys s = accept_all-append xs ys (accept x s)

  argument-Holds : (n : ℕ) (c : A) (s : Server A) → Holds n c s → argument junk n s ≡ c
  unfolding argument
  argument-Holds n c s h = ap (λ i. get_or s.t i junk) h.slot ∙ h.value

  -- The state after the connections `before` and then `c`.
  served : (before : List A) (c : A) → Server A
  served before c = accept c (accept_all before (started junk))

  served-Numbered :
      (before : List A) (c : A)
      → Numbered (suc (length before)) (served before c) × Holds (length before) c (served before c)
  unfolding served
  served-Numbered before c =
      let s = accept_all before (started junk) in
      let m = accept_all-Numbered before 0 (started junk) started-Numbered in
      let m' : Numbered (length before) s = record {
        next = omega (arith, m.next);
        room = m.room;
        created = omega (arith, m.created);
      } in
      (accept-Numbered (length before) c s m', new-Holds (length before) c s m')

  accept_all-served :
      (before : List A) (c : A) (after : List A)
      → accept_all (before ++ (c ∷ after)) (started junk) ≡ accept_all after (served before c)
  unfolding accept_all served
  accept_all-served before c after = accept_all-append before (c ∷ after) (started junk)

  -- A thread that first runs before MAXTHREADS more connections have come finds the argument of its own
  -- connection, whatever came before and after.
  pub argument_own :
      (before : List A) (c : A) (after : List A)
      → length after < maxthreads
      → argument junk (length before) (accept_all (before ++ (c ∷ after)) (started junk)) ≡ c
  argument_own before c after l =
      let n = length before in
      let (m, h) = served-Numbered before c in
      ap (argument junk n) (accept_all-served before c after)
      ∙ argument-Holds n c (accept_all after (served before c)) (
          accept_all-Holds after n (suc n) c (served before c) m h (omega arith) (omega (arith, l)))

  -- A new connection takes the place of the thread that was created MAXTHREADS connections before.
  own_place : (n : ℕ) (s : Server A) → Numbered (n + maxthreads) s → n % maxthreads ≡ s.thread_id
  own_place n s m = omega (arith, m.next)

  over-Holds :
      (n : ℕ) (c d : A) (s : Server A)
      → Numbered (n + maxthreads) s
      → Holds n c s
      → Holds n d (accept d s)
  unfolding accept
  over-Holds n c d s m h = record {
    slot = get_or-append_before s.args s.thread_id n (omega (arith, m.created)) ∙ h.slot;
    value =
        ap (λ i. get_or (set s.t s.thread_id d) i junk) (own_place n s m)
        ∙ get_or-set_self s.t s.thread_id d junk (omega (arith, m.next, m.room));
  }

  -- A thread that first runs right after the MAXTHREADS-th connection behind its own finds that one's argument:
  -- it serves the other client instead of its own.
  pub argument_other :
      (before : List A) (c : A) (after : List A) (d : A)
      → length after + 1 ≡ maxthreads
      → argument junk (length before) (accept d (accept_all (before ++ (c ∷ after)) (started junk)))
        ≡ d
  argument_other before c after d l =
      let n = length before in
      let (m, h) = served-Numbered before c in
      let s = accept_all after (served before c) in
      let r = accept_all-Numbered after (suc n) (served before c) m in
      let m' : Numbered (n + maxthreads) s = record {
        next = omega (arith, r.next, l);
        room = r.room;
        created = omega (arith, r.created, l);
      } in
      ap (λ t. argument junk n (accept d t)) (accept_all-served before c after)
      ∙ argument-Holds n d (accept d s) (
          over-Holds n c d s m' (
            accept_all-Holds after n (suc n) c (served before c) m h (omega arith)
              (omega (arith, l))))
