-- ===== src/Proxylab/Rio/Readn.antt =====
-- Counted reads: `rio_readn` and `rio_readnb` of csapp.c hand out the first bytes of what there is,
-- in whatever pieces and with whatever interruptions the kernel gives them.
use git_sty.Base.{
  ℕ, zero, suc, ◌-◌, ◌≡◌, ◌∙◌, refl, sym, ap, ◌<◌, ◌≤◌, [], ◌∷◌, ◌++◌, Text, take, drop, length,
  arith,
}
use git_sty.Proxylab.Rio.{
  Got, bytes, eof, interrupted, failed, Source, read, Stored, stored, error, out_of_fuel, prepend,
  read_loop, after_call, rio_readn, Rio, rio_read, rio_readnb,
}
use git_sty.Proxylab.Rio.Source.{
  contents, IsClean, events, Good, read-Good, rest, size, Clean, rio_read-Good,
}

take_append :
    (n : ℕ) (xs ys : Text) → length xs ≤ n → take n (xs ++ ys) ≡ xs ++ take (n - length xs) ys
take_append n [] ys h = ap (λ m. take m ys) (omega arith)
take_append zero (x ∷ xs) ys h = elim h [ ]
take_append (suc n) (x ∷ xs) ys h =
    ap (λ t. x ∷ t) (take_append n xs ys (omega arith) ∙ ap (λ m. xs ++ take m ys) (omega arith))

drop_append : (n : ℕ) (xs ys : Text) → length xs ≤ n → drop n (xs ++ ys) ≡ drop (n - length xs) ys
drop_append n [] ys h = ap (λ m. drop m ys) (omega arith)
drop_append zero (x ∷ xs) ys h = elim h [ ]
drop_append (suc n) (x ∷ xs) ys h =
    drop_append n xs ys (omega arith) ∙ ap (λ m. drop m ys) (omega arith)

-- The call stored the first `n` bytes of `s` and left the others.
unfoldable pub Reads : {S : Type 0} → (S → Text) → ℕ → S → Stored S → Type 0
Reads view n s (stored bs s') = (bs ≡ take n (view s)) × (view s' ≡ drop n (view s))
Reads view n s (error s') = ⊥
Reads view n s out_of_fuel = ⊥

prepend-Reads :
    {S : Type 0} (view : S → Text) (n : ℕ) (s s' : S) (bs : Text) (st : Stored S)
    → view s ≡ bs ++ view s'
    → length bs ≤ n
    → Reads view (n - length bs) s' st
    → Reads view n s (prepend bs st)
unfolding Reads
prepend-Reads view n s s' bs (stored more t) e l (p, q) = (
  ap (λ m. bs ++ m) p ∙ sym (ap (take n) e ∙ take_append n bs (view s') l),
  q ∙ sym (ap (drop n) e ∙ drop_append n bs (view s') l),
)
prepend-Reads view n s s' bs (error t) e l h = h
prepend-Reads view n s s' bs out_of_fuel e l h = h

same-Reads :
    {S : Type 0} (view : S → Text) (n : ℕ) (s s' : S) (st : Stored S)
    → view s ≡ view s'
    → Reads view n s' st
    → Reads view n s st
unfolding Reads
same-Reads view n s s' (stored more t) e (p, q) = (p ∙ ap (take n) (sym e), q ∙ ap (drop n) (sym e))
same-Reads view n s s' (error t) e h = h
same-Reads view n s s' out_of_fuel e h = h

empty-Reads :
    {S : Type 0} (view : S → Text) (n : ℕ) (s s' : S)
    → view s ≡ []
    → view s' ≡ []
    → Reads view n s (stored [] s')
unfolding Reads
empty-Reads view zero s s' e f = (refl, f ∙ sym e)
empty-Reads view (suc n) s s' e f = (sym (ap (take (suc n)) e), f ∙ sym (ap (drop (suc n)) e))

module _ {S : Type 0} (view : S → Text) (left : S → ℕ) (P : S → Type 0) where
  after_call-Reads :
      (again : ℕ → S → Stored S) (k n : ℕ) (s : S) (g : Got) (s' : S)
      → ((m : ℕ) (t : S) → P t → left t < k → Reads view m t (again m t))
      → Good view left P n s g s'
      → left s < suc k
      → Reads view n s (after_call again n g s')
  unfolding after_call Good
  after_call-Reads again k n s (bytes bs) s' ih (e, (p, (l, b))) h =
      prepend-Reads view n s s' bs (again (n - length bs) s') e b
        (ih (n - length bs) s' p (omega (arith, l, h)))
  after_call-Reads again k n s eof s' ih (e, (f, p)) h = empty-Reads view n s s' e f
  after_call-Reads again k n s interrupted s' ih (e, (p, l)) h =
      same-Reads view n s s' (again n s') e (ih n s' p (omega (arith, l, h)))
  after_call-Reads again k n s failed s' ih g h = absurd g

  module _ (reader : ℕ → S → Got × S)
      (law : (n : ℕ) (s : S)
        → P s
        → 0 < n
        → Good view left P n s ((reader n s).0) ((reader n s).1)) where
    read_loop-Reads :
        (fuel n : ℕ) (s : S) → P s → left s < fuel → Reads view n s (read_loop reader fuel n s)
    unfolding read_loop Reads
    read_loop-Reads zero n s h l = omega (arith, l)
    read_loop-Reads (suc k) zero s h l = (refl, refl)
    read_loop-Reads (suc k) (suc n) s h l =
        after_call-Reads (λ m t. read_loop reader k m t) k (suc n) s ((reader (suc n) s).0)
          ((reader (suc n) s).1) (λ m t. read_loop-Reads k m t) (law (suc n) s h (omega arith)) l

-- On a source without errors `rio_readn` with fuel for each byte and signal stores the first `n`
-- bytes of what the source has and leaves the others: it does not stop early.
pub rio_readn_lem :
    (fuel n : ℕ) (s : Source)
    → IsClean s
    → events s < fuel
    → Reads contents n s (rio_readn fuel n s)
unfolding rio_readn
rio_readn_lem = read_loop-Reads contents events IsClean read read-Good

-- On a source without errors `rio_readnb` with fuel for each byte to come stores the first `n` bytes of those buffered followed by those that the descriptor
-- has, whatever signals come between, and leaves the others in the same order.
pub rio_readnb_lem :
    (fuel n : ℕ) (r : Rio) → Clean r → size r < fuel → Reads rest n r (rio_readnb fuel n r)
unfolding rio_readnb
rio_readnb_lem = read_loop-Reads rest size Clean rio_read rio_read-Good
