-- ===== src/Proxylab/Relay/Whole.antt =====
-- An image reaches the client whole.
use git_sty.Base.{
  ℕ, zero, suc, ◌+◌, ◌-◌, ◌≡◌, ◌∙◌, ◌<◌, ◌≤◌, ap, sym, refl, [], ◌∷◌, ◌++◌, some, Text, take, drop,
  take-append-drop, length, length-drop, length-take, length-append, arith,
}
use git_sty.Proxylab.Rio.{
  Source, chunk, signal, broken, read, Stored, stored, error, out_of_fuel, prepend, after_call,
  read_loop, rio_readn, push,
}
use git_sty.Proxylab.Rio.Source.{contents, IsClean, events, push-IsClean, events-push}
use git_sty.Proxylab.Rio.Readn.{Reads, rio_readn_lem}
use git_sty.Proxylab.Rio.Writen.{Unbroken, rio_writen_lem}
use git_sty.Proxylab.Relay.{Client, Relayed, maxline, sent, after_readn, relay_bytes}

-- A counted read takes from the source what it stores, at least.
unfoldable Settled : Source → Stored Source → Type 0
Settled s (stored bs t) = IsClean t × (events t + length bs ≤ events s)
Settled s (error t) = Unit
Settled s out_of_fuel = Unit

prepend-Settled :
    (s t : Source) (bs : Text) (r : Stored Source)
    → events t + length bs ≤ events s
    → Settled t r
    → Settled s (prepend bs r)
unfolding Settled
prepend-Settled s t bs (stored more u) l (c, m) = (c, omega (arith, l, m, length-append bs more))
prepend-Settled s t bs (error u) l h = tt
prepend-Settled s t bs out_of_fuel l h = tt

weaken-Settled :
    (s t : Source) (r : Stored Source) → events t ≤ events s → Settled t r → Settled s r
unfolding Settled
weaken-Settled s t (stored more u) l (c, m) = (c, omega (arith, l, m))
weaken-Settled s t (error u) l h = tt
weaken-Settled s t out_of_fuel l h = tt

read_loop-Settled : (fuel n : ℕ) (s : Source) → IsClean s → Settled s (read_loop read fuel n s)
unfolding read_loop read after_call Settled IsClean events
read_loop-Settled zero n s c = tt
read_loop-Settled (suc k) zero s c = (c, omega arith)
read_loop-Settled (suc k) (suc n) [] c = (tt, omega arith)
read_loop-Settled (suc k) (suc n) (signal ∷ s) c =
    weaken-Settled (signal ∷ s) s (read_loop read k (suc n) s) (omega arith)
      (read_loop-Settled k (suc n) s c)
read_loop-Settled (suc k) (suc n) (broken ∷ s) c = absurd c
read_loop-Settled (suc k) (suc n) (chunk b bs ∷ s) c =
    let t = push (drop n bs) s in
    let got = b ∷ take n bs in
    prepend-Settled (chunk b bs ∷ s) t got (read_loop read k (suc n - length got) t)
      (ground (arith, events-push (drop n bs) s, length-drop n bs, length-take n bs))
      (read_loop-Settled k (suc n - length got) t (push-IsClean (drop n bs) s c))

take_empty : (n : ℕ) (xs : Text) → [] ≡ take (suc n) xs → xs ≡ []
take_empty n [] e = refl
take_empty n (x ∷ xs) e = absurd (ground arith)

abbrev pub Whole : Source → Relayed → Type 0
Whole s r = r ≡ some (contents s, length (contents s))

sent-Whole :
    (s t : Source) (bs : Text) (r : Relayed)
    → bs ++ contents t ≡ contents s
    → Whole t r
    → Whole s (sent bs (length bs) r)
sent-Whole s t bs r e h =
    ap (sent bs (length bs)) h
    ∙ ap (λ n. some (bs ++ contents t, n)) (sym (length-append bs (contents t)))
    ∙ ap (λ c. some (c, length c)) e

module _ (client : Client) (patient : (k : ℕ) → Unbroken (client k)) where
  after_readn-Whole :
      (f k : ℕ) (s : Source) (again : Source → Relayed) (r : Stored Source)
      → ((t : Source) → IsClean t → events t < f → Whole t (again t))
      → events s < suc f
      → Reads contents maxline s r
      → Settled s r
      → Whole s (after_readn again (client k) r)
  unfolding after_readn Reads Settled
  after_readn-Whole f k s again (stored [] t) ih l (p, q) c =
      ap (λ v. some (v, length v)) (sym (take_empty 8191 (contents s) p))
  after_readn-Whole f k s again (stored (b ∷ bs) t) ih l (p, q) (c, m) =
      let e =
        ap (λ v. v ++ contents t) p
        ∙ ap (λ v. take maxline (contents s) ++ v) q
        ∙ take-append-drop maxline (contents s) in
      ap (λ o. sent o.0 (length (b ∷ bs)) (again t))
        (rio_writen_lem (client k) (b ∷ bs) (patient k))
      ∙ (sent-Whole s t (b ∷ bs) (again t) e (ih t c (omega (arith, m, l))))
  after_readn-Whole f k s again (error t) ih l h c = absurd h
  after_readn-Whole f k s again out_of_fuel ih l h c = absurd h

  -- If the server's bytes come without an error and no `write` to the client fails, the loop for images,
  -- with fuel for each byte and signal and one more, ends, and hands each byte on once and in order, however the bytes come in and go out in pieces
  -- and whatever signals interrupt; the size for the log is their number.
  pub relay_bytes-Whole :
      (fuel k : ℕ) (s : Source)
      → IsClean s
      → events s < fuel
      → Whole s (relay_bytes fuel k client s)
  unfolding relay_bytes rio_readn
  relay_bytes-Whole zero k s c l = absurd (omega (arith, l))
  relay_bytes-Whole (suc f) k s c l =
      after_readn-Whole f k s (λ t. relay_bytes f (k + 1) client t) (rio_readn (suc f) maxline s)
        (λ t. relay_bytes-Whole f (k + 1) t) l (rio_readn_lem (suc f) maxline s c l)
        (read_loop-Settled (suc f) maxline s c)
