-- ===== src/Proxylab/Rio/Source.antt =====
-- What a reader has still to hand out, and the law that `read` and `rio_read` obey: bytes come in
-- order, none is lost, and only a `broken` source gives an error.
use git_sty.Base.{
  ℕ, suc, ◌+◌, ◌≡◌, ◌∙◌, refl, sym, ap, ◌<◌, ◌≤◌, [], ◌∷◌, ◌++◌, Text, take, drop, length,
  length-append, length-take, length-drop, take-append-drop, arith,
}
use git_sty.Proxylab.Rio.{
  Got, bytes, eof, interrupted, failed, chunk, signal, broken, Source, push, read, Rio, refill,
  hand_out, after_refill, fill_or_hand, rio_read,
}

unfoldable pub contents : Source → Text
contents [] = []
contents (chunk b bs ∷ s) = (b ∷ bs) ++ contents s
contents (signal ∷ s) = contents s
contents (broken ∷ s) = []

unfoldable pub IsClean : Source → Type 0
IsClean [] = Unit
IsClean (chunk b bs ∷ s) = IsClean s
IsClean (signal ∷ s) = IsClean s
IsClean (broken ∷ s) = ⊥

-- Bytes and signals: a bound on the calls of `read` that give something.
unfoldable pub events : Source → ℕ
events [] = 0
events (chunk b bs ∷ s) = suc (length bs) + events s
events (signal ∷ s) = suc (events s)
events (broken ∷ s) = 0

-- What a good call that asks for `n` bytes in state `s` may give.
unfoldable pub Good : {S : Type 0} → (S → Text) → (S → ℕ) → (S → Type 0) → ℕ → S → Got → S → Type 0
Good view left P n s (bytes bs) s' =
    (view s ≡ bs ++ view s') × ((P s') × ((left s' < left s) × (length bs ≤ n)))
Good view left P n s eof s' = (view s ≡ []) × ((view s' ≡ []) × P s')
Good view left P n s interrupted s' = (view s ≡ view s') × ((P s') × (left s' < left s))
Good view left P n s failed s' = ⊥

contents-push : (bs : Text) (s : Source) → contents (push bs s) ≡ bs ++ contents s
unfolding contents
contents-push [] s = refl
contents-push (b ∷ bs) s = refl

pub push-IsClean : (bs : Text) (s : Source) → IsClean s → IsClean (push bs s)
unfolding IsClean
push-IsClean [] s h = h
push-IsClean (b ∷ bs) s h = h

pub events-push : (bs : Text) (s : Source) → events (push bs s) ≡ length bs + events s
unfolding events
events-push [] s = omega arith
events-push (b ∷ bs) s = refl

pub append_assoc : (xs ys zs : Text) → (xs ++ ys) ++ zs ≡ xs ++ (ys ++ zs)
append_assoc [] ys zs = refl
append_assoc (x ∷ xs) ys zs = rw (append_assoc xs ys zs)

pub take-drop_append : (n : ℕ) (bs cs : Text) → bs ++ cs ≡ take n bs ++ (drop n bs ++ cs)
take-drop_append n bs cs =
    ap (λ t. t ++ cs) (sym (take-append-drop n bs)) ∙ append_assoc (take n bs) (drop n bs) cs

pub read-Good :
    (n : ℕ) (s : Source)
    → IsClean s
    → 0 < n
    → Good contents events IsClean n s ((read n s).0) ((read n s).1)
unfolding IsClean contents events Good read
read-Good n [] h p = (refl, (refl, tt))
read-Good n (signal ∷ s) h p = (refl, (h, omega arith))
read-Good n (broken ∷ s) h p = absurd h
read-Good n (chunk b bs ∷ s) h p = (
  take-drop_append n (b ∷ bs) (contents s)
      ∙ ap (λ t. take n (b ∷ bs) ++ t) (sym (contents-push (drop n (b ∷ bs)) s)),
  (
    push-IsClean (drop n (b ∷ bs)) s h,
    (
      omega (arith, events-push (drop n (b ∷ bs)) s, length-drop n (b ∷ bs)),
      omega (arith, length-take n (b ∷ bs)),
    ),
  ),
)

-- The reader of a `rio_t`: what is buffered and then what the descriptor has.
abbrev pub rest : Rio → Text
rest r = r.unread ++ contents r.fd

abbrev pub size : Rio → ℕ
size r = length (rest r)

abbrev pub Clean : Rio → Type 0
Clean r = IsClean r.fd

shorter : (xs ys zs : Text) → xs ≡ ys ++ zs → 0 < length ys → length zs < length xs
shorter xs ys zs e h = omega (arith, ap length e, length-append ys zs)

hand_out-Good :
    (n b : ℕ) (bs : Text) (r : Rio) (s : Source)
    → IsClean s
    → 0 < n
    → rest r ≡ (b ∷ bs) ++ contents s
    → Good rest size Clean n r ((hand_out n (b ∷ bs) s).0) ((hand_out n (b ∷ bs) s).1)
unfolding Good
hand_out-Good n b bs r s h p e =
    let split = e ∙ take-drop_append n (b ∷ bs) (contents s) in
    (
      split,
      (
        h,
        (
          shorter (rest r) (take n (b ∷ bs)) (drop n (b ∷ bs) ++ contents s) split
              (omega (arith, length-take n (b ∷ bs))),
          omega (arith, length-take n (b ∷ bs)),
        ),
      ),
    )

after_refill-Good :
    (n : ℕ) (r : Rio) (s : Source)
    → IsClean s
    → 0 < n
    → rest r ≡ contents s
    → Good rest size Clean n r ((after_refill n (refill s)).0) ((after_refill n (refill s)).1)
unfolding refill after_refill read IsClean contents Good
after_refill-Good n r [] h p e = (e, (refl, tt))
after_refill-Good n r (signal ∷ s) h p e = after_refill-Good n r s h p e
after_refill-Good n r (broken ∷ s) h p e = absurd h
after_refill-Good n r (chunk b bs ∷ s) h p e =
    hand_out-Good n b (take 8191 bs) r (push (drop 8191 bs) s) (push-IsClean (drop 8191 bs) s h) p (
      e
      ∙ ap (λ t. b ∷ t)
          (take-drop_append 8191 bs (contents s)
            ∙ ap (λ t. take 8191 bs ++ t) (sym (contents-push (drop 8191 bs) s))))

fill_or_hand-Good :
    (n : ℕ) (u : Text) (s : Source)
    → IsClean s
    → 0 < n
    → Good rest size Clean n
        (record { unread = u; fd = s })
        ((fill_or_hand n u s).0)
        ((fill_or_hand n u s).1)
unfolding fill_or_hand
fill_or_hand-Good n [] s h p = after_refill-Good n (record { unread = []; fd = s }) s h p refl
fill_or_hand-Good n (b ∷ bs) s h p =
    hand_out-Good n b bs (record { unread = b ∷ bs; fd = s }) s h p refl

pub rio_read-Good :
    (n : ℕ) (r : Rio)
    → Clean r
    → 0 < n
    → Good rest size Clean n r ((rio_read n r).0) ((rio_read n r).1)
unfolding rio_read
rio_read-Good n r h p = fill_or_hand-Good n r.unread r.fd h p

-- `rio_read` makes an interrupted call again itself.
unfoldable pub Awake : Got → Type 0
Awake interrupted = ⊥
Awake g = Unit

after_refill-Awake : (n : ℕ) (q : Got × Source) → Awake ((after_refill n q).0)
unfolding after_refill Awake
after_refill-Awake n (bytes bs, s) = tt
after_refill-Awake n (eof, s) = tt
after_refill-Awake n (interrupted, s) = tt
after_refill-Awake n (failed, s) = tt

fill_or_hand-Awake : (n : ℕ) (u : Text) (s : Source) → Awake ((fill_or_hand n u s).0)
unfolding fill_or_hand Awake
fill_or_hand-Awake n [] s = after_refill-Awake n (refill s)
fill_or_hand-Awake n (b ∷ bs) s = tt

pub rio_read-Awake : (n : ℕ) (r : Rio) → Awake ((rio_read n r).0)
unfolding rio_read
rio_read-Awake n r = fill_or_hand-Awake n r.unread r.fd
