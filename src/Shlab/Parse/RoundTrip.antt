-- ===== src/Shlab/Parse/RoundTrip.antt =====
-- `parseline` reads back the arguments that a line was typed from.
use git_sty.Base.{
  ℕ, zero, suc, ◌+◌, ◌≡◌, refl, ◌≤◌, ◌<◌, Bool, true, false, ◌&&◌, not, some, List, [], ◌∷◌, ◌==◌,
  if◌then◌else◌, Text, split_at, length, arith, ◌++◌, replicate, map, ap, ◌∙◌, sym, length-append,
}
use git_sty.Shlab.Parse.{
  max_args, space, quote, parsed, smashed, blank_last, skip_spaces, next_arg, arg_loop, is_amp,
  last_arg, drop_last, background, finish, parseline,
}
use git_sty.Shlab.Parse.Total.{length-skip_spaces}
use mathlib.Core.List.{append_assoc}

-- An argument as typed, behind `gap` extra spaces, bare or between quotes.
pub record Arg : Type 0 where
  pub gap : ℕ
  pub quoted : Bool
  pub word : Text

abbrev pub lacks : ℕ → Text → Bool
lacks c [] = true
lacks c (x ∷ xs) = not (x == c) && lacks c xs

abbrev pub starts_bare : Text → Bool
starts_bare [] = false
starts_bare (x ∷ xs) = not (x == quote) && not (x == space)

-- A bare word is not empty, has no space and does not begin with a quote; a quoted one has no quote.
abbrev pub is_arg : Arg → Bool
is_arg a = if a.quoted then lacks quote a.word else starts_bare a.word && lacks space a.word

abbrev pub AllArgs : List Arg → Type 0
AllArgs [] = Unit
AllArgs (a ∷ as') = (is_arg a ≡ true) × AllArgs as'

abbrev pub shown : Arg → Text
shown a = if a.quoted then quote ∷ (a.word ++ (quote ∷ [])) else a.word

-- The line, its arguments each followed by a space, the last by the newline.
abbrev pub typed : List Arg → Text
typed [] = b'\n' ∷ []
typed (a ∷ []) = replicate a.gap space ++ (shown a ++ (b'\n' ∷ []))
typed (a ∷ b ∷ as') = replicate a.gap space ++ (shown a ++ (space ∷ typed (b ∷ as')))

abbrev pub words : List Arg → List Text
words = map (λ a. a.word)

-- The line when the newline is blanked.
abbrev blanked : List Arg → Text
blanked [] = []
blanked (a ∷ as') = replicate a.gap space ++ (shown a ++ (space ∷ blanked as'))

blank_last-append :
    (xs : Text) (y : ℕ) (ys : Text) → blank_last (xs ++ (y ∷ ys)) ≡ xs ++ blank_last (y ∷ ys)
unfolding blank_last
blank_last-append [] y ys = refl
blank_last-append (x ∷ []) y ys = refl
blank_last-append (x ∷ z ∷ xs) y ys = ap (λ t. x ∷ t) (blank_last-append (z ∷ xs) y ys)

append-cons : (s : Text) (y : ℕ) (ys : Text) → (z : ℕ) × (zs : Text) × (s ++ (y ∷ ys) ≡ z ∷ zs)
append-cons [] y ys = (y, ys, refl)
append-cons (x ∷ s) y ys = (x, s ++ (y ∷ ys), refl)

typed-cons : (as' : List Arg) → (z : ℕ) × (zs : Text) × (typed as' ≡ z ∷ zs)
typed-cons [] = (b'\n', [], refl)
typed-cons (a ∷ []) = rw (← append_assoc) (append-cons (replicate a.gap space ++ shown a) b'\n' [])
typed-cons (a ∷ b ∷ as') =
    rw (← append_assoc) (append-cons (replicate a.gap space ++ shown a) space (typed (b ∷ as')))

blank_last-cons : (x : ℕ) (as' : List Arg) → blank_last (x ∷ typed as') ≡ x ∷ blank_last (typed as')
unfolding blank_last
blank_last-cons x as' = let (z, zs, e) = typed-cons as' in rw e

blank_last-middle :
    (p s : Text) (y : ℕ) (ys : Text)
    → blank_last (p ++ (s ++ (y ∷ ys))) ≡ p ++ (s ++ blank_last (y ∷ ys))
blank_last-middle p s y ys =
    ap blank_last (sym (append_assoc p s (y ∷ ys)))
    ∙ blank_last-append (p ++ s) y ys
    ∙ append_assoc p s (blank_last (y ∷ ys))

blank_last-typed : (a : Arg) (as' : List Arg) → blank_last (typed (a ∷ as')) ≡ blanked (a ∷ as')
blank_last-typed a [] =
    unfold blank_last in blank_last-middle (replicate a.gap space) (shown a) b'\n' []
blank_last-typed a (b ∷ as') =
    blank_last-middle (replicate a.gap space) (shown a) space (typed (b ∷ as'))
    ∙ rw (blank_last-cons space (b ∷ as'), blank_last-typed b as')

split_at-append :
    (c : ℕ) (xs r : Text) → lacks c xs ≡ true → split_at c (xs ++ (c ∷ r)) ≡ some (xs, r)
unfolding split_at
split_at-append c [] r h = ground arith
split_at-append c (x ∷ xs) r h = ground (arith, split_at-append c xs r)

skip_spaces-replicate : (n : ℕ) (t : Text) → skip_spaces (replicate n space ++ t) ≡ skip_spaces t
unfolding skip_spaces
skip_spaces-replicate zero t = refl
skip_spaces-replicate (suc n) t = skip_spaces-replicate n t

skip_spaces-shown :
    (a : Arg) (r : Text) → is_arg a ≡ true → skip_spaces (shown a ++ r) ≡ shown a ++ r
unfolding skip_spaces
skip_spaces-shown a r h = go a.quoted a.word h
  where
    go :
        (q : Bool) (w : Text)
        → is_arg (record { gap = 0; quoted = q; word = w }) ≡ true
        → skip_spaces (shown (record { gap = 0; quoted = q; word = w }) ++ r)
          ≡ shown (record { gap = 0; quoted = q; word = w }) ++ r
    go true w e = refl
    go false [] e = ground arith
    go false (x ∷ xs) e = ground arith

-- What the loop sees behind an argument, up to leading spaces.
next_arg-shown :
    (a : Arg) (r : Text)
    → is_arg a ≡ true
    → (t : Text) × (next_arg (shown a ++ (space ∷ r)) ≡ some (a.word, t))
      × (skip_spaces t ≡ skip_spaces r)
unfolding next_arg skip_spaces
next_arg-shown a r h = go a.quoted a.word h
  where
    go :
        (q : Bool) (w : Text)
        → is_arg (record { gap = 0; quoted = q; word = w }) ≡ true
        → (t : Text) × (next_arg (shown (record { gap = 0; quoted = q; word = w }) ++ (space ∷ r))
            ≡ some (w, t))
          × (skip_spaces t ≡ skip_spaces r)
    go true w e = (space ∷ r, rw append_assoc (split_at-append quote w (space ∷ r) e), refl)
    go false [] e = ground arith
    go false (x ∷ xs) e = (r, ground (arith, split_at-append space (x ∷ xs) r), refl)

arg_loop-blanked :
    (k : ℕ) (as' : List Arg)
    → AllArgs as'
    → length as' < k
    → arg_loop k (skip_spaces (blanked as')) ≡ some (words as')
unfolding arg_loop
arg_loop-blanked zero as' v h = absurd (omega arith)
arg_loop-blanked (suc k) [] v h = unfold skip_spaces next_arg split_at in refl
arg_loop-blanked (suc k) (a ∷ as') v h =
    let (t, e, s) = next_arg-shown a (blanked as') v.0 in
    rw (skip_spaces-replicate, skip_spaces-shown a (space ∷ blanked as') v.0)
      (rw (e, arg_loop) (rw (s, arg_loop-blanked k as' v.1 (omega arith))))

length-blanked : (as' : List Arg) → AllArgs as' → length as' ≤ length (skip_spaces (blanked as'))
length-blanked [] v = omega arith
length-blanked (a ∷ as') v =
    rw (skip_spaces-replicate, skip_spaces-shown a (space ∷ blanked as') v.0)
      (omega (
        arith,
        length-append (shown a) (space ∷ blanked as'),
        length-blanked as' v.1,
        length-skip_spaces (blanked as'),
      ))

parseline-typed :
    (a : Arg) (as' : List Arg)
    → AllArgs (a ∷ as')
    → parseline (typed (a ∷ as')) ≡ finish (some (words (a ∷ as')))
unfolding parseline
parseline-typed a as' v =
    rw blank_last-typed
      (ap finish (arg_loop-blanked _ (a ∷ as') v (omega (arith, length-blanked (a ∷ as') v))))

abbrev amp : ℕ → Arg
amp gap = record { gap = gap; quoted = false; word = b'&' ∷ [] }

last_arg-words :
    (b : Text) (as' : List Arg) (gap : ℕ) → last_arg b (words (as' ++ (amp gap ∷ []))) ≡ b'&' ∷ []
unfolding last_arg
last_arg-words b [] gap = refl
last_arg-words b (a ∷ as') gap = last_arg-words a.word as' gap

drop_last-words : (as' : List Arg) (gap : ℕ) → drop_last (words (as' ++ (amp gap ∷ []))) ≡ words as'
unfolding drop_last
drop_last-words [] gap = refl
drop_last-words (a ∷ []) gap = refl
drop_last-words (a ∷ b ∷ as') gap = ap (λ t. a.word ∷ t) (drop_last-words (b ∷ as') gap)

length-words : (as' : List Arg) → length (words as') ≡ length as'
length-words [] = refl
length-words (a ∷ as') = omega (arith, length-words as')

AllArgs-append : (as' : List Arg) (gap : ℕ) → AllArgs as' → AllArgs (as' ++ (amp gap ∷ []))
AllArgs-append [] gap v = (refl, tt)
AllArgs-append (a ∷ as') gap v = (v.0, AllArgs-append as' gap v.1)

-- A line typed from fewer than MAXARGS arguments, the last of which does not begin with `&`, is
-- read back as a foreground command with exactly these arguments, whatever the quotes and spaces.
pub parseline_foreground :
    (a : Arg) (as' : List Arg)
    → AllArgs (a ∷ as')
    → length (a ∷ as') < max_args
    → is_amp (last_arg a.word (words as')) ≡ false
    → parseline (typed (a ∷ as')) ≡ parsed false (words (a ∷ as'))
unfolding finish background
parseline_foreground a as' v few fore = parseline-typed a as' v ∙ ground (arith, length-words as')

-- With a last argument `&` it is read as a background command, without that argument.
pub parseline_background :
    (a : Arg) (as' : List Arg) (gap : ℕ)
    → AllArgs (a ∷ as')
    → length (a ∷ as') + 1 < max_args
    → parseline (typed (a ∷ (as' ++ (amp gap ∷ [])))) ≡ parsed true (words (a ∷ as'))
unfolding finish background is_amp
parseline_background a as' gap v few =
    parseline-typed a (as' ++ (amp gap ∷ [])) (v.0, AllArgs-append as' gap v.1)
    ∙ ground (
      arith,
      length-words (as' ++ (amp gap ∷ [])),
      length-append as' (amp gap ∷ []),
      last_arg-words a.word as' gap,
      drop_last-words (a ∷ as') gap,
    )

-- A line typed from MAXARGS arguments or more makes `parseline` store behind the end of `argv`.
pub parseline_smashed :
    (a : Arg) (as' : List Arg)
    → AllArgs (a ∷ as')
    → max_args ≤ length (a ∷ as')
    → parseline (typed (a ∷ as')) ≡ smashed
unfolding finish
parseline_smashed a as' v many = parseline-typed a as' v ∙ ground (arith, length-words as')

-- A line of spaces alone gives no argument, and counts as a background command.
pub parseline_blank : (n : ℕ) → parseline (replicate n space ++ (b'\n' ∷ [])) ≡ parsed true []
unfolding parseline
parseline_blank n = rw (blank_last-append (replicate n space) b'\n' []) (
    unfold blank_last in
    rw skip_spaces-replicate
      (unfold skip_spaces arg_loop next_arg split_at finish background in refl))
