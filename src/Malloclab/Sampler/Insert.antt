-- ===== src/Malloclab/Sampler/Insert.antt =====
-- The insertion sort of malloclab/fcyc.c, on samples in order.
use git_sty.Base.{
  ℕ, zero, suc, ◌≡◌, ◌∙◌, ap, sym, refl, true, false, List, [], ◌∷◌, ◌++◌, if◌then◌else◌, set,
  get_or, length, length-append, arith, Bool-cases, inl, inr,
}
use mathlib.Core.List.{append_assoc}
use mathlib.Core.Path.{subst}
use git_sty.Malloclab.Sampler.{Params, sift}

pub get_or-middle :
    {A : Type 0} (xs : List A) (y : A) (ys : List A) (d : A)
    → get_or (xs ++ (y ∷ ys)) (length xs) d ≡ y
get_or-middle [] y ys d = refl
get_or-middle (x ∷ xs) y ys d = get_or-middle xs y ys d

get_or-next :
    {A : Type 0} (xs : List A) (x y : A) (ys : List A) (d : A)
    → get_or (xs ++ (x ∷ y ∷ ys)) (suc (length xs)) d ≡ y
get_or-next [] x y ys d = refl
get_or-next (z ∷ xs) x y ys d = get_or-next xs x y ys d

pub set-middle :
    {A : Type 0} (xs : List A) (y v : A) (ys : List A)
    → set (xs ++ (y ∷ ys)) (length xs) v ≡ xs ++ (v ∷ ys)
set-middle [] y v ys = refl
set-middle (x ∷ xs) y v ys = ap (λ t. x ∷ t) (set-middle xs y v ys)

set-next :
    {A : Type 0} (xs : List A) (x y v : A) (ys : List A)
    → set (xs ++ (x ∷ y ∷ ys)) (suc (length xs)) v ≡ xs ++ (x ∷ v ∷ ys)
set-next [] x y v ys = refl
set-next (z ∷ xs) x y v ys = ap (λ t. z ∷ t) (set-next xs x y v ys)

split_last :
    {A : Type 0} (x : A) (xs : List A) → (ys : List A) × ((y : A) × (x ∷ xs ≡ ys ++ (y ∷ [])))
split_last x [] = ([], (x, refl))
split_last x (z ∷ zs) = let (ys, (y, e)) = split_last z zs in (x ∷ ys, (y, ap (λ t. x ∷ t) e))

module _ {A : Type 0} (p : Params A) where
  -- Insert a sample behind those that it is not less than.
  unfoldable pub insert : A → List A → List A
  insert v [] = v ∷ []
  insert v (x ∷ xs) = let rest = insert v xs in if p.less v x then v ∷ x ∷ xs else x ∷ rest

  -- The samples in order, as they come.
  unfoldable pub ranked : List A → List A → List A
  ranked done [] = done
  ranked done (v ∷ vs) = ranked (insert v done) vs

  -- `v` is less than no sample of the list.
  unfoldable NotBelow : A → List A → Type 0
  NotBelow v [] = Unit
  NotBelow v (x ∷ xs) = (p.less v x ≡ false) × NotBelow v xs

  unfoldable pub After : A → List A → Type 0
  After x [] = Unit
  After x (y ∷ ys) = (p.less y x ≡ false) × After x ys

  -- No sample is less than one before it.
  unfoldable pub Ordered : List A → Type 0
  Ordered [] = Unit
  Ordered (x ∷ xs) = After x xs × Ordered xs

  insert-below :
      (v y : A) (ys : List A)
      → p.less v y ≡ true
      → insert v (ys ++ (y ∷ [])) ≡ insert v ys ++ (y ∷ [])
  unfolding insert
  insert-below v y [] e = rw e refl
  insert-below v y (x ∷ ys) e = elim (Bool-cases (p.less v x)) [
    | inl d ↦ rw d refl
    | inr d ↦ rw d (ap (λ t. x ∷ t) (insert-below v y ys e))
  ]

  insert-above : (v : A) (xs : List A) → NotBelow v xs → insert v xs ≡ xs ++ (v ∷ [])
  unfolding insert NotBelow
  insert-above v [] n = refl
  insert-above v (x ∷ xs) (d, n) = rw d (ap (λ t. x ∷ t) (insert-above v xs n))

  After-last : (x y : A) (ys : List A) → After x (ys ++ (y ∷ [])) → p.less y x ≡ false
  unfolding After
  After-last x y [] (e, a) = e
  After-last x y (z ∷ ys) (e, a) = After-last x y ys a

  After-front : (x : A) (xs ys : List A) → After x (xs ++ ys) → After x xs
  unfolding After
  After-front x [] ys a = tt
  After-front x (y ∷ xs) ys (e, a) = (e, After-front x xs ys a)

  pub Ordered-front : (xs ys : List A) → Ordered (xs ++ ys) → Ordered xs
  unfolding Ordered
  Ordered-front [] ys o = tt
  Ordered-front (x ∷ xs) ys (a, o) = (After-front x xs ys a, Ordered-front xs ys o)

  sift_step :
      (ys : List A) (y v : A) (more : List A)
      → sift p (suc (length ys)) (ys ++ (y ∷ v ∷ more))
        ≡ (if p.less v y then sift p (length ys) (ys ++ (v ∷ y ∷ more)) else ys ++ (y ∷ v ∷ more))
  unfolding sift
  sift_step ys y v more =
      rw
        (
          get_or-next ys y v more p.zero_double,
          get_or-middle ys y (v ∷ more) p.zero_double,
          set-middle ys y v (v ∷ more),
          set-next ys v v y more,
        )
        refl

  module _ (asym : (a b : A) → p.less a b ≡ true → p.less b a ≡ false)
      (trans : (a b c : A) → p.less a b ≡ false → p.less b c ≡ false → p.less a c ≡ false) where
    NotBelow-last :
        (v y : A) (ys : List A)
        → Ordered (ys ++ (y ∷ []))
        → p.less v y ≡ false
        → NotBelow v (ys ++ (y ∷ []))
    unfolding Ordered NotBelow
    NotBelow-last v y [] o e = (e, tt)
    NotBelow-last v y (x ∷ ys) (a, o) e =
        (trans v y x e (After-last x y ys a), NotBelow-last v y ys o e)

    After-insert : (x v : A) (xs : List A) → p.less v x ≡ false → After x xs → After x (insert v xs)
    unfolding After insert
    After-insert x v [] e a = (e, tt)
    After-insert x v (y ∷ ys) e (d, a) = elim (Bool-cases (p.less v y)) [
      | inl f ↦ rw f (e, (d, a))
      | inr f ↦ rw f (d, After-insert x v ys e a)
    ]

    After-under : (v x : A) (xs : List A) → p.less x v ≡ false → After x xs → After v xs
    unfolding After
    After-under v x [] e a = tt
    After-under v x (y ∷ ys) e (d, a) = (trans y x v d e, After-under v x ys e a)

    pub Ordered-insert : (v : A) (xs : List A) → Ordered xs → Ordered (insert v xs)
    unfolding Ordered insert After
    Ordered-insert v [] o = (tt, tt)
    Ordered-insert v (x ∷ xs) (a, o) = elim (Bool-cases (p.less v x)) [
      | inl f ↦ rw f ((asym v x f, After-under v x xs (asym v x f) a), (a, o))
      | inr f ↦ rw f (After-insert x v xs f a, Ordered-insert v xs o)
    ]

    -- One round of the insertion sort, and then the others.
    sift_last :
        (ys : List A) (y v : A) (more : List A)
        → Ordered (ys ++ (y ∷ []))
        → sift p (length ys) (ys ++ (v ∷ y ∷ more)) ≡ insert v ys ++ (y ∷ more)
        → sift p (suc (length ys)) (ys ++ (y ∷ v ∷ more)) ≡ insert v (ys ++ (y ∷ [])) ++ more
    sift_last ys y v more o e = elim (Bool-cases (p.less v y)) [
      | inl d ↦
          sift_step ys y v more
          ∙ rw d (
              e
              ∙ sym (append_assoc (insert v ys) (y ∷ []) more)
              ∙ ap (λ t. t ++ more) (sym (insert-below v y ys d)))
      | inr d ↦
          sift_step ys y v more
          ∙ rw d (
              sym (append_assoc ys (y ∷ []) (v ∷ more))
              ∙ sym (append_assoc (ys ++ (y ∷ [])) (v ∷ []) more)
              ∙ ap (λ t. t ++ more)
                  (sym (insert-above v (ys ++ (y ∷ [])) (NotBelow-last v y ys o d))))
    ]

    -- The insertion sort puts a sample where `insert` does.
    pub sift-insert :
        (n : ℕ) (xs : List A) (v : A) (more : List A)
        → length xs ≡ n
        → Ordered xs
        → sift p n (xs ++ (v ∷ more)) ≡ insert v xs ++ more
    sift-insert zero [] v more e o = unfold sift insert in refl
    sift-insert zero (x ∷ xs) v more e o = absurd (omega (arith, e))
    sift-insert (suc n) [] v more e o = absurd (omega (arith, e))
    sift-insert (suc n) (x ∷ xs) v more e o =
        let (ys, (y, f)) = split_last x xs in
        let m : length ys ≡ n = omega (arith, e, ap length f, length-append ys (y ∷ [])) in
        let o' = subst Ordered f o in
        let ih =
          subst (λ k. sift p k (ys ++ (v ∷ y ∷ more)) ≡ insert v ys ++ (y ∷ more)) (sym m)
            (sift-insert n ys v (y ∷ more) m (Ordered-front ys (y ∷ []) o')) in
        ap (λ t. sift p (suc n) (t ++ (v ∷ more))) f
        ∙ ap (sift p (suc n)) (append_assoc ys (y ∷ []) (v ∷ more))
        ∙ subst (λ k. sift p (suc k) (ys ++ (y ∷ v ∷ more)) ≡ insert v (ys ++ (y ∷ [])) ++ more) m
            (sift_last ys y v more o' ih)
        ∙ ap (λ t. insert v t ++ more) (sym f)
