-- ===== src/Malloclab/Sampler/Best.antt =====
-- `add_sample` of malloclab/fcyc.c keeps the smallest samples, in order.
use git_sty.Base.{
  ℕ, zero, suc, ◌-◌, ◌≡◌, ◌∙◌, ◌≤◌, ◌<◌, ap, sym, refl, true, false, List, [], ◌∷◌, ◌++◌, ltb,
  if◌then◌else◌, set, get_or, replicate, take, drop, take-append-drop, length-take, length, arith,
  Bool-cases, inl, inr,
}
use mathlib.Core.List.{append-nil}
use mathlib.Core.Path.{subst}
use git_sty.Malloclab.Sampler.{Params, Sampler, init_sampler, sift, store_sample, add_sample}
use git_sty.Malloclab.Sampler.Insert.{
  get_or-middle, set-middle, insert, ranked, After, Ordered, Ordered-front, Ordered-insert,
  sift-insert,
}

take_all : {A : Type 0} (k : ℕ) (xs : List A) → length xs ≤ k → take k xs ≡ xs
take_all zero [] h = refl
take_all zero (x ∷ xs) h = absurd (omega (arith, h))
take_all (suc k) [] h = refl
take_all (suc k) (x ∷ xs) h = ap (λ t. x ∷ t) (take_all k xs (omega (arith, h)))

take-nil : {A : Type 0} (k : ℕ) → take {A = A} k [] ≡ []
take-nil zero = refl
take-nil (suc k) = refl

take-suc :
    {A : Type 0} (n : ℕ) (xs : List A) (d : A)
    → n < length xs
    → take (suc n) xs ≡ take n xs ++ (get_or xs n d ∷ [])
take-suc n [] d h = absurd (omega (arith, h))
take-suc zero (x ∷ xs) d h = refl
take-suc (suc n) (x ∷ xs) d h = ap (λ t. x ∷ t) (take-suc n xs d (omega (arith, h)))

no_less : (k : ℕ) → k ≡ k - 0
no_less k = omega arith

module _ {A : Type 0} (p : Params A) where
  -- A sampler to which the samples are added one after the other.
  unfoldable pub add_all : List A → Sampler A → Sampler A
  add_all [] s = s
  add_all (v ∷ vs) s = add_all vs (add_sample p v s)

  module _ (asym : (a b : A) → p.less a b ≡ true → p.less b a ≡ false)
      (trans : (a b c : A) → p.less a b ≡ false → p.less b c ≡ false → p.less a c ≡ false) where
    -- Only the first `n` places matter where the sample is less than the one behind them.
    take-insert :
        (n : ℕ) (v : A) (xs : List A)
        → n < length xs
        → p.less v (get_or xs n p.zero_double) ≡ true
        → take (suc n) (insert p v xs) ≡ insert p v (take n xs)
    unfolding insert
    take-insert n v [] h e = absurd (omega (arith, h))
    take-insert zero v (x ∷ xs) h e = rw e refl
    take-insert (suc n) v (x ∷ xs) h e = elim (Bool-cases (p.less v x)) [
      | inl d ↦ rw d refl
      | inr d ↦ rw d (ap (λ t. x ∷ t) (take-insert n v xs (omega (arith, h)) e))
    ]

    After-get :
        (x : A) (n : ℕ) (xs : List A)
        → n < length xs
        → After p x xs
        → p.less (get_or xs n p.zero_double) x ≡ false
    unfolding After
    After-get x n [] h a = absurd (omega (arith, h))
    After-get x zero (y ∷ ys) h (e, a) = e
    After-get x (suc n) (y ∷ ys) h (e, a) = After-get x n ys (omega (arith, h)) a

    -- A sample that is not less than the last one kept changes none of them.
    take-insert_same :
        (n : ℕ) (v : A) (xs : List A)
        → n < length xs
        → Ordered p xs
        → p.less v (get_or xs n p.zero_double) ≡ false
        → take (suc n) (insert p v xs) ≡ take (suc n) xs
    unfolding insert Ordered
    take-insert_same n v [] h o e = absurd (omega (arith, h))
    take-insert_same zero v (x ∷ xs) h o e = rw e refl
    take-insert_same (suc n) v (x ∷ xs) h (a, o) e =
        let b = After-get x n xs (omega (arith, h)) a in
        let d : p.less v x ≡ false = trans v (get_or xs n p.zero_double) x e b in
        rw d (ap (λ t. x ∷ t) (take-insert_same n v xs (omega (arith, h)) o e))

    -- The sampler holds the first of the ranked samples `done`, and zeros behind them.
    record Keeps (done : List A) (s : Sampler A) : Type 0 where
      values : s.values ≡ take p.kbest done ++ replicate (p.kbest - length done) p.zero_double
      count : s.samplecount ≡ length done

    length-insert : (v : A) (xs : List A) → length (insert p v xs) ≡ suc (length xs)
    unfolding insert
    length-insert v [] = refl
    length-insert v (x ∷ xs) = elim (Bool-cases (p.less v x)) [
      | inl d ↦ rw d refl
      | inr d ↦ rw d (ap suc (length-insert v xs))
    ]

    length_after :
        (v : A) (done : List A) → p.kbest - length (insert p v done) ≡ p.kbest - suc (length done)
    length_after v done = ap (λ t. p.kbest - t) (length-insert v done)

    filling :
        (v : A) (done : List A) (s : Sampler A)
        → Ordered p done
        → Keeps done s
        → length done < p.kbest
        → store_sample p v s
          ≡ take p.kbest (insert p v done)
            ++ replicate (p.kbest - length (insert p v done)) p.zero_double
    unfolding store_sample
    filling v done s o k l =
        let room : ltb s.samplecount p.kbest ≡ true = ground (arith, k.count, l) in
        let m = p.kbest - suc (length done) in
        let z = p.zero_double in
        let more : p.kbest - length done ≡ suc m = omega (arith, l) in
        let values : s.values ≡ done ++ (z ∷ replicate m z) =
          k.values
          ∙ ap (λ t. t ++ replicate (p.kbest - length done) z)
              (take_all p.kbest done (omega (arith, l)))
          ∙ ap (λ t. done ++ replicate t z) more in
        rw (room, values, k.count, set-middle done z v (replicate m z))
          (sift-insert p asym trans (length done) done v (replicate m z) refl o
            ∙ ap (λ t. t ++ replicate m z)
                (sym (take_all p.kbest (insert p v done) (omega (arith, l, length-insert v done))))
            ∙ ap (λ t. take p.kbest (insert p v done) ++ replicate t z) (sym (length_after v done)))

    -- The last sample kept gives way to a smaller one.
    replaced :
        (n : ℕ) (v : A) (done values : List A)
        → Ordered p done
        → suc n ≤ length done
        → values ≡ take (suc n) done
        → (if p.less v (get_or values n p.zero_double) then sift p n (set values n v) else values)
          ≡ take (suc n) (insert p v done)
    replaced n v done values o l e =
        let ys = take n done in
        let y = get_or done n p.zero_double in
        let parts = e ∙ take-suc n done p.zero_double l in
        let size : length ys ≡ n = omega (arith, l, length-take n done) in
        let last : get_or values n p.zero_double ≡ y =
          ap (λ t. get_or t n p.zero_double) parts
          ∙ ap (λ k. get_or (ys ++ (y ∷ [])) k p.zero_double) (sym size)
          ∙ get_or-middle ys y [] p.zero_double in
        let with_v : set values n v ≡ ys ++ (v ∷ []) =
          ap (λ t. set t n v) parts
          ∙ ap (λ k. set (ys ++ (y ∷ [])) k v) (sym size)
          ∙ set-middle ys y v [] in
        elim (Bool-cases (p.less v y)) [
          | inl d ↦
              let o' =
                Ordered-front p ys (drop n done)
                  (subst (Ordered p) (sym (take-append-drop n done)) o) in
              rw (last, d, with_v)
                (sift-insert p asym trans n ys v [] size o'
                  ∙ append-nil (insert p v ys)
                  ∙ sym (take-insert n v done l d))
          | inr d ↦ rw (last, d) (e ∙ sym (take-insert_same n v done l o d))
        ]

    replacing :
        (v : A) (done : List A) (s : Sampler A)
        → Ordered p done
        → Keeps done s
        → 0 < p.kbest
        → p.kbest ≤ length done
        → store_sample p v s
          ≡ take p.kbest (insert p v done)
            ++ replicate (p.kbest - length (insert p v done)) p.zero_double
    unfolding store_sample
    replacing v done s o k z l =
        let full : ltb s.samplecount p.kbest ≡ false = ground (arith, k.count, l) in
        let n = p.kbest - 1 in
        let e : p.kbest ≡ suc n = omega (arith, z) in
        let none_left : p.kbest - length done ≡ 0 = omega (arith, l) in
        let still_none : p.kbest - length (insert p v done) ≡ 0 =
          omega (arith, l, length-insert v done) in
        let zeros = λ (t : ℕ). replicate t p.zero_double in
        let values : s.values ≡ take (suc n) done =
          k.values
          ∙ ap (λ t. take p.kbest done ++ zeros t) none_left
          ∙ append-nil (take p.kbest done)
          ∙ ap (λ t. take t done) e in
        rw full (
          replaced n v done s.values o (omega (arith, e, l)) values
          ∙ ap (λ t. take t (insert p v done)) (sym e)
          ∙ sym (
              ap (λ t. take p.kbest (insert p v done) ++ zeros t) still_none
              ∙ append-nil (take p.kbest (insert p v done))))

    add_sample-Keeps :
        (v : A) (done : List A) (s : Sampler A)
        → Ordered p done
        → 0 < p.kbest
        → Keeps done s
        → Keeps (insert p v done) (add_sample p v s)
    unfolding add_sample
    add_sample-Keeps v done s o z k = record {
      values = elim (Bool-cases (ltb (length done) p.kbest)) [
        | inl d ↦ filling v done s o k (ground arith)
        | inr d ↦ replacing v done s o k z (ground arith)
      ];
      count = omega (arith, k.count, length-insert v done);
    }

    add_all-Keeps :
        (vs done : List A) (s : Sampler A)
        → Ordered p done
        → 0 < p.kbest
        → Keeps done s
        → Keeps (ranked p done vs) (add_all vs s)
    unfolding add_all ranked
    add_all-Keeps [] done s o z k = k
    add_all-Keeps (v ∷ vs) done s o z k =
        add_all-Keeps vs (insert p v done) (add_sample p v s) (Ordered-insert p asym trans v done o)
          z (add_sample-Keeps v done s o z k)

    -- Where the comparison of the samples is a strict weak order and one sample or more is to be kept: after any samples,
    -- the sampler holds the smallest `kbest` of them in order, equal ones as they came, and zeros behind them
    -- while there are fewer.
    pub add_all-ranked :
        (vs : List A)
        → 0 < p.kbest
        → (add_all vs (init_sampler p)).values
          ≡ take p.kbest (ranked p [] vs)
            ++ replicate (p.kbest - length (ranked p [] vs)) p.zero_double
    unfolding init_sampler Ordered
    add_all-ranked vs z =
        let start : Keeps [] (init_sampler p) = record {
          values =
              ap (λ t. t ++ replicate p.kbest p.zero_double) (sym (take-nil p.kbest))
              ∙ ap (λ t. take p.kbest [] ++ replicate t p.zero_double) (no_less p.kbest);
          count = refl;
        } in
        (add_all-Keeps vs [] (init_sampler p) tt z start).values
