-- ===== src/Malloclab/FreeList/Insert.antt =====
-- A block put into the middle of the free list.
use git_sty.Base.{ap, ℕ, ◌≡◌, ◌≢◌, ◌∙◌, sym, refl, List, [], ◌∷◌, ◌++◌, arith}
use mathlib.Core.List.{append_assoc}
use mathlib.Core.Path.{subst}
use git_sty.Malloclab.FirstFit.{Words, put}
use git_sty.Malloclab.FreeList.{next_ptr, prev_ptr, add_before}
use git_sty.Malloclab.FreeList.Chained.{
  Chained, IsPointer, Pointers, NotAmong, Distinct, Away, Away-at, Away-next, Away-prev,
  put_elsewhere, put_here, put-Chained,
}
use git_sty.Malloclab.FreeList.Split.{
  Chained_cut, Chained_join, put_before, Pointers-cut, NotAmong-cut, Distinct-before, Distinct-cut,
}

module _ (b : ℕ) (xs : List ℕ) (x place : ℕ) (ys : List ℕ) (w : Words)
    (c : Chained w (xs ++ (x ∷ place ∷ ys))) (p : Pointers (xs ++ (x ∷ place ∷ ys)))
    (d : Distinct (xs ++ (x ∷ place ∷ ys))) (i : IsPointer b)
    (n : NotAmong b (xs ++ (x ∷ place ∷ ys))) where
  w₁ : Words
  w₁ = put (next_ptr b) place w

  w₂ : Words
  w₂ = put (prev_ptr b) x w₁

  w₃ : Words
  w₃ = put (next_ptr x) b w₂

  inserted : Words
  inserted = put (prev_ptr place) b w₃

  -- Which of the blocks are which.
  p_xs : Pointers xs
  p_xs = (Pointers-cut xs (x ∷ place ∷ ys) p).0

  p_tail : Pointers (x ∷ place ∷ ys)
  p_tail = (Pointers-cut xs (x ∷ place ∷ ys) p).1

  i_x : IsPointer x
  unfolding Pointers
  i_x = p_tail.0

  i_place : IsPointer place
  unfolding Pointers
  i_place = p_tail.1.0

  p_ys : Pointers ys
  unfolding Pointers
  p_ys = p_tail.1.1

  x_xs : NotAmong x xs
  x_xs = Distinct-before xs x (place ∷ ys) d

  place_front : NotAmong place (xs ++ (x ∷ []))
  place_front =
      Distinct-before (xs ++ (x ∷ [])) place ys
        (subst Distinct (sym (append_assoc xs (x ∷ []) (place ∷ ys))) d)

  place_xs : NotAmong place xs
  place_xs = (NotAmong-cut place xs (x ∷ []) place_front).0

  place_x : place ≢ x
  unfolding NotAmong
  place_x = (NotAmong-cut place xs (x ∷ []) place_front).1.0

  x_ys : NotAmong x ys
  unfolding Distinct NotAmong
  x_ys = (Distinct-cut xs (x ∷ place ∷ ys) d).0.1

  place_ys : NotAmong place ys
  unfolding Distinct NotAmong
  place_ys = (Distinct-cut xs (x ∷ place ∷ ys) d).1.0

  b_xs : NotAmong b xs
  b_xs = (NotAmong-cut b xs (x ∷ place ∷ ys) n).0

  b_x : b ≢ x
  unfolding NotAmong
  b_x = (NotAmong-cut b xs (x ∷ place ∷ ys) n).1.0

  b_place : b ≢ place
  unfolding NotAmong
  b_place = (NotAmong-cut b xs (x ∷ place ∷ ys) n).1.1.0

  b_ys : NotAmong b ys
  unfolding NotAmong
  b_ys = (NotAmong-cut b xs (x ∷ place ∷ ys) n).1.1.1

  front : Chained inserted (xs ++ (x ∷ []))
  unfolding inserted w₁ w₂ w₃
  front =
      put_before (prev_ptr place) b xs x w₃ (Away-prev place xs i_place p_xs place_xs)
        (λ e. place_x (omega (arith, i_place, i_x, e)))
        (put_before (next_ptr x) b xs x w₂ (Away-next x xs i_x p_xs x_xs)
          (λ e. omega (arith, i_x, e))
          (put_before (prev_ptr b) x xs x w₁ (Away-prev b xs i p_xs b_xs)
            (λ e. b_x (omega (arith, i, i_x, e)))
            (put_before (next_ptr b) place xs x w (Away-next b xs i p_xs b_xs)
              (λ e. omega (arith, i, i_x, e)) (Chained_cut w xs x (place ∷ ys) c).0)))

  back : Chained inserted (place ∷ ys)
  unfolding inserted w₁ w₂ w₃ Chained
  back =
      put-Chained (prev_ptr place) b place ys w₃ (λ e. omega (arith, i_place, e))
        (Away-prev place ys i_place p_ys place_ys)
        (put-Chained (next_ptr x) b place ys w₂ (λ e. place_x (omega (arith, i_place, i_x, e)))
          (Away-next x ys i_x p_ys x_ys)
          (put-Chained (prev_ptr b) x place ys w₁ (λ e. omega (arith, i, i_place, e))
            (Away-prev b ys i p_ys b_ys)
            (put-Chained (next_ptr b) place place ys w (λ e. b_place (omega (arith, i, i_place, e)))
              (Away-next b ys i p_ys b_ys) (Chained_cut w xs x (place ∷ ys) c).1.1.1)))

  middle : Chained inserted (x ∷ b ∷ place ∷ ys)
  unfolding inserted w₁ w₂ w₃ Chained
  middle = (
    put_elsewhere (prev_ptr place) b (next_ptr x) w₃ (λ e. omega (arith, i_place, i_x, e))
        ∙ put_here (next_ptr x) b w₂,
    (
      put_elsewhere (prev_ptr place) b (prev_ptr b) w₃ (λ e. b_place (omega (arith, i, i_place, e)))
          ∙ put_elsewhere (next_ptr x) b (prev_ptr b) w₂ (λ e. omega (arith, i, i_x, e))
          ∙ put_here (prev_ptr b) x w₁,
      (
        put_elsewhere (prev_ptr place) b (next_ptr b) w₃ (λ e. omega (arith, i, i_place, e))
            ∙ put_elsewhere (next_ptr x) b (next_ptr b) w₂ (λ e. b_x (omega (arith, i, i_x, e)))
            ∙ put_elsewhere (prev_ptr b) x (next_ptr b) w₁ (λ e. omega (arith, i, e))
            ∙ put_here (next_ptr b) place w,
        (put_here (prev_ptr place) b w₃, back),
      ),
    ),
  )

  inserted-Chained : Chained inserted (xs ++ (x ∷ b ∷ place ∷ ys))
  inserted-Chained = Chained_join inserted xs x (b ∷ place ∷ ys) front middle

  prev_place : w (prev_ptr place) ≡ x
  unfolding Chained
  prev_place = (Chained_cut w xs x (place ∷ ys) c).1.1.0

  add_before-inserted :
      (r z : ℕ) → (add_before b place (record { words = w; root = r; last = z })).words ≡ inserted
  unfolding add_before inserted w₁ w₂ w₃
  add_before-inserted r z =
      let e : put (next_ptr b) place w (prev_ptr place) ≡ x =
        put_elsewhere (next_ptr b) place (prev_ptr place) w (λ e. omega (arith, i, i_place, e))
        ∙ prev_place in
      rw (e, put_here (prev_ptr b) x (put (next_ptr b) place w)) refl

  pub add_before-Chained :
      (r z : ℕ)
      → Chained
          ((add_before b place (record { words = w; root = r; last = z })).words)
          (xs ++ (x ∷ b ∷ place ∷ ys))
  add_before-Chained r z =
      subst (λ v. Chained v (xs ++ (x ∷ b ∷ place ∷ ys))) (sym (add_before-inserted r z))
        inserted-Chained

  pub add_before-frame :
      (r z a : ℕ)
      → Away a (b ∷ (xs ++ (x ∷ place ∷ ys)))
      → (add_before b place (record { words = w; root = r; last = z })).words a ≡ w a
  unfolding inserted w₁ w₂ w₃ Away
  add_before-frame r z a (d, (e, f)) =
      let at_x = Away-at a xs x (place ∷ ys) f in
      let at_place =
        Away-at a (xs ++ (x ∷ [])) place ys
          (subst (Away a) (sym (append_assoc xs (x ∷ []) (place ∷ ys))) f) in
      ap (λ v. v a) (add_before-inserted r z)
      ∙ put_elsewhere (prev_ptr place) b a w₃ (λ v. at_place.1 (sym v))
      ∙ put_elsewhere (next_ptr x) b a w₂ (λ v. at_x.0 (sym v))
      ∙ put_elsewhere (prev_ptr b) x a w₁ (λ v. e (sym v))
      ∙ put_elsewhere (next_ptr b) place a w (λ v. d (sym v))

-- A block put at the end.
pub end-Chained :
    (b : ℕ) (xs : List ℕ) (x : ℕ) (w : Words)
    → Chained w (xs ++ (x ∷ []))
    → Pointers (xs ++ (x ∷ []))
    → Distinct (xs ++ (x ∷ []))
    → IsPointer b
    → NotAmong b (xs ++ (x ∷ []))
    → Chained (put (next_ptr x) b (put (prev_ptr b) x w)) (xs ++ (x ∷ b ∷ []))
unfolding Chained Pointers NotAmong
end-Chained b xs x w c p d i n =
    let q = Pointers-cut xs (x ∷ []) p in
    let m = NotAmong-cut b xs (x ∷ []) n in
    let w₁ = put (prev_ptr b) x w in
    Chained_join (put (next_ptr x) b w₁) xs x (b ∷ [])
      (put_before (next_ptr x) b xs x w₁ (Away-next x xs q.1.0 q.0 (Distinct-before xs x [] d))
        (λ e. omega (arith, q.1.0, e))
        (put_before (prev_ptr b) x xs x w (Away-prev b xs i q.0 m.0)
          (λ e. m.1.0 (omega (arith, i, q.1.0, e))) c))
      (
        put_here (next_ptr x) b w₁,
        (
          put_elsewhere (next_ptr x) b (prev_ptr b) w₁ (λ e. omega (arith, i, q.1.0, e))
              ∙ put_here (prev_ptr b) x w,
          tt,
        ),
      )
