-- ===== src/Malloclab/Driver/Slots.antt =====
-- The indices of a trace and the pointers that the driver keeps for them in `blocks`.
use git_sty.Base.{
  ℕ, ◌<◌, ◌≡◌, ◌≢◌, ◌∙◌, ap, sym, Bool, true, false, ◌==◌, if◌then◌else◌, none, some, List, length,
  set, get_or, get_or-set_self, get_or-set_ne, arith, Bool-cases, inl, inr,
}
use git_sty.Malloclab.FirstFit.Live.{some-none, Live, update}

abbrev pub mark : ℕ → Bool → (ℕ → Bool) → ℕ → Bool
mark i v used j = if j == i then v else used j

-- Each used index has a block in use, and no two have the same.
pub record Slots (live : Live) (used : ℕ → Bool) (blocks : List ℕ) : Type 0 where
  pub held : (i : ℕ) → used i ≡ true → (s : ℕ) × (live (get_or blocks i 0) ≡ some s)
  pub distinct :
      (i j : ℕ) → used i ≡ true → used j ≡ true → get_or blocks i 0 ≡ get_or blocks j 0 → i ≡ j

other_pointer : (live : Live) (p q s : ℕ) → live p ≡ some s → live q ≡ none → p ≢ q
other_pointer live p q s e f d = some-none s (sym e ∙ ap live d ∙ f)

module _ (live : Live) (used : ℕ → Bool) (blocks : List ℕ) (s : Slots live used blocks) where
  module _ (i q size : ℕ) (b : i < length blocks) (e : live q ≡ none) where
    self : get_or (set blocks i q) i 0 ≡ q
    self = get_or-set_self blocks i q 0 b

    others : (j : ℕ) → (j == i) ≡ false → get_or (set blocks i q) j 0 ≡ get_or blocks j 0
    others j d = get_or-set_ne blocks i j q 0 (λ x. ground (arith, x))

    unequal :
        (j : ℕ) → mark i true used j ≡ true → (j == i) ≡ false → get_or (set blocks i q) j 0 ≢ q
    unequal j u d =
        let (t, f) = s.held j (ground arith) in
        rw (others j d) (other_pointer live (get_or blocks j 0) q t f e)

    same : (j : ℕ) → (j == i) ≡ true → get_or (set blocks i q) j 0 ≡ q
    same j d = let m : j ≡ i = ground arith in ap (λ k. get_or (set blocks i q) k 0) m ∙ self

    pub Slots-add : Slots (update q (some size) live) (mark i true used) (set blocks i q)
    Slots-add = record {
      held = λ j u. elim (Bool-cases (j == i)) [
        | inl d ↦ (size, ground (arith, same j d))
        | inr d ↦
            let (t, f) = s.held j (ground arith) in
            let o : get_or blocks j 0 ≢ q = other_pointer live (get_or blocks j 0) q t f e in
            (t, rw (others j d) (ground (arith, o)))
      ];
      distinct = λ j k u v g. elim (Bool-cases (j == i)) [
        | inl d ↦ elim (Bool-cases (k == i)) [
          | inl f ↦ ground arith
          | inr f ↦ absurd (unequal k v f (sym g ∙ same j d))
        ]
        | inr d ↦ elim (Bool-cases (k == i)) [
          | inl f ↦ absurd (unequal j u d (g ∙ same k f))
          | inr f ↦ s.distinct j k (ground arith) (ground arith) (sym (others j d) ∙ g ∙ others k f)
        ]
      ];
    }

  pub Slots-remove :
      (i : ℕ)
      → used i ≡ true
      → Slots (update (get_or blocks i 0) none live) (mark i false used) blocks
  Slots-remove i y = record {
    held = λ j u.
        let d : (j == i) ≡ false = ground arith in
        let v : used j ≡ true = ground arith in
        let (t, f) = s.held j v in
        let o : get_or blocks j 0 ≢ get_or blocks i 0 = λ x. ground (arith, s.distinct j i v y x) in
        (t, ground (arith, o));
    distinct = λ j k u v g. s.distinct j k (ground arith) (ground arith) g;
  }
