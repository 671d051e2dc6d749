-- ===== src/Malloclab/FreeList/Add.antt =====
-- `add_free_block` puts a block where the sizes beside it allow.
use git_sty.Base.{
  ℕ, zero, suc, ◌≤◌, ◌<◌, ◌≡◌, ◌∙◌, ap, sym, refl, List, [], ◌∷◌, ◌++◌, Option, none, some, ◌&&◌,
  false, ◌==◌, leb, length, Bool-cases, inl, inr, arith,
}
use mathlib.Core.List.{append_assoc, append-nil}
use mathlib.Core.Path.{subst}
use git_sty.Malloclab.FirstFit.{Words, put}
use git_sty.Malloclab.FreeList.{
  FreeList, next_ptr, prev_ptr, null, size_of, Sought, reached, lost, find_fit, add_first, add_last,
  add_before, add_at, add_free_block,
}
use git_sty.Malloclab.FreeList.Chained.{
  Chained, IsPointer, Pointers, NotAmong, Distinct, head_or, last_or, Holds, add_first-Holds,
  add_first-frame, Away, Away-at, put_elsewhere,
}
use git_sty.Malloclab.FreeList.Split.{Pointers-cut, Pointers-join, Distinct-insert}
use git_sty.Malloclab.FreeList.Search.{Spot, Spots, searched}
use git_sty.Malloclab.FreeList.Insert.{add_before-Chained, add_before-frame, end-Chained}

pub last_or-append :
    (xs : List ℕ) (x : ℕ) (ys : List ℕ) → last_or (xs ++ (x ∷ ys)) ≡ last_or (x ∷ ys)
unfolding last_or
last_or-append [] x ys = refl
last_or-append (y ∷ []) x ys = refl
last_or-append (y ∷ z ∷ xs) x ys = last_or-append (z ∷ xs) x ys

pub head_or-append :
    (xs : List ℕ) (x : ℕ) (ys zs : List ℕ) → head_or (xs ++ (x ∷ ys)) ≡ head_or (xs ++ (x ∷ zs))
head_or-append [] x ys zs = refl
head_or-append (y ∷ xs) x ys zs = refl

-- The neighbours of a place for a block of `size` bytes: not larger before it, not smaller behind.
pub record Fits (w : Words) (size : ℕ) (before after : List ℕ) : Type 0 where
  pub left : (0 < length before) → size_of w (last_or before) ≤ size
  pub right : (0 < length after) → size ≤ size_of w (head_or after)

-- Where the new block stands in the list afterwards.
pub record AddedAt (w : Words) (b : ℕ) (bs : List ℕ) (l' : FreeList) : Type 0 where
  pub before : List ℕ
  pub after : List ℕ
  pub parts : bs ≡ before ++ after
  pub fits : Fits w (size_of w b) before after
  pub holds : Holds l' (before ++ (b ∷ after))
  pub frame : (a : ℕ) → Away a (b ∷ bs) → l'.words a ≡ w a

unfoldable pub Adds : Words → ℕ → List ℕ → Option FreeList → Type 0
Adds w b bs (some l') = AddedAt w b bs l'
Adds w b bs none = ⊥

insert-Pointers :
    (b : ℕ) (bs xs ys : List ℕ)
    → bs ≡ xs ++ ys
    → IsPointer b
    → Pointers bs
    → Pointers (xs ++ (b ∷ ys))
unfolding Pointers
insert-Pointers b bs xs ys e i p =
    let r = Pointers-cut xs ys (subst Pointers e p) in Pointers-join xs (b ∷ ys) r.0 (i, r.1)

insert-Distinct :
    (b : ℕ) (bs xs ys : List ℕ)
    → bs ≡ xs ++ ys
    → NotAmong b bs
    → Distinct bs
    → Distinct (xs ++ (b ∷ ys))
insert-Distinct b bs xs ys e n d =
    Distinct-insert b xs ys (subst (NotAmong b) e n) (subst Distinct e d)

end-frame :
    (b : ℕ) (xs : List ℕ) (x : ℕ) (w : Words) (a : ℕ)
    → Away a (b ∷ (xs ++ (x ∷ [])))
    → put (next_ptr x) b (put (prev_ptr b) x w) a ≡ w a
unfolding Away
end-frame b xs x w a (d, (e, f)) =
    let at_x = Away-at a xs x [] f in
    put_elsewhere (next_ptr x) b a (put (prev_ptr b) x w) (λ v. at_x.0 (sym v))
    ∙ put_elsewhere (prev_ptr b) x a w (λ v. e (sym v))

module _ (b : ℕ) (l : FreeList) (i : IsPointer b) where
  alone-Adds : Adds l.words b [] (some (record { words = l.words; root = b; last = b }))
  unfolding Adds Chained Pointers Distinct NotAmong last_or
  alone-Adds = record {
    before = [];
    after = [];
    parts = refl;
    fits = record { left = λ z. absurd (omega (arith, z)); right = λ z. absurd (omega (arith, z)) };
    holds = record {
      root = refl;
      last = refl;
      chained = tt;
      pointers = (i, tt);
      distinct = (tt, tt);
    };
    frame = λ a w. refl;
  }

  first-Adds :
      (p : ℕ) (ps : List ℕ)
      → Holds l (p ∷ ps)
      → NotAmong b (p ∷ ps)
      → size_of l.words b ≤ size_of l.words p
      → Adds l.words b (p ∷ ps) (some (add_first b l))
  unfolding Adds
  first-Adds p ps h n m = record {
    before = [];
    after = p ∷ ps;
    parts = refl;
    fits = record { left = λ z. absurd (omega (arith, z)); right = λ z. m };
    holds = add_first-Holds b p ps l h i n;
    frame = add_first-frame b p ps l h i n;
  }

  last-Adds :
      (xs : List ℕ) (x : ℕ)
      → Holds l (xs ++ (x ∷ []))
      → NotAmong b (xs ++ (x ∷ []))
      → size_of l.words x ≤ size_of l.words b
      → Adds l.words b (xs ++ (x ∷ [])) (some (add_last b l))
  unfolding Adds add_last last_or Pointers
  last-Adds xs x h n m =
      let e : l.last ≡ x = h.last ∙ last_or-append xs x [] in
      let a = append_assoc xs (x ∷ []) (b ∷ []) in
      let whole = sym (append-nil (xs ++ (x ∷ []))) in
      record {
        before = xs ++ (x ∷ []);
        after = [];
        parts = whole;
        fits = record {
          left = λ z. rw (last_or-append xs x []) m;
          right = λ z. absurd (omega (arith, z));
        };
        holds = record {
          root = h.root ∙ head_or-append xs x [] (b ∷ []) ∙ ap head_or (sym a);
          last = sym (last_or-append (xs ++ (x ∷ [])) b []);
          chained = rw (e, a) (end-Chained b xs x l.words h.chained h.pointers h.distinct i n);
          pointers = insert-Pointers b (xs ++ (x ∷ [])) (xs ++ (x ∷ [])) [] whole i h.pointers;
          distinct = insert-Distinct b (xs ++ (x ∷ [])) (xs ++ (x ∷ [])) [] whole n h.distinct;
        };
        frame = λ a w. rw e (end-frame b xs x l.words a w);
      }

  middle-Adds :
      (bs : List ℕ) (q : ℕ)
      → Holds l bs
      → NotAmong b bs
      → Spot l.words (size_of l.words b) bs q
      → Adds l.words b bs (some (add_before b q l))
  unfolding Adds last_or add_before
  middle-Adds bs q h n s =
      let xs = s.before in
      let x = s.previous in
      let ys = s.after in
      let a = append_assoc xs (x ∷ []) (b ∷ q ∷ ys) in
      let parts = s.parts ∙ sym (append_assoc xs (x ∷ []) (q ∷ ys)) in
      record {
        before = xs ++ (x ∷ []);
        after = q ∷ ys;
        parts = parts;
        fits = record {
          left = λ z. rw (last_or-append xs x []) (omega (arith, s.less));
          right = λ z. s.large;
        };
        holds = record {
          root =
              h.root
              ∙ ap head_or s.parts
              ∙ head_or-append xs x (q ∷ ys) (b ∷ q ∷ ys)
              ∙ ap head_or (sym a);
          last =
              h.last
              ∙ ap last_or s.parts
              ∙ last_or-append xs x (q ∷ ys)
              ∙ sym (last_or-append (xs ++ (x ∷ [])) b (q ∷ ys));
          chained = rw a (
              add_before-Chained b xs x q ys l.words (subst (Chained l.words) s.parts h.chained)
                (subst Pointers s.parts h.pointers) (subst Distinct s.parts h.distinct) i
                (subst (NotAmong b) s.parts n) l.root l.last);
          pointers = insert-Pointers b bs (xs ++ (x ∷ [])) (q ∷ ys) parts i h.pointers;
          distinct = insert-Distinct b bs (xs ++ (x ∷ [])) (q ∷ ys) parts n h.distinct;
        };
        frame = λ a w.
            add_before-frame b xs x q ys l.words (subst (Chained l.words) s.parts h.chained)
              (subst Pointers s.parts h.pointers) (subst Distinct s.parts h.distinct) i
              (subst (NotAmong b) s.parts n) l.root l.last a
              (subst (λ t. Away a (b ∷ t)) s.parts w);
      }

  add_at-Adds :
      (bs : List ℕ) (r : Sought)
      → Holds l bs
      → NotAmong b bs
      → Spots l.words (size_of l.words b) bs r
      → Adds l.words b bs (add_at b r l)
  unfolding add_at Spots Adds
  add_at-Adds bs (reached q) h n s = middle-Adds bs q h n s
  add_at-Adds bs lost h n s = s

pub snoc : (p : ℕ) (ps : List ℕ) → (xs : List ℕ) × ((x : ℕ) × (p ∷ ps ≡ xs ++ (x ∷ [])))
snoc p [] = ([], (p, refl))
snoc p (q ∷ r) = let (xs, (x, e)) = snoc q r in (p ∷ xs, (x, ap (λ t. p ∷ t) e))

at_end :
    (b p : ℕ) (ps : List ℕ) (l : FreeList)
    → IsPointer b
    → Holds l (p ∷ ps)
    → NotAmong b (p ∷ ps)
    → size_of l.words l.last ≤ size_of l.words b
    → Adds l.words b (p ∷ ps) (some (add_last b l))
unfolding last_or
at_end b p ps l i h n m =
    let (xs, (x, e)) = snoc p ps in
    let h' = subst (Holds l) e h in
    let last : l.last ≡ x = h'.last ∙ last_or-append xs x [] in
    subst (λ t. Adds l.words b t (some (add_last b l))) (sym e)
      (last-Adds b l i xs x h' (subst (NotAmong b) e n)
        (omega (arith, m, ap (size_of l.words) last)))

-- Where the free list holds the blocks `bs`, without repetition, and `b` is none of them, `add_free_block`
-- with fuel for each block and one more ends, and the list then holds `b` too, between two of `bs` or at an
-- end, linked in both directions; the block before it is not larger and the block behind it is not smaller.
pub add_free_block-Adds :
    (fuel b : ℕ) (l : FreeList) (bs : List ℕ)
    → Holds l bs
    → IsPointer b
    → NotAmong b bs
    → length bs < fuel
    → Adds l.words b bs (add_free_block fuel b l)
unfolding add_free_block last_or Pointers
add_free_block-Adds fuel b l [] h i n f =
    let z : (b == null) ≡ false = ground (arith, i) in rw (z, h.root, h.last) (alone-Adds b l i)
add_free_block-Adds zero b l (p ∷ ps) h i n f = absurd (omega (arith, f))
add_free_block-Adds (suc k) b l (p ∷ ps) h i n f =
    let z : (b == null) ≡ false = ground (arith, i) in
    let r : (p == null) ≡ false = ground (arith, h.pointers.0) in
    let nonempty : ((l.root == null) && (l.last == null)) ≡ false = ground (arith, h.root, r) in
    let size = size_of l.words b in
    let root_size : size_of l.words l.root ≡ size_of l.words p = ap (size_of l.words) h.root in
    let last_size = ap (size_of l.words) h.last in
    elim (Bool-cases (leb size (size_of l.words l.root))) [
      | inl g ↦ rw (z, nonempty, g) (first-Adds b l i p ps h n (ground (arith, root_size)))
      | inr g ↦ elim (Bool-cases (leb (size_of l.words l.last) size)) [
        | inl e ↦ rw (z, nonempty, g, e) (at_end b p ps l i h n (ground arith))
        | inr e ↦
            rw (z, nonempty, g, e)
              (add_at-Adds b l i (p ∷ ps) (find_fit (suc k) size l.root l.words) h n (
                searched b k p ps l h (omega (arith, f)) (ground (arith, root_size))
                  (ground (arith, last_size))))
      ]
    ]
