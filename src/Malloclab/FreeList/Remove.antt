-- ===== src/Malloclab/FreeList/Remove.antt =====
-- `remove_free_block` takes a block out of the free list.
use git_sty.Base.{ℕ, ◌≡◌, ◌≢◌, ◌∙◌, ap, sym, refl, List, [], ◌∷◌, ◌++◌, ◌==◌, true, false, arith}
use mathlib.Core.List.{append_assoc}
use mathlib.Core.Path.{subst}
use git_sty.Malloclab.FirstFit.{Words, put}
use git_sty.Malloclab.FreeList.{FreeList, next_ptr, prev_ptr, null, remove_free_block}
use git_sty.Malloclab.FreeList.Chained.{
  Chained, Pointers, NotAmong, Distinct, head_or, last_or, Holds, Away, Away-at, Away-next,
  Away-prev, put_elsewhere, put_here, put-Chained,
}
use git_sty.Malloclab.FreeList.Split.{
  Chained_cut, Chained_join, put_before, Pointers-cut, Pointers-join, NotAmong-cut, NotAmong-join,
  Distinct-before, Distinct-cut,
}
use git_sty.Malloclab.FreeList.Add.{last_or-append, head_or-append, snoc}

last_ne : (b q : ℕ) (r : List ℕ) → NotAmong b (q ∷ r) → last_or (q ∷ r) ≢ b
unfolding NotAmong last_or
last_ne b q [] (d, n) e = d (sym e)
last_ne b q (t ∷ r) (d, n) e = last_ne b t r n e

remove-Pointers :
    (xs : List ℕ) (b : ℕ) (ys : List ℕ) → Pointers (xs ++ (b ∷ ys)) → Pointers (xs ++ ys)
unfolding Pointers
remove-Pointers xs b ys p = let r = Pointers-cut xs (b ∷ ys) p in Pointers-join xs ys r.0 r.1.1

remove-Distinct :
    (xs : List ℕ) (b : ℕ) (ys : List ℕ) → Distinct (xs ++ (b ∷ ys)) → Distinct (xs ++ ys)
unfolding Distinct NotAmong
remove-Distinct [] b ys (n, d) = d
remove-Distinct (x ∷ xs) b ys (n, d) =
    let r = NotAmong-cut x xs (b ∷ ys) n in
    (NotAmong-join x xs ys r.0 r.1.1, remove-Distinct xs b ys d)

remove_only : (l : FreeList) (b : ℕ) → Holds l (b ∷ []) → Holds (remove_free_block b l) []
unfolding remove_free_block Pointers Distinct last_or Chained
remove_only l b h =
    let z : (b == null) ≡ false = ground (arith, h.pointers) in
    let s : (l.root == l.last) ≡ true = ground (arith, h.root, h.last) in
    rw (z, s) (record { root = refl; last = refl; chained = tt; pointers = tt; distinct = tt })

remove_first :
    (l : FreeList) (b y : ℕ) (ys : List ℕ)
    → Holds l (b ∷ y ∷ ys)
    → Holds (remove_free_block b l) (y ∷ ys)
unfolding remove_free_block Pointers Distinct last_or Chained
remove_first l b y ys h =
    let (i, (j, p)) = h.pointers in
    let (n, (m, d)) = h.distinct in
    let (e, (f, c)) = h.chained in
    let z : (b == null) ≡ false = ground (arith, i) in
    let last = last_ne b y ys n in
    let s : (l.root == l.last) ≡ false =
      ground (arith, h.root, λ (v : l.root ≡ l.last). last (sym h.last ∙ sym v ∙ h.root)) in
    let t : (l.root == b) ≡ true = ground (arith, h.root) in
    rw (z, s, t, e)
      (record {
        root = refl;
        last = h.last;
        chained =
            put-Chained (prev_ptr y) null y ys l.words (λ v. omega (arith, j, v))
              (Away-prev y ys j p m) c;
        pointers = (j, p);
        distinct = (m, d);
      })

-- The first block is neither the last one nor one further on.
head_ne :
    (zs : List ℕ) (x b : ℕ) (ys : List ℕ)
    → Distinct (zs ++ (x ∷ b ∷ ys))
    → (head_or (zs ++ (x ∷ b ∷ ys)) ≢ b)
      × (head_or (zs ++ (x ∷ b ∷ ys)) ≢ last_or (zs ++ (x ∷ b ∷ ys)))
unfolding Distinct NotAmong last_or
head_ne [] x b ys (n, d) = (n.0, λ e. last_ne x b ys n (sym e))
head_ne (z ∷ []) x b ys (n, d) = (n.1.0, λ e. last_ne z x (b ∷ ys) n (sym e))
head_ne (z ∷ t ∷ zs) x b ys (n, d) = (
  (NotAmong-cut z (t ∷ zs) (x ∷ b ∷ ys) n).1.1.0,
  λ e. last_ne z t (zs ++ (x ∷ b ∷ ys)) n (sym e),
)

module _ (l : FreeList) (zs : List ℕ) (x b : ℕ) (ys : List ℕ)
    (h : Holds l (zs ++ (x ∷ b ∷ ys))) where
  tail-Pointers : Pointers (x ∷ b ∷ ys)
  tail-Pointers = (Pointers-cut zs (x ∷ b ∷ ys) h.pointers).1

  zs-Pointers : Pointers zs
  zs-Pointers = (Pointers-cut zs (x ∷ b ∷ ys) h.pointers).0

  links : Chained l.words (x ∷ b ∷ ys)
  links = (Chained_cut l.words zs x (b ∷ ys) h.chained).1

  x_zs : NotAmong x zs
  x_zs = Distinct-before zs x (b ∷ ys) h.distinct

  not_null : (b == null) ≡ false
  unfolding Pointers
  not_null = ground (arith, tail-Pointers)

  not_alone : (l.root == l.last) ≡ false
  not_alone =
      let n = (head_ne zs x b ys h.distinct).1 in
      ground (arith, λ (v : l.root ≡ l.last). n (sym h.root ∙ v ∙ h.last))

  not_root : (l.root == b) ≡ false
  not_root =
      let n = (head_ne zs x b ys h.distinct).0 in
      ground (arith, λ (v : l.root ≡ b). n (sym h.root ∙ v))

  same_root :
      (us vs : List ℕ) → l.root ≡ head_or (zs ++ (x ∷ us)) → l.root ≡ head_or (zs ++ (x ∷ vs))
  same_root us vs e = e ∙ head_or-append zs x us vs

  -- A store to the next pointer of `x`, among the blocks before it.
  front :
      (v : ℕ) (w : Words)
      → Chained w (zs ++ (x ∷ []))
      → Chained (put (next_ptr x) v w) (zs ++ (x ∷ []))
  unfolding Pointers
  front v w c =
      put_before (next_ptr x) v zs x w (Away-next x zs tail-Pointers.0 zs-Pointers x_zs)
        (λ e. omega (arith, tail-Pointers.0, e)) c

  kept : Pointers (zs ++ (x ∷ ys))
  kept = subst Pointers (append_assoc zs (x ∷ []) ys) (
      remove-Pointers (zs ++ (x ∷ [])) b ys
        (subst Pointers (sym (append_assoc zs (x ∷ []) (b ∷ ys))) h.pointers))

  still-Distinct : Distinct (zs ++ (x ∷ ys))
  still-Distinct = subst Distinct (append_assoc zs (x ∷ []) ys) (
      remove-Distinct (zs ++ (x ∷ [])) b ys
        (subst Distinct (sym (append_assoc zs (x ∷ []) (b ∷ ys))) h.distinct))

remove_last :
    (l : FreeList) (zs : List ℕ) (x b : ℕ)
    → Holds l (zs ++ (x ∷ b ∷ []))
    → Holds (remove_free_block b l) (zs ++ (x ∷ []))
unfolding remove_free_block last_or Chained
remove_last l zs x b h =
    let at_end : l.last ≡ b = h.last ∙ last_or-append zs x (b ∷ []) in
    let t : (l.last == b) ≡ true = ground (arith, at_end) in
    let back : l.words (prev_ptr b) ≡ x = (links l zs x b [] h).1.0 in
    rw (not_null l zs x b [] h, not_alone l zs x b [] h, not_root l zs x b [] h, t, back)
      (record {
        root = same_root l zs x b [] h (b ∷ []) [] h.root;
        last = sym (last_or-append zs x []);
        chained = front l zs x b [] h null l.words (Chained_cut l.words zs x (b ∷ []) h.chained).0;
        pointers = kept l zs x b [] h;
        distinct = still-Distinct l zs x b [] h;
      })

not_last :
    (b y : ℕ) (ys : List ℕ) (l : FreeList)
    → NotAmong b (y ∷ ys)
    → l.last ≡ last_or (b ∷ y ∷ ys)
    → (l.last == b) ≡ false
unfolding last_or
not_last b y ys l n e =
    let d = last_ne b y ys n in ground (arith, λ (v : l.last ≡ b). d (sym e ∙ v))

remove_middle :
    (l : FreeList) (zs : List ℕ) (x b y : ℕ) (ys : List ℕ)
    → Holds l (zs ++ (x ∷ b ∷ y ∷ ys))
    → Holds (remove_free_block b l) (zs ++ (x ∷ y ∷ ys))
unfolding remove_free_block last_or Chained Pointers Distinct NotAmong
remove_middle l zs x b y ys h =
    let (e, (f, (g, (k, c)))) = links l zs x b (y ∷ ys) h in
    let (i, (j, (o, p))) = tail-Pointers l zs x b (y ∷ ys) h in
    let ((x_b, (x_y, x_ys)), (b_rest, (y_ys, d))) = Distinct-cut zs (x ∷ b ∷ y ∷ ys) h.distinct in
    let y_zs =
      (NotAmong-cut y zs (x ∷ b ∷ []) (
        Distinct-before (zs ++ (x ∷ b ∷ [])) y ys
          (subst Distinct (sym (append_assoc zs (x ∷ b ∷ []) (y ∷ ys))) h.distinct))).0 in
    let t : (l.last == b) ≡ false =
      not_last b y ys l b_rest (h.last ∙ last_or-append zs x (b ∷ y ∷ ys)) in
    let w₁ = put (next_ptr x) y l.words in
    let next : w₁ (next_ptr b) ≡ y =
      put_elsewhere (next_ptr x) y (next_ptr b) l.words (λ v. x_b (omega (arith, i, j, v))) ∙ g in
    let prev : w₁ (prev_ptr b) ≡ x =
      put_elsewhere (next_ptr x) y (prev_ptr b) l.words (λ v. omega (arith, i, j, v)) ∙ f in
    rw
      (
        not_null l zs x b (y ∷ ys) h,
        not_alone l zs x b (y ∷ ys) h,
        not_root l zs x b (y ∷ ys) h,
        t,
        f,
        g,
        next,
        prev,
      )
      (record {
        root = same_root l zs x b (y ∷ ys) h (b ∷ y ∷ ys) (y ∷ ys) h.root;
        last = h.last ∙ last_or-append zs x (b ∷ y ∷ ys) ∙ sym (last_or-append zs x (y ∷ ys));
        chained =
            Chained_join (put (prev_ptr y) x w₁) zs x (y ∷ ys)
              (put_before (prev_ptr y) x zs x w₁
                (Away-prev y zs o (zs-Pointers l zs x b (y ∷ ys) h) y_zs)
                (λ v. x_y (omega (arith, i, o, v)))
                (front l zs x b (y ∷ ys) h y l.words
                  (Chained_cut l.words zs x (b ∷ y ∷ ys) h.chained).0))
              (
                put_elsewhere (prev_ptr y) x (next_ptr x) w₁ (λ v. omega (arith, i, o, v))
                    ∙ put_here (next_ptr x) y l.words,
                (
                  put_here (prev_ptr y) x w₁,
                  put-Chained (prev_ptr y) x y ys w₁ (λ v. omega (arith, o, v))
                      (Away-prev y ys o p y_ys)
                      (put-Chained (next_ptr x) y y ys l.words (λ v. x_y (omega (arith, i, o, v)))
                        (Away-next x ys i p x_ys) c),
                ),
              );
        pointers = kept l zs x b (y ∷ ys) h;
        distinct = still-Distinct l zs x b (y ∷ ys) h;
      })

remove_later :
    (l : FreeList) (zs : List ℕ) (x b : ℕ) (ys : List ℕ)
    → Holds l (zs ++ (x ∷ b ∷ ys))
    → Holds (remove_free_block b l) (zs ++ (x ∷ ys))
remove_later l zs x b [] h = remove_last l zs x b h
remove_later l zs x b (y ∷ ys) h = remove_middle l zs x b y ys h

-- Where the free list holds the block `b` between the blocks `xs` and `ys`, without repetition,
-- `remove_free_block` leaves a list that holds `xs` and `ys`, linked in both directions.
pub remove_free_block-Holds :
    (l : FreeList) (xs : List ℕ) (b : ℕ) (ys : List ℕ)
    → Holds l (xs ++ (b ∷ ys))
    → Holds (remove_free_block b l) (xs ++ ys)
remove_free_block-Holds l [] b [] h = remove_only l b h
remove_free_block-Holds l [] b (y ∷ ys) h = remove_first l b y ys h
remove_free_block-Holds l (x ∷ xs) b ys h =
    let (zs, (z, e)) = snoc x xs in
    subst (Holds (remove_free_block b l))
      (sym (append_assoc zs (z ∷ []) ys) ∙ ap (λ t. t ++ ys) (sym e))
      (remove_later l zs z b ys
        (subst (Holds l) (ap (λ t. t ++ (b ∷ ys)) e ∙ append_assoc zs (z ∷ []) (b ∷ ys)) h))

-- Only pointers of blocks on the list change.
remove_last-frame :
    (l : FreeList) (zs : List ℕ) (x b a : ℕ)
    → Holds l (zs ++ (x ∷ b ∷ []))
    → Away a (zs ++ (x ∷ b ∷ []))
    → (remove_free_block b l).words a ≡ l.words a
unfolding remove_free_block last_or Chained
remove_last-frame l zs x b a h w =
    let at_end : l.last ≡ b = h.last ∙ last_or-append zs x (b ∷ []) in
    let t : (l.last == b) ≡ true = ground (arith, at_end) in
    let back : l.words (prev_ptr b) ≡ x = (links l zs x b [] h).1.0 in
    rw (not_null l zs x b [] h, not_alone l zs x b [] h, not_root l zs x b [] h, t, back)
      (put_elsewhere (next_ptr x) null a l.words (λ v. (Away-at a zs x (b ∷ []) w).0 (sym v)))

remove_middle-frame :
    (l : FreeList) (zs : List ℕ) (x b y : ℕ) (ys : List ℕ) (a : ℕ)
    → Holds l (zs ++ (x ∷ b ∷ y ∷ ys))
    → Away a (zs ++ (x ∷ b ∷ y ∷ ys))
    → (remove_free_block b l).words a ≡ l.words a
unfolding remove_free_block last_or Chained Pointers Distinct NotAmong
remove_middle-frame l zs x b y ys a h w =
    let (e, (f, (g, (k, c)))) = links l zs x b (y ∷ ys) h in
    let (i, (j, (o, p))) = tail-Pointers l zs x b (y ∷ ys) h in
    let ((x_b, (x_y, x_ys)), (b_rest, (y_ys, d))) = Distinct-cut zs (x ∷ b ∷ y ∷ ys) h.distinct in
    let t : (l.last == b) ≡ false =
      not_last b y ys l b_rest (h.last ∙ last_or-append zs x (b ∷ y ∷ ys)) in
    let w₁ = put (next_ptr x) y l.words in
    let next : w₁ (next_ptr b) ≡ y =
      put_elsewhere (next_ptr x) y (next_ptr b) l.words (λ v. x_b (omega (arith, i, j, v))) ∙ g in
    let prev : w₁ (prev_ptr b) ≡ x =
      put_elsewhere (next_ptr x) y (prev_ptr b) l.words (λ v. omega (arith, i, j, v)) ∙ f in
    let at_y =
      Away-at a (zs ++ (x ∷ b ∷ [])) y ys
        (subst (Away a) (sym (append_assoc zs (x ∷ b ∷ []) (y ∷ ys))) w) in
    rw
      (
        not_null l zs x b (y ∷ ys) h,
        not_alone l zs x b (y ∷ ys) h,
        not_root l zs x b (y ∷ ys) h,
        t,
        f,
        g,
        next,
        prev,
      )
      (put_elsewhere (prev_ptr y) x a w₁ (λ v. at_y.1 (sym v))
        ∙ put_elsewhere (next_ptr x) y a l.words (λ v. (Away-at a zs x (b ∷ y ∷ ys) w).0 (sym v)))

remove_later-frame :
    (l : FreeList) (zs : List ℕ) (x b : ℕ) (ys : List ℕ) (a : ℕ)
    → Holds l (zs ++ (x ∷ b ∷ ys))
    → Away a (zs ++ (x ∷ b ∷ ys))
    → (remove_free_block b l).words a ≡ l.words a
remove_later-frame l zs x b [] a h w = remove_last-frame l zs x b a h w
remove_later-frame l zs x b (y ∷ ys) a h w = remove_middle-frame l zs x b y ys a h w

pub remove_free_block-frame :
    (l : FreeList) (xs : List ℕ) (b : ℕ) (ys : List ℕ) (a : ℕ)
    → Holds l (xs ++ (b ∷ ys))
    → Away a (xs ++ (b ∷ ys))
    → (remove_free_block b l).words a ≡ l.words a
unfolding remove_free_block Pointers last_or Chained Away Distinct
remove_free_block-frame l [] b [] a h w =
    let z : (b == null) ≡ false = ground (arith, h.pointers) in
    let s : (l.root == l.last) ≡ true = ground (arith, h.root, h.last) in rw (z, s) refl
remove_free_block-frame l [] b (y ∷ ys) a h w =
    let z : (b == null) ≡ false = ground (arith, h.pointers) in
    let last = last_ne b y ys h.distinct.0 in
    let s : (l.root == l.last) ≡ false =
      ground (arith, h.root, λ (v : l.root ≡ l.last). last (sym h.last ∙ sym v ∙ h.root)) in
    let t : (l.root == b) ≡ true = ground (arith, h.root) in
    rw (z, s, t, h.chained.0) (put_elsewhere (prev_ptr y) null a l.words (λ v. w.1.1.1.0 (sym v)))
remove_free_block-frame l (x ∷ xs) b ys a h w =
    let (zs, (z, e)) = snoc x xs in
    let f : (x ∷ xs) ++ (b ∷ ys) ≡ zs ++ (z ∷ b ∷ ys) =
      ap (λ t. t ++ (b ∷ ys)) e ∙ append_assoc zs (z ∷ []) (b ∷ ys) in
    remove_later-frame l zs z b ys a (subst (Holds l) f h) (subst (Away a) f w)
