-- ===== src/Malloclab/FirstFit/Owner.antt =====
-- The abstract view of the heap: which offsets are owned, and how many bytes belong to each.
use git_sty.Base.{
  ℕ, ◌+◌, ◌-◌, ◌≤◌, ◌<◌, ◌≡◌, ◌∙◌, ap, sym, true, ltb, leb, ◌==◌, if◌then◌else◌, Option, none, some,
  List, [], ◌∷◌, ◌++◌, arith, Bool-cases, inl, inr,
}
use git_sty.Malloclab.FirstFit.{Words}
use git_sty.Malloclab.FirstFit.Chain.{Block, split}
use git_sty.Malloclab.FirstFit.Tags.{total, Seg}
use git_sty.Malloclab.FirstFit.Coalesce.{merge}

unfoldable pub Positive : List Block → Type 0
Positive [] = Unit
Positive (b ∷ bs) = (0 < b.size) × Positive bs

pub Seg-Positive : (w : Words) (q : ℕ) (bs : List Block) → Seg w q bs → Positive bs
unfolding Seg Positive
Seg-Positive w q [] s = tt
Seg-Positive w q (b ∷ bs) (t, s) = (omega (arith, t.least), Seg-Positive w (q + b.size) bs s)

-- The size of the allocated block that begins `n` bytes above the first.
unfoldable pub owner : ℕ → List Block → Option ℕ
owner n [] = none
owner n (b ∷ bs) =
    let rest = owner (n - b.size) bs in
    if n == 0
    then (if b.alloc == 0 then none else some b.size)
    else if ltb n b.size
    then none
    else rest

owner-eq : (n m : ℕ) (bs : List Block) → n ≡ m → owner n bs ≡ owner m bs
owner-eq n m bs e = ap (λ k. owner k bs) e

pub owner-append :
    (n : ℕ) (xs ys : List Block)
    → Positive xs
    → owner n (xs ++ ys) ≡ (if ltb n (total xs) then owner n xs else owner (n - total xs) ys)
unfolding owner Positive
owner-append n [] ys p = ground (arith, owner-eq (n - 0) n ys (omega arith))
owner-append n (x ∷ xs) ys (p, q) = ground (
  arith,
  owner-append (n - x.size) xs ys q,
  owner-eq (n - x.size - total xs) (n - (x.size + total xs)) ys (omega arith),
)

-- Owned blocks lie one behind the other, and below the end.
pub owner_bound : (bs : List Block) (n s : ℕ) → owner n bs ≡ some s → n + s ≤ total bs
unfolding owner
owner_bound [] n s e = ground arith
owner_bound (b ∷ bs) n s e = ground (arith, owner_bound bs (n - b.size) s)

pub owner_apart :
    (bs : List Block) (n s m t : ℕ) → owner n bs ≡ some s → owner m bs ≡ some t → n < m → n + s ≤ m
unfolding owner
owner_apart [] n s m t e f l = ground arith
owner_apart (b ∷ bs) n s m t e f l = ground (arith, owner_apart bs (n - b.size) s (m - b.size) t)

-- Freeing: the joined blocks own what was owned before but the block given free.
pub owner-merge :
    (n : ℕ) (p b : Block) (ys : List Block)
    → Positive (p ∷ b ∷ ys)
    → owner n (merge p b.size ys) ≡ (if n == p.size then none else owner n (p ∷ b ∷ ys))
unfolding owner merge Positive
owner-merge n p b [] h = ground arith
owner-merge n p b (y ∷ ys) h =
    let two = owner-eq (n - (p.size + b.size)) (n - p.size - b.size) (y ∷ ys) (omega arith) in
    let three =
      owner-eq (n - (p.size + (b.size + y.size))) (n - p.size - b.size - y.size) ys (omega arith) in
    let next =
      owner-eq (n - p.size - (b.size + y.size)) (n - p.size - b.size - y.size) ys (omega arith) in
    ground (arith, two, three, next)

-- The bytes that a placed request of `asize` bytes owns in the block `b`.
abbrev pub taken_size : ℕ → Block → ℕ
taken_size asize b = if leb 16 (b.size - asize) then asize else b.size

owner-split :
    (n asize : ℕ) (b : Block) (ys : List Block)
    → (b.alloc == 0) ≡ true
    → 0 < asize
    → asize ≤ b.size
    → owner n (split asize b ++ ys)
      ≡ (if n == 0 then some (taken_size asize b) else owner n (b ∷ ys))
unfolding owner split
owner-split n asize b ys e z h = elim (Bool-cases (leb 16 (b.size - asize))) [
  | inl g ↦
      rw g (ground (arith, owner-eq (n - asize - (b.size - asize)) (n - b.size) ys (omega arith)))
  | inr g ↦ rw g (ground arith)
]

-- From `bs` to `bs'`, the offset `n`, which was not owned, gains `size` bytes, `asize` at least, and no
-- other offset loses or gains any.
pub record Gains (asize n : ℕ) (bs bs' : List Block) : Type 0 where
  pub size : ℕ
  pub large : asize ≤ size
  pub fresh : owner n bs ≡ none
  pub owners : (k : ℕ) → owner k bs' ≡ (if k == n then some size else owner k bs)

split-owners :
    (asize k : ℕ) (xs : List Block) (b : Block) (ys : List Block)
    → Positive xs
    → (b.alloc == 0) ≡ true
    → 0 < asize
    → asize ≤ b.size
    → owner k (xs ++ (split asize b ++ ys))
      ≡ (if k == total xs then some (taken_size asize b) else owner k (xs ++ (b ∷ ys)))
split-owners asize k xs b ys p e z h = ground (
  arith,
  owner-append k xs (split asize b ++ ys) p,
  owner-append k xs (b ∷ ys) p,
  owner-split (k - total xs) asize b ys e z h,
)

free_unowned :
    (xs : List Block) (b : Block) (ys : List Block)
    → Positive xs
    → (b.alloc == 0) ≡ true
    → owner (total xs) (xs ++ (b ∷ ys)) ≡ none
unfolding owner
free_unowned xs b ys p e = ground (arith, owner-append (total xs) xs (b ∷ ys) p)

pub split-Gains :
    (asize : ℕ) (xs : List Block) (b : Block) (ys : List Block)
    → Positive xs
    → (b.alloc == 0) ≡ true
    → 0 < asize
    → asize ≤ b.size
    → Gains asize (total xs) (xs ++ (b ∷ ys)) (xs ++ (split asize b ++ ys))
split-Gains asize xs b ys p e z h = record {
  size = taken_size asize b;
  large = ground arith;
  fresh = free_unowned xs b ys p e;
  owners = λ k. split-owners asize k xs b ys p e z h;
}

-- A free block at the end, joined or not, is not owned.
owner-merge_nil : (n : ℕ) (p : Block) (s : ℕ) → owner n (merge p s []) ≡ owner n (p ∷ [])
unfolding owner merge
owner-merge_nil n p s = ground arith

pub owner-merge_last :
    (n : ℕ) (xs : List Block) (p : Block) (s : ℕ)
    → Positive xs
    → owner n (xs ++ merge p s []) ≡ owner n (xs ++ (p ∷ []))
owner-merge_last n xs p s q = ground (
  arith,
  owner-append n xs (merge p s []) q,
  owner-append n xs (p ∷ []) q,
  owner-merge_nil (n - total xs) p s,
)

pub Gains-from :
    (asize n : ℕ) (bs bs₁ bs' : List Block)
    → ((k : ℕ) → owner k bs₁ ≡ owner k bs)
    → Gains asize n bs₁ bs'
    → Gains asize n bs bs'
Gains-from asize n bs bs₁ bs' e g = record {
  size = g.size;
  large = g.large;
  fresh = sym (e n) ∙ g.fresh;
  owners = λ k. g.owners k ∙ ap (λ r. if k == n then some g.size else r) (e k);
}

pub Positive-append : (xs ys : List Block) → Positive (xs ++ ys) → Positive xs × Positive ys
unfolding Positive
Positive-append [] ys p = (tt, p)
Positive-append (x ∷ xs) ys (z, p) = let r = Positive-append xs ys p in ((z, r.0), r.1)

-- Freeing inside the heap.
pub owner-free :
    (n : ℕ) (xs : List Block) (p b : Block) (ys : List Block)
    → Positive (xs ++ (p ∷ b ∷ ys))
    → owner n (xs ++ merge p b.size ys)
      ≡ (if n == total xs + p.size then none else owner n (xs ++ (p ∷ b ∷ ys)))
owner-free n xs p b ys h =
    let q = Positive-append xs (p ∷ b ∷ ys) h in
    ground (
      arith,
      owner-append n xs (merge p b.size ys) q.0,
      owner-append n xs (p ∷ b ∷ ys) q.0,
      owner-merge (n - total xs) p b ys q.1,
    )
