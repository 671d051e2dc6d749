-- ===== src/Malloclab/FirstFit/Tags.antt =====
-- The heap with its boundary tags: blocks one after the other, each with its size and bit in a header
-- and a footer, up to the epilogue.
use git_sty.Base.{ℕ, ◌+◌, ◌-◌, ◌≤◌, ◌<◌, ◌≡◌, ◌⊎◌, inl, inr, ◌∙◌, ap, List, [], ◌∷◌, ◌++◌, arith}
use mathlib.Core.Path.{subst}
use git_sty.Malloclab.FirstFit.{Words, hdrp, pack}
use git_sty.Malloclab.FirstFit.Words.{IsBlockSize}
use git_sty.Malloclab.FirstFit.Chain.{Block}

abbrev pub total : List Block → ℕ
total [] = 0
total (b ∷ bs) = b.size + total bs

pub total-append : (xs ys : List Block) → total (xs ++ ys) ≡ total xs + total ys
total-append [] ys = omega arith
total-append (x ∷ xs) ys = omega (arith, total-append xs ys)

-- The block `b` lies at `bp`.
pub record Tagged (w : Words) (bp : ℕ) (b : Block) : Type 0 where
  pub header : w (hdrp bp) ≡ pack b.size b.alloc
  pub footer : w ((bp + b.size) - 8) ≡ pack b.size b.alloc
  pub size_ok : IsBlockSize b.size
  pub least : 8 ≤ b.size
  pub bit : b.alloc < 2

unfoldable pub Seg : Words → ℕ → List Block → Type 0
Seg w bp [] = Unit
Seg w bp (b ∷ bs) = Tagged w bp b × Seg w (bp + b.size) bs

-- The whole heap from the first block on.
pub record Laid (w : Words) (first : ℕ) (bs : List Block) : Type 0 where
  pub blocks : Seg w first bs
  pub epilogue : w (hdrp (first + total bs)) ≡ pack 0 1
  pub low : 8 ≤ first
  pub room : first + total bs < 4294967296

pub Seg-frame :
    (w w' : Words) (bp : ℕ) (bs : List Block)
    → 8 ≤ bp
    → ((q : ℕ) → hdrp bp ≤ q → q < hdrp (bp + total bs) → w' q ≡ w q)
    → Seg w bp bs
    → Seg w' bp bs
unfolding Seg
Seg-frame w w' bp [] l f s = tt
Seg-frame w w' bp (b ∷ bs) l f (t, s) = (
  record {
    header = f (hdrp bp) (omega arith) (omega (arith, t.least, l)) ∙ t.header;
    footer = f ((bp + b.size) - 8) (omega (arith, t.least)) (omega (arith, t.least, l)) ∙ t.footer;
    size_ok = t.size_ok;
    least = t.least;
    bit = t.bit;
  },
  Seg-frame w w' (bp + b.size) bs (omega arith) (λ q a c. f q (omega arith) (omega (arith, c))) s,
)

-- The same blocks at the same place, written otherwise.
pub Seg-eq : (w : Words) (bp bp' : ℕ) (bs : List Block) → bp ≡ bp' → Seg w bp bs → Seg w bp' bs
Seg-eq w bp bp' bs e s = subst (λ q. Seg w q bs) e s

pub Seg-split :
    (w : Words) (bp : ℕ) (xs ys : List Block)
    → Seg w bp (xs ++ ys)
    → Seg w bp xs × Seg w (bp + total xs) ys
unfolding Seg
Seg-split w bp [] ys s = (tt, Seg-eq w bp (bp + 0) ys (omega arith) s)
Seg-split w bp (x ∷ xs) ys (t, s) =
    let r = Seg-split w (bp + x.size) xs ys s in
    ((t, r.0), Seg-eq w (bp + x.size + total xs) (bp + (x.size + total xs)) ys (omega arith) r.1)

pub Seg-append :
    (w : Words) (bp : ℕ) (xs ys : List Block)
    → Seg w bp xs
    → Seg w (bp + total xs) ys
    → Seg w bp (xs ++ ys)
unfolding Seg
Seg-append w bp [] ys s r = Seg-eq w (bp + 0) bp ys (omega arith) r
Seg-append w bp (x ∷ xs) ys (t, s) r = (
  t,
  Seg-append w (bp + x.size) xs ys s
      (Seg-eq w (bp + (x.size + total xs)) (bp + x.size + total xs) ys (omega arith) r),
)

-- Where `new` has taken the place of `mid` and no word outside changed, the heap is laid out with it.
pub Laid-replace :
    (w w' : Words) (first : ℕ) (xs mid new ys : List Block)
    → Laid w first (xs ++ (mid ++ ys))
    → total new ≡ total mid
    → Seg w' (first + total xs) new
    → ((q : ℕ)
        → (q < hdrp (first + total xs)) ⊎ (hdrp (first + total xs + total mid) ≤ q)
        → w' q ≡ w q)
    → Laid w' first (xs ++ (new ++ ys))
Laid-replace w w' first xs mid new ys l e s f =
    let bp = first + total xs in
    let outer = Seg-split w first xs (mid ++ ys) l.blocks in
    let inner = Seg-split w bp mid ys outer.1 in
    let left = Seg-frame w w' first xs l.low (λ q a c. f q (inl c)) outer.0 in
    let right =
      Seg-frame w w' (bp + total mid) ys (omega (arith, l.low)) (λ q a c. f q (inr a)) inner.1 in
    let both =
      Seg-append w' bp new ys s
        (Seg-eq w' (bp + total mid) (bp + total new) ys (omega (arith, e)) right) in
    let same : total (xs ++ (new ++ ys)) ≡ total (xs ++ (mid ++ ys)) = omega (
      arith,
      e,
      total-append xs (new ++ ys),
      total-append xs (mid ++ ys),
      total-append new ys,
      total-append mid ys,
    ) in
    record {
      blocks = Seg-append w' first xs (new ++ ys) left both;
      epilogue =
          ap (λ n. w' (hdrp (first + n))) same
          ∙ f (hdrp (first + total (xs ++ (mid ++ ys))))
              (inr (omega (arith, total-append xs (mid ++ ys), total-append mid ys)))
          ∙ l.epilogue;
      low = l.low;
      room = omega (arith, l.room, same);
    }
