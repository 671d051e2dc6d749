-- ===== src/Malloclab/FirstFit/Spans.antt =====
-- A free block is laid over the blocks that it spans by writing its header and its footer.
use git_sty.Base.{ℕ, ◌+◌, ◌-◌, ◌≤◌, ◌≡◌, ◌≢◌, ◌∙◌, ap, sym, List, [], ◌∷◌, ◌++◌, arith}
use git_sty.Malloclab.FirstFit.{Words, hdrp, pack, put, put_both}
use git_sty.Malloclab.FirstFit.Words.{
  IsBlockSize, put_self, put_ne, put_both_ne, put_both_header, put_both_at_footer,
}
use git_sty.Malloclab.FirstFit.Chain.{Block}
use git_sty.Malloclab.FirstFit.Tags.{total, Seg, Laid, Laid-replace}

abbrev pub free_of : ℕ → Block
free_of s = record { size = s; alloc = 0 }

-- A block at `q` that spans the blocks `mid`, once its header and footer are written.
spans :
    (w w' : Words) (first q S : ℕ) (xs mid ys : List Block)
    → Laid w first (xs ++ (mid ++ ys))
    → q ≡ first + total xs
    → S ≡ total mid
    → IsBlockSize S
    → 8 ≤ S
    → w' (hdrp q) ≡ pack S 0
    → w' ((q + S) - 8) ≡ pack S 0
    → ((r : ℕ) → hdrp q ≢ r → (q + S) - 8 ≢ r → w' r ≡ w r)
    → Laid w' first (xs ++ (free_of S ∷ ys))
unfolding Seg
spans w w' first q S xs mid ys l k e i z h g f =
    Laid-replace w w' first xs mid (free_of S ∷ []) ys l (omega (arith, e))
      (
        record {
          header = ap (λ n. w' (hdrp n)) (sym k) ∙ h;
          footer = ap (λ n. w' ((n + S) - 8)) (sym k) ∙ g;
          size_ok = i;
          least = z;
          bit = omega arith;
        },
        tt,
      )
      (λ r o. f r (omega (arith, o, l.low, z, e, k)) (omega (arith, o, l.low, z, e, k)))

-- The same by `put_both`, and by two writes in either order.
pub spans_both :
    (w : Words) (first q S : ℕ) (xs mid ys : List Block)
    → Laid w first (xs ++ (mid ++ ys))
    → q ≡ first + total xs
    → S ≡ total mid
    → IsBlockSize S
    → 8 ≤ S
    → Laid (put_both q (pack S 0) w) first (xs ++ (free_of S ∷ ys))
spans_both w first q S xs mid ys l k e i z =
    spans w (put_both q (pack S 0) w) first q S xs mid ys l k e i z
      (put_both_header q S 0 w i (omega arith) (omega (arith, k, l.low)))
      (put_both_at_footer q S 0 w i (omega arith))
      (λ r a b. put_both_ne q S 0 w i (omega arith) r a b)

pub spans_up :
    (w : Words) (first q S : ℕ) (xs mid ys : List Block)
    → Laid w first (xs ++ (mid ++ ys))
    → q ≡ first + total xs
    → S ≡ total mid
    → IsBlockSize S
    → 8 ≤ S
    → Laid (put ((q + S) - 8) (pack S 0) (put (hdrp q) (pack S 0) w)) first (xs ++ (free_of S ∷ ys))
spans_up w first q S xs mid ys l k e i z =
    let v = pack S 0 in
    let w₁ = put (hdrp q) v w in
    spans w (put ((q + S) - 8) v w₁) first q S xs mid ys l k e i z
      (put_ne ((q + S) - 8) v (hdrp q) w₁ (omega (arith, k, l.low, z)) ∙ put_self (hdrp q) v w)
      (put_self ((q + S) - 8) v w₁)
      (λ r a b. put_ne ((q + S) - 8) v r w₁ b ∙ put_ne (hdrp q) v r w a)

pub spans_down :
    (w : Words) (first q S : ℕ) (xs mid ys : List Block)
    → Laid w first (xs ++ (mid ++ ys))
    → q ≡ first + total xs
    → S ≡ total mid
    → IsBlockSize S
    → 8 ≤ S
    → Laid (put (hdrp q) (pack S 0) (put ((q + S) - 8) (pack S 0) w)) first (xs ++ (free_of S ∷ ys))
spans_down w first q S xs mid ys l k e i z =
    let v = pack S 0 in
    let w₁ = put ((q + S) - 8) v w in
    spans w (put (hdrp q) v w₁) first q S xs mid ys l k e i z (put_self (hdrp q) v w₁)
      (put_ne (hdrp q) v ((q + S) - 8) w₁ (omega (arith, k, l.low, z)) ∙ put_self ((q + S) - 8) v w)
      (λ r a b. put_ne (hdrp q) v r w₁ a ∙ put_ne ((q + S) - 8) v r w b)
