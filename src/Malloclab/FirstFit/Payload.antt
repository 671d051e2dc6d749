-- ===== src/Malloclab/FirstFit/Payload.antt =====
-- Writing inside a block in use leaves the layout as it is.
use git_sty.Base.{
  ℕ, ◌+◌, ◌-◌, ◌≤◌, ◌<◌, ◌≡◌, ◌⊎◌, inl, inr, ◌∙◌, some, List, [], ◌∷◌, ◌==◌, Bool-cases, arith,
}
use git_sty.Malloclab.FirstFit.{Words, hdrp}
use git_sty.Malloclab.FirstFit.Chain.{Block}
use git_sty.Malloclab.FirstFit.Tags.{total, Seg, Seg-frame, Laid}
use git_sty.Malloclab.FirstFit.Owner.{owner, owner_bound}
use git_sty.Malloclab.FirstFit.Live.{Owns}

-- The words that are not between the header and the footer of the block of `s` bytes at `q`.
abbrev pub Outside : ℕ → ℕ → ℕ → Type 0
Outside q s r = (r < q) ⊎ ((q + s) - 8 ≤ r)

moved :
    (bp n s : ℕ) (b : Block) (r : ℕ)
    → b.size ≤ n
    → Outside (bp + b.size + (n - b.size)) s r
    → Outside (bp + n) s r
moved bp n s b r k (inl d) = inl (omega (arith, d, k))
moved bp n s b r k (inr d) = inr (omega (arith, d, k))

Seg-payload :
    (w w' : Words) (bp n s : ℕ) (bs : List Block)
    → 8 ≤ bp
    → owner n bs ≡ some s
    → ((r : ℕ) → Outside (bp + n) s r → w' r ≡ w r)
    → Seg w bp bs
    → Seg w' bp bs
unfolding Seg owner
Seg-payload w w' bp n s [] l e f g = g
Seg-payload w w' bp n s (b ∷ bs) l e f (t, g) = elim (Bool-cases (n == 0)) [
  | inl d ↦
      let z : n ≡ 0 = ground arith in
      let m : s ≡ b.size = ground arith in
      (
        record {
          header = f (hdrp bp) (inl (omega (arith, l, z))) ∙ t.header;
          footer = f ((bp + b.size) - 8) (inr (omega (arith, m, z))) ∙ t.footer;
          size_ok = t.size_ok;
          least = t.least;
          bit = t.bit;
        },
        Seg-frame w w' (bp + b.size) bs (omega arith)
            (λ r a c. f r (inr (omega (arith, m, z, a, t.least)))) g,
      )
  | inr d ↦
      let k : b.size ≤ n = ground arith in
      let e' : owner (n - b.size) bs ≡ some s = ground arith in
      (
        record {
          header = f (hdrp bp) (inl (omega (arith, l))) ∙ t.header;
          footer = f ((bp + b.size) - 8) (inl (omega (arith, l, k))) ∙ t.footer;
          size_ok = t.size_ok;
          least = t.least;
          bit = t.bit;
        },
        Seg-payload w w' (bp + b.size) (n - b.size) s bs (omega arith) e'
            (λ r o. f r (moved bp n s b r k o)) g,
      )
]

pub Laid-payload :
    (w w' : Words) (first n s : ℕ) (bs : List Block)
    → owner n bs ≡ some s
    → ((r : ℕ) → Outside (first + n) s r → w' r ≡ w r)
    → Laid w first bs
    → Laid w' first bs
Laid-payload w w' first n s bs e f l = record {
  blocks = Seg-payload w w' first n s bs l.low e f l.blocks;
  epilogue =
      f (hdrp (first + total bs)) (inr (omega (arith, owner_bound bs n s e, l.low))) ∙ l.epilogue;
  low = l.low;
  room = l.room;
}

pub payload-Outside :
    (first : ℕ) (bs : List Block) (q size : ℕ) (o : Owns first bs q size) (r : ℕ)
    → Outside (first + o.offset) o.bytes r
    → (r < q) ⊎ (q + size ≤ r)
payload-Outside first bs q size o r (inl d) = inl (omega (arith, d, o.at))
payload-Outside first bs q size o r (inr d) = inr (omega (arith, d, o.at, o.payload))
