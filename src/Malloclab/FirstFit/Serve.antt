-- ===== src/Malloclab/FirstFit/Serve.antt =====
-- `place` on a heap with boundary tags, and where `find_fit` finds its block.
use git_sty.Base.{
  ℕ, zero, suc, ◌+◌, ◌-◌, ◌≤◌, ◌<◌, ◌≡◌, inl, inr, ◌∙◌, ap, refl, true, false, ◌&&◌, leb, ◌==◌,
  none, some, List, [], ◌∷◌, ◌++◌, length, arith, Bool-cases,
}
use git_sty.Malloclab.FirstFit.{
  Words, hdrp, pack, put_both, place, Found, found, no_fit, out_of_fuel, find_fit,
}
use git_sty.Malloclab.FirstFit.Words.{
  IsBlockSize, get_size-pack, get_alloc-pack, put_both_ne, put_both_header, put_both_at_footer,
}
use git_sty.Malloclab.FirstFit.Chain.{Block, Chain, split, allocate}
use git_sty.Malloclab.FirstFit.Place.{Fits, place_split, place_whole, place_ne}
use git_sty.Malloclab.FirstFit.Tags.{total, Tagged, Seg, Seg-split, Laid, Laid-replace}

pub total-split : (asize : ℕ) (b : Block) → asize ≤ b.size → total (split asize b) ≡ b.size
unfolding split
total-split asize b h = elim (Bool-cases (leb 16 (b.size - asize))) [
  | inl e ↦ rw e (omega (arith, h))
  | inr e ↦ rw e (omega arith)
]

module _ (w : Words) (q asize : ℕ) (b : Block) (i : IsBlockSize asize) (f : Fits q asize b.size w)
    (j : IsBlockSize b.size) where
  rest_ok : IsBlockSize (b.size - asize)
  unfolding IsBlockSize
  rest_ok = omega (arith, i, j, f.room)

  both : Words
  both = put_both (q + asize) (pack (b.size - asize) 0) (put_both q (pack asize 1) w)

  split_head : 16 ≤ b.size - asize → Tagged both q (record { size = asize; alloc = 1 })
  unfolding both
  split_head h = record {
    header =
        put_both_ne (q + asize) (b.size - asize) 0 (put_both q (pack asize 1) w) rest_ok
          (omega arith) (hdrp q) (omega (arith, f.low, f.least)) (omega (arith, f.low, f.least, h))
        ∙ put_both_header q asize 1 w i (omega arith) f.low;
    footer =
        put_both_ne (q + asize) (b.size - asize) 0 (put_both q (pack asize 1) w) rest_ok
          (omega arith) ((q + asize) - 8) (omega (arith, f.low, f.least))
          (omega (arith, f.low, f.least, h))
        ∙ put_both_at_footer q asize 1 w i (omega arith);
    size_ok = i;
    least = omega (arith, f.least);
    bit = omega arith;
  }

  split_tail :
      16 ≤ b.size - asize → Tagged both (q + asize) (record { size = b.size - asize; alloc = 0 })
  unfolding both
  split_tail h = record {
    header =
        put_both_header (q + asize) (b.size - asize) 0 (put_both q (pack asize 1) w) rest_ok
          (omega arith) (omega (arith, f.low));
    footer =
        put_both_at_footer (q + asize) (b.size - asize) 0 (put_both q (pack asize 1) w) rest_ok
          (omega arith);
    size_ok = rest_ok;
    least = omega (arith, h);
    bit = omega arith;
  }

  enough : leb 16 (b.size - asize) ≡ true → 16 ≤ b.size - asize
  enough e = ground arith

  pub place-Seg : Seg (place q asize w) q (split asize b)
  unfolding Seg split both
  place-Seg = elim (Bool-cases (leb 16 (b.size - asize))) [
    | inl e ↦
        rw (e, place_split q asize b.size w f e)
          (split_head (enough e), (split_tail (enough e), tt))
    | inr e ↦
        rw (e, place_whole q asize b.size w f e)
          (
            record {
              header = put_both_header q b.size 1 w j (omega arith) f.low;
              footer = put_both_at_footer q b.size 1 w j (omega arith);
              size_ok = j;
              least = omega (arith, f.least, f.room);
              bit = omega arith;
            },
            tt,
          )
  ]

-- `place` of a request that fits replaces the block by what `split` makes of it.
pub place-Laid :
    (w : Words) (first asize : ℕ) (xs : List Block) (b : Block) (ys : List Block)
    → Laid w first (xs ++ (b ∷ ys))
    → IsBlockSize asize
    → 16 ≤ asize
    → asize ≤ b.size
    → Laid (place (first + total xs) asize w) first (xs ++ (split asize b ++ ys))
unfolding Seg
place-Laid w first asize xs b ys l i z m =
    let q = first + total xs in
    let t = (Seg-split w first xs (b ∷ ys) l.blocks).1.0 in
    let f : Fits q asize b.size w = record {
      header = get_size-pack w (hdrp q) b.size b.alloc t.size_ok t.bit t.header;
      size_ok = t.size_ok;
      asize_ok = i;
      low = omega (arith, l.low);
      least = z;
      room = m;
    } in
    Laid-replace w (place q asize w) first xs (b ∷ []) (split asize b) ys l
      (omega (arith, total-split asize b m)) (place-Seg w q asize b i f t.size_ok)
      (λ r o. place_ne q asize b.size w f r (omega (arith, o)))

Seg-Chain :
    (w : Words) (q : ℕ) (bs : List Block)
    → Seg w q bs
    → w (hdrp (q + total bs)) ≡ pack 0 1
    → Chain w q bs
unfolding Seg Chain IsBlockSize
Seg-Chain w q [] s e =
    get_size-pack w (hdrp q) 0 1 (omega arith) (omega arith)
      (ap (λ n. w (hdrp n)) (omega arith) ∙ e)
Seg-Chain w q (b ∷ bs) (t, s) e = (
  get_size-pack w (hdrp q) b.size b.alloc t.size_ok t.bit t.header,
  (
    get_alloc-pack w (hdrp q) b.size b.alloc t.size_ok t.bit t.header,
    (
      t.size_ok,
      (
        omega (arith, t.least),
        Seg-Chain w (q + b.size) bs s (ap (λ n. w (hdrp n)) (omega arith) ∙ e),
      ),
    ),
  ),
)

pub Laid-Chain : (w : Words) (first : ℕ) (bs : List Block) → Laid w first bs → Chain w first bs
Laid-Chain w first bs l = Seg-Chain w first bs l.blocks l.epilogue

-- Where first fit finds a block among `bs`, and what it makes of them.
pub record FitAt (asize : ℕ) (bs : List Block) (n : ℕ) : Type 0 where
  pub before : List Block
  pub block : Block
  pub after : List Block
  pub parts : bs ≡ before ++ (block ∷ after)
  pub offset : n ≡ total before
  pub unused : (block.alloc == 0) ≡ true
  pub room : asize ≤ block.size
  pub allocated : allocate asize bs ≡ some (before ++ (split asize block ++ after))

unfoldable pub Finds : ℕ → List Block → ℕ → Found → Type 0
Finds asize bs bp (found q) = (n : ℕ) × ((q ≡ bp + n) × FitAt asize bs n)
Finds asize bs bp no_fit = allocate asize bs ≡ none
Finds asize bs bp out_of_fuel = ⊥

skip-Finds :
    (asize bp : ℕ) (b : Block) (bs : List Block) (r : Found)
    → ((b.alloc == 0) && leb asize b.size) ≡ false
    → Finds asize bs (bp + b.size) r
    → Finds asize (b ∷ bs) bp r
unfolding Finds allocate
skip-Finds asize bp b bs (found q) g (n, (e, f)) = (
  b.size + n,
  (
    omega (arith, e),
    record {
      before = b ∷ f.before;
      block = f.block;
      after = f.after;
      parts = ap (λ t. b ∷ t) f.parts;
      offset = omega (arith, f.offset);
      unused = f.unused;
      room = f.room;
      allocated = rw (g, f.allocated) refl;
    },
  ),
)
skip-Finds asize bp b bs no_fit g e = rw (g, e) refl
skip-Finds asize bp b bs out_of_fuel g e = e

-- With fuel for each block and one more, `find_fit` finds the first free block that is large enough, or
-- answers that there is none.
pub find_fit-Finds :
    (fuel asize bp : ℕ) (w : Words) (bs : List Block)
    → Chain w bp bs
    → length bs < fuel
    → Finds asize bs bp (find_fit fuel asize bp w)
unfolding find_fit allocate Finds Chain
find_fit-Finds zero asize bp w bs c h = absurd (omega arith)
find_fit-Finds (suc k) asize bp w [] c h = rw c refl
find_fit-Finds (suc k) asize bp w (b ∷ bs) (s, (a, (j, (p, c)))) h =
    let e : (b.size == 0) ≡ false = ground arith in
    elim (Bool-cases ((b.alloc == 0) && leb asize b.size)) [
      | inl g ↦
          rw (s, a, e, g)
            (
              0,
              (
                omega arith,
                record {
                  before = [];
                  block = b;
                  after = bs;
                  parts = refl;
                  offset = refl;
                  unused = ground arith;
                  room = ground arith;
                  allocated = rw g refl;
                },
              ),
            )
      | inr g ↦
          rw (s, a, e, g)
            (skip-Finds asize bp b bs (find_fit k asize (bp + b.size) w) g
              (find_fit-Finds k asize (bp + b.size) w bs c (omega arith)))
    ]
