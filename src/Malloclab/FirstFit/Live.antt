-- ===== src/Malloclab/FirstFit/Live.antt =====
-- The blocks in use after any sequence of `mm_malloc` and `mm_free`: what holds of them.
use git_sty.Base.{
  ℕ, ◌+◌, ◌-◌, ◌%◌, ◌≤◌, ◌<◌, ◌≡◌, ◌≢◌, ap, refl, false, ◌==◌, if◌then◌else◌, Option, none, some,
  List, [], ◌∷◌, ◌++◌, length, arith, Bool-cases, inl, inr,
}
use git_sty.Malloclab.FirstFit.{Words, adjust}
use git_sty.Malloclab.FirstFit.Words.{IsBlockSize}
use git_sty.Malloclab.FirstFit.Chain.{Block}
use git_sty.Malloclab.FirstFit.Malloc.{adjust_lem}
use git_sty.Malloclab.FirstFit.Tags.{total, Seg}
use git_sty.Malloclab.FirstFit.Owner.{owner, Gains}

pub some-none : (a : ℕ) → some a ≢ none
some-none a e = ground arith

-- The blocks in use: the pointer of each, and the bytes that were asked for.
abbrev pub Live : Type 0
Live = ℕ → Option ℕ

abbrev pub update : ℕ → Option ℕ → Live → Live
update q v live r = if r == q then v else live r

-- Among the blocks `bs` from `first` on, one at `q` that is not the first serves a request of `size` bytes.
pub record Owns (first : ℕ) (bs : List Block) (q size : ℕ) : Type 0 where
  pub offset : ℕ
  pub at : q ≡ first + offset
  pub later : 0 < offset
  pub bytes : ℕ
  pub owned : owner offset bs ≡ some bytes
  pub enough : adjust size ≤ bytes
  pub payload : size + 8 ≤ bytes

-- The blocks of a heap serve what is in use, behind the prologue block.
pub record Serving (first : ℕ) (bs : List Block) (live : Live) : Type 0 where
  pub prologue : owner 0 bs ≡ some 8
  pub owns : (q size : ℕ) → live q ≡ some size → Owns first bs q size

still :
    (asize n m b : ℕ) (bs bs' : List Block)
    → Gains asize n bs bs'
    → owner m bs ≡ some b
    → owner m bs' ≡ some b
still asize n m b bs bs' g e = elim (Bool-cases (m == n)) [
  | inl d ↦ absurd (ground (arith, g.fresh))
  | inr d ↦ ground (arith, g.owners m)
]

-- A request that was granted: its block is in use too.
pub Serving-grow :
    (first n q size : ℕ) (bs bs' : List Block) (live : Live)
    → q ≡ first + n
    → size + 15 < 4294967296
    → Gains (adjust size) n bs bs'
    → Serving first bs live
    → Serving first bs' (update q (some size) live)
Serving-grow first n q size bs bs' live e z g s = record {
  prologue = ground (arith, s.prologue, g.fresh, g.owners 0);
  owns = λ r t l. elim (Bool-cases (r == q)) [
    | inl d ↦ record {
      offset = n;
      at = ground (arith, e);
      later = ground (arith, s.prologue, g.fresh);
      bytes = g.size;
      owned = ground (arith, g.owners n);
      enough = ground (arith, g.large);
      payload = ground (arith, g.large, (adjust_lem size z).1.1);
    }
    | inr d ↦
        let o : Owns first bs r t = s.owns r t (ground arith) in
        record {
          offset = o.offset;
          at = o.at;
          later = o.later;
          bytes = o.bytes;
          owned = still (adjust size) n o.offset o.bytes bs bs' g o.owned;
          enough = o.enough;
          payload = o.payload;
        }
  ];
}

-- A block that was given free: the others are still in use.
pub Serving-shrink :
    (first n q : ℕ) (bs bs' : List Block) (live : Live)
    → q ≡ first + n
    → 0 < n
    → ((k : ℕ) → owner k bs' ≡ (if k == n then none else owner k bs))
    → Serving first bs live
    → Serving first bs' (update q none live)
Serving-shrink first n q bs bs' live e z f s = record {
  prologue = ground (arith, s.prologue, f 0);
  owns = λ r t l. elim (Bool-cases (r == q)) [
    | inl d ↦ absurd (ground arith)
    | inr d ↦
        let o : Owns first bs r t = s.owns r t (ground arith) in
        record {
          offset = o.offset;
          at = o.at;
          later = o.later;
          bytes = o.bytes;
          owned = ground (arith, f o.offset, o.owned, o.at, e);
          enough = o.enough;
          payload = o.payload;
        }
  ];
}

-- An owned block that is not the first has a block before it.
pub record Inner (bs : List Block) (n : ℕ) : Type 0 where
  pub before : List Block
  pub previous : Block
  pub block : Block
  pub after : List Block
  pub parts : bs ≡ before ++ (previous ∷ block ∷ after)
  pub offset : n ≡ total before + previous.size
  pub taken : (block.alloc == 0) ≡ false

pub owner-Inner : (bs : List Block) (n s : ℕ) → owner n bs ≡ some s → 0 < n → Inner bs n
unfolding owner
owner-Inner [] n s e z = absurd (ground arith)
owner-Inner (b ∷ []) n s e z = absurd (ground arith)
owner-Inner (b ∷ c ∷ bs) n s e z = elim (Bool-cases (n == b.size)) [
  | inl d ↦ record {
    before = [];
    previous = b;
    block = c;
    after = bs;
    parts = refl;
    offset = ground arith;
    taken = ground arith;
  }
  | inr d ↦
      let i : Inner (c ∷ bs) (n - b.size) =
        owner-Inner (c ∷ bs) (n - b.size) s (ground arith) (ground arith) in
      record {
        before = b ∷ i.before;
        previous = i.previous;
        block = i.block;
        after = i.after;
        parts = ap (λ t. b ∷ t) i.parts;
        offset = ground (arith, i.offset);
        taken = i.taken;
      }
]

-- Owned blocks begin on a multiple of 8 bytes above the first.
pub owner_aligned :
    (w : Words) (bp n s : ℕ) (bs : List Block) → Seg w bp bs → owner n bs ≡ some s → n % 8 ≡ 0
unfolding owner Seg IsBlockSize
owner_aligned w bp n s [] g e = absurd (ground arith)
owner_aligned w bp n s (b ∷ bs) (t, g) e = elim (Bool-cases (n == 0)) [
  | inl d ↦ ground arith
  | inr d ↦
      let e' : owner (n - b.size) bs ≡ some s = ground arith in
      let l : b.size ≤ n = ground arith in
      omega (arith, l, t.size_ok, owner_aligned w (bp + b.size) (n - b.size) s bs g e')
]

-- A block takes 8 bytes at least, so there are no more blocks than bytes.
pub length-total : (w : Words) (bp : ℕ) (bs : List Block) → Seg w bp bs → length bs ≤ total bs
unfolding Seg
length-total w bp [] s = omega arith
length-total w bp (b ∷ bs) (t, s) = omega (arith, t.least, length-total w (bp + b.size) bs s)

last_from :
    (b : Block) (bs : List Block) → (xs : List Block) × ((p : Block) × (b ∷ bs ≡ xs ++ (p ∷ [])))
last_from b [] = ([], (b, refl))
last_from b (c ∷ bs) = let (xs, (p, e)) = last_from c bs in (b ∷ xs, (p, ap (λ t. b ∷ t) e))

-- A list with an owned block has a last one.
pub last_of :
    (bs : List Block) (n s : ℕ)
    → owner n bs ≡ some s
    → (xs : List Block) × ((p : Block) × (bs ≡ xs ++ (p ∷ [])))
unfolding owner
last_of [] n s e = absurd (ground arith)
last_of (b ∷ bs) n s e = last_from b bs
