-- ===== src/Malloclab/Explicit/Moves.antt =====
-- `add_free_block` and `remove_free_block` over the blocks of malloclab/mm.c.
use git_sty.Base.{
  ℕ, ◌+◌, ◌-◌, ◌%◌, ◌≤◌, ◌<◌, ◌≡◌, ◌≢◌, inl, inr, sym, Option, none, some, List, [], ◌∷◌, ◌++◌,
  length, ◌==◌, Bool-cases, arith,
}
use mathlib.Core.Path.{subst}
use git_sty.Malloclab.FirstFit.{Words, hdrp}
use git_sty.Malloclab.FirstFit.Words.{IsBlockSize}
use git_sty.Malloclab.FirstFit.Chain.{Block}
use git_sty.Malloclab.FreeList.{FreeList, next_ptr, prev_ptr, add_free_block, remove_free_block}
use git_sty.Malloclab.FreeList.Chained.{IsPointer, NotAmong, Distinct, Away}
use git_sty.Malloclab.FreeList.Split.{NotAmong-cut}
use git_sty.Malloclab.FreeList.Add.{Adds, add_free_block-Adds}
use git_sty.Malloclab.FreeList.Remove.{remove_free_block-Holds, remove_free_block-frame}
use git_sty.Malloclab.Explicit.Blocks.{Map, Tagged, Blocks, Blocks-frame}
use git_sty.Malloclab.Explicit.Listed.{
  Freed, AllFree, Listed, AllFree-cut, AllFree-join, tag_elsewhere,
}

own_tags :
    (p s : ℕ)
    → 8 ≤ p
    → 16 ≤ s
    → p % 8 ≡ 0
    → s % 8 ≡ 0
    → ((hdrp p ≢ next_ptr p) × ((p + s) - 8 ≢ next_ptr p))
      × ((hdrp p ≢ prev_ptr p) × ((p + s) - 8 ≢ prev_ptr p))
own_tags p s a b d e = (
  (λ v. omega (arith, a, v), λ v. omega (arith, a, b, v)),
  (λ v. omega (arith, a, v), λ v. omega (arith, a, b, d, e, v)),
)

module _ (w : Words) (lo hi : ℕ) (z : 8 ≤ lo) (m : Map) (k : Blocks w lo hi m) where
  tags :
      (p : ℕ) (b : Block) (q : ℕ) (c : Block)
      → m p ≡ some b
      → m q ≡ some c
      → ((hdrp p ≢ next_ptr q) × ((p + b.size) - 8 ≢ next_ptr q))
        × ((hdrp p ≢ prev_ptr q) × ((p + b.size) - 8 ≢ prev_ptr q))
  unfolding IsBlockSize
  tags p b q c e f =
      let t = k.tagged p b e in
      let u = k.tagged q c f in
      let i = t.size_ok.0 in
      elim (Bool-cases (q == p)) [
        | inl x ↦
            let v : q ≡ p = ground arith in
            rw v (own_tags p b.size (omega (arith, z, t.low)) t.least t.aligned i)
        | inr x ↦
            let v : q ≢ p = λ y. ground arith in
            tag_elsewhere p b.size q c.size (omega (arith, z, t.low)) t.least t.aligned i
              (omega (arith, z, u.low)) u.least u.aligned (k.apart p b e q c f v)
      ]

  -- The tags of a block are no pointers of the blocks on the list.
  tags-Away :
      (p : ℕ) (b : Block) (fs : List ℕ)
      → m p ≡ some b
      → AllFree m fs
      → Away (hdrp p) fs × Away ((p + b.size) - 8) fs
  unfolding AllFree Away
  tags-Away p b [] e f = (tt, tt)
  tags-Away p b (q ∷ fs) e ((s, g), f) =
      let o = tags p b q (record { size = s; alloc = 0 }) e g in
      let r = tags-Away p b fs e f in ((o.0.0, (o.1.0, r.0)), (o.0.1, (o.1.1, r.1)))

  -- Words that are the same but for the pointers of blocks on the list.
  Away-Blocks :
      (w' : Words) (fs : List ℕ)
      → AllFree m fs
      → ((a : ℕ) → Away a fs → w' a ≡ w a)
      → Blocks w' lo hi m
  Away-Blocks w' fs f h =
      Blocks-frame w w' lo hi hi m (omega arith)
        (λ p b e. let r = tags-Away p b fs e f in (h (hdrp p) r.0, h ((p + b.size) - 8) r.1)) k

pub free-IsPointer :
    (w : Words) (lo hi p : ℕ) (b : Block) → 8 ≤ lo → Tagged w lo hi p b → IsPointer p
free-IsPointer w lo hi p b z t = (t.aligned, omega (arith, z, t.low))

-- What `add_free_block` owes.
unfoldable pub StillListed : ℕ → ℕ → Map → Option FreeList → Type 0
StillListed lo hi m (some l) = (fs : List ℕ) × Listed l lo hi m fs
StillListed lo hi m none = ⊥

Adds-StillListed :
    (lo hi : ℕ) (l : FreeList) (m : Map) (fs : List ℕ) (p : ℕ) (r : Option FreeList)
    → 8 ≤ lo
    → Freed m p
    → Listed l lo hi m fs
    → Adds l.words p fs r
    → StillListed lo hi m r
unfolding Adds StillListed AllFree
Adds-StillListed lo hi l m fs p (some l') z g k a =
    let (x, y) = AllFree-cut m a.before a.after (subst (AllFree m) a.parts k.free) in
    (
      a.before ++ (p ∷ a.after),
      record {
        blocks = Away-Blocks l.words lo hi z m k.blocks l'.words (p ∷ fs) (g, k.free) a.frame;
        holds = a.holds;
        free = AllFree-join m a.before (p ∷ a.after) x (g, y);
      },
    )
Adds-StillListed lo hi l m fs p none z g k a = a

pub add-StillListed :
    (lo hi : ℕ) (l : FreeList) (m : Map) (fs : List ℕ) (fuel p : ℕ)
    → 8 ≤ lo
    → Freed m p
    → NotAmong p fs
    → length fs < fuel
    → Listed l lo hi m fs
    → StillListed lo hi m (add_free_block fuel p l)
add-StillListed lo hi l m fs fuel p z (s, e) n h k =
    let b : Block = record { size = s; alloc = 0 } in
    Adds-StillListed lo hi l m fs p (add_free_block fuel p l) z (s, e) k
      (add_free_block-Adds fuel p l fs k.holds
        (free-IsPointer l.words lo hi p b z (k.blocks.tagged p b e)) n h)

Distinct-NotAmong :
    (xs : List ℕ) (b : ℕ) (ys : List ℕ) → Distinct (xs ++ (b ∷ ys)) → NotAmong b (xs ++ ys)
unfolding Distinct NotAmong
Distinct-NotAmong [] b ys (n, d) = n
Distinct-NotAmong (x ∷ xs) b ys (n, d) =
    let r = NotAmong-cut x xs (b ∷ ys) n in ((λ e. r.1.0 (sym e)), Distinct-NotAmong xs b ys d)

pub remove-Listed :
    (lo hi : ℕ) (l : FreeList) (m : Map) (xs : List ℕ) (b : ℕ) (ys : List ℕ)
    → 8 ≤ lo
    → Listed l lo hi m (xs ++ (b ∷ ys))
    → Listed (remove_free_block b l) lo hi m (xs ++ ys) × NotAmong b (xs ++ ys)
unfolding AllFree
remove-Listed lo hi l m xs b ys z k =
    let (f, g) = AllFree-cut m xs (b ∷ ys) k.free in
    (
      record {
        blocks =
            Away-Blocks l.words lo hi z m k.blocks (remove_free_block b l).words (xs ++ (b ∷ ys))
              k.free (λ a h. remove_free_block-frame l xs b ys a k.holds h);
        holds = remove_free_block-Holds l xs b ys k.holds;
        free = AllFree-join m xs ys f g.1;
      },
      Distinct-NotAmong xs b ys k.holds.distinct,
    )
