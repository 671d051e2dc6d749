-- ===== src/Malloclab/FirstFit/Place.antt =====
-- `place` splits the block it is given and touches no word outside it.
use git_sty.Base.{
  ℕ, ◌+◌, ◌-◌, ◌≤◌, ◌<◌, ◌≡◌, ◌⊎◌, inl, inr, ◌∙◌, ap, refl, List, ◌∷◌, ◌++◌, true, false, leb,
  arith, Bool-cases,
}
use git_sty.Malloclab.FirstFit.{Words, get_size, hdrp, pack, put_both, place, sub32, next_blkp}
use git_sty.Malloclab.FirstFit.Words.{
  IsBlockSize, get_size-pack, get_alloc-pack, put_both_ne, put_both_header,
}
use git_sty.Malloclab.FirstFit.Chain.{Block, Chain, Chain-frame, split}

-- A block that is to be placed: its size is in its header, and a request of `asize` bytes fits.
pub record Fits (bp asize size : ℕ) (w : Words) : Type 0 where
  pub header : get_size w (hdrp bp) ≡ size
  pub size_ok : IsBlockSize size
  pub asize_ok : IsBlockSize asize
  pub low : 8 ≤ bp
  pub least : 16 ≤ asize
  pub room : asize ≤ size

module _ (bp asize size : ℕ) (w : Words) (f : Fits bp asize size w) where
  short : sub32 size asize ≡ size - asize
  unfolding IsBlockSize
  short = omega (arith, f.size_ok.1, f.asize_ok.1, f.room)

  left_ok : IsBlockSize (size - asize)
  unfolding IsBlockSize
  left_ok = omega (arith, f.size_ok, f.asize_ok, f.room)

  next_at : next_blkp (put_both bp (pack asize 1) w) bp ≡ bp + asize
  next_at =
      ap (λ n. bp + n)
        (get_size-pack (put_both bp (pack asize 1) w) (hdrp bp) asize 1 f.asize_ok (omega arith)
          (put_both_header bp asize 1 w f.asize_ok (omega arith) f.low))

  pub place_split :
      leb 16 (size - asize) ≡ true
      → place bp asize w
        ≡ put_both (bp + asize) (pack (size - asize) 0) (put_both bp (pack asize 1) w)
  unfolding place
  place_split e = rw (f.header, short, e, next_at) refl

  pub place_whole : leb 16 (size - asize) ≡ false → place bp asize w ≡ put_both bp (pack size 1) w
  unfolding place
  place_whole e = rw (f.header, short, e) refl

  enough : leb 16 (size - asize) ≡ true → 16 ≤ size - asize
  enough e = ground arith

  split_ne :
      (q : ℕ)
      → (q < hdrp bp) ⊎ ((bp + size) - 4 ≤ q)
      → leb 16 (size - asize) ≡ true
      → place bp asize w q ≡ w q
  split_ne q o e =
      ap (λ v. v q) (place_split e)
      ∙ put_both_ne (bp + asize) (size - asize) 0 (put_both bp (pack asize 1) w) left_ok
          (omega arith) q (omega (arith, o, f.low, f.room, enough e))
          (omega (arith, o, f.low, f.room, f.least))
      ∙ put_both_ne bp asize 1 w f.asize_ok (omega arith) q
          (omega (arith, o, f.low, f.room, f.least)) (omega (arith, o, f.low, f.room, f.least))

  whole_ne :
      (q : ℕ)
      → (q < hdrp bp) ⊎ ((bp + size) - 4 ≤ q)
      → leb 16 (size - asize) ≡ false
      → place bp asize w q ≡ w q
  whole_ne q o e =
      ap (λ v. v q) (place_whole e)
      ∙ put_both_ne bp size 1 w f.size_ok (omega arith) q (omega (arith, o, f.low, f.room, f.least))
          (omega (arith, o, f.low, f.room, f.least))

  -- For such a block and request (a record of `Fits`) `place` changes no word below the block's header or above its footer.
  pub place_ne : (q : ℕ) → (q < hdrp bp) ⊎ ((bp + size) - 4 ≤ q) → place bp asize w q ≡ w q
  place_ne q o = elim (Bool-cases (leb 16 (size - asize))) [
    | inl e ↦ split_ne q o e
    | inr e ↦ whole_ne q o e
  ]

  again : bp + asize + (size - asize) ≡ bp + size
  again = omega (arith, f.room)

  block_head :
      (a s : ℕ) (v : Words) (p : ℕ) (bs : List Block)
      → v (hdrp p) ≡ pack s a
      → IsBlockSize s
      → a < 2
      → 0 < s
      → Chain v (p + s) bs
      → Chain v p (record { size = s; alloc = a } ∷ bs)
  unfolding Chain
  block_head a s v p bs e i l z c =
      (get_size-pack v (hdrp p) s a i l e, (get_alloc-pack v (hdrp p) s a i l e, (i, (z, c))))

  rest_kept : (bs : List Block) → Chain w (bp + size) bs → Chain (place bp asize w) (bp + size) bs
  rest_kept bs c =
      Chain-frame w (place bp asize w) (bp + size) ((bp + size) - 4) bs (omega arith)
        (λ q l. place_ne q (inr l)) c

  split_header : leb 16 (size - asize) ≡ true → place bp asize w (hdrp bp) ≡ pack asize 1
  split_header e =
      ap (λ v. v (hdrp bp)) (place_split e)
      ∙ put_both_ne (bp + asize) (size - asize) 0 (put_both bp (pack asize 1) w) left_ok
          (omega arith) (hdrp bp) (omega (arith, f.low, f.room, f.least))
          (omega (arith, f.low, f.room, f.least))
      ∙ put_both_header bp asize 1 w f.asize_ok (omega arith) f.low

  left_header :
      leb 16 (size - asize) ≡ true → place bp asize w (hdrp (bp + asize)) ≡ pack (size - asize) 0
  left_header e =
      ap (λ v. v (hdrp (bp + asize))) (place_split e)
      ∙ put_both_header (bp + asize) (size - asize) 0 (put_both bp (pack asize 1) w) left_ok
          (omega arith) (omega (arith, f.low))

  -- For a block at 8 or above with its size in its header, and a request of 16 bytes or more that is a
  -- block size and fits, `place` replaces the block by an allocated one, followed by a free one where 16 bytes or more are
  -- left, and keeps the chain behind.
  pub place-Chain :
      (a : ℕ) (bs : List Block)
      → Chain w (bp + size) bs
      → Chain (place bp asize w) bp (split asize (record { size = size; alloc = a }) ++ bs)
  unfolding split
  place-Chain a bs c = elim (Bool-cases (leb 16 (size - asize))) [
    | inl e ↦ rw e (
        block_head 1 asize (place bp asize w) bp (record { size = size - asize; alloc = 0 } ∷ bs)
          (split_header e) f.asize_ok (omega arith) (omega (arith, f.least))
          (block_head 0 (size - asize) (place bp asize w) (bp + asize) bs (left_header e) left_ok
            (omega arith) (omega (arith, enough e)) (rw again (rest_kept bs c))))
    | inr e ↦ rw e (
        block_head 1 size (place bp asize w) bp bs
          (ap (λ v. v (hdrp bp)) (place_whole e)
            ∙ put_both_header bp size 1 w f.size_ok (omega arith) f.low)
          f.size_ok (omega arith) (omega (arith, f.least, f.room)) (rest_kept bs c))
  ]
