-- ===== src/Cachelab/Csim/Aging.antt =====
-- `last_used` is not the time since the last use: a hit ends the scan, and lines behind it do not age.
use git_sty.Base.{ℕ, ◌≡◌, ◌≢◌, true, false, List, [], ◌∷◌, arith, replicate, ap, ◌∙◌}
use git_sty.Cachelab.Csim.{Line, scan, fill_first, oldest, evict, access_set}
use git_sty.Cachelab.Csim.Present.{present}
use git_sty.Cachelab.Csim.Victim.{blank}

abbrev pub access_all : (ℕ → ℕ) → ℕ → List ℕ → List Line → List Line
access_all tag_of assoc [] ls = ls
access_all tag_of assoc (a ∷ as') ls = access_all tag_of assoc as' (access_set tag_of assoc a ls).0

abbrev line : ℕ → ℕ → Line
line a n = record { valid = true; last_used = n; line = a }

module _ (tag_of : ℕ → ℕ) {a b c d : ℕ} (ab : tag_of a ≢ tag_of b) (ac : tag_of a ≢ tag_of c)
    (ad : tag_of a ≢ tag_of d) (bc : tag_of b ≢ tag_of c) (bd : tag_of b ≢ tag_of d)
    (cd : tag_of c ≢ tag_of d) where
  step1 : (access_set tag_of 3 a (replicate 3 blank)).0 ≡ line a 0 ∷ blank ∷ blank ∷ []
  unfolding access_set scan fill_first
  step1 = ground arith

  step2 :
      (access_set tag_of 3 b (line a 0 ∷ blank ∷ blank ∷ [])).0 ≡ line a 1 ∷ line b 0 ∷ blank ∷ []
  unfolding access_set scan fill_first
  step2 = ground arith

  step3 :
      (access_set tag_of 3 c (line a 1 ∷ line b 0 ∷ blank ∷ [])).0
      ≡ line a 2 ∷ line b 1 ∷ line c 0 ∷ []
  unfolding access_set scan fill_first
  step3 = ground arith

  step4 :
      (access_set tag_of 3 a (line a 2 ∷ line b 1 ∷ line c 0 ∷ [])).0
      ≡ line a 0 ∷ line b 1 ∷ line c 0 ∷ []
  unfolding access_set scan fill_first
  step4 = ground arith

  step5 :
      (access_set tag_of 3 b (line a 0 ∷ line b 1 ∷ line c 0 ∷ [])).0
      ≡ line a 1 ∷ line b 0 ∷ line c 0 ∷ []
  unfolding access_set scan fill_first
  step5 = ground arith

  step6 :
      (access_set tag_of 3 d (line a 1 ∷ line b 0 ∷ line c 0 ∷ [])).0
      ≡ line d 0 ∷ line b 1 ∷ line c 1 ∷ []
  unfolding access_set scan evict oldest fill_first
  step6 = ground arith

  all_steps :
      access_all tag_of 3 (a ∷ b ∷ c ∷ a ∷ b ∷ d ∷ []) (replicate 3 blank)
      ≡ line d 0 ∷ line b 1 ∷ line c 1 ∷ []
  all_steps =
      ap (access_all tag_of 3 (b ∷ c ∷ a ∷ b ∷ d ∷ [])) step1
      ∙ ap (access_all tag_of 3 (c ∷ a ∷ b ∷ d ∷ [])) step2
      ∙ ap (access_all tag_of 3 (a ∷ b ∷ d ∷ [])) step3
      ∙ ap (access_all tag_of 3 (b ∷ d ∷ [])) step4
      ∙ ap (access_all tag_of 3 (d ∷ [])) step5
      ∙ step6

  -- In a set of three lines, after accesses to four blocks in the order a b c a b d, the block a is
  -- gone, though b and a were used last, and c, the least recently used one, is still there.
  pub evicts_recent :
      let ls = access_all tag_of 3 (a ∷ b ∷ c ∷ a ∷ b ∷ d ∷ []) (replicate 3 blank) in
      (present tag_of (tag_of a) ls ≡ false) × (present tag_of (tag_of c) ls ≡ true)
  evicts_recent = (
    ap (present tag_of (tag_of a)) all_steps ∙ ground arith,
    ap (present tag_of (tag_of c)) all_steps ∙ ground arith,
  )
