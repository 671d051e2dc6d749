-- ===== src/Cachelab/Csim/Tests.antt =====
-- Runs of the simulator, and the theorems at them.
use git_sty.Base.{ℕ, zero, suc, ◌/◌, ◌≡◌, refl, ◌<◌, true, List, [], ◌∷◌, arith, some, none, get_or}
use git_sty.Cachelab.Csim.{
  Config, Line, Item, whole, init, replay, check_cache, tag, set_index, tag_mask, set_mask,
  int_cast, access_set, scan, fill_first, oldest, evict, count,
}
use git_sty.Cachelab.Csim.Contents.{IsCacheSet, Contents, access_set_contents}
use git_sty.Cachelab.Csim.Access.{IsCache}

-- yi.trace with -s 4 -E 1 -b 4.
abbrev yi : List Item
yi =
    whole b'L' 0x10 1
    ∷ whole b'M' 0x20 1
    ∷ whole b'L' 0x22 1
    ∷ whole b'S' 0x18 1
    ∷ whole b'L' 0x110 1
    ∷ whole b'L' 0x210 1
    ∷ whole b'M' 0x12 1
    ∷ []

abbrev direct : Config
direct = record { set_bits = 4; assoc = 1; block_bits = 4 }

yi_result : ℕ × ℕ × ℕ
yi_result = elim (replay direct yi (init direct)) [
  | none ↦ (0, 0, 0)
  | some c ↦ (c.hits, c.misses, c.evictions)
]

yi_counts : yi_result ≡ (4, 5, 3)
unfolding yi_result replay init check_cache set_index tag set_mask tag_mask int_cast access_set scan
    fill_first evict oldest count
yi_counts = refl

abbrev pair : List Line
pair =
    record { valid = true; last_used = 3; line = 0x10 }
    ∷ record { valid = true; last_used = 5; line = 0x110 }
    ∷ []

abbrev by_16 : ℕ → ℕ
by_16 a = a / 16

pair-IsCacheSet : IsCacheSet by_16 2 pair
pair-IsCacheSet = record { size = refl; distinct = (refl, (refl, tt)) }

access_set_contents_example : Contents by_16 2 0x20 pair (access_set by_16 2 0x20 pair)
access_set_contents_example = access_set_contents by_16 2 0x20 pair (omega arith) pair-IsCacheSet

abbrev tiny : Config
tiny = record { set_bits = 1; assoc = 1; block_bits = 4 }

tiny-IsCache : IsCache tiny (init tiny)
unfolding init
tiny-IsCache = record { table = refl; each = each }
  where
    each : (i : ℕ) → i < 2 → IsCacheSet (tag tiny) 1 (get_or (init tiny).sets i [])
    each zero h = record { size = refl; distinct = (refl, tt) }
    each (suc zero) h = record { size = refl; distinct = (refl, tt) }
    each (suc (suc i)) h = absurd (omega arith)
