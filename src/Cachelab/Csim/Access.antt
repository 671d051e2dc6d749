-- ===== src/Cachelab/Csim/Access.antt =====
-- One `check_cache` on the whole cache.
use git_sty.Base.{
  ℕ, ◌+◌, ◌^◌, ◌≡◌, ◌≢◌, refl, ◌<◌, true, List, [], arith, get_or, set, length, length-set, ◌∙◌,
  get_or-set_self, get_or-set_ne, ℕ_discrete, sym,
}
use git_sty.Cachelab.Csim.{
  Config, Line, Cache, Outcome, hit, miss, eviction, access_set, count, check_cache, tag, set_index,
}
use git_sty.Cachelab.Csim.Present.{present, access_set_lem}
use git_sty.Cachelab.Csim.Contents.{IsCacheSet, access_set_contents, Contents}
use git_sty.Cachelab.Csim.Fields.{Fits, fields}

abbrev pub set_of : Config → Cache → ℕ → List Line
set_of g c i = get_or c.sets i []

-- `2^s` sets, each of `E` lines with distinct tags.
pub record IsCache (g : Config) (c : Cache) : Type 0 where
  pub table : length c.sets ≡ 2 ^ g.set_bits
  pub each : (i : ℕ) → i < 2 ^ g.set_bits → IsCacheSet (tag g) g.assoc (set_of g c i)

sets-count : (o : Outcome) (c : Cache) → (count o c).sets ≡ c.sets
unfolding count
sets-count hit c = refl
sets-count miss c = refl
sets-count eviction c = refl

module _ (g : Config) (addr : ℕ) (c : Cache) where
  abbrev idx : ℕ
  idx = set_index g addr

  abbrev accessed : List Line × Outcome
  accessed = access_set (tag g) g.assoc addr (set_of g c idx)

  check_cache-sets : (check_cache g addr c).sets ≡ set c.sets idx accessed.0
  unfolding check_cache
  check_cache-sets = sets-count accessed.1 _

  set_of-other : (i : ℕ) → i ≢ idx → set_of g (check_cache g addr c) i ≡ set_of g c i
  set_of-other i n = rw check_cache-sets (get_or-set_ne c.sets idx i accessed.0 [] (λ e. n (sym e)))

  module _ (fits : Fits g) (small : addr < 2 ^ 64) (pos : 0 < g.assoc) (v : IsCache g c) where
    inside : idx < 2 ^ g.set_bits
    inside = (fields g addr fits small).1

    set_of_self : set_of g (check_cache g addr c) idx ≡ accessed.0
    set_of_self =
        rw check_cache-sets
          (get_or-set_self c.sets idx accessed.0 [] (omega (arith, inside, v.table)))

    after : Contents (tag g) g.assoc addr (set_of g c idx) accessed
    after = access_set_contents (tag g) g.assoc addr (set_of g c idx) pos (v.each idx inside)

    check_cache-IsCache : IsCache g (check_cache g addr c)
    check_cache-IsCache = record {
      table = rw check_cache-sets (length-set c.sets idx accessed.0 ∙ v.table);
      each = λ i h. elim (ℕ_discrete i idx) [
        | yes e ↦ rw (e, set_of_self) after.0
        | no n ↦ rw (set_of-other i n) (v.each i h)
      ];
    }

    -- An access is answered by the set that the address selects alone: it keeps the cache
    -- well-formed, leaves every other set as it is, and makes the selected set hold the tag.
    pub check_cache_lem :
        IsCache g (check_cache g addr c)
        × ((i : ℕ) → i ≢ set_index g addr → set_of g (check_cache g addr c) i ≡ set_of g c i)
        × (present (tag g) (tag g addr) (set_of g (check_cache g addr c) (set_index g addr)) ≡ true)
    check_cache_lem =
        (check_cache-IsCache, set_of-other, rw set_of_self (ground (arith, after.1 (tag g addr))))

-- The second access of a modify is always a hit.
pub check_cache_twice :
    (g : Config) (addr : ℕ) (c : Cache)
    → Fits g
    → addr < 2 ^ 64
    → 0 < g.assoc
    → IsCache g c
    → let c' = check_cache g addr c in (check_cache g addr c').hits ≡ c'.hits + 1
check_cache_twice g addr c fits small pos v =
    hits_of (check_cache g addr c) (check_cache_lem g addr c fits small pos v)
  where
    hits_of :
        (c' : Cache)
        → IsCache g c'
          × ((i : ℕ) → i ≢ set_index g addr → set_of g c' i ≡ set_of g c i)
          × (present (tag g) (tag g addr) (set_of g c' (set_index g addr)) ≡ true)
        → (check_cache g addr c').hits ≡ c'.hits + 1
    hits_of c' (w, o, p) =
        unfold check_cache in
        rw
          (access_set_lem (tag g) g.assoc addr (set_of g c' (set_index g addr))
            (w.each _ (fields g addr fits small).1).size)
          (rw p (unfold count in refl))
