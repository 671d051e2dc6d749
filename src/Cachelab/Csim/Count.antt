-- ===== src/Cachelab/Csim/Count.antt =====
-- The three counters over a whole trace.
use git_sty.Base.{
  ℕ, ◌+◌, ◌≡◌, refl, ◌≤◌, Bool, true, false, none, some, List, [], ◌∷◌, ◌==◌, if◌then◌else◌, ◌&&◌,
  ◌||◌, arith,
}
use git_sty.Cachelab.Csim.{
  Config, Cache, Outcome, hit, miss, eviction, count, check_cache, Item, whole, short, replay,
}

-- The data references of a trace: one for a load or a store, two for a modify.
abbrev pub references : List Item → ℕ
references [] = 0
references (short op ∷ more) = references more
references (whole op addr size ∷ more) =
    (if (op == b'L') || (op == b'S') then 1 else if op == b'M' then 2 else 0) + references more

-- Only an instruction line may be cut short.
abbrev pub readable : List Item → Bool
readable [] = true
readable (short op ∷ more) = (op == b'I') && readable more
readable (whole op addr size ∷ more) = readable more

-- `b` is `a` after `n` accesses.
pub record Counted (n : ℕ) (a b : Cache) : Type 0 where
  pub accesses : b.hits + b.misses ≡ a.hits + a.misses + n
  pub evicted : b.evictions + a.misses ≤ a.evictions + b.misses

count-Counted : (o : Outcome) (a b : Cache) → Counted 0 a b → Counted 1 a (count o b)
unfolding count
count-Counted hit a b v = omega arith
count-Counted miss a b v = omega arith
count-Counted eviction a b v = omega arith

pub check_cache-Counted : (g : Config) (addr : ℕ) (c : Cache) → Counted 1 c (check_cache g addr c)
unfolding check_cache
check_cache-Counted g addr c = count-Counted _ c _ (omega arith)

-- A readable trace is replayed to its end; hits and misses then add up to its data references, and
-- there are no more evictions than misses among them.
pub replay_counts :
    (g : Config) (trace : List Item) (c : Cache)
    → readable trace ≡ true
    → (c' : Cache) × (replay g trace c ≡ some c') × Counted (references trace) c c'
unfolding replay
replay_counts g [] c r = (c, refl, omega arith)
replay_counts g (short op ∷ more) c r =
    let (c', e, v) = replay_counts g more c (ground arith) in (c', ground arith, v)
replay_counts g (whole op addr size ∷ more) c r =
    let (c', e, v) = replay_counts g more c1 r in
    (
      c',
      e,
      ground (
        arith, v.accesses, v.evicted, once.accesses, once.evicted, twice.accesses, twice.evicted,
      ),
    )
  where
    c1 : Cache
    c1 =
        if op == b'I'
        then c
        else if (op == b'L') || (op == b'S')
        then check_cache g addr c
        else if op == b'M'
        then check_cache g addr (check_cache g addr c)
        else c

    once : Counted 1 c (check_cache g addr c)
    once = check_cache-Counted g addr c

    twice : Counted 1 (check_cache g addr c) (check_cache g addr (check_cache g addr c))
    twice = check_cache-Counted g addr (check_cache g addr c)

-- A line that is cut short and is no instruction stops the run.
pub replay_stops :
    (g : Config) (trace : List Item) (c : Cache) → readable trace ≡ false → replay g trace c ≡ none
unfolding replay
replay_stops g [] c r = ground arith
replay_stops g (short op ∷ more) c r = ground (arith, replay_stops g more c)
replay_stops g (whole op addr size ∷ more) c r = replay_stops g more _ r
