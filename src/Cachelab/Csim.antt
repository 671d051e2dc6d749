-- ===== src/Cachelab/Csim.antt =====
-- cachelab/csim.c: `check_cache` and the trace loop of `main`. A cache is a list of sets, a set the
-- list of its `E` lines; `verb` output and the command line are left out. What `fscanf` reads is the
-- list of its results. `last_used` and the counters are unbounded numbers: a trace of fewer than 2^31
-- accesses cannot make them overflow.
pub mod Fields
pub mod Count
pub mod Present
pub mod Victim
pub mod Contents
pub mod Access
pub mod Aging
mod Tests
use Prim.Native.Nat.{bit_and}
use git_sty.Base.{
  ℕ, zero, suc, ◌+◌, ◌-◌, ◌*◌, ◌/◌, ◌%◌, ◌^◌, Bool, true, false, Option, none, some, List, [], ◌∷◌,
  ltb, leb, ◌==◌, if◌then◌else◌, replicate, get_or, set, ◌&&◌, ◌||◌,
}

pub record Config : Type 0 where
  pub set_bits : ℕ
  pub assoc : ℕ
  pub block_bits : ℕ

pub record Line : Type 0 where
  pub valid : Bool
  pub last_used : ℕ
  pub line : ℕ

pub record Cache : Type 0 where
  pub sets : List (List Line)
  pub hits : ℕ
  pub misses : ℕ
  pub evictions : ℕ

-- `addr_masks[0]` and `addr_masks[1]`.
pub tag_mask : Config → ℕ
tag_mask c = (2 ^ (64 - (c.set_bits + c.block_bits)) - 1) * 2 ^ (c.set_bits + c.block_bits)

pub set_mask : Config → ℕ
set_mask c = (2 ^ c.set_bits - 1) * 2 ^ c.block_bits

-- `(int)m` where it meets a 64-bit operand: the low 32 bits with the sign spread over the upper ones.
pub int_cast : ℕ → ℕ
int_cast m = if ltb (m % 2 ^ 32) (2 ^ 31) then m % 2 ^ 32 else m % 2 ^ 32 + (2 ^ 64 - 2 ^ 32)

-- The result is an `int`, of which this is the 32-bit pattern.
pub set_index : Config → ℕ → ℕ
set_index c addr = bit_and addr (int_cast (set_mask c)) / 2 ^ c.block_bits % 2 ^ 32

pub tag : Config → ℕ → ℕ
tag c addr = bit_and addr (tag_mask c) / 2 ^ (c.block_bits + c.set_bits)

-- The loop `Check for hits`: the lines, the counter `free` and the flag `hit` after it. A hit ends it.
unfoldable pub scan : (tag_of : ℕ → ℕ) → ℕ → List Line → ℕ → List Line × ℕ × Bool
scan tag_of t [] free = ([], free, false)
scan tag_of t (l ∷ ls) free =
    if l.valid
    then if t == tag_of l.line
      then (record l { last_used = 0 } ∷ ls, free, true)
      else (let (ls', f, h) = scan tag_of t ls (free - 1) in
          (record l { last_used = l.last_used + 1 } ∷ ls', f, h))
    else (let (ls', f, h) = scan tag_of t ls free in (l ∷ ls', f, h))

pub fresh : ℕ → Line
fresh addr = record { valid = true; last_used = 0; line = addr }

-- The first line that is not valid takes the address.
unfoldable pub fill_first : ℕ → List Line → List Line
unfolding fresh
fill_first addr [] = []
fill_first addr (l ∷ ls) = if l.valid then l ∷ fill_first addr ls else fresh addr ∷ ls

-- The loop that finds the oldest line: `i` counts on, and the last of the greatest is taken.
unfoldable pub oldest : List Line → (i max index : ℕ) → ℕ
oldest [] i max index = index
oldest (l ∷ ls) i max index =
    oldest ls (i + 1) (if leb max l.last_used then l.last_used else max)
      (if leb max l.last_used then i else index)

unfoldable pub evict : ℕ → List Line → List Line
unfolding fresh
evict addr ls = set ls (oldest ls 0 0 0) (fresh addr)

pub data Outcome : Type 0 where
  hit miss eviction : Outcome

-- `check_cache` on the set that it touches; `free` starts at `assoc`.
unfoldable pub access_set : (tag_of : ℕ → ℕ) → (assoc addr : ℕ) → List Line → List Line × Outcome
access_set tag_of assoc addr ls =
    let (ls', free, found) = scan tag_of (tag_of addr) ls assoc in
    if found
    then (ls', hit)
    else if ltb 0 free
    then (fill_first addr ls', miss)
    else (evict addr ls', eviction)

unfoldable pub count : Outcome → Cache → Cache
count hit c = record c { hits = c.hits + 1 }
count miss c = record c { misses = c.misses + 1 }
count eviction c = record c { misses = c.misses + 1; evictions = c.evictions + 1 }

-- `check_cache`, for an index inside the table, as it is with 31 set and block bits at most: beyond it the
-- program reads and writes behind its array, and here nothing is stored.
pub check_cache : Config → ℕ → Cache → Cache
check_cache g addr c =
    let i = set_index g addr in
    let (ls, o) = access_set (tag g) g.assoc addr (get_or c.sets i []) in
    count o (record c { sets = set c.sets i ls })

-- `malloc` and the loops that clear every line.
pub init : Config → Cache
init g = record {
  sets =
      replicate (2 ^ g.set_bits)
        (replicate g.assoc (record { valid = false; last_used = 0; line = 0 }));
  hits = 0;
  misses = 0;
  evictions = 0;
}

-- What `fscanf` reads: a whole record, or the operation alone with fewer than 3 items.
pub data Item : Type 0 where
  whole : (op addr size : ℕ) → Item
  short : (op : ℕ) → Item

-- The `while` loop of `main`; `none` is `exit(1)`.
pub replay : Config → List Item → Cache → Option Cache
replay g [] c = some c
replay g (short op ∷ more) c = let rest = replay g more c in if op == b'I' then rest else none
replay g (whole op addr size ∷ more) c = replay g more (
    if op == b'I'
    then c
    else if (op == b'L') || (op == b'S')
    then check_cache g addr c
    else if op == b'M'
    then check_cache g addr (check_cache g addr c)
    else c)
