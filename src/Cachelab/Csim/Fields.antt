-- ===== src/Cachelab/Csim/Fields.antt =====
-- The set index and the tag that the masks cut out of an address.
use Prim.Native.Nat.{bit_and}
use git_sty.Base.{zero, suc, ℕ, ◌+◌, ◌-◌, ◌*◌, ◌/◌, ◌%◌, ◌^◌, ◌≡◌, ◌≤◌, ◌<◌, arith}
use git_sty.Base.Bits.{pow_pos, two_pow_add, bit_and-mask}
use git_sty.Cachelab.Csim.{Config, tag_mask, set_mask, int_cast, set_index, tag}
use native.Mathlib.Nat.{mod-lt, mod-eq_of_lt, add_comm, pow-le-pow_right, div-lt_iff_lt-mul}

-- The sizes for which `(int)` does not change the set mask.
abbrev pub Fits : Config → Type 0
Fits g = g.set_bits + g.block_bits ≤ 31

less_one : (s b m : ℕ) → 0 < s → 0 < b → s * b ≤ m → (s - 1) * b < m
less_one zero b m p q h = absurd (omega arith)
less_one (suc s) b m p q h = let e : suc s - 1 ≡ s = omega arith in rw e (omega arith)

set_mask-lt : (g : Config) → Fits g → set_mask g < 2 ^ 31
unfolding set_mask
set_mask-lt g h =
    let size : 2 ^ g.set_bits * 2 ^ g.block_bits ≤ 2 ^ 31 =
      rw (← two_pow_add) (pow-le-pow_right (omega arith) h) in
    less_one (2 ^ g.set_bits) (2 ^ g.block_bits) _ (pow_pos g.set_bits) (pow_pos g.block_bits) size

int_cast-set_mask : (g : Config) → Fits g → int_cast (set_mask g) ≡ set_mask g
unfolding int_cast
int_cast-set_mask g h = ground (arith, set_mask-lt g h)

tag_small : (k addr : ℕ) → k ≤ 64 → addr < 2 ^ 64 → addr / 2 ^ k < 2 ^ (64 - k)
tag_small k addr h small =
    (div-lt_iff_lt-mul (pow_pos k)).1
      (rw (← two_pow_add) (let e : 64 - k + k ≡ 64 = omega arith in rw e small))

field_small : (g : Config) (addr : ℕ) → Fits g → addr / 2 ^ g.block_bits % 2 ^ g.set_bits < 2 ^ 32
field_small g addr h =
    let l : 2 ^ g.set_bits ≤ 2 ^ 31 = pow-le-pow_right (omega arith) {j = 31} (omega (arith, h)) in
    omega (arith, mod-lt (addr / 2 ^ g.block_bits) (pow_pos g.set_bits), l)

masked :
    (g : Config) (addr : ℕ)
    → bit_and addr (set_mask g) / 2 ^ g.block_bits ≡ addr / 2 ^ g.block_bits % 2 ^ g.set_bits
unfolding set_mask
masked g addr = bit_and-mask addr g.set_bits g.block_bits

-- With at most 31 set and block bits, the set index of a 64-bit address is its field above the block
-- bits, which lies inside the table of sets, and its tag is all that stands above that field.
pub fields :
    (g : Config) (addr : ℕ)
    → Fits g
    → addr < 2 ^ 64
    → (set_index g addr ≡ addr / 2 ^ g.block_bits % 2 ^ g.set_bits)
      × (set_index g addr < 2 ^ g.set_bits)
      × (tag g addr ≡ addr / 2 ^ (g.set_bits + g.block_bits))
fields g addr h small = (index, rw index (mod-lt _ (pow_pos g.set_bits)), above)
  where
    index : set_index g addr ≡ addr / 2 ^ g.block_bits % 2 ^ g.set_bits
    index =
        unfold set_index in
        rw (int_cast-set_mask g h, masked g addr) (mod-eq_of_lt (field_small g addr h))

    above : tag g addr ≡ addr / 2 ^ (g.set_bits + g.block_bits)
    above =
        unfold tag tag_mask in
        rw (add_comm g.block_bits g.set_bits, bit_and-mask)
          (mod-eq_of_lt (tag_small (g.set_bits + g.block_bits) addr (omega arith) small))
