-- ===== src/Base/Bits.antt =====
-- A mask of `t` ones above `k` zeros cuts the field of `t` binary digits from digit `k` on.
use Prim.Native.Nat.{
  ℕ, zero, suc, ◌+◌, ◌-◌, ◌*◌, ◌/◌, ◌%◌, ◌^◌, ◌≤◌, ◌<◌, min, bit_and, digits, bit_and-bitwise,
}
use mathlib.Core.Path.{◌≡◌, ◌∙◌, ap, sym}
use native.Mathlib.Omega.{arith}
use native.Mathlib.Nat.{
  add-zero, add-suc, div-one, mod-lt, div-add-mod, mod-eq_of_lt, add-mul-mod_self_right, pow-suc,
  div-div-eq-div-mul, mul_comm, mul_assoc, zero-div, zero-mod, mod-one, mul-div_cancel,
}

abbrev mask : ℕ → ℕ → ℕ
mask t k = (2 ^ t - 1) * 2 ^ k

abbrev field : ℕ → ℕ → ℕ → ℕ
field t k a = a / 2 ^ k % 2 ^ t * 2 ^ k

pub pow_pos : (n : ℕ) → 0 < 2 ^ n
pow_pos zero = omega arith
pow_pos (suc n) = omega (arith, pow_pos n, pow-suc 2 n)

-- One digit more below the field.
field-suc_low : (t k a : ℕ) → field t k (a / 2) * 2 ≡ field t (suc k) a
field-suc_low t k a =
    rw (pow-suc, div-div-eq-div-mul a 2 (2 ^ k), mul_comm 2 (2 ^ k)) (mul_assoc _ (2 ^ k) 2)

-- One digit more in a field that starts at digit 0.
mod-double : (a p : ℕ) → 0 < p → a / 2 % p * 2 + a % 2 ≡ a % (p * 2)
mod-double a p h =
    let r = a / 2 % p * 2 + a % 2 in
    let small : r < p * 2 = omega (arith, mod-lt (a / 2) h) in
    let whole : r + a / 2 / p * (p * 2) ≡ a = omega (arith, div-add-mod (a / 2) p) in
    sym (mod-eq_of_lt small)
    ∙ sym (add-mul-mod_self_right r (a / 2 / p) (p * 2))
    ∙ ap (λ n. n % (p * 2)) whole

field-suc_in : (t a : ℕ) → field t 0 (a / 2) * 2 + a % 2 ≡ field (suc t) 0 a
field-suc_in t a =
    rw (div-one (a / 2), div-one a, pow-suc) (omega (arith, mod-double a (2 ^ t) (pow_pos t)))

mask_low : (m k : ℕ) → (m * 2 ^ suc k / 2 ≡ m * 2 ^ k) × (m * 2 ^ suc k % 2 ≡ 0)
mask_low m k =
    let e : m * 2 ^ suc k ≡ m * 2 ^ k * 2 = rw pow-suc (sym (mul_assoc m (2 ^ k) 2)) in
    (omega (arith, e), omega (arith, e))

and_mask : (n t k a : ℕ) → a ≤ n → digits (λ b. zero) min n a (mask t k) ≡ field t k a
and_mask zero t k zero h = rw (zero-div, zero-mod) (omega arith)
and_mask zero t k (suc a) h = absurd (omega arith)
and_mask (suc n) t k zero h = rw (zero-div, zero-mod) (omega arith)
and_mask (suc n) zero zero (suc a) h = omega (
  arith,
  and_mask n zero zero (suc a / 2) (omega arith),
  mod-one (suc a / 2 / 1),
  mod-one (suc a / 1),
)
and_mask (suc n) (suc t) zero (suc a) h =
    let half : mask (suc t) 0 / 2 ≡ mask t 0 = omega (arith, pow-suc 2 t, pow_pos t) in
    let odd : mask (suc t) 0 % 2 ≡ 1 = omega (arith, pow-suc 2 t, pow_pos t) in
    rw (half, odd)
      (omega (arith, and_mask n t zero (suc a / 2) (omega arith), field-suc_in t (suc a)))
and_mask (suc n) t (suc k) (suc a) h =
    rw ((mask_low (2 ^ t - 1) k).0, (mask_low (2 ^ t - 1) k).1)
      (omega (arith, and_mask n t k (suc a / 2) (omega arith), field-suc_low t k (suc a)))

pub bit_and-field : (a t k : ℕ) → bit_and a ((2 ^ t - 1) * 2 ^ k) ≡ a / 2 ^ k % 2 ^ t * 2 ^ k
bit_and-field a t k = bit_and-bitwise a (mask t k) ∙ and_mask a t k a (omega arith)

pub bit_and-mask : (a t k : ℕ) → bit_and a ((2 ^ t - 1) * 2 ^ k) / 2 ^ k ≡ a / 2 ^ k % 2 ^ t
bit_and-mask a t k =
    ap (λ n. n / 2 ^ k) (bit_and-bitwise a (mask t k) ∙ and_mask a t k a (omega arith))
    ∙ mul-div_cancel (a / 2 ^ k % 2 ^ t) (pow_pos k)

pub two_pow_add : (m n : ℕ) → 2 ^ (m + n) ≡ 2 ^ m * 2 ^ n
two_pow_add m zero = rw add-zero (omega arith)
two_pow_add m (suc n) =
    rw (add-suc, pow-suc, pow-suc, two_pow_add m n) (mul_assoc (2 ^ m) (2 ^ n) 2)
