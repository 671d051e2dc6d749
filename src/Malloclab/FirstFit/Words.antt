-- ===== src/Malloclab/FirstFit/Words.antt =====
-- A word keeps the size and the allocated bit that are packed into it, and a write changes one word.
use Prim.Native.Nat.{max, bit_and, bit_or, digits, bit_or-bitwise}
use git_sty.Base.{ℕ, zero, suc, ◌+◌, ◌-◌, ◌*◌, ◌/◌, ◌%◌, ◌≤◌, ◌<◌, ◌≡◌, ◌≢◌, ◌∙◌, ap, refl, arith}
use git_sty.Base.Bits.{bit_and-field}
use git_sty.Malloclab.FirstFit.{Words, pack, put, get_size, get_alloc, put_both, hdrp}

or_zero_digits : (n a : ℕ) → a ≤ n → digits (λ b. b) max n a 0 ≡ a
or_zero_digits zero zero h = refl
or_zero_digits zero (suc a) h = absurd (omega arith)
or_zero_digits (suc n) zero h = refl
or_zero_digits (suc n) (suc a) h = omega (arith, or_zero_digits n (suc a / 2) (omega arith))

or_zero : (k : ℕ) → bit_or k 0 ≡ k
or_zero k = bit_or-bitwise k 0 ∙ or_zero_digits k k (omega arith)

or_one_digits : (n a : ℕ) → a ≤ n → a % 2 ≡ 0 → digits (λ b. b) max n a 1 ≡ a + 1
or_one_digits zero zero h e = refl
or_one_digits zero (suc a) h e = absurd (omega arith)
or_one_digits (suc n) zero h e = refl
or_one_digits (suc n) (suc a) h e = omega (arith, or_zero_digits n (suc a / 2) (omega arith))

or_one : (k : ℕ) → k % 2 ≡ 0 → bit_or k 1 ≡ k + 1
or_one k e = bit_or-bitwise k 1 ∙ or_one_digits k k (omega arith) e

-- A multiple of 8 below 2^32.
unfoldable pub IsBlockSize : ℕ → Type 0
IsBlockSize s = (s % 8 ≡ 0) × (s < 4294967296)

size_field : (w : ℕ) → bit_and w 4294967288 ≡ w / 8 % 536870912 * 8
size_field w = bit_and-field w 29 3

alloc_field : (w : ℕ) → bit_and w 1 ≡ w % 2
alloc_field w = bit_and-field w 1 0 ∙ omega arith

pub get_size-pack :
    (h : Words) (p s a : ℕ) → IsBlockSize s → a < 2 → h p ≡ pack s a → get_size h p ≡ s
unfolding get_size pack IsBlockSize
get_size-pack h p s zero (m, l) b e =
    ap (λ w. bit_and w 4294967288) (e ∙ or_zero s) ∙ size_field s ∙ omega arith
get_size-pack h p s (suc zero) (m, l) b e =
    ap (λ w. bit_and w 4294967288) (e ∙ or_one s (omega arith)) ∙ size_field (s + 1) ∙ omega arith
get_size-pack h p s (suc (suc a)) (m, l) b e = absurd (omega arith)

pub get_alloc-pack :
    (h : Words) (p s a : ℕ) → IsBlockSize s → a < 2 → h p ≡ pack s a → get_alloc h p ≡ a
unfolding get_alloc pack IsBlockSize
get_alloc-pack h p s zero (m, l) b e =
    ap (λ w. bit_and w 1) (e ∙ or_zero s) ∙ alloc_field s ∙ omega arith
get_alloc-pack h p s (suc zero) (m, l) b e =
    ap (λ w. bit_and w 1) (e ∙ or_one s (omega arith)) ∙ alloc_field (s + 1) ∙ omega arith
get_alloc-pack h p s (suc (suc a)) (m, l) b e = absurd (omega arith)

pub put_self : (p v : ℕ) (h : Words) → put p v h p ≡ v
unfolding put
put_self p v h = ground arith

pub put_ne : (p v q : ℕ) (h : Words) → p ≢ q → put p v h q ≡ h q
unfolding put
put_ne p v q h e = ground arith

module _ (bp s a : ℕ) (h : Words) (i : IsBlockSize s) (b : a < 2) where
  written : Words
  written = put (hdrp bp) (pack s a) h

  footer_at : (bp + get_size written (hdrp bp)) - 8 ≡ (bp + s) - 8
  unfolding written
  footer_at =
      ap (λ n. (bp + n) - 8)
        (get_size-pack written (hdrp bp) s a i b (put_self (hdrp bp) (pack s a) h))

  put_both_footer : put_both bp (pack s a) h ≡ put ((bp + s) - 8) (pack s a) written
  unfolding put_both written
  put_both_footer = ap (λ n. put n (pack s a) written) footer_at

  -- `put_both` writes the header and, `s` bytes above it, the footer.
  pub put_both_ne : (q : ℕ) → hdrp bp ≢ q → (bp + s) - 8 ≢ q → put_both bp (pack s a) h q ≡ h q
  unfolding written
  put_both_ne q n m =
      ap (λ w. w q) put_both_footer
      ∙ put_ne ((bp + s) - 8) (pack s a) q written m
      ∙ put_ne (hdrp bp) (pack s a) q h n

  pub put_both_header : 8 ≤ bp → put_both bp (pack s a) h (hdrp bp) ≡ pack s a
  unfolding written IsBlockSize
  put_both_header l =
      ap (λ w. w (hdrp bp)) put_both_footer
      ∙ put_ne ((bp + s) - 8) (pack s a) (hdrp bp) written (omega (arith, i.0))
      ∙ put_self (hdrp bp) (pack s a) h

  pub put_both_at_footer : put_both bp (pack s a) h ((bp + s) - 8) ≡ pack s a
  unfolding written
  put_both_at_footer =
      ap (λ w. w ((bp + s) - 8)) put_both_footer ∙ put_self ((bp + s) - 8) (pack s a) written
