-- ===== src/Malloclab/FirstFit/Bytes.antt =====
-- Bytes of the heap's words, the lowest first, and what `memset` and `memcpy` do to them.
use git_sty.Base.{
  ℕ, zero, suc, ◌+◌, ◌-◌, ◌*◌, ◌/◌, ◌%◌, ◌≤◌, ◌<◌, ◌≡◌, ◌≢◌, ◌⊎◌, inl, inr, ◌∙◌, ap, refl, ◌==◌,
  leb, ltb, ◌&&◌, if◌then◌else◌, arith, Bool-cases,
}
use git_sty.Malloclab.FirstFit.{Words, put}

-- The weight of the byte at `p` in its word.
abbrev pub weight : ℕ → ℕ
weight k = if k == 0 then 1 else if k == 1 then 256 else if k == 2 then 65536 else 16777216

-- Byte `k` of the word `x`, and the word with another byte there.
unfoldable pub byte_of : ℕ → ℕ → ℕ
byte_of x k = (x / weight k) % 256

unfoldable pub with_byte : ℕ → ℕ → ℕ → ℕ
with_byte x k c = (x - byte_of x k * weight k) + (c % 256) * weight k

unfoldable pub get_byte : Words → ℕ → ℕ
get_byte w p = byte_of (w (p - p % 4)) (p % 4)

unfoldable pub set_byte : ℕ → ℕ → Words → Words
set_byte p c w = put (p - p % 4) (with_byte (w (p - p % 4)) (p % 4) c) w

unfoldable pub memset : (p c n : ℕ) → Words → Words
memset p c zero w = w
memset p c (suc n) w = set_byte (p + n) c (memset p c n w)

unfoldable pub memcpy : (dst src n : ℕ) → Words → Words
memcpy dst src zero w = w
memcpy dst src (suc n) w =
    let w₁ = memcpy dst src n w in set_byte (dst + n) (get_byte w₁ (src + n)) w₁

set_byte_outside : (p c q : ℕ) (w : Words) → (q < p - p % 4) ⊎ (p < q) → set_byte p c w q ≡ w q
unfolding set_byte put
set_byte_outside p c q w o = ground arith

-- Only words between `p` and `p + n` change.
pub memset_outside :
    (p c n q : ℕ) (w : Words) → p % 4 ≡ 0 → (q < p) ⊎ (p + n ≤ q) → memset p c n w q ≡ w q
unfolding memset
memset_outside p c zero q w a o = refl
memset_outside p c (suc n) q w a o =
    set_byte_outside (p + n) c q (memset p c n w) (ground arith)
    ∙ memset_outside p c n q w a (ground arith)

pub memcpy_outside :
    (dst src n q : ℕ) (w : Words)
    → dst % 4 ≡ 0
    → (q < dst) ⊎ (dst + n ≤ q)
    → memcpy dst src n w q ≡ w q
unfolding memcpy
memcpy_outside dst src zero q w a o = refl
memcpy_outside dst src (suc n) q w a o =
    set_byte_outside (dst + n) (get_byte (memcpy dst src n w) (src + n)) q (memcpy dst src n w)
      (ground arith)
    ∙ memcpy_outside dst src n q w a (ground arith)

byte_of-with_byte_self : (x k c : ℕ) → byte_of (with_byte x k c) k ≡ c % 256
unfolding byte_of with_byte
byte_of-with_byte_self x k c = ground arith

byte_of-with_byte_ne :
    (x k j c : ℕ) → k < 4 → j < 4 → k ≢ j → byte_of (with_byte x k c) j ≡ byte_of x j
unfolding byte_of with_byte
byte_of-with_byte_ne x k j c l m n = ground arith

-- What a byte is once it is written, and that the others stay.
pub get_byte-set_byte_self : (p c q : ℕ) (w : Words) → p ≡ q → get_byte (set_byte p c w) q ≡ c % 256
unfolding get_byte set_byte put
get_byte-set_byte_self p c q w e =
    rw (← e) (ground (arith, byte_of-with_byte_self (w (p - p % 4)) (p % 4) c))

pub get_byte-set_byte_ne :
    (p c q : ℕ) (w : Words) → p ≢ q → get_byte (set_byte p c w) q ≡ get_byte w q
unfolding get_byte set_byte put
get_byte-set_byte_ne p c q w n = elim (Bool-cases ((p - p % 4) == (q - q % 4))) [
  | inl e ↦
      let m : p - p % 4 ≡ q - q % 4 = ground arith in
      rw (e, m)
        (byte_of-with_byte_ne (w (q - q % 4)) (p % 4) (q % 4) c (omega arith) (omega arith)
          (λ d. n (omega (arith, d, m))))
  | inr e ↦ rw e refl
]

-- `memset` of `n` bytes at `p` writes each of them and no other.
pub get_byte-memset :
    (p c n q : ℕ) (w : Words)
    → get_byte (memset p c n w) q ≡ (if leb p q && ltb q (p + n) then c % 256 else get_byte w q)
unfolding memset
get_byte-memset p c zero q w = ground arith
get_byte-memset p c (suc n) q w = elim (Bool-cases ((p + n) == q)) [
  | inl e ↦ ground (arith, get_byte-set_byte_self (p + n) c q (memset p c n w))
  | inr e ↦
      let d : p + n ≢ q = ground arith in
      let same = get_byte-set_byte_ne (p + n) c q (memset p c n w) d in
      ground (arith, same, get_byte-memset p c n q w)
]

elsewhere : (dst n q : ℕ) → (q < dst) ⊎ (dst + suc n ≤ q) → dst + n ≢ q
elsewhere dst n q (inl l) e = omega (arith, l, e)
elsewhere dst n q (inr l) e = omega (arith, l, e)

narrower : (dst n q : ℕ) → (q < dst) ⊎ (dst + suc n ≤ q) → (q < dst) ⊎ (dst + n ≤ q)
narrower dst n q (inl l) = inl l
narrower dst n q (inr l) = inr (omega (arith, l))

source :
    (dst src n : ℕ)
    → (dst + suc n ≤ src) ⊎ (src + suc n ≤ dst)
    → (src + n < dst) ⊎ (dst + n ≤ src + n)
source dst src n (inl l) = inr (omega (arith, l))
source dst src n (inr l) = inl (omega (arith, l))

pub get_byte-memcpy_outside :
    (dst src n q : ℕ) (w : Words)
    → (q < dst) ⊎ (dst + n ≤ q)
    → get_byte (memcpy dst src n w) q ≡ get_byte w q
unfolding memcpy
get_byte-memcpy_outside dst src zero q w o = refl
get_byte-memcpy_outside dst src (suc n) q w o =
    let w₁ = memcpy dst src n w in
    get_byte-set_byte_ne (dst + n) (get_byte w₁ (src + n)) q w₁ (λ e. elsewhere dst n q o e)
    ∙ get_byte-memcpy_outside dst src n q w (narrower dst n q o)

-- Where they do not overlap, `memcpy` of `n` bytes from `src` to `dst` copies each of them.
pub get_byte-memcpy_inside :
    (dst src n j : ℕ) (w : Words)
    → (dst + n ≤ src) ⊎ (src + n ≤ dst)
    → j < n
    → get_byte (memcpy dst src n w) (dst + j) ≡ get_byte w (src + j) % 256
unfolding memcpy
get_byte-memcpy_inside dst src zero j w o l = absurd (omega (arith, l))
get_byte-memcpy_inside dst src (suc n) j w o l =
    let w₁ = memcpy dst src n w in
    let c = get_byte w₁ (src + n) in
    elim (Bool-cases (n == j)) [
      | inl e ↦
          let d : n ≡ j = ground arith in
          get_byte-set_byte_self (dst + n) c (dst + j) w₁ (omega (arith, d))
          ∙ ap (λ b. b % 256) (get_byte-memcpy_outside dst src n (src + n) w (source dst src n o))
          ∙ ap (λ k. get_byte w (src + k) % 256) d
      | inr e ↦
          let d : n ≢ j = ground arith in
          get_byte-set_byte_ne (dst + n) c (dst + j) w₁ (λ x. d (omega (arith, x)))
          ∙ get_byte-memcpy_inside dst src n j w (ground arith) (omega (arith, d, l))
    ]
