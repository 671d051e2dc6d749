-- ===== src/Malloclab/Memlib/Bounds.antt =====
-- The break stays inside the simulated heap.
use git_sty.Base.{
  ℕ, ◌+◌, ◌≤◌, ◌<◌, ◌≡◌, ◌⊎◌, inl, inr, refl, Option, none, some, Bool-cases, arith, ltb, not, ◌||◌,
  true, false,
}
use git_sty.Malloclab.Memlib.{Mem, mem_sbrk}

pub record InBounds (m : Mem) : Type 0 where
  pub low : m.start_brk ≤ m.brk
  pub high : m.brk ≤ m.max_addr

-- What `mem_sbrk` of `incr` bytes owes to a heap `m`.
unfoldable pub Grows : ℕ → Mem → Option ℕ × Mem → Type 0
Grows incr m (some p, m') =
    (p ≡ m.brk)
    × ((m'.brk ≡ m.brk + incr)
        × ((m'.start_brk ≡ m.start_brk) × (InBounds m' × (m'.max_addr ≡ m.max_addr))))
Grows incr m (none, m') = (m' ≡ m) × ((2147483648 ≤ incr) ⊎ (m.max_addr < m.brk + incr))

negative_or_full :
    (incr : ℕ) (m : Mem)
    → (not (ltb incr 2147483648) || ltb m.max_addr (m.brk + incr)) ≡ true
    → (2147483648 ≤ incr) ⊎ (m.max_addr < m.brk + incr)
negative_or_full incr m e = ground arith

room_left :
    (incr : ℕ) (m : Mem)
    → (not (ltb incr 2147483648) || ltb m.max_addr (m.brk + incr)) ≡ false
    → m.brk + incr ≤ m.max_addr
room_left incr m e = ground arith

-- On a heap whose break is in bounds `mem_sbrk` either returns the old break and moves it up by `incr`, still inside the heap, or returns
-- -1, changes nothing, and then `incr` is a negative `int` or the heap has no room for it.
pub mem_sbrk-Grows : (incr : ℕ) (m : Mem) → InBounds m → Grows incr m (mem_sbrk incr m)
unfolding mem_sbrk Grows
mem_sbrk-Grows incr m b =
    elim (Bool-cases (not (ltb incr 2147483648) || ltb m.max_addr (m.brk + incr))) [
      | inl e ↦ rw e (refl, negative_or_full incr m e)
      | inr e ↦ rw e (
        refl,
        (refl, (refl, (record { low = omega (arith, b.low); high = room_left incr m e }, refl))),
      )
    ]
