-- ===== src/Shlab/Jobs/Fresh.antt =====
-- Job IDs: `maxjid` is the greatest, `deletejob` leaves `nextjid` unused, and the wrap of `nextjid`
-- in `addjob` gives one ID to two jobs.
use git_sty.Base.{
  ℕ, ◌+◌, ◌≡◌, refl, ◌≤◌, ◌<◌, Bool, true, false, ◌||◌, List, [], ◌∷◌, arith, ltb, ◌==◌, Bool-cases,
  Option-cases, inl, inr,
}
use git_sty.Shlab.Jobs.{Job, Shell, max_loop, maxjid, clear_pid, deletejob}

abbrev pub has_jid : List Job → ℕ → Bool
has_jid [] jid = false
has_jid (j ∷ js) jid = (j.jid == jid) || has_jid js jid

max_loop-ge : (js : List Job) (m : ℕ) → m ≤ max_loop js m
unfolding max_loop
max_loop-ge [] m = omega arith
max_loop-ge (j ∷ js) m = ground (arith, max_loop-ge js m, max_loop-ge js j.jid)

has_jid_above : (js : List Job) (m jid : ℕ) → max_loop js m < jid → has_jid js jid ≡ false
unfolding max_loop
has_jid_above [] m jid h = refl
has_jid_above (j ∷ js) m jid h = elim (Bool-cases (ltb m j.jid)) [
  | inl t ↦ ground (arith, has_jid_above js j.jid jid, max_loop-ge js j.jid)
  | inr t ↦ ground (arith, has_jid_above js m jid, max_loop-ge js m)
]

max_loop-attained :
    (js : List Job) (m : ℕ) → ((max_loop js m == m) || has_jid js (max_loop js m)) ≡ true
unfolding max_loop
max_loop-attained [] m = ground arith
max_loop-attained (j ∷ js) m = elim (Bool-cases (ltb m j.jid)) [
  | inl t ↦ ground (arith, max_loop-attained js j.jid)
  | inr t ↦ ground (arith, max_loop-attained js m)
]

-- `maxjid` is the greatest job ID of the list: no greater one occurs, and it occurs itself or is 0.
pub maxjid_greatest :
    (js : List Job)
    → ((jid : ℕ) → maxjid js < jid → has_jid js jid ≡ false)
      × (((maxjid js == 0) || has_jid js (maxjid js)) ≡ true)
unfolding maxjid
maxjid_greatest js = (λ jid h. has_jid_above js 0 jid h, max_loop-attained js 0)

-- When `deletejob` answers 1, no job left in the list has the ID that the next job will get.
pub deletejob_fresh :
    (s : Shell) (pid : ℕ)
    → (deletejob s pid).1 ≡ 1
    → has_jid (deletejob s pid).0.jobs (deletejob s pid).0.nextjid ≡ false
unfolding deletejob
deletejob_fresh s pid h = elim (Option-cases (clear_pid s.jobs pid)) [
  | inl e ↦ ground arith
  | inr (js, e) ↦ ground (arith, (maxjid_greatest js).0 (maxjid js + 1))
]
