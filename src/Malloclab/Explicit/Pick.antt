-- ===== src/Malloclab/Explicit/Pick.antt =====
-- A block from the free list for a request that lies between its first and its last one.
use git_sty.Base.{
  ℕ, zero, suc, sym, ◌≤◌, ◌<◌, ◌≡◌, ◌∙◌, ap, refl, List, [], ◌∷◌, ◌++◌, length, ◌==◌, true,
  Bool-cases, inl, inr, arith,
}
use mathlib.Core.List.{append_assoc}
use git_sty.Malloclab.FreeList.{FreeList, size_of, Sought, reached, lost, find_fit}
use git_sty.Malloclab.FreeList.Chained.{Holds, last_or}
use git_sty.Malloclab.FreeList.Search.{Spots, searched_size}
use git_sty.Malloclab.FreeList.Add.{snoc, last_or-append}
use git_sty.Malloclab.Explicit.{pick, may_fit}

-- A block of the list `fs` with `asize` bytes or more.
pub record Picked (l : FreeList) (fs : List ℕ) (asize q : ℕ) : Type 0 where
  pub before : List ℕ
  pub after : List ℕ
  pub parts : fs ≡ before ++ (q ∷ after)
  pub large : asize ≤ size_of l.words q

unfoldable pub Picks : FreeList → List ℕ → ℕ → Sought → Type 0
Picks l fs asize (reached q) = Picked l fs asize q
Picks l fs asize lost = ⊥

Spots-Picks :
    (l : FreeList) (fs : List ℕ) (asize : ℕ) (r : Sought)
    → Spots l.words asize fs r
    → Picks l fs asize r
unfolding Spots Picks
Spots-Picks l fs asize (reached q) s = record {
  before = s.before ++ (s.previous ∷ []);
  after = s.after;
  parts = s.parts ∙ sym (append_assoc s.before (s.previous ∷ []) (q ∷ s.after));
  large = s.large;
}
Spots-Picks l fs asize lost s = s

pub pick-Picks :
    (fuel asize : ℕ) (l : FreeList) (fs : List ℕ)
    → Holds l fs
    → may_fit asize l ≡ true
    → length fs < fuel
    → Picks l fs asize (pick fuel asize l)
unfolding may_fit pick Picks last_or
pick-Picks fuel asize l [] h e n = absurd (ground (arith, h.root))
pick-Picks zero asize l (p ∷ ps) h e n = absurd (omega (arith, n))
pick-Picks (suc k) asize l (p ∷ ps) h e n = elim (Bool-cases (asize == size_of l.words l.root)) [
  | inl x ↦
      rw (x, h.root)
        (record {
          before = [];
          after = ps;
          parts = refl;
          large = ground (arith, ap (size_of l.words) h.root);
        })
  | inr x ↦ elim (Bool-cases (asize == size_of l.words l.last)) [
    | inl y ↦
        let (xs, (t, v)) = snoc p ps in
        let at_end : l.last ≡ t = h.last ∙ ap last_or v ∙ last_or-append xs t [] in
        rw (x, y, at_end)
          (record {
            before = xs;
            after = [];
            parts = v;
            large = ground (arith, ap (size_of l.words) at_end);
          })
    | inr y ↦
        let first : size_of l.words l.root ≡ size_of l.words p = ap (size_of l.words) h.root in
        let last = ap (size_of l.words) h.last in
        rw (x, y)
          (Spots-Picks l (p ∷ ps) asize (find_fit (suc k) asize l.root l.words) (
            searched_size asize k p ps l h (omega (arith, n)) (ground (arith, first))
              (ground (arith, last))))
  ]
]
