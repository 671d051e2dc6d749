-- ===== src/Proxylab/Rio/Kept.antt =====
-- `rio_readlineb` on a source without errors: it stays one, and at its end nothing is stored.
use git_sty.Base.{
  ℕ, zero, suc, ◌+◌, ◌-◌, ◌≡◌, refl, ap, [], ◌∷◌, ◌++◌, ◌==◌, Text, length, arith, Bool-cases, inl,
  inr,
}
use git_sty.Proxylab.Rio.{
  Got, bytes, eof, interrupted, failed, Rio, rio_read, line, line_error, line_loop, after_byte,
  LineResult, rio_readlineb,
}
use git_sty.Proxylab.Rio.Source.{Good, rest, size, Clean, rio_read-Good, Awake, rio_read-Awake}

-- The reader that is left has no errors.
unfoldable pub Kept : LineResult → Type 0
Kept (line x) = Clean x.rio
Kept (line_error s) = ⊥

-- Nothing is stored, and the reader stays at the end.
unfoldable pub AtEnd : LineResult → Type 0
AtEnd (line x) = (x.count ≡ 0) × ((rest x.rio ≡ []) × Clean x.rio)
AtEnd (line_error s) = ⊥

byte-Kept :
    (n : ℕ) (acc : Text) (g : Got) (r s : Rio) (again : ℕ → Text → Rio → LineResult)
    → Good rest size Clean 1 r g s
    → Awake g
    → ((m : ℕ) (t : Text) → Clean s → Kept (again m t s))
    → Kept (after_byte again n acc g s)
unfolding Good Awake after_byte Kept
byte-Kept n acc (bytes []) r s again (e, (p, (l, b))) w ih = absurd (omega (arith, l, ap length e))
byte-Kept n acc (bytes (c ∷ cs)) r s again (e, (p, (l, b))) w ih = elim (Bool-cases (c == b'\n')) [
  | inl d ↦ rw d p
  | inr d ↦ rw d (ih (n + 1) (acc ++ (c ∷ [])) p)
]
byte-Kept n acc eof r s again (e, (f, p)) w ih = p
byte-Kept n acc interrupted r s again g w ih = absurd w
byte-Kept n acc failed r s again g w ih = absurd g

line_loop-Kept : (k n : ℕ) (acc : Text) (r : Rio) → Clean r → Kept (line_loop k n acc r)
unfolding line_loop Kept
line_loop-Kept zero n acc r p = p
line_loop-Kept (suc k) n acc r p =
    byte-Kept n acc ((rio_read 1 r).0) r ((rio_read 1 r).1) (λ m t s. line_loop k m t s)
      (rio_read-Good 1 r p (omega arith)) (rio_read-Awake 1 r)
      (λ m t q. line_loop-Kept k m t ((rio_read 1 r).1) q)

pub rio_readlineb-Kept : (maxlen : ℕ) (r : Rio) → Clean r → Kept (rio_readlineb maxlen r)
unfolding rio_readlineb
rio_readlineb-Kept maxlen r p = line_loop-Kept (maxlen - 1) 1 [] r p

byte-AtEnd :
    (g : Got) (r s : Rio) (again : ℕ → Text → Rio → LineResult)
    → Good rest size Clean 1 r g s
    → Awake g
    → rest r ≡ []
    → AtEnd (after_byte again 1 [] g s)
unfolding Good Awake after_byte AtEnd
byte-AtEnd (bytes bs) r s again (e, (p, (l, b))) w z = absurd (omega (arith, l, ap length z))
byte-AtEnd eof r s again (e, (f, p)) w z = (refl, (f, p))
byte-AtEnd interrupted r s again g w z = absurd w
byte-AtEnd failed r s again g w z = absurd g

pub line_loop-AtEnd : (k : ℕ) (r : Rio) → Clean r → rest r ≡ [] → AtEnd (line_loop (suc k) 1 [] r)
unfolding line_loop
line_loop-AtEnd k r p z =
    byte-AtEnd ((rio_read 1 r).0) r ((rio_read 1 r).1) (λ m t s. line_loop k m t s)
      (rio_read-Good 1 r p (omega arith)) (rio_read-Awake 1 r) z

pub rio_readlineb-AtEnd : (r : Rio) → Clean r → rest r ≡ [] → AtEnd (rio_readlineb 8192 r)
unfolding rio_readlineb
rio_readlineb-AtEnd r p z = line_loop-AtEnd 8190 r p z
