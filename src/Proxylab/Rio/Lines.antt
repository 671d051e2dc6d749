-- ===== src/Proxylab/Rio/Lines.antt =====
-- `rio_readlineb` of csapp.c: the text is the line, and the number returned is its length only if a
-- newline ends it.
use git_sty.Base.{
  ℕ, zero, suc, ◌+◌, ◌-◌, ◌≡◌, ◌∙◌, inl, inr, refl, ap, ◌<◌, Bool, false, ◌||◌, [], ◌∷◌, ◌++◌, ◌==◌,
  if◌then◌else◌, Text, drop, length, arith, Bool-cases,
}
use git_sty.Proxylab.Rio.{
  Got, bytes, eof, interrupted, failed, Rio, rio_read, line, line_error, line_loop, after_byte,
  LineResult, rio_readlineb,
}
use git_sty.Proxylab.Rio.Source.{
  Good, rest, size, Clean, rio_read-Good, append_assoc, Awake, rio_read-Awake,
}

-- The first line of at most `k` bytes, with its newline.
unfoldable pub first_line : ℕ → Text → Text
first_line zero cs = []
first_line (suc k) [] = []
first_line (suc k) (c ∷ cs) = c ∷ (if c == b'\n' then [] else first_line k cs)

unfoldable pub has_newline : Text → Bool
has_newline [] = false
has_newline (c ∷ cs) = (c == b'\n') || has_newline cs

-- The result has the first line of `v`, a count one above its length unless a newline ends it, and
-- leaves the rest.
unfoldable pub ReadsLine : (k n : ℕ) → Text → Text → LineResult → Type 0
ReadsLine k n acc v (line x) =
    let l = first_line k v in
    (x.text ≡ acc ++ l)
    × ((x.count + (if has_newline l then 1 else 0) ≡ n + length l)
        × (rest x.rio ≡ drop (length l) v))
ReadsLine k n acc v (line_error s) = ⊥

append_nil : (xs : Text) → xs ≡ xs ++ []
append_nil [] = refl
append_nil (x ∷ xs) = ap (λ t. x ∷ t) (append_nil xs)

grow :
    (k n c : ℕ) (acc v : Text) (res : LineResult)
    → (c == b'\n') ≡ false
    → ReadsLine k (n + 1) (acc ++ (c ∷ [])) v res
    → ReadsLine (suc k) n acc (c ∷ v) res
unfolding ReadsLine first_line has_newline
grow k n c acc v (line x) e (p, (q, r)) =
    rw e (p ∙ append_assoc acc (c ∷ []) (first_line k v), (omega (arith, q), r))
grow k n c acc v (line_error s) e h = h

one_byte :
    (k n c : ℕ) (acc : Text) (s : Rio) (again : ℕ → Text → Rio → LineResult)
    → ReadsLine k (n + 1) (acc ++ (c ∷ [])) (rest s) (again (n + 1) (acc ++ (c ∷ [])) s)
    → ReadsLine (suc k) n acc (c ∷ rest s) (after_byte again n acc (bytes (c ∷ [])) s)
unfolding after_byte ReadsLine first_line has_newline
one_byte k n c acc s again ih = elim (Bool-cases (c == b'\n')) [
  | inl e ↦ rw e (rw e (refl, (omega arith, refl)))
  | inr e ↦ rw e (grow k n c acc (rest s) (again (n + 1) (acc ++ (c ∷ [])) s) e ih)
]

some_read : (n : ℕ) → 1 < n + 0 → (if n == 1 then 0 else n) ≡ n
some_read n h = ground arith

at_byte :
    (k n : ℕ) (acc : Text) (g : Got) (r s : Rio) (again : ℕ → Text → Rio → LineResult)
    → Good rest size Clean 1 r g s
    → Awake g
    → 1 < n + length (rest r)
    → 0 < n
    → ((m : ℕ) (t : Text)
        → 1 < m + length (rest s)
        → 0 < m
        → Clean s
        → ReadsLine k m t (rest s) (again m t s))
    → ReadsLine (suc k) n acc (rest r) (after_byte again n acc g s)
unfolding Good Awake after_byte ReadsLine first_line has_newline
at_byte k n acc (bytes []) r s again (e, (p, (l, b))) w h z ih =
    absurd (omega (arith, l, ap length e))
at_byte k n acc (bytes (c ∷ [])) r s again (e, (p, (l, b))) w h z ih =
    rw e (one_byte k n c acc s again (ih (n + 1) (acc ++ (c ∷ [])) (omega arith) (omega arith) p))
at_byte k n acc (bytes (c ∷ d ∷ bs)) r s again (e, (p, (l, b))) w h z ih = absurd (omega (arith, b))
at_byte k n acc eof r s again (e, (f, p)) w h z ih =
    rw e (append_nil acc, (omega (arith, some_read n (omega (arith, h, ap length e))), f))
at_byte k n acc interrupted r s again g w h z ih = absurd w
at_byte k n acc failed r s again g w h z ih = absurd g

line_loop-ReadsLine :
    (k n : ℕ) (acc : Text) (r : Rio)
    → Clean r
    → 1 < n + length (rest r)
    → 0 < n
    → ReadsLine k n acc (rest r) (line_loop k n acc r)
unfolding line_loop ReadsLine first_line has_newline
line_loop-ReadsLine zero n acc r p h z = (append_nil acc, (omega arith, refl))
line_loop-ReadsLine (suc k) n acc r p h z =
    at_byte k n acc ((rio_read 1 r).0) r ((rio_read 1 r).1) (λ m t s. line_loop k m t s)
      (rio_read-Good 1 r p (omega arith)) (rio_read-Awake 1 r) h z
      (λ m t b c q. line_loop-ReadsLine k m t ((rio_read 1 r).1) q b c)

-- On a source without errors, where there is something to read, `rio_readlineb` stores the bytes up to the newline or `maxlen - 1`
-- of them and leaves the others, without an error. The number it returns is the number stored if a
-- newline ends them, and one more if none does.
pub rio_readlineb_lem :
    (maxlen : ℕ) (r : Rio)
    → Clean r
    → 0 < length (rest r)
    → ReadsLine (maxlen - 1) 1 [] (rest r) (rio_readlineb maxlen r)
unfolding rio_readlineb
rio_readlineb_lem maxlen r p h =
    line_loop-ReadsLine (maxlen - 1) 1 [] r p (omega arith) (omega arith)
