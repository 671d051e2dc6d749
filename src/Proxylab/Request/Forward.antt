-- ===== src/Proxylab/Request/Forward.antt =====
-- The headers that reach the server.
use git_sty.Base.{
  ℕ, zero, suc, ◌+◌, ◌≡◌, ◌≢◌, ◌∙◌, ap, sym, refl, ◌<◌, ◌≤◌, true, false, List, [], ◌∷◌, ◌++◌, ◌==◌,
  ltb, Text, text_eq, text_eq_iff, text_eq_refl, drop, length, length-append, arith, Bool-cases,
  inl, inr,
}
use mathlib.Core.Path.{subst}
use git_sty.Proxylab.Rio.{Rio, LineResult, line, line_error, rio_readlineb}
use git_sty.Proxylab.Rio.Source.{rest, Clean, append_assoc}
use git_sty.Proxylab.Rio.Lines.{first_line, has_newline, ReadsLine, rio_readlineb_lem}
use git_sty.Proxylab.Rio.Kept.{Kept, rio_readlineb-Kept, AtEnd, rio_readlineb-AtEnd}
use git_sty.Proxylab.Relay.{maxline}
use git_sty.Proxylab.Request.{
  maxbuf, c_string, Headers, complete, smashed, read_error, unfinished, buffer, blank_line,
  add_header, read_headers,
}

-- A line: one newline, at the end, and no zero.
unfoldable pub IsLine : Text → Type 0
IsLine [] = ⊥
IsLine (c ∷ []) = c ≡ b'\n'
IsLine (c ∷ d ∷ cs) = (c ≢ b'\n') × ((c ≢ 0) × IsLine (d ∷ cs))

first_line-append : (l v : Text) (k : ℕ) → IsLine l → length l ≤ k → first_line k (l ++ v) ≡ l
unfolding IsLine first_line
first_line-append [] v k i h = absurd i
first_line-append (c ∷ cs) v zero i h = absurd (omega (arith, h))
first_line-append (c ∷ []) v (suc k) i h = rw i refl
first_line-append (c ∷ d ∷ cs) v (suc k) (n, (z, i)) h =
    let e : (c == b'\n') ≡ false = ground (arith, n) in
    rw e (ap (λ t. c ∷ t) (first_line-append (d ∷ cs) v k i (omega (arith, h))))

has_newline_line : (l : Text) → IsLine l → has_newline l ≡ true
unfolding IsLine has_newline
has_newline_line [] i = absurd i
has_newline_line (c ∷ []) i = rw i refl
has_newline_line (c ∷ d ∷ cs) (n, (z, i)) = ground (arith, has_newline_line (d ∷ cs) i)

c_string_line : (l : Text) → IsLine l → c_string l ≡ l
unfolding IsLine c_string
c_string_line [] i = absurd i
c_string_line (c ∷ []) i = rw i refl
c_string_line (c ∷ d ∷ cs) (n, (z, i)) =
    let e : (c == 0) ≡ false = ground (arith, z) in
    rw e (ap (λ t. c ∷ t) (c_string_line (d ∷ cs) i))

length_line : (l : Text) → IsLine l → 0 < length l
unfolding IsLine
length_line [] i = absurd i
length_line (c ∷ cs) i = omega arith

drop-append : (l v : Text) → drop (length l) (l ++ v) ≡ v
drop-append [] v = refl
drop-append (c ∷ l) v = drop-append l v

-- The reader gives the line `l` and stands before `v`.
unfoldable pub Gives : Text → Text → LineResult → Type 0
Gives l v (line x) = ((buf : Text) → buffer buf x ≡ l) × ((rest x.rio ≡ v) × Clean x.rio)
Gives l v (line_error r) = ⊥

ReadsLine-Gives :
    (l v w : Text) (res : LineResult)
    → IsLine l
    → length l ≤ 8191
    → w ≡ l ++ v
    → ReadsLine 8191 1 [] w res
    → Kept res
    → Gives l v res
unfolding ReadsLine Kept Gives
ReadsLine-Gives l v w (line x) i h e (p, (q, s)) k =
    let f : first_line 8191 w ≡ l = ap (first_line 8191) e ∙ first_line-append l v 8191 i h in
    let text : x.text ≡ l = p ∙ f in
    let q' : x.count + 1 ≡ 1 + length l =
      ground (arith, q, ap has_newline f ∙ has_newline_line l i, ap length f) in
    let z : (x.count == 0) ≡ false = ground (arith, q', length_line l i) in
    (
      λ buf. rw z (ap c_string text ∙ c_string_line l i),
      (s ∙ ap (λ t. drop (length t) w) f ∙ ap (drop (length l)) e ∙ drop-append l v, k),
    )
ReadsLine-Gives l v w (line_error r) i h e p k = absurd k

-- The reader's next line.
pub next_line :
    (l v : Text) (r : Rio)
    → IsLine l
    → length l ≤ 8191
    → Clean r
    → rest r ≡ l ++ v
    → Gives l v (rio_readlineb maxline r)
next_line l v r i h c e =
    ReadsLine-Gives l v (rest r) (rio_readlineb maxline r) i h e
      (rio_readlineb_lem maxline r c
        (omega (arith, ap length e, length-append l v, length_line l i)))
      (rio_readlineb-Kept maxline r c)

-- The message `m` is complete and `body` is left to read.
unfoldable pub Forwarded : Text → Text → Headers → Type 0
Forwarded m body (complete m' r) = (m' ≡ m) × ((rest r ≡ body) × Clean r)
Forwarded m body smashed = ⊥
Forwarded m body read_error = ⊥
Forwarded m body unfinished = ⊥

-- Header lines, none of them blank.
unfoldable pub AreHeaders : List Text → Type 0
AreHeaders [] = Unit
AreHeaders (l ∷ ls) = (IsLine l × ((length l ≤ 8191) × (l ≢ blank_line))) × AreHeaders ls

unfoldable pub joined_lines : List Text → Text
joined_lines [] = []
joined_lines (l ∷ ls) = l ++ joined_lines ls

add_header-Forwarded :
    (l v m body message buf : Text) (again : Text → Text → Rio → Headers) (res : LineResult)
    → Gives l v res
    → length message + length l < maxbuf
    → ((r : Rio) → Clean r → rest r ≡ v → Forwarded m body (again l (message ++ l) r))
    → Forwarded m body (add_header again buf message res)
unfolding Gives add_header
add_header-Forwarded l v m body message buf again (line x) (b, (e, c)) h f =
    let room : ltb (length (message ++ l)) maxbuf ≡ true =
      ground (arith, h, length-append message l) in
    rw (b buf, room) (f x.rio c e)
add_header-Forwarded l v m body message buf again (line_error r) g h f = absurd g

not_blank : (buf : Text) → buf ≢ blank_line → text_eq buf blank_line ≡ false
not_blank buf n = elim (Bool-cases (text_eq buf blank_line)) [
  | inl e ↦ absurd (n ((text_eq_iff buf blank_line).0 e))
  | inr e ↦ e
]

blank_IsLine : IsLine blank_line
unfolding IsLine
blank_IsLine = (λ e. ground (arith, e), (λ e. ground (arith, e), refl))

-- If the client sends, without an error, the header lines `ls`, a blank line and `body`, and the message has room
-- for them, the loop, with fuel for each line and two more, ends: it has added each of the lines and the
-- blank line to the message, once and in order, and leaves `body`.
pub read_headers-Forwarded :
    (ls : List Text) (fuel : ℕ) (buf message body : Text) (r : Rio)
    → AreHeaders ls
    → Clean r
    → rest r ≡ joined_lines ls ++ (blank_line ++ body)
    → buf ≢ blank_line
    → length message + length (joined_lines ls) + 2 < maxbuf
    → length ls + 1 < fuel
    → Forwarded (message ++ (joined_lines ls ++ blank_line)) body (read_headers fuel buf message r)
unfolding read_headers AreHeaders joined_lines Forwarded
read_headers-Forwarded ls zero buf message body r a c e n h f = absurd (omega (arith, f))
read_headers-Forwarded [] (suc zero) buf message body r a c e n h f = absurd (omega (arith, f))
read_headers-Forwarded [] (suc (suc k)) buf message body r a c e n h f = rw (not_blank buf n) (
    add_header-Forwarded blank_line body (message ++ blank_line) body message buf
      (λ b m t. read_headers (suc k) b m t) (rio_readlineb maxline r)
      (next_line blank_line body r blank_IsLine (omega arith) c e) (omega (arith, h))
      (λ t d g. rw (text_eq_refl blank_line) (refl, (g, d))))
read_headers-Forwarded (l ∷ ls) (suc k) buf message body r ((i, (b, u)), a) c e n h f =
    rw (not_blank buf n) (
      add_header-Forwarded l (joined_lines ls ++ (blank_line ++ body))
        (message ++ ((l ++ joined_lines ls) ++ blank_line)) body message buf
        (λ b m t. read_headers k b m t) (rio_readlineb maxline r)
        (next_line l (joined_lines ls ++ (blank_line ++ body)) r i b c
          (e ∙ append_assoc l (joined_lines ls) (blank_line ++ body)))
        (omega (arith, h, length-append l (joined_lines ls)))
        (λ t d g.
          subst (λ w. Forwarded w body (read_headers k l (message ++ l) t))
            (append_assoc message l (joined_lines ls ++ blank_line)
              ∙ ap (λ w. message ++ w) (sym (append_assoc l (joined_lines ls) blank_line)))
            (read_headers-Forwarded ls k l (message ++ l) body t a d g u
              (omega (arith, h, length-append message l, length-append l (joined_lines ls)))
              (omega (arith, f)))))

again-AtEnd :
    (buf message : Text) (again : Text → Text → Rio → Headers) (res : LineResult)
    → AtEnd res
    → ((r : Rio)
        → Clean r
        → rest r ≡ []
        → length (message ++ buf) < maxbuf
        → again buf (message ++ buf) r ≡ smashed)
    → add_header again buf message res ≡ smashed
unfolding AtEnd add_header
again-AtEnd buf message again (line x) (z, (e, c)) f =
    let count : (x.count == 0) ≡ true = ground (arith, z) in
    elim (Bool-cases (ltb (length (message ++ buf)) maxbuf)) [
      | inl d ↦ rw (count, d) (f x.rio c e (ground arith))
      | inr d ↦ rw (count, d) refl
    ]
again-AtEnd buf message again (line_error r) a f = absurd a

-- If the client closes its side without an error before it has sent a blank line, the last line stays in the
-- buffer and is added again and again, until the message is longer than its array.
pub read_headers_smashed :
    (fuel : ℕ) (buf message : Text) (r : Rio)
    → Clean r
    → rest r ≡ []
    → buf ≢ blank_line
    → 0 < length buf
    → length message < maxbuf
    → maxbuf ≤ length message + fuel
    → read_headers fuel buf message r ≡ smashed
unfolding read_headers
read_headers_smashed zero buf message r c e n z h f = absurd (omega (arith, h, f))
read_headers_smashed (suc k) buf message r c e n z h f = rw (not_blank buf n) (
    again-AtEnd buf message (λ b m t. read_headers k b m t) (rio_readlineb maxline r)
      (rio_readlineb-AtEnd r c e)
      (λ t d g l.
        read_headers_smashed k buf (message ++ buf) t d g n z l
          (omega (arith, f, z, length-append message buf))))
