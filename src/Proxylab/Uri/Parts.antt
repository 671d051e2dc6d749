-- ===== src/Proxylab/Uri/Parts.antt =====
-- `parse_uri` finds the parts that a URI is made of.
use git_sty.Base.{
  ℕ, ◌+◌, ◌-◌, ◌*◌, ◌<◌, ◌≡◌, ◌∙◌, refl, true, false, none, some, [], ◌∷◌, ◌++◌, Text, codes, arith,
}
use git_sty.Proxylab.Uri.{
  is_end, break_at, is_digit, digits, signed, atoi, to_int, parsed, fault, path_of, split_host,
  parse_uri, starts_as,
}

-- A host name: no character that ends one.
unfoldable pub IsHost : Text → Type 0
IsHost [] = Unit
IsHost (c ∷ s) = (is_end c ≡ false) × IsHost s

unfoldable pub IsDigits : Text → Type 0
IsDigits [] = Unit
IsDigits (c ∷ s) = (is_digit c ≡ true) × IsDigits s

break_at-IsHost :
    (host rest : Text) (e : ℕ)
    → IsHost host
    → is_end e ≡ true
    → break_at is_end (host ++ (e ∷ rest)) ≡ some (host, e ∷ rest)
unfolding break_at IsHost
break_at-IsHost [] rest e h i = rw i refl
break_at-IsHost (c ∷ host) rest e (a, h) i = rw (a, break_at-IsHost host rest e h i) refl

break_at-none : (host : Text) → IsHost host → break_at is_end host ≡ none
unfolding break_at IsHost
break_at-none [] h = refl
break_at-none (c ∷ host) (a, h) = rw (a, break_at-none host h) refl

path_of-IsHost : (host rest : Text) → IsHost host → path_of (host ++ rest) ≡ path_of rest
unfolding path_of IsHost is_end
path_of-IsHost [] rest h = refl
path_of-IsHost (c ∷ host) rest (a, h) = ground (arith, path_of-IsHost host rest h)

path_of-IsDigits : (ds rest : Text) → IsDigits ds → path_of (ds ++ rest) ≡ path_of rest
unfolding path_of IsDigits
path_of-IsDigits [] rest h = refl
path_of-IsDigits (c ∷ ds) rest (a, h) = ground (arith, path_of-IsDigits ds rest h)

-- The place value of the digit before a text, and the decimal number that a text of digits spells.
abbrev pub weight : Text → ℕ
weight [] = 1
weight (c ∷ s) = 10 * weight s

unfoldable pub value : Text → ℕ
value [] = 0
value (c ∷ s) = (c - 48) * weight s + value s

digits_stop :
    (ds rest : Text) (n : ℕ)
    → IsDigits ds
    → digits n (ds ++ (b'/' ∷ rest)) ≡ n * weight ds + value ds
unfolding digits IsDigits value
digits_stop [] rest n h = omega arith
digits_stop (c ∷ ds) rest n (a, h) =
    rw (a, digits_stop ds rest (n * 10 + (c - b'0')) h) (omega arith)

atoi-digits : (c : ℕ) (s : Text) → is_digit c ≡ true → atoi (c ∷ s) ≡ to_int (digits 0 (c ∷ s))
unfolding atoi signed
atoi-digits c s h = ground arith

atoi_stop :
    (ds rest : Text)
    → IsDigits ds
    → value ds < 2147483648
    → atoi (ds ++ (b'/' ∷ rest)) ≡ some (value ds)
unfolding IsDigits atoi signed digits value
atoi_stop [] rest h l = refl
atoi_stop (c ∷ ds) rest (a, h) l =
    let d = digits_stop (c ∷ ds) rest 0 (a, h) in
    atoi-digits c (ds ++ (b'/' ∷ rest)) a ∙ ground (arith, d)

colon : is_end b':' ≡ true
unfolding is_end
colon = refl

path_after : (ds path : Text) → IsDigits ds → path_of (b':' ∷ (ds ++ (b'/' ∷ path))) ≡ b'/' ∷ path
unfolding path_of
path_after ds path d = path_of-IsDigits ds (b'/' ∷ path) d

-- `http://host:digits/path`, where the decimal number of the digits is below 2^31, is taken apart into the
-- host, the path from its slash on and that number, whatever the path is.
pub parse_uri_full :
    (host ds path : Text)
    → IsHost host
    → IsDigits ds
    → value ds < 2147483648
    → parse_uri (codes "http://" ++ (host ++ (b':' ∷ (ds ++ (b'/' ∷ path)))))
      ≡ parsed host (b'/' ∷ path) (value ds)
unfolding parse_uri starts_as split_host
parse_uri_full host ds path h d l =
    rw
      (
        break_at-IsHost host (ds ++ (b'/' ∷ path)) b':' h colon,
        atoi_stop ds path d l,
        path_of-IsHost host (b':' ∷ (ds ++ (b'/' ∷ path))) h,
        path_after ds path d,
      )
      refl

-- `http://host` with nothing behind the host makes `parse_uri` read through NULL.
pub parse_uri_bare : (host : Text) → IsHost host → parse_uri (codes "http://" ++ host) ≡ fault
unfolding parse_uri starts_as split_host
parse_uri_bare host h = rw (break_at-none host h) refl
