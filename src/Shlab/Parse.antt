-- ===== src/Shlab/Parse.antt =====
-- `parseline` of shlab/tsh.c over the bytes of the command line. Fuel bounds the loop that builds
-- `argv`; `Parse.Total` shows that it never runs out. A store behind the end of `argv[MAXARGS]` is
-- the result `smashed`.
pub mod Total
pub mod RoundTrip
mod Tests
use git_sty.Base.{
  ℕ, zero, suc, ◌+◌, Bool, true, false, Option, none, some, List, [], ◌∷◌, ltb, ◌==◌, if◌then◌else◌,
  Text, split_at, length,
}

abbrev pub max_args : ℕ
max_args = 128

abbrev pub space : ℕ
space = b' '

abbrev pub quote : ℕ
quote = 39

pub data Parsed : Type 0 where
  parsed : (bg : Bool) → List Text → Parsed
  smashed : Parsed
  out_of_fuel : Parsed

-- `buf[strlen(buf)-1] = ' '`; `fgets` never gives an empty line.
unfoldable pub blank_last : Text → Text
blank_last [] = []
blank_last (x ∷ []) = space ∷ []
blank_last (x ∷ y ∷ ys) = x ∷ blank_last (y ∷ ys)

unfoldable pub skip_spaces : Text → Text
skip_spaces [] = []
skip_spaces (x ∷ xs) = if x == space then skip_spaces xs else x ∷ xs

-- The argument at `buf` and what follows its delimiter; `none` where `strchr` finds no delimiter.
unfoldable pub next_arg : Text → Option (Text × Text)
next_arg [] = split_at space []
next_arg (x ∷ xs) = if x == quote then split_at quote xs else split_at space (x ∷ xs)

-- The `while (delim)` loop; `none` means that the fuel ran out.
unfoldable pub arg_loop : ℕ → Text → Option (List Text)
arg_loop zero buf = none
arg_loop (suc k) buf = elim (next_arg buf) [
  | none ↦ some []
  | some (arg, rest) ↦ elim (arg_loop k (skip_spaces rest)) [
    | none ↦ none
    | some args ↦ some (arg ∷ args)
  ]
]

-- `*arg == '&'`; an empty argument has its NUL there.
unfoldable pub is_amp : Text → Bool
is_amp [] = false
is_amp (x ∷ xs) = x == b'&'

-- `argv[argc-1]`, and `argv` once `argv[--argc]` is NULL.
unfoldable pub last_arg : Text → List Text → Text
last_arg a [] = a
last_arg a (b ∷ bs) = last_arg b bs

pub drop_last : List Text → List Text
drop_last [] = []
drop_last (a ∷ []) = []
drop_last (a ∷ b ∷ bs) = a ∷ drop_last (b ∷ bs)

unfoldable pub background : List Text → Parsed
background [] = parsed true []
background (a ∷ more) =
    if is_amp (last_arg a more) then parsed true (drop_last (a ∷ more)) else parsed false (a ∷ more)

-- `argv` has room for `max_args - 1` arguments and the NULL behind them.
unfoldable pub finish : Option (List Text) → Parsed
finish none = out_of_fuel
finish (some args) = if ltb (length args) max_args then background args else smashed

unfoldable pub parseline : Text → Parsed
parseline line = let buf = skip_spaces (blank_last line) in finish (arg_loop (length buf + 1) buf)
