-- ===== src/Base/Chars.antt =====
-- Text as a list of code points, where the program walks it: slices, `strip`, decimal digits.
use Prim.Native.Nat.{ℕ, zero, suc, ◌+◌, ◌*◌, ◌-◌, ◌/◌, ◌%◌}
use Prim.Native.Char.{code}
use Prim.Native.String.{String}
use mathlib.Core.Bool.{Bool, true, false, ◌&&◌, ◌||◌}
use mathlib.Core.List.{List, [], ◌∷◌, ◌++◌}
use mathlib.Core.Option
use mathlib.Core.Option.{Option, none, some}
use native.Mathlib.Omega.{arith}
use mathlib.Core.Path.{◌≡◌, refl}
use pos_pay.Base.Int.{ℤ, pos, neg_ℕ}
use pos_pay.Base.Tests.{ltb, leb, ◌==◌, if◌then◌else◌}
use pos_pay.Base.Lists.{take, drop}

abbrev pub Text : Type 0
Text = List ℕ

-- The code points of a literal. `String` has its own `[]` and `∷`.
abbrev pub codes : String → Text
codes String.[] = []
codes (String.◌∷◌ c s) = code c ∷ codes s

-- `str.isspace` of one character: the ASCII blanks and separators, then those of Unicode.
abbrev pub is_space : ℕ → Bool
is_space c =
    c == 32
    || leb 9 c && leb c 13
    || leb 28 c && leb c 31
    || c == 0x85
    || c == 0xa0
    || c == 0x1680
    || leb 0x2000 c && leb c 0x200a
    || leb 0x2028 c && leb c 0x2029
    || c == 0x202f
    || c == 0x205f
    || c == 0x3000

-- `s.encode("utf-8")` of one character, in up to four bytes, and of a text.
abbrev utf_8 : ℕ → List ℕ
utf_8 c =
    if ltb c 0x80
    then c ∷ []
    else if ltb c 0x800
    then (0xc0 + c / 64) ∷ (0x80 + c % 64) ∷ []
    else if ltb c 0x10000
    then (0xe0 + c / 4096) ∷ (0x80 + c / 64 % 64) ∷ (0x80 + c % 64) ∷ []
    else (0xf0 + c / 262144) ∷ (0x80 + c / 4096 % 64) ∷ (0x80 + c / 64 % 64) ∷ (0x80 + c % 64) ∷ []

abbrev pub encode_utf_8 : Text → List ℕ
encode_utf_8 [] = []
encode_utf_8 (c ∷ s) = utf_8 c ++ encode_utf_8 s

abbrev pub lstrip : Text → Text
lstrip [] = []
lstrip (c ∷ s) = let rest = lstrip s in if is_space c then rest else c ∷ s

-- `rstrip` recurs on what follows: a blank is kept only before something that is kept.
abbrev pub keep_before : ℕ → Text → Text
keep_before c [] = if is_space c then [] else c ∷ []
keep_before c (d ∷ s) = c ∷ d ∷ s

abbrev pub rstrip : Text → Text
rstrip [] = []
rstrip (c ∷ s) = keep_before c (rstrip s)

abbrev pub strip : Text → Text
strip s = lstrip (rstrip s)

-- `s[a:b]`
abbrev pub slice : ℕ → ℕ → Text → Text
slice a b s = take (b - a) (drop a s)

abbrev pub is_digit : ℕ → Bool
is_digit c = leb 48 c && leb c 57

abbrev pub text_eq : Text → Text → Bool
text_eq [] [] = true
text_eq [] (d ∷ t) = false
text_eq (c ∷ s) [] = false
text_eq (c ∷ s) (d ∷ t) = c == d && text_eq s t

-- `s.ljust(n)`
abbrev pub ljust : ℕ → Text → Text
ljust zero s = s
ljust (suc n) [] = 32 ∷ ljust n []
ljust (suc n) (c ∷ s) = c ∷ ljust n s

-- One character of a decimal literal: the value with it, and whether an underscore may follow.
abbrev next_digit : Bool → ℕ → ℕ → Option (Bool × ℕ)
next_digit after_digit n c =
    if is_digit c
    then some (true, n * 10 + (c - 48))
    else if after_digit && c == 95
    then some (false, n)
    else none

abbrev digits : Bool → ℕ → Text → Option ℕ
digits after_digit n [] = if after_digit then some n else none
digits after_digit n (c ∷ s) = elim (next_digit after_digit n c) [
  | none ↦ none
  | some (after, m) ↦ digits after m s
]

-- `int(s)` of a stripped ASCII text, nothing where it raises ValueError. A sign is allowed, and an
-- underscore between two digits.
unfoldable pub int_of : Text → Option ℤ
int_of [] = none
int_of (c ∷ s) =
    if c == 45
    then Option.map neg_ℕ (digits false 0 s)
    else if c == 43
    then Option.map pos (digits false 0 s)
    else Option.map pos (digits false 0 (c ∷ s))

-- `content.decode("ascii", errors="replace")`
abbrev pub decode_ascii : List ℕ → Text
decode_ascii [] = []
decode_ascii (b ∷ bytes) = (if ltb b 128 then b else 65533) ∷ decode_ascii bytes

-- The ASCII line ends of `str.splitlines`, a carriage return apart.
abbrev is_line_end : ℕ → Bool
is_line_end c = leb 10 c && leb c 12 || leb 28 c && leb c 30

-- A character put before the first of the lines, and an empty line put before them.
abbrev extend : ℕ → List Text → List Text
extend c [] = (c ∷ []) ∷ []
extend c (l ∷ ls) = (c ∷ l) ∷ ls

-- The flag says that a carriage return was just read, whose line a line feed belongs to.
abbrev lines_from : Bool → Text → List Text
lines_from after_cr [] = []
lines_from after_cr (c ∷ s) =
    let rest = lines_from (c == 13) s in
    if after_cr && c == 10
    then rest
    else if c == 13 || is_line_end c
    then [] ∷ rest
    else extend c rest

-- `s.splitlines()`
abbrev pub splitlines : Text → List Text
splitlines = lines_from false

abbrev keep_line_before : ℕ → Text → Text
keep_line_before c [] = if c == 10 || c == 13 then [] else c ∷ []
keep_line_before c (d ∷ s) = c ∷ d ∷ s

-- `s.rstrip("\n\r")`
abbrev pub rstrip_line_ends : Text → Text
rstrip_line_ends [] = []
rstrip_line_ends (c ∷ s) = keep_line_before c (rstrip_line_ends s)

pub text_eq→eq : (s t : Text) → text_eq s t ≡ true → s ≡ t
text_eq→eq [] [] h = refl
text_eq→eq [] (d ∷ t) h = cc
text_eq→eq (c ∷ s) [] h = cc
text_eq→eq (c ∷ s) (d ∷ t) h = ground (arith, h, text_eq→eq s t)
