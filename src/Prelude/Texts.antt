-- ===== src/Prelude/Texts.antt =====
-- Python's text operations, by recursion on the characters.
use Prim.Native.Nat.{ℕ}
use Prim.Native.Char.{Char, code}
use Prim.Native.String
use Prim.Native.String.{String}
use mathlib.Core.Bool.{Bool, true, false, ◌&&◌, ◌||◌}
use mathlib.Core.Option.{Option, none, some}
use mathlib.Core.List.{List, [], ◌∷◌}
use text.Mathlib.Text.{◌==◌}
use pytest_hardware_template.Prelude.Tests.{leb, nat_eq, if◌then◌else◌}

-- An f-string: the pieces joined.
unfoldable pub concat : List String → String
concat [] = ""
concat (s ∷ ss) = String.◌++◌ s (concat ss)

-- `sep.join(pieces)`
unfoldable pub join : String → List String → String
join sep [] = ""
join sep (s ∷ []) = s
join sep (s ∷ t ∷ ss) = String.◌++◌ s (String.◌++◌ sep (join sep (t ∷ ss)))

-- `any(test(c) for c in s)`
unfoldable pub any_char : (ℕ → Bool) → String → Bool
any_char p String.[] = false
any_char p (String.◌∷◌ c s) = p (code c) || any_char p s

-- `all(test(c) for c in s)`
unfoldable pub all_char : (ℕ → Bool) → String → Bool
all_char p String.[] = true
all_char p (String.◌∷◌ c s) = p (code c) && all_char p s

-- A full match of a character class followed by any number of characters of another.
unfoldable pub matches_class : (ℕ → Bool) → (ℕ → Bool) → String → Bool
unfolding all_char
matches_class first rest String.[] = false
matches_class first rest (String.◌∷◌ c s) = first (code c) && all_char rest s

abbrev pub is_ascii_letter : ℕ → Bool
is_ascii_letter c = (leb b'A' c && leb c b'Z') || (leb b'a' c && leb c b'z')

abbrev pub is_ascii_digit : ℕ → Bool
is_ascii_digit c = leb b'0' c && leb c b'9'

-- `s.startswith(prefix)`
unfoldable pub has_prefix : String → String → Bool
has_prefix s String.[] = true
has_prefix String.[] (String.◌∷◌ d t) = false
has_prefix (String.◌∷◌ c s) (String.◌∷◌ d t) = nat_eq (code c) (code d) && has_prefix s t

-- `s.endswith(suffix)`
unfoldable pub has_suffix : String → String → Bool
has_suffix String.[] t = String.[] == t
has_suffix (String.◌∷◌ c s) t = String.◌∷◌ c s == t || has_suffix s t

prepend : Char → List String → List String
prepend c [] = String.◌∷◌ c String.[] ∷ []
prepend c (s ∷ ss) = String.◌∷◌ c s ∷ ss

-- The pieces between the characters that pass a test.
unfoldable pub split_by : (ℕ → Bool) → String → List String
unfolding prepend
split_by p String.[] = "" ∷ []
split_by p (String.◌∷◌ c s) =
    let rest = split_by p s in if p (code c) then "" ∷ rest else prepend c rest

-- `s.split(sep)` at a separator of one character
unfoldable pub split : ℕ → String → List String
unfolding split_by
split sep = split_by (λ c. nat_eq c sep)

-- `s.lstrip()` by a test for white space
unfoldable pub lstrip : (ℕ → Bool) → String → String
lstrip p String.[] = String.[]
lstrip p (String.◌∷◌ c s) = let rest = lstrip p s in if p (code c) then rest else String.◌∷◌ c s

unfoldable pub rstrip : (ℕ → Bool) → String → String
rstrip p String.[] = String.[]
rstrip p (String.◌∷◌ c s) =
    let rest = rstrip p s in
    if p (code c) && rest == String.[] then String.[] else String.◌∷◌ c rest

-- White space, as `str.strip` and `\s` read it
abbrev pub is_space : ℕ → Bool
is_space c =
    nat_eq c 32
    || (leb 9 c && leb c 13)
    || (leb 28 c && leb c 31)
    || nat_eq c 0x85
    || nat_eq c 0xa0
    || nat_eq c 0x1680
    || (leb 0x2000 c && leb c 0x200a)
    || nat_eq c 0x2028
    || nat_eq c 0x2029
    || nat_eq c 0x202f
    || nat_eq c 0x205f
    || nat_eq c 0x3000

unfoldable pub strip : String → String
unfolding lstrip rstrip
strip s = rstrip is_space (lstrip is_space s)

-- `"\0\r\n"`: the control characters that no path or prompt may hold
abbrev pub is_control : ℕ → Bool
is_control c = nat_eq c 0 || nat_eq c 13 || nat_eq c 10

-- `s.partition(sep)` at one character: what is before and behind it, or nothing where it is absent
unfoldable pub partition : ℕ → String → Option (String × String)
partition sep String.[] = none
partition sep (String.◌∷◌ c s) =
    let rest = partition sep s in
    if nat_eq (code c) sep
    then some ("", s)
    else elim rest [ none ↦ none | some (before, after) ↦ some (String.◌∷◌ c before, after) ]
