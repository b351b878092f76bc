-- ===== src/Prelude/Text.antt =====
-- Python's text operations on native strings.
use Prim.Native.Nat.{ℕ}
use Prim.Native.Char.{code}
use Prim.Native.String.{String, ◌++◌}
use mathlib.Core.Bool.{Bool, true, false, ◌&&◌, ◌||◌}
use mathlib.Core.List.{List}
use mathlib.Core.Option.{Option, none, some}
use mathlib.Core.Path.{◌≡◌, refl}
use learn_loop.Prelude.Tests.{leb, ◌==◌, if◌then◌else◌}

-- An f-string, or a `+` of texts: the parts in order.
pub f_string : List String → String
f_string List.[] = ""
f_string (List.◌∷◌ s parts) = s ++ f_string parts

-- `str.isspace` of one character, the set that `str.strip` and `str.split` go by.
pub is_space : ℕ → Bool
is_space c =
    (leb 9 c && leb c 13)
    || (leb 28 c && leb c 32)
    || c == 0x85
    || c == 0xa0
    || c == 0x1680
    || (leb 0x2000 c && leb c 0x200a)
    || c == 0x2028
    || c == 0x2029
    || c == 0x202f
    || c == 0x205f
    || c == 0x3000

pub lstrip : String → String
unfolding is_space
lstrip String.[] = String.[]
lstrip (String.◌∷◌ c s) = if is_space (code c) then lstrip s else String.◌∷◌ c s

abbrev is_empty : String → Bool
is_empty String.[] = true
is_empty (String.◌∷◌ c s) = false

pub rstrip : String → String
unfolding is_space
rstrip String.[] = String.[]
rstrip (String.◌∷◌ c s) =
    let rest = rstrip s in
    if is_empty rest && is_space (code c) then String.[] else String.◌∷◌ c rest

unfoldable pub strip : String → String
unfolding lstrip rstrip
strip s = rstrip (lstrip s)

-- `"".join(s.split())`: the text without its whitespace.
unfoldable pub without_space : String → String
unfolding is_space
without_space String.[] = String.[]
without_space (String.◌∷◌ c s) =
    if is_space (code c) then without_space s else String.◌∷◌ c (without_space s)

-- The truth of a text and of a text that may be `None`.
abbrev pub is_truthy : String → Bool
is_truthy s = if is_empty s then false else true

-- `(s or "")` for an optional text
abbrev pub or_blank : Option String → String
or_blank none = ""
or_blank (some s) = s

strip_sides : strip "  a b  " ≡ "a b"
unfolding strip
strip_sides = refl
