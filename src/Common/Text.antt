-- ===== src/Common/Text.antt =====
-- Methods of Python's `str` on the native text, and dictionaries with text keys.
use Prim.Native.Char.{code}
use Prim.Native.Nat.{ℕ}
use Prim.Native.String
use Prim.Native.String.{String}
use mathlib.Core.Bool.{Bool, true, false, ◌&&◌, ◌||◌}
use mathlib.Core.Option.{Option, none, some}
use mathlib.Core.List.{List, [], ◌∷◌}
use text.Mathlib.Text.{◌==◌ as str_eq}
use errander_ai.Common.Tests.{if◌then◌else◌, leb, ◌==◌}

-- `str.isspace` of one character.
abbrev is_space : ℕ → Bool
is_space c =
    (leb 9 c && leb c 13)
    || (leb 28 c && leb c 32)
    || c == 133
    || c == 160
    || c == 5760
    || (leb 8192 c && leb c 8202)
    || c == 8232
    || c == 8233
    || c == 8239
    || c == 8287
    || c == 12288

-- The characters at which `splitlines` ends a line.
abbrev is_break : ℕ → Bool
is_break c = (leb 10 c && leb c 13) || (leb 28 c && leb c 30) || c == 133 || c == 8232 || c == 8233

abbrev is_empty : String → Bool
is_empty s = str_eq s ""

lstrip : String → String
lstrip String.[] = ""
lstrip (String.◌∷◌ c s) = let rest = lstrip s in if is_space (code c) then rest else String.◌∷◌ c s

unfoldable pub rstrip : String → String
rstrip String.[] = ""
rstrip (String.◌∷◌ c s) =
    let rest = rstrip s in if is_empty rest && is_space (code c) then "" else String.◌∷◌ c rest

unfoldable pub strip : String → String
unfolding lstrip rstrip
strip s = rstrip (lstrip s)

-- Adds a text in front of the first of some texts.
abbrev onto_first : String → List String → List String
onto_first c [] = c ∷ []
onto_first c (l ∷ ls) = String.◌++◌ c l ∷ ls

-- `splitlines`, where the flag says that a carriage return stands before the text.
lines_after : Bool → String → List String
lines_after returned String.[] = []
lines_after returned (String.◌∷◌ c s) =
    let rest = lines_after (code c == 13) s in
    if returned && code c == 10
    then rest
    else if is_break (code c)
    then "" ∷ rest
    else onto_first (String.◌∷◌ c "") rest

unfoldable pub splitlines : String → List String
unfolding lines_after
splitlines s = lines_after false s

-- The parts between the spaces, empty ones included.
fields : String → List String
fields String.[] = "" ∷ []
fields (String.◌∷◌ c s) =
    let rest = fields s in
    if is_space (code c) then "" ∷ rest else onto_first (String.◌∷◌ c "") rest

non_empty : List String → List String
non_empty [] = []
non_empty (w ∷ ws) = let rest = non_empty ws in if is_empty w then rest else w ∷ rest

-- `split()`.
unfoldable pub split : String → List String
unfolding fields non_empty
split s = non_empty (fields s)

-- `partition` at an ASCII character: the texts before and after it, if it is there.
unfoldable pub partition : ℕ → String → Option (String × String)
partition sep String.[] = none
partition sep (String.◌∷◌ c s) =
    let rest = partition sep s in
    if code c == sep
    then some ("", s)
    else elim rest [ none ↦ none | some (before, after) ↦ some (String.◌∷◌ c before, after) ]

-- What follows a prefix, if the text starts with it.
unfoldable pub after_prefix : String → String → Option String
after_prefix String.[] s = some s
after_prefix (String.◌∷◌ c p) String.[] = none
after_prefix (String.◌∷◌ c p) (String.◌∷◌ d s) =
    let rest = after_prefix p s in if code c == code d then rest else none

-- `sub in s`.
unfoldable pub contains_text : String → String → Bool
unfolding after_prefix
contains_text sub String.[] = str_eq sub ""
contains_text sub (String.◌∷◌ c s) = elim (after_prefix sub (String.◌∷◌ c s)) [
  | some _ ↦ true
  | none ↦ contains_text sub s
]

-- A dict as the list of its entries, the last one first.
unfoldable pub lookup : {V : Type 0} → String → List (String × V) → Option V
lookup k [] = none
lookup k ((j, v) ∷ d) = let rest = lookup k d in if str_eq j k then some v else rest

-- An assignment to a key of a dict that keeps the order of the keys.
unfoldable pub put : {V : Type 0} → String → V → List (String × V) → List (String × V)
put k v [] = (k, v) ∷ []
put k v ((j, w) ∷ d) = let rest = put k v d in if str_eq j k then (j, v) ∷ d else (j, w) ∷ rest

-- `rpartition` at an ASCII character: the texts before and after the last one, if it is there.
unfoldable pub rpartition : ℕ → String → Option (String × String)
rpartition sep String.[] = none
rpartition sep (String.◌∷◌ c s) = elim (rpartition sep s) [
  | some (before, after) ↦ some (String.◌∷◌ c before, after)
  | none ↦ if code c == sep then some ("", s) else none
]

-- `rsplit(sep, 1)[0]` if the separator is in the text, and the text otherwise.
unfoldable pub rsplit_first : ℕ → String → String
unfolding rpartition
rsplit_first sep s = elim (rpartition sep s) [ none ↦ s | some (before, after) ↦ before ]

-- `"\n".join(lines)`.
unfoldable pub join_lines : List String → String
join_lines [] = ""
join_lines (l ∷ []) = l
join_lines (l ∷ k ∷ ls) = String.◌++◌ l (String.◌++◌ "\n" (join_lines (k ∷ ls)))
