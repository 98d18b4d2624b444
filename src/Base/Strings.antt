-- ===== src/Base/Strings.antt =====
-- The functions of Go's package strings that the program calls, on texts by characters.
use Prim.Native.Nat.{ℕ, zero, suc, ◌-◌}
use Prim.Native.Char.{Char, code}
use Prim.Native.String.{String, [], ◌∷◌, ◌++◌, count}
use mathlib.Core.Bool.{Bool, true, not, ◌&&◌, ◌||◌}
use mathlib.Core.List.{List}
use text.Mathlib.Text.{starts_with, ◌==◌}
use paas_controlplane.Base.Tests.{leb, nat_eq, if◌then◌else◌}

-- The text without its first n characters.
unfoldable pub drop_chars : ℕ → String → String
drop_chars zero s = s
drop_chars (suc n) [] = []
drop_chars (suc n) (c ∷ s) = drop_chars n s

-- The text does not hold the character.
unfoldable pub is_free : Char → String → Bool
is_free d [] = true
is_free d (c ∷ s) = let rest = is_free d s in not (nat_eq (code c) (code d)) && rest

-- strings.Replace(s, old, new, 1) for a non-empty `old`
unfoldable pub replace_first : String → String → String → String
unfolding drop_chars
replace_first old new [] = []
replace_first old new (c ∷ s) =
    if starts_with (c ∷ s) old
    then new ++ drop_chars (count old) (c ∷ s)
    else c ∷ replace_first old new s

-- The loop of strings.ReplaceAll for a non-empty `old`: `skip` characters of a match are left.
unfoldable pub replace_from : String → String → ℕ → String → String
replace_from old new skip [] = []
replace_from old new (suc skip) (c ∷ s) = replace_from old new skip s
replace_from old new zero (c ∷ s) =
    let matched = new ++ replace_from old new (count old - 1) s in
    let other = c ∷ replace_from old new zero s in
    if starts_with (c ∷ s) old then matched else other

unfoldable pub replace_all : String → String → String → String
unfolding replace_from
replace_all old new s = replace_from old new 0 s

-- The loop of strings.Split for a non-empty separator: `part` is the piece that is being read.
unfoldable pub split_from : String → String → ℕ → String → List String
split_from sep part skip [] = List.◌∷◌ part List.[]
split_from sep part (suc skip) (c ∷ s) = split_from sep part skip s
split_from sep part zero (c ∷ s) =
    let cut = List.◌∷◌ part (split_from sep [] (count sep - 1) s) in
    let longer = split_from sep (part ++ c ∷ []) zero s in
    if starts_with (c ∷ s) sep then cut else longer

unfoldable pub split : String → String → List String
unfolding split_from
split sep s = split_from sep [] 0 s

-- unicode.IsSpace on the ASCII range: tab, newline, vertical tab, form feed, return and space
abbrev pub is_space : Char → Bool
is_space c = let n = code c in if nat_eq n 32 then true else (leb 9 n && leb n 13)

-- The text without leading white space. strings.TrimSpace also drops it at the end; the program
-- tests the result only for being empty or for its prefix, on which that has no bearing.
unfoldable pub trim_left : String → String
trim_left [] = []
trim_left (c ∷ s) = if is_space c then trim_left s else c ∷ s

-- The character that stands in the second text where c stands in the first, or c itself.
unfoldable pub translate : String → String → Char → Char
translate [] to c = c
translate (a ∷ from) [] c = c
translate (a ∷ from) (b ∷ to) c = if nat_eq (code a) (code c) then b else translate from to c

abbrev pub upper_letters : String
upper_letters = "ABCDEFGHIJKLMNOPQRSTUVWXYZ"

abbrev pub lower_letters : String
lower_letters = "abcdefghijklmnopqrstuvwxyz"

-- strings.ToLower on the ASCII letters; other characters stay.
unfoldable pub to_lower : String → String
unfolding translate
to_lower [] = []
to_lower (c ∷ s) = translate upper_letters lower_letters c ∷ to_lower s

-- strings.HasSuffix
unfoldable pub ends_with : String → String → Bool
ends_with [] t = [] == t
ends_with (c ∷ s) t = let rest = ends_with s t in ((c ∷ s) == t) || rest
