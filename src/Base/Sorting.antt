-- ===== src/Base/Sorting.antt =====
-- sort.Strings of Go: texts by their bytes, which is the order of their characters in UTF-8.
use Prim.Native.Nat.{Ordering, compare}
use Prim.Native.Char.{code}
use Prim.Native.String.{String}
use mathlib.Core.Path.{◌≡◌, refl, sym, subst, ◌∙◌}
use mathlib.Core.Logic.{inl, inr}
use mathlib.Core.Bool.{Bool, true, false, true≢false}
use mathlib.Core.HLevel.{Discrete, hedberg}
use mathlib.Core.List
use text.Mathlib.Text.{◌==◌}
use mathlib.Core.List.{List, [], ◌∷◌, foldr}
use mathlib.Core.List.Perm
use mathlib.Core.List.{Perm}
use native.Mathlib.Omega.{arith}
use text.Mathlib.TextEquality.{Char-path, eq_iff}
use paas_controlplane.Base.Tests.{if◌then◌else◌, Bool-cases}

unfoldable pub text_le : String → String → Bool
text_le String.[] t = true
text_le (String.◌∷◌ c s) String.[] = false
text_le (String.◌∷◌ c s) (String.◌∷◌ d t) =
    let rest = text_le s t in
    elim (compare (code c) (code d)) [
      | Ordering.lt ↦ true
      | Ordering.eq ↦ rest
      | Ordering.gt ↦ false
    ]

unfoldable pub insert_sorted : String → List String → List String
unfolding text_le
insert_sorted s [] = s ∷ []
insert_sorted s (t ∷ ts) =
    let rest = insert_sorted s ts in if text_le s t then s ∷ t ∷ ts else t ∷ rest

unfoldable pub sort_strings : List String → List String
unfolding insert_sorted
sort_strings ss = foldr insert_sorted [] ss

pub text_le_total : (s t : String) → text_le s t ≡ false → text_le t s ≡ true
unfolding text_le
text_le_total String.[] t h = ground arith
text_le_total (String.◌∷◌ c s) String.[] h = refl
text_le_total (String.◌∷◌ c s) (String.◌∷◌ d t) h = ground (arith, text_le_total s t)

pub text_le_trans : (s t u : String) → text_le s t ≡ true → text_le t u ≡ true → text_le s u ≡ true
unfolding text_le
text_le_trans String.[] t u h k = refl
text_le_trans (String.◌∷◌ c s) String.[] u h k = ground arith
text_le_trans (String.◌∷◌ c s) (String.◌∷◌ d t) String.[] h k = ground arith
text_le_trans (String.◌∷◌ c s) (String.◌∷◌ d t) (String.◌∷◌ e u) h k =
    ground (arith, text_le_trans s t u)

text_le_antisym : (s t : String) → text_le s t ≡ true → text_le t s ≡ true → s ≡ t
unfolding text_le
text_le_antisym String.[] String.[] h k = refl
text_le_antisym String.[] (String.◌∷◌ d t) h k = ground arith
text_le_antisym (String.◌∷◌ c s) String.[] h k = ground arith
text_le_antisym (String.◌∷◌ c s) (String.◌∷◌ d t) h k =
    let codes : code c ≡ code d = ground arith in
    let le : text_le s t ≡ true = ground arith in
    let ge : text_le t s ≡ true = ground arith in
    λ i. String.◌∷◌ (Char-path c d codes i) (text_le_antisym s t le ge i)

-- A text that comes strictly before another may be inserted before or after it.
insert_sorted_strict :
    (s t : String) (l : List String)
    → text_le s t ≡ true
    → text_le t s ≡ false
    → insert_sorted s (insert_sorted t l) ≡ insert_sorted t (insert_sorted s l)
unfolding insert_sorted
insert_sorted_strict s t [] h k = ground arith
insert_sorted_strict s t (u ∷ us) h k =
    ground (arith, text_le_trans s t u, insert_sorted_strict s t us)

insert_sorted_comm :
    (s t : String) (l : List String)
    → insert_sorted s (insert_sorted t l) ≡ insert_sorted t (insert_sorted s l)
insert_sorted_comm s t l = elim (Bool-cases (text_le s t)) [
  | inl h ↦ elim (Bool-cases (text_le t s)) [
    | inl k ↦
        subst (λ x. insert_sorted s (insert_sorted x l) ≡ insert_sorted x (insert_sorted s l))
          (text_le_antisym s t h k) refl
    | inr k ↦ insert_sorted_strict s t l h k
  ]
  | inr h ↦ sym (insert_sorted_strict t s l (text_le_total s t h) h)
]

String-Discrete : Discrete String
String-Discrete s t = elim (Bool-cases (s == t)) [
  | inl e ↦ yes ((eq_iff s t).0 e)
  | inr e ↦ no (λ p. true≢false (sym ((eq_iff s t).1 p) ∙ e))
]

-- Two lists of the same texts are sorted to the same list.
pub sort_strings-Perm : (xs ys : List String) → Perm xs ys → sort_strings xs ≡ sort_strings ys
unfolding sort_strings
sort_strings-Perm xs ys p =
    Perm.foldr-eq (List.is_set (hedberg String-Discrete)) insert_sorted insert_sorted_comm p []
