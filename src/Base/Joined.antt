-- ===== src/Base/Joined.antt =====
-- Names that are joined with a dash.
use Prim.Native.Char.{Char, code}
use Prim.Native.String.{String, [], ◌∷◌, ◌++◌}
use mathlib.Core.Bool.{true, not}
use mathlib.Core.Path.{◌≡◌, refl, sym, ap, ◌∙◌}
use mathlib.Core.Logic.{◌≢◌, ◌↔◌}
use native.Mathlib.Omega.{arith}
use text.Mathlib.TextLemmas.{nil-append, head-eq_of_cons-eq, tail-eq_of_cons-eq, cons-append}
use paas_controlplane.Base.Tests.{nat_eq, and-true}
use paas_controlplane.Base.Strings.{is_free}

other : (d c : Char) → not (nat_eq (code c) (code d)) ≡ true → c ≢ d
other d c h same = ground (arith, h, same)

-- Two parts with a separator between them can be told apart where the separator is not in the first.
cut :
    (d : Char) (p q m n : String)
    → is_free d p ≡ true
    → is_free d q ≡ true
    → p ++ (d ∷ m) ≡ q ++ (d ∷ n)
    → (p ≡ q) × (m ≡ n)
unfolding is_free
cut d [] [] m n fp fq e = (refl, tail-eq_of_cons-eq (simp nil-append at e))
cut d [] (c ∷ q) m n fp fq e =
    let same : d ≡ c = head-eq_of_cons-eq (simp (nil-append, cons-append) at e) in
    absurd (other d c (and-true _ _ fq).0 (sym same))
cut d (c ∷ p) [] m n fp fq e =
    let same : c ≡ d = head-eq_of_cons-eq (simp (nil-append, cons-append) at e) in
    absurd (other d c (and-true _ _ fp).0 same)
cut d (c ∷ p) (b ∷ q) m n fp fq e =
    let apart : c ∷ (p ++ (d ∷ m)) ≡ b ∷ (q ++ (d ∷ n)) = simp cons-append at e in
    let (firsts, seconds) =
      cut d p q m n (and-true _ _ fp).1 (and-true _ _ fq).1 (tail-eq_of_cons-eq apart) in
    (λ i. head-eq_of_cons-eq apart i ∷ firsts i, seconds)

dash : (s : String) → "-" ++ s ≡ "-" ∷ s
dash s = cons-append "-" [] s ∙ ap (λ x. "-" ∷ x) (nil-append s)

-- Where the first parts hold no dash, two joined texts are the same exactly if their parts are.
pub joined_lem :
    (p q m n : String)
    → is_free "-" p ≡ true
    → is_free "-" q ≡ true
    → (p ++ "-" ++ m ≡ q ++ "-" ++ n) ↔ ((p ≡ q) × (m ≡ n))
joined_lem p q m n free free' =
    (λ e. cut "-" p q m n free free' (simp dash at e), λ (x, y). rw (x, y))
