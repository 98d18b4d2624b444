-- ===== src/Base/Text.antt =====
-- Texts: concatenation as `fmt.Sprintf` and `+` use it, decimal printing, and `map[string]V` as an
-- association list.
use Prim.Native.Nat.{ℕ, zero, suc, ◌/◌, ◌%◌}
use Prim.Native.String
use Prim.Native.String.{String}
use mathlib.Core.Path.{◌≡◌, refl}
use mathlib.Core.Option.{Option, none, some}
use mathlib.Core.List.{List, [], ◌∷◌}
use native.Mathlib.Omega.{arith}
use text.Mathlib.Text.{◌==◌}
use text.Mathlib.TextEquality.{eq_iff}
use paas_controlplane.Base.Tests.{ltb, if◌then◌else◌}
use paas_controlplane.Base.Int.{ℤ, pos, negsuc}

infixr 66 ◌⧺◌
abbrev pub ◌⧺◌ : String → String → String
◌⧺◌ = String.◌++◌

abbrev digit : ℕ → String
digit zero = "0"
digit (suc zero) = "1"
digit (suc (suc zero)) = "2"
digit (suc (suc (suc zero))) = "3"
digit (suc (suc (suc (suc zero)))) = "4"
digit (suc (suc (suc (suc (suc zero))))) = "5"
digit (suc (suc (suc (suc (suc (suc zero)))))) = "6"
digit (suc (suc (suc (suc (suc (suc (suc zero))))))) = "7"
digit (suc (suc (suc (suc (suc (suc (suc (suc zero)))))))) = "8"
digit (suc (suc (suc (suc (suc (suc (suc (suc (suc n))))))))) = "9"

-- The digits of n in front of `rest`; a number has no more digits than itself plus one.
decimal_fuel : ℕ → ℕ → String → String
decimal_fuel zero n rest = rest
decimal_fuel (suc f) n rest =
    let more = decimal_fuel f (n / 10) (digit (n % 10) ⧺ rest) in
    if ltb n 10 then digit n ⧺ rest else more

-- strconv.Itoa and %d, on a natural number
unfoldable pub decimal : ℕ → String
unfolding decimal_fuel
decimal n = decimal_fuel (suc n) n ""

-- strconv.Itoa and %d
unfoldable pub itoa : ℤ → String
unfolding decimal
itoa (pos n) = decimal n
itoa (negsuc n) = "-" ⧺ decimal (suc n)

-- `map[string]V`. A nil map and an empty map read alike.
abbrev pub Dict {ℓ} : Type ℓ → Type ℓ
Dict V = List (String × V)

-- v, ok := m[key]
unfoldable pub lookup {ℓ} : {A : Type ℓ} → String → Dict A → Option A
lookup key [] = none
lookup key ((name, a) ∷ rest) = let below = lookup key rest in if name == key then some a else below

-- m[key] = a: in the place of the entry that is there, or at the end.
unfoldable pub insert {ℓ} : {A : Type ℓ} → String → A → Dict A → Dict A
insert key a [] = (key, a) ∷ []
insert key a (entry ∷ rest) =
    let below = insert key a rest in if entry.0 == key then (key, a) ∷ rest else entry ∷ below

module _ {ℓ} {A : Type ℓ} (key : String) (a : A) where
  pub lookup-insert :
      (name : String) (m : Dict A)
      → lookup name (insert key a m) ≡ (if key == name then some a else lookup name m)
  unfolding lookup insert
  lookup-insert name [] = refl
  lookup-insert name ((other, b) ∷ rest) =
      ground (arith, eq_iff key name, eq_iff other key, eq_iff other name, lookup-insert name rest)

  -- Writing the same entry twice is writing it once.
  pub insert-insert : (m : Dict A) → insert key a (insert key a m) ≡ insert key a m
  unfolding insert
  insert-insert [] = ground (arith, eq_iff key key)
  insert-insert ((other, b) ∷ rest) =
      ground (arith, eq_iff other key, eq_iff key key, insert-insert rest)

-- m[k] of a `map[string]string`: the empty text where the key is missing
unfoldable pub value_at : String → Dict String → String
unfolding lookup
value_at k m = elim (lookup k m) [ none ↦ "" | some v ↦ v ]

pub value_at-insert :
    (k j v : String) (m : Dict String)
    → value_at k (insert j v m) ≡ (if j == k then v else value_at k m)
unfolding value_at
value_at-insert k j v m = ground (arith, lookup-insert j v k m)

-- Writing an entry that is there changes nothing.
pub insert_same {ℓ} :
    {V : Type ℓ} (k : String) (v : V) (m : Dict V) → lookup k m ≡ some v → insert k v m ≡ m
unfolding insert lookup
insert_same k v [] e = absurd (cc)
insert_same k v ((j, w) ∷ m) e = ground (arith, eq_iff j k, insert_same k v m)
