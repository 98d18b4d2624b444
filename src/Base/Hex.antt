-- ===== src/Base/Hex.antt =====
-- encoding/hex: bytes as text.
use Prim.Native.Nat.{ℕ, zero, suc, ◌*◌, ◌/◌, ◌%◌, ◌<◌}
use Prim.Native.Char.{code}
use Prim.Native.String.{String, [], ◌∷◌, ◌++◌, count}
use mathlib.Core.Bool.{Bool, true, ◌&&◌, ◌||◌}
use mathlib.Core.Path.{◌≡◌, refl}
use mathlib.Core.List.{List}
use native.Mathlib.Omega.{arith}
use text.Mathlib.TextLemmas.{length-append, length-cons, length-nil, cons-append, nil-append}
use paas_controlplane.Base.Tests.{leb, and-true}
use paas_controlplane.Base.Lists.{All, length}
use paas_controlplane.Base.Strings.{drop_chars}

abbrev first : String → String
first [] = []
first (c ∷ s) = c ∷ []

abbrev digits : String
digits = "0123456789abcdef"

unfoldable hex_digit : ℕ → String
unfolding drop_chars
hex_digit n = first (drop_chars n digits)

-- hex.EncodeToString
unfoldable pub hex_encode : List ℕ → String
unfolding hex_digit
hex_encode List.[] = ""
hex_encode (List.◌∷◌ b bs) = hex_digit (b / 16) ++ hex_digit (b % 16) ++ hex_encode bs

-- The codes of 0 to 9 and of a to f.
abbrev is_hex_char : ℕ → Bool
is_hex_char n = (leb 48 n && leb n 57) || (leb 97 n && leb n 102)

-- The text has no characters but 0 to 9 and a to f.
unfoldable pub is_hex : String → Bool
is_hex [] = true
is_hex (c ∷ s) = let rest = is_hex s in is_hex_char (code c) && rest

is_hex-append : (s t : String) → is_hex s ≡ true → is_hex t ≡ true → is_hex (s ++ t) ≡ true
unfolding is_hex
is_hex-append [] t h k = simp (nil-append, k)
is_hex-append (c ∷ s) t h k =
    let (here, later) = and-true (is_hex_char (code c)) (is_hex s) h in
    simp (cons-append, here, is_hex-append s t later k)

is_hex-first : (n : ℕ) (s : String) → is_hex s ≡ true → is_hex (first (drop_chars n s)) ≡ true
unfolding is_hex drop_chars
is_hex-first zero [] h = refl
is_hex-first zero (c ∷ s) h = rw ((and-true (is_hex_char (code c)) (is_hex s) h).0)
is_hex-first (suc n) [] h = refl
is_hex-first (suc n) (c ∷ s) h = is_hex-first n s (and-true (is_hex_char (code c)) (is_hex s) h).1

count-first : (n : ℕ) (s : String) → n < count s → count (first (drop_chars n s)) ≡ 1
unfolding drop_chars
count-first zero [] h = omega arith
count-first zero (c ∷ s) h = rw (length-cons c [])
count-first (suc n) [] h = omega (arith, length-nil)
count-first (suc n) (c ∷ s) h = count-first n s (omega (arith, length-cons c s))

-- The encoding of bytes has two characters for each, all of them hexadecimal digits.
pub hex_encode-is_hex : (bs : List ℕ) → is_hex (hex_encode bs) ≡ true
unfolding hex_encode is_hex
hex_encode-is_hex List.[] = refl
hex_encode-is_hex (List.◌∷◌ b bs) =
    is_hex-append (hex_digit (b / 16)) (hex_digit (b % 16) ++ hex_encode bs)
      (is_hex-first (b / 16) digits refl)
      (is_hex-append (hex_digit (b % 16)) (hex_encode bs) (is_hex-first (b % 16) digits refl)
        (hex_encode-is_hex bs))

pub count-hex_encode : (bs : List ℕ) → All (λ b. b < 256) bs → count (hex_encode bs) ≡ 2 * length bs
unfolding hex_encode
count-hex_encode List.[] h = refl
count-hex_encode (List.◌∷◌ b bs) (here, later) = omega (
  arith,
  length-append (hex_digit (b / 16)) (hex_digit (b % 16) ++ hex_encode bs),
  length-append (hex_digit (b % 16)) (hex_encode bs),
  count-first (b / 16) digits (omega arith),
  count-first (b % 16) digits (omega arith),
  count-hex_encode bs later,
)
