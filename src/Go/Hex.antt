-- ===== src/Go/Hex.antt =====
-- `hex.EncodeToString`: two lower-case digits for each byte. Distinct data have distinct digits.
use m3_repoworker.Prelude.{
  ℕ, ◌+◌, ◌-◌, ◌/◌, ◌%◌, ◌<◌, ◌≡◌, refl, [], ◌∷◌, Bytes, ltb, if◌then◌else◌, All, arith,
}

unfoldable pub hex_digit : ℕ → ℕ
hex_digit d = if ltb d 10 then d + b'0' else d - 10 + b'a'

unfoldable pub encode_to_string : Bytes → Bytes
encode_to_string [] = []
encode_to_string (b ∷ s) = hex_digit (b / 16) ∷ hex_digit (b % 16) ∷ encode_to_string s

abbrev pub IsByte : ℕ → Type 0
IsByte b = b < 256

hex_digit-injective : (c d : ℕ) → c < 16 → d < 16 → hex_digit c ≡ hex_digit d → c ≡ d
unfolding hex_digit
hex_digit-injective c d hc hd e = ground arith

byte_of_digits : (a b : ℕ) → a / 16 ≡ b / 16 → a % 16 ≡ b % 16 → a ≡ b
byte_of_digits a b h l = omega arith

pub encode_to_string-injective :
    (s t : Bytes) → All IsByte s → All IsByte t → encode_to_string s ≡ encode_to_string t → s ≡ t
unfolding encode_to_string
encode_to_string-injective [] [] hs ht e = refl
encode_to_string-injective [] (b ∷ t) hs ht e = cc
encode_to_string-injective (a ∷ s) [] hs ht e = cc
encode_to_string-injective (a ∷ s) (b ∷ t) hs ht e = ground (
  arith,
  hex_digit-injective (a / 16) (b / 16),
  hex_digit-injective (a % 16) (b % 16),
  byte_of_digits a b,
  encode_to_string-injective s t hs.1 ht.1,
)
