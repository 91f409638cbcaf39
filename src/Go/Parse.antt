-- ===== src/Go/Parse.antt =====
-- What reads a credential: `strings.Split` and `strings.Join`, `base64.RawURLEncoding.DecodeString`, `hex.DecodeString`
-- and `strconv.ParseInt` of a positive number.
use m3_repoworker.Prelude.{
  ℕ, ◌+◌, ◌-◌, ◌*◌, ◌/◌, ◌%◌, ◌&&◌, ◌||◌, List, [], ◌∷◌, ◌++◌, Bytes, Option, none, some, leb, ◌==◌,
  if◌then◌else◌,
}

start_piece : ℕ → ℕ → List Bytes → List Bytes
start_piece separator c [] = (c ∷ []) ∷ []
start_piece separator c (piece ∷ pieces) =
    if c == separator then [] ∷ piece ∷ pieces else (c ∷ piece) ∷ pieces

-- `strings.Split` by one byte.
unfoldable pub split_on : ℕ → Bytes → List Bytes
unfolding start_piece
split_on separator [] = [] ∷ []
split_on separator (c ∷ s) = start_piece separator c (split_on separator s)

-- `strings.Join`.
unfoldable pub join_with : Bytes → List Bytes → Bytes
join_with separator [] = []
join_with separator (piece ∷ []) = piece
join_with separator (piece ∷ next ∷ pieces) =
    piece ++ separator ++ join_with separator (next ∷ pieces)

cons_option : Option ℕ → Option (List ℕ) → Option (List ℕ)
cons_option (some d) (some ds) = some (d ∷ ds)
cons_option _ _ = none

-- The value of a letter of the URL alphabet.
sextet : ℕ → Option ℕ
sextet c =
    if leb b'A' c && leb c b'Z'
    then some (c - b'A')
    else if leb b'a' c && leb c b'z'
    then some (c - b'a' + 26)
    else if leb b'0' c && leb c b'9'
    then some (c - b'0' + 52)
    else if c == b'-'
    then some 62
    else if c == b'_'
    then some 63
    else none

-- Line ends between the letters are skipped.
sextets : Bytes → Option (List ℕ)
sextets [] = some []
sextets (c ∷ s) =
    let rest = sextets s in if c == 10 || c == 13 then rest else cons_option (sextet c) rest

-- Four letters are three bytes; the bits that are left over at the end are not looked at.
quanta : List ℕ → Option Bytes
quanta [] = some []
quanta (a ∷ []) = none
quanta (a ∷ b ∷ []) = some ((a * 4 + b / 16) ∷ [])
quanta (a ∷ b ∷ c ∷ []) = some ((a * 4 + b / 16) ∷ ((b % 16) * 16 + c / 4) ∷ [])
quanta (a ∷ b ∷ c ∷ d ∷ rest) = cons_option (some (a * 4 + b / 16)) (
    cons_option (some ((b % 16) * 16 + c / 4))
      (cons_option (some ((c % 4) * 64 + d)) (quanta rest)))

bind_list : Option (List ℕ) → (List ℕ → Option Bytes) → Option Bytes
bind_list none f = none
bind_list (some xs) f = f xs

unfoldable pub raw_url_decode : Bytes → Option Bytes
unfolding sextets sextet cons_option quanta bind_list
raw_url_decode s = bind_list (sextets s) quanta

hex_value : ℕ → Option ℕ
hex_value c =
    if leb b'0' c && leb c b'9'
    then some (c - b'0')
    else if leb b'a' c && leb c b'f'
    then some (c - b'a' + 10)
    else if leb b'A' c && leb c b'F'
    then some (c - b'A' + 10)
    else none

hex_pair : Option ℕ → Option ℕ → Option ℕ
hex_pair (some a) (some b) = some (16 * a + b)
hex_pair _ _ = none

unfoldable pub hex_decode : Bytes → Option Bytes
unfolding hex_value hex_pair cons_option
hex_decode [] = some []
hex_decode (a ∷ []) = none
hex_decode (a ∷ b ∷ s) = cons_option (hex_pair (hex_value a) (hex_value b)) (hex_decode s)

digits : ℕ → Bytes → Option ℕ
digits value [] = some value
digits value (c ∷ s) =
    let rest = digits (value * 10 + (c - b'0')) s in if leb b'0' c && leb c b'9' then rest else none

below_limit : Option ℕ → Option ℕ
below_limit none = none
below_limit (some n) = if n == 0 || leb 9223372036854775808 n then none else some n

-- `strconv.ParseInt(s, 10, 64)`; `none` is an error or a number that is not positive.
unfoldable pub parse_positive : Bytes → Option ℕ
unfolding digits below_limit
parse_positive [] = none
parse_positive (c ∷ []) = below_limit (digits 0 (c ∷ []))
parse_positive (c ∷ d ∷ s) =
    if c == b'+' then below_limit (digits 0 (d ∷ s)) else below_limit (digits 0 (c ∷ d ∷ s))
