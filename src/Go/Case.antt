-- ===== src/Go/Case.antt =====
-- `strings.ToLower` and `strings.ToUpper`, read for what an ASCII needle can find in the result: ASCII
-- letters are mapped, and so are the four other code points whose image is an ASCII letter (U+212A
-- and U+0130 below, U+0131 and U+017F above). Every other code point stands for its own image,
-- which holds no ASCII byte either way.
use m3_repoworker.Prelude.{ℕ, ◌+◌, ◌-◌, [], ◌∷◌, Bytes, leb, ◌==◌, ◌&&◌, if◌then◌else◌}

abbrev lower_byte : ℕ → ℕ
lower_byte c = if leb b'A' c && leb c b'Z' then c + 32 else c

abbrev upper_byte : ℕ → ℕ
upper_byte c = if leb b'a' c && leb c b'z' then c - 32 else c

unfoldable pub to_lower : Bytes → Bytes
to_lower [] = []
to_lower (c ∷ []) = lower_byte c ∷ []
to_lower (c ∷ d ∷ []) =
    if c == 0xC4 && d == 0xB0 then b'i' ∷ [] else lower_byte c ∷ lower_byte d ∷ []
to_lower (c ∷ d ∷ e ∷ s) =
    let kelvin = b'k' ∷ to_lower s in
    let dotted = b'i' ∷ to_lower (e ∷ s) in
    let plain = lower_byte c ∷ to_lower (d ∷ e ∷ s) in
    if c == 0xE2 && d == 0x84 && e == 0xAA
    then kelvin
    else if c == 0xC4 && d == 0xB0
    then dotted
    else plain

unfoldable pub to_upper : Bytes → Bytes
to_upper [] = []
to_upper (c ∷ []) = upper_byte c ∷ []
to_upper (c ∷ d ∷ s) =
    let dotless = b'I' ∷ to_upper s in
    let long_s = b'S' ∷ to_upper s in
    let plain = upper_byte c ∷ to_upper (d ∷ s) in
    if c == 0xC4 && d == 0xB1 then dotless else if c == 0xC5 && d == 0xBF then long_s else plain
