-- ===== src/Go/Utf8.antt =====
-- `utf8.ValidString`: a scan with the table of unicode/utf8, one state for what must come next.
use m3_repoworker.Prelude.{
  ℕ, zero, suc, Bool, false, ◌&&◌, [], ◌∷◌, Option, none, some, Bytes, leb, ◌==◌, if◌then◌else◌,
  ltb,
}

-- How many continuation bytes are due, and the range of the next of them.
pub record Pending : Type 0 where
  pub more : ℕ
  pub low : ℕ
  pub high : ℕ

abbrev pub boundary : Pending
boundary = record { more = 0; low = 0; high = 0 }

abbrev expect : ℕ → ℕ → ℕ → Option Pending
expect more low high = some (record { more = more; low = low; high = high })

first_byte : ℕ → Option Pending
first_byte c =
    if ltb c 0x80
    then some boundary
    else if leb 0xC2 c && leb c 0xDF
    then expect 1 0x80 0xBF
    else if c == 0xE0
    then expect 2 0xA0 0xBF
    else if c == 0xED
    then expect 2 0x80 0x9F
    else if leb 0xE1 c && leb c 0xEF
    then expect 2 0x80 0xBF
    else if c == 0xF0
    then expect 3 0x90 0xBF
    else if leb 0xF1 c && leb c 0xF3
    then expect 3 0x80 0xBF
    else if c == 0xF4
    then expect 3 0x80 0x8F
    else none

next_byte : ℕ → ℕ → ℕ → ℕ → Option Pending
unfolding first_byte
next_byte zero low high c = first_byte c
next_byte (suc more) low high c =
    if leb low c && leb c high
    then (if more == 0 then some boundary else expect more 0x80 0xBF)
    else none

valid_from : Pending → Bytes → Bool
unfolding next_byte
valid_from p [] = p.more == 0
valid_from p (c ∷ s) = elim (next_byte p.more p.low p.high c) [
  | none ↦ false
  | some q ↦ valid_from q s
]

unfoldable pub valid_string : Bytes → Bool
unfolding valid_from
valid_string s = valid_from boundary s
