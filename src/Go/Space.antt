-- ===== src/Go/Space.antt =====
-- `strings.TrimSpace` and `strings.Fields` with the white space of Unicode, and `sort.Strings`, which is bytewise.
use mathlib.Core.List.{reverse}
use m3_repoworker.Prelude.{
  ℕ, Bool, true, false, ◌&&◌, ◌||◌, List, [], ◌∷◌, Bytes, leb, ltb, ◌==◌, if◌then◌else◌,
}

abbrev pub is_space : ℕ → Bool
is_space c = (leb 9 c && leb c 13) || c == b' '

abbrev is_space_two : ℕ → ℕ → Bool
is_space_two c d = c == 0xC2 && (d == 0x85 || d == 0xA0)

abbrev is_space_three : ℕ → ℕ → ℕ → Bool
is_space_three c d e =
    (c == 0xE1 && d == 0x9A && e == 0x80)
    || (c == 0xE2
        && d == 0x80
        && ((leb 0x80 e && leb e 0x8A) || e == 0xA8 || e == 0xA9 || e == 0xAF))
    || (c == 0xE2 && d == 0x81 && e == 0x9F)
    || (c == 0xE3 && d == 0x80 && e == 0x80)

-- The tests say which two and three bytes, in the order they are met, are one space.
drop_spaces : (ℕ → ℕ → Bool) → (ℕ → ℕ → ℕ → Bool) → Bytes → Bytes
drop_spaces two three [] = []
drop_spaces two three (c ∷ []) = if is_space c then [] else c ∷ []
drop_spaces two three (c ∷ d ∷ []) =
    let rest = drop_spaces two three (d ∷ []) in
    if is_space c then rest else if two c d then [] else c ∷ d ∷ []
drop_spaces two three (c ∷ d ∷ e ∷ s) =
    let after_one = drop_spaces two three (d ∷ e ∷ s) in
    let after_two = drop_spaces two three (e ∷ s) in
    let after_three = drop_spaces two three s in
    if is_space c
    then after_one
    else if two c d
    then after_two
    else if three c d e
    then after_three
    else c ∷ d ∷ e ∷ s

unfoldable pub trim_space : Bytes → Bytes
unfolding drop_spaces
trim_space s = reverse (
    drop_spaces (λ c d. is_space_two d c) (λ c d e. is_space_three e d c)
      (reverse (drop_spaces is_space_two is_space_three s)))

-- Go's `<` on strings.
unfoldable pub bytes_less : Bytes → Bytes → Bool
bytes_less s [] = false
bytes_less [] (d ∷ t) = true
bytes_less (c ∷ s) (d ∷ t) = ltb c d || (c == d && bytes_less s t)

insert_sorted : Bytes → List Bytes → List Bytes
insert_sorted s [] = s ∷ []
insert_sorted s (t ∷ ts) = if bytes_less s t then s ∷ t ∷ ts else t ∷ insert_sorted s ts

unfoldable pub sort_strings : List Bytes → List Bytes
unfolding insert_sorted bytes_less
sort_strings [] = []
sort_strings (s ∷ ss) = insert_sorted s (sort_strings ss)

push_byte : ℕ → List Bytes → List Bytes
push_byte c [] = (c ∷ []) ∷ []
push_byte c (piece ∷ pieces) = (c ∷ piece) ∷ pieces

-- The text between spaces, empty pieces included.
pieces : Bytes → List Bytes
pieces [] = [] ∷ []
pieces (c ∷ []) = if is_space c then [] ∷ [] ∷ [] else (c ∷ []) ∷ []
pieces (c ∷ d ∷ []) =
    let after_one = pieces (d ∷ []) in
    if is_space c
    then [] ∷ after_one
    else if is_space_two c d
    then [] ∷ [] ∷ []
    else push_byte c after_one
pieces (c ∷ d ∷ e ∷ s) =
    let after_one = pieces (d ∷ e ∷ s) in
    let after_two = pieces (e ∷ s) in
    let after_three = pieces s in
    if is_space c
    then [] ∷ after_one
    else if is_space_two c d
    then [] ∷ after_two
    else if is_space_three c d e
    then [] ∷ after_three
    else push_byte c after_one

drop_empty : List Bytes → List Bytes
drop_empty [] = []
drop_empty ([] ∷ pieces) = drop_empty pieces
drop_empty ((c ∷ piece) ∷ pieces) = (c ∷ piece) ∷ drop_empty pieces

-- `strings.Fields`.
unfoldable pub fields : Bytes → List Bytes
unfolding pieces push_byte drop_empty
fields s = drop_empty (pieces s)
