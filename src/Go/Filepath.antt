-- ===== src/Go/Filepath.antt =====
-- path/filepath on Unix, where paths are bytes separated by `/`: `IsAbs`, `Clean`, `Base`, and `Rel`
-- of two absolute paths, which never fails.
use m3_repoworker.Prelude.{
  Bool, false, ◌||◌, not, List, [], ◌∷◌, ◌++◌, map, Bytes, ◌==◌, bytes_eq, is_empty, if◌then◌else◌,
}

unfoldable pub is_abs : Bytes → Bool
is_abs [] = false
is_abs (c ∷ s) = c == b'/'

-- The pieces between separators, empty ones included.
unfoldable pub split : Bytes → List Bytes
split [] = [] ∷ []
split (c ∷ s) = elim (split s) [
  | [] ↦ (c ∷ []) ∷ []
  | w ∷ ws ↦ if c == b'/' then [] ∷ w ∷ ws else (c ∷ w) ∷ ws
]

unfoldable pub join : List Bytes → Bytes
join [] = []
join (w ∷ []) = w
join (w ∷ v ∷ ws) = w ++ b'/' ∷ join (v ∷ ws)

abbrev pub dot : Bytes
dot = b'.' ∷ []

abbrev pub dotdot : Bytes
dotdot = b'.' ∷ b'.' ∷ []

-- The elements kept so far, the last one first.
push : Bool → List Bytes → Bytes → List Bytes
push rooted kept w =
    if is_empty w || bytes_eq w dot
    then kept
    else if not (bytes_eq w dotdot)
    then w ∷ kept
    else elim kept [
      | [] ↦ if rooted then [] else w ∷ []
      | last ∷ before ↦ if bytes_eq last dotdot then w ∷ last ∷ before else before
    ]

reverse_onto : List Bytes → List Bytes → List Bytes
reverse_onto [] ws = ws
reverse_onto (k ∷ ks) ws = reverse_onto ks (k ∷ ws)

walk : Bool → List Bytes → List Bytes → List Bytes
unfolding push reverse_onto
walk rooted kept [] = reverse_onto kept []
walk rooted kept (w ∷ ws) = walk rooted (push rooted kept w) ws

-- The elements of the cleaned path.
unfoldable pub elements : Bytes → List Bytes
unfolding walk split
elements path = walk (is_abs path) [] (split path)

unfoldable pub clean : Bytes → Bytes
unfolding elements is_abs join
clean path =
    if is_abs path
    then b'/' ∷ join (elements path)
    else elim (elements path) [ [] ↦ dot | w ∷ ws ↦ join (w ∷ ws) ]

last_or : Bytes → List Bytes → Bytes
last_or d [] = d
last_or d (w ∷ ws) = last_or (if is_empty w then d else w) ws

-- The last element that is not empty; `/` where all are.
unfoldable pub base : Bytes → Bytes
unfolding last_or split
base path = elim path [ [] ↦ dot | c ∷ s ↦ last_or (b'/' ∷ []) (split (c ∷ s)) ]

-- Out of the elements of the base that are not shared, then into those of the target.
unfoldable pub relative_elements : List Bytes → List Bytes → List Bytes
relative_elements [] target = target
relative_elements (b ∷ bs) [] = dotdot ∷ map (λ _. dotdot) bs
relative_elements (b ∷ bs) (t ∷ ts) =
    let deeper = relative_elements bs ts in
    if bytes_eq b t then deeper else dotdot ∷ (map (λ _. dotdot) bs ++ t ∷ ts)

unfoldable pub rel : Bytes → Bytes → Bytes
unfolding relative_elements elements join clean
rel from target =
    if bytes_eq (clean from) (clean target)
    then dot
    else join (relative_elements (elements from) (elements target))
