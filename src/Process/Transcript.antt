-- ===== src/Process/Transcript.antt =====
-- That a client of internal/process/process.go who reads page after page gets the whole output.
use m3_repoworker.Prelude.{
  ℕ, zero, suc, ◌≤◌, ◌<◌, ◌≡◌, refl, sym, subst, ap, ◌∙◌, true, false, ltb, List, [], ◌∷◌, ◌++◌,
  length, Option, none, some, arith,
}
use m3_repoworker.Process.Output.{Chunk, Output, Lines, read}
use m3_repoworker.Process.Paging.{all_of, later, first, beyond, read-first}

-- The chunks have the cursors that follow one another from a first one on.
abbrev pub IsNumbered : ℕ → List Chunk → Type 0
IsNumbered n [] = Unit
IsNumbered n (chunk ∷ chunks) = (chunk.cursor ≡ n) × IsNumbered (suc n) chunks

-- The cursor of the last chunk of a page.
unfoldable pub last_cursor : ℕ → List Chunk → ℕ
last_cursor after [] = after
last_cursor after (chunk ∷ chunks) = last_cursor chunk.cursor chunks

-- A client asks for page after page, each behind the last cursor of the one before, until one is empty.
unfoldable pub pages : ℕ → Lines → ℕ → ℕ → Output → Option (List Chunk)
pages zero lines limit after p = some []
pages (suc n) lines limit after p = elim (read lines true after limit p) [
  | none ↦ none
  | some [] ↦ some []
  | some (chunk ∷ chunks) ↦ elim (pages n lines limit (last_cursor after (chunk ∷ chunks)) p) [
    | none ↦ none
    | some rest ↦ some (chunk ∷ chunks ++ rest)
  ]
]

later_later : (a b : ℕ) (xs : List Chunk) → a ≤ b → later b (later a xs) ≡ later b xs
unfolding later
later_later a b [] h = refl
later_later a b (x ∷ xs) h = ground (arith, later_later a b xs h)

pub later_all : (a n : ℕ) (xs : List Chunk) → a < n → IsNumbered n xs → later a xs ≡ xs
unfolding later
later_all a n [] h k = refl
later_all a n (x ∷ xs) h k =
    let fresh : ltb a x.cursor ≡ true = ground (arith, h, k.0) in
    rw fresh (ap (λ r. x ∷ r) (later_all a (suc n) xs (omega (arith, h)) k.1))

last_le : (a l : ℕ) (xs : List Chunk) → IsNumbered (suc a) xs → a ≤ last_cursor a (first l xs)
unfolding first last_cursor
last_le a zero xs h = omega arith
last_le a (suc l) [] h = omega arith
last_le a (suc l) (x ∷ xs) h =
    subst (λ c. a ≤ last_cursor c (first l xs)) (sym h.0) (omega (arith, last_le (suc a) l xs h.1))

later_last :
    (a l : ℕ) (xs : List Chunk)
    → IsNumbered (suc a) xs
    → later (last_cursor a (first l xs)) xs ≡ beyond l xs
unfolding first last_cursor later beyond
later_last a zero xs h = later_all a (suc a) xs (omega arith) h
later_last a (suc l) [] h = refl
later_last a (suc l) (x ∷ xs) h =
    let past : ltb (last_cursor x.cursor (first l xs)) x.cursor ≡ false =
      subst (λ c. ltb (last_cursor c (first l xs)) c ≡ false) (sym h.0)
        (not_before (last_le (suc a) l xs h.1)) in
    rw past (
      subst (λ c. later (last_cursor c (first l xs)) xs ≡ beyond l xs) (sym h.0)
        (later_last (suc a) l xs h.1))
  where
    not_before : {m n : ℕ} → m ≤ n → ltb n m ≡ false
    not_before k = ground (arith, k)

beyond-IsNumbered :
    (a l : ℕ) (xs : List Chunk)
    → IsNumbered (suc a) xs
    → IsNumbered (suc (last_cursor a (first l xs))) (beyond l xs)
unfolding first last_cursor beyond
beyond-IsNumbered a zero xs h = h
beyond-IsNumbered a (suc l) [] h = tt
beyond-IsNumbered a (suc l) (x ∷ xs) h =
    subst (λ c. IsNumbered (suc (last_cursor c (first l xs))) (beyond l xs)) (sym h.0)
      (beyond-IsNumbered (suc a) l xs h.1)

length-beyond : (l : ℕ) (xs : List Chunk) → length (beyond l xs) ≤ length xs
unfolding beyond
length-beyond zero xs = omega arith
length-beyond (suc l) [] = omega arith
length-beyond (suc l) (x ∷ xs) = omega (arith, length-beyond l xs)

first_beyond : (l : ℕ) (xs : List Chunk) → first l xs ++ beyond l xs ≡ xs
unfolding first beyond
first_beyond zero xs = refl
first_beyond (suc l) [] = refl
first_beyond (suc l) (x ∷ xs) = ap (λ k. x ∷ k) (first_beyond l xs)

module _ (lines : Lines) (limit : ℕ) (p : Output) where
  last_page :
      (n after : ℕ)
      → read lines true after limit p ≡ some []
      → pages (suc n) lines limit after p ≡ some []
  unfolding pages
  last_page n after h = rw (h, pages) refl

  next_page :
      (n after : ℕ) (c : Chunk) (cs rest : List Chunk)
      → read lines true after limit p ≡ some (c ∷ cs)
      → pages n lines limit (last_cursor after (c ∷ cs)) p ≡ some rest
      → pages (suc n) lines limit after p ≡ some (c ∷ cs ++ rest)
  unfolding pages
  next_page n after c cs rest h k = rw (h, k, pages) refl

module _ (lines : Lines) (through : (c : Chunk) → lines.through c ≡ c)
    (fits : (c : Chunk) → lines.fits c ≡ true) where
  pub pages_rest :
      (n after l : ℕ) (p : Output) (rest : List Chunk)
      → suc l ≤ 1024
      → later after (all_of p) ≡ rest
      → IsNumbered (suc after) rest
      → length rest < n
      → pages n lines (suc l) after p ≡ some rest
  unfolding first beyond
  pages_rest zero after l p rest high is numbered few = absurd (omega (arith, few))
  pages_rest (suc n) after l p [] high is numbered few = last_page lines (suc l) p n after (
      read-first lines through fits after (suc l) p (omega arith) high
      ∙ ap (λ k. some (first (suc l) k)) is)
  pages_rest (suc n) after l p (x ∷ xs) high is numbered few =
      let page =
        read-first lines through fits after (suc l) p (omega arith) high
        ∙ ap (λ k. some (first (suc l) k)) is in
      let b = last_cursor after (first (suc l) (x ∷ xs)) in
      let behind : later b (all_of p) ≡ beyond l xs =
        sym (later_later after b (all_of p) (last_le after (suc l) (x ∷ xs) numbered))
        ∙ (ap (λ k. later b k) is ∙ later_last after (suc l) (x ∷ xs) numbered) in
      let on =
        pages_rest n b l p (beyond l xs) high behind
          (beyond-IsNumbered after (suc l) (x ∷ xs) numbered)
          (omega (arith, few, length-beyond l xs)) in
      next_page lines (suc l) p n after x (first l xs) (beyond l xs) page on
      ∙ ap (λ k. some (x ∷ k)) (first_beyond l xs)
