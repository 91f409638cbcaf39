-- ===== src/Process/Paging.antt =====
-- What `Read` of internal/process/process.go gives, page after page.
use m3_repoworker.Prelude.{
  ℕ, zero, suc, ◌-◌, ◌≤◌, ◌<◌, ◌≡◌, refl, sym, ap, ◌∙◌, ◌||◌, true, false, ◌==◌, ltb, leb, List, [],
  ◌∷◌, ◌++◌, length, Option, none, some, if◌then◌else◌, arith, Bool-cases, inl, inr,
}
use m3_repoworker.Process.Output.{Chunk, Output, Lines, read_spill, read_memory, read_from, read}

-- All the chunks, those in the file first.
unfoldable pub all_of : Output → List Chunk
all_of p = elim p.spill [ none ↦ p.memory | some file ↦ file ++ p.memory ]

-- The chunks behind a cursor.
unfoldable pub later : ℕ → List Chunk → List Chunk
later after [] = []
later after (chunk ∷ chunks) =
    let rest = later after chunks in if ltb after chunk.cursor then chunk ∷ rest else rest

unfoldable pub first : ℕ → List Chunk → List Chunk
first zero chunks = []
first (suc n) [] = []
first (suc n) (chunk ∷ chunks) = chunk ∷ first n chunks

unfoldable pub beyond : ℕ → List Chunk → List Chunk
beyond zero chunks = chunks
beyond (suc n) [] = []
beyond (suc n) (chunk ∷ chunks) = beyond n chunks

append_assoc : (xs ys zs : List Chunk) → (xs ++ ys) ++ zs ≡ xs ++ (ys ++ zs)
append_assoc [] ys zs = refl
append_assoc (x ∷ xs) ys zs = ap (λ k. x ∷ k) (append_assoc xs ys zs)

pub append_nil : (xs : List Chunk) → xs ++ [] ≡ xs
append_nil [] = refl
append_nil (x ∷ xs) = ap (λ k. x ∷ k) (append_nil xs)

length_snoc : (xs : List Chunk) (x : Chunk) → length (xs ++ x ∷ []) ≡ suc (length xs)
length_snoc [] x = refl
length_snoc (y ∷ xs) x = omega (arith, length_snoc xs x)

later_append :
    (after : ℕ) (xs ys : List Chunk) → later after (xs ++ ys) ≡ later after xs ++ later after ys
unfolding later
later_append after [] ys = refl
later_append after (x ∷ xs) ys = elim (Bool-cases (ltb after x.cursor)) [
  | inl yes_later ↦ rw yes_later (ap (λ k. x ∷ k) (later_append after xs ys))
  | inr not_later ↦ rw not_later (later_append after xs ys)
]

-- The result after a chunk that is taken, and its room.
taken :
    (result rest : List Chunk) (x : Chunk) (limit : ℕ)
    → length result < limit
    → (result ++ x ∷ []) ++ first (limit - length (result ++ x ∷ [])) rest
      ≡ result ++ first (limit - length result) (x ∷ rest)
unfolding first
taken result rest x limit room =
    let size : limit - length result ≡ suc (limit - length (result ++ x ∷ [])) =
      omega (arith, room, length_snoc result x) in
    rw size (append_assoc result (x ∷ []) (first (limit - length (result ++ x ∷ [])) rest))

full :
    (result rest : List Chunk) (limit : ℕ)
    → limit ≤ length result
    → result ++ first (limit - length result) rest ≡ result
unfolding first
full result rest limit h =
    let size : limit - length result ≡ 0 = omega (arith, h) in rw size (append_nil result)

first_nil : (n : ℕ) → first n [] ≡ []
unfolding first
first_nil zero = refl
first_nil (suc n) = refl

read_memory-first :
    (after limit : ℕ) (memory result : List Chunk)
    → read_memory after limit memory result
      ≡ result ++ first (limit - length result) (later after memory)
unfolding read_memory later
read_memory-first after limit [] result =
    sym (ap (λ k. result ++ k) (first_nil (limit - length result)) ∙ append_nil result)
read_memory-first after limit (x ∷ xs) result = elim (Bool-cases (leb limit (length result))) [
  | inl enough ↦ rw enough (sym (full result _ limit (ground (arith, enough))))
  | inr room ↦ elim (Bool-cases (ltb after x.cursor)) [
    | inl fresh ↦ rw room (
        rw fresh (
          read_memory-first after limit xs (result ++ x ∷ [])
          ∙ taken result (later after xs) x limit (ground (arith, room))))
    | inr seen ↦ rw room (rw seen (read_memory-first after limit xs result))
  ]
]

in_range : (limit : ℕ) → 0 < limit → limit ≤ 1024 → (limit == 0 || ltb 1024 limit) ≡ false
in_range limit low high = ground (arith, low, high)

whole : (n : ℕ) (ys : List Chunk) → first (n - 0) ys ≡ first n ys
whole n ys = ap (λ k. first k ys) (omega arith)

first_append :
    (n : ℕ) (xs ys : List Chunk)
    → first n xs ++ first (n - length (first n xs)) ys ≡ first n (xs ++ ys)
unfolding first
first_append zero xs ys = whole zero ys ∙ refl
first_append (suc n) [] ys = whole (suc n) ys
first_append (suc n) (x ∷ xs) ys =
    let less : suc n - suc (length (first n xs)) ≡ n - length (first n xs) = omega arith in
    rw less (ap (λ k. x ∷ k) (first_append n xs ys))

module _ (lines : Lines) (through : (c : Chunk) → lines.through c ≡ c)
    (fits : (c : Chunk) → lines.fits c ≡ true) where
  read_spill-first :
      (after limit : ℕ) (file result : List Chunk)
      → read_spill lines after limit file result
        ≡ some (result ++ first (limit - length result) (later after file))
  unfolding read_spill later
  read_spill-first after limit [] result =
      ap (λ k. some k)
        (sym (ap (λ k. result ++ k) (first_nil (limit - length result)) ∙ append_nil result))
  read_spill-first after limit (x ∷ xs) result = rw (fits x) (
      rw (through x) (elim (Bool-cases (ltb (length result) limit)) [
        | inr enough ↦
            rw enough (ap (λ k. some k) (sym (full result _ limit (ground (arith, enough)))))
        | inl room ↦ elim (Bool-cases (ltb after x.cursor)) [
          | inl fresh ↦ rw room (
              rw fresh (
                read_spill-first after limit xs (result ++ x ∷ [])
                ∙ ap (λ k. some k) (taken result (later after xs) x limit (ground (arith, room)))))
          | inr seen ↦ rw room (rw seen (read_spill-first after limit xs result))
        ]
      ]))

  pub read-first :
      (after limit : ℕ) (p : Output)
      → 0 < limit
      → limit ≤ 1024
      → read lines true after limit p ≡ some (first limit (later after (all_of p)))
  unfolding read read_from all_of
  read-first after limit p low high = rw (in_range limit low high) (go p.spill)
    where
      go :
          (o : Option (List Chunk))
          → read_from lines true after limit p.memory o
            ≡ some (
                first limit
                  (later after (elim o [ none ↦ p.memory | some file ↦ file ++ p.memory ])))
      go none =
          ap (λ k. some k)
            (read_memory-first after limit p.memory [] ∙ whole limit (later after p.memory))
      go (some file) = rw (read_spill-first after limit file []) (
          rw (whole limit (later after file)) (
            ap (λ k. some k)
              (read_memory-first after limit p.memory (first limit (later after file))
                ∙ (first_append limit (later after file) (later after p.memory)
                    ∙ ap (λ k. first limit k) (sym (later_append after file p.memory))))))
