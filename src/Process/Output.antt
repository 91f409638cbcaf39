-- ===== src/Process/Output.antt =====
-- The output buffer of internal/process/process.go, in memory up to a limit and in a file from then on.
use m3_repoworker.Prelude.{
  ℕ, suc, ◌+◌, ◌||◌, not, Bool, true, false, ◌==◌, ltb, leb, List, [], ◌∷◌, ◌++◌, length, Bytes,
  is_empty, Option, none, some, if◌then◌else◌,
}

pub data Stream : Type 0 where
  stdout stderr pty : Stream

pub record Chunk : Type 0 where
  pub cursor : ℕ
  pub stream : Stream
  pub data_of : Bytes

-- The fields of `Process` that hold output. `spill` is the chunks in the file, where there is one.
pub record Output : Type 0 where
  pub next : ℕ
  pub memory : List Chunk
  pub memory_bytes : ℕ
  pub memory_limit : ℕ
  pub spill : Option (List Chunk)
  pub truncated : Bool

-- A chunk as it comes back out of the file, and whether its line is short enough for the scanner.
pub record Lines : Type 0 where
  pub through : Chunk → Chunk
  pub fits : Chunk → Bool

-- How the file behaves in one call: whether it can be created, and whether each line is written.
pub record SpillReads : Type 0 where
  pub created : Bool
  pub wrote : Chunk → Bool

-- `writeChunk`, whose error is ignored.
unfoldable pub write_chunk : SpillReads → Chunk → List Chunk → List Chunk
write_chunk reads chunk file = if reads.wrote chunk then file ++ chunk ∷ [] else file

unfoldable pub write_all : SpillReads → List Chunk → List Chunk → List Chunk
write_all reads [] file = file
write_all reads (chunk ∷ chunks) file = write_all reads chunks (write_chunk reads chunk file)

-- `appendChunk` in front of its last lines, when there is no room in memory.
unfoldable pub spill_chunk : SpillReads → Chunk → Output → Option (List Chunk) → Output
spill_chunk reads chunk p (some file) = record p { spill = some (write_chunk reads chunk file) }
spill_chunk reads chunk p none =
    if not reads.created then record p { truncated = true } else record p {
      spill = some (write_chunk reads chunk (write_all reads p.memory []));
      memory = [];
      memory_bytes = 0;
    }

unfoldable pub is_spilled : Option (List Chunk) → Bool
is_spilled none = false
is_spilled (some file) = true

-- `appendChunk`.
unfoldable pub append_chunk : SpillReads → Stream → Bytes → Output → Output
append_chunk reads stream content p =
    let chunk : Chunk = record { cursor = suc p.next; stream = stream; data_of = content } in
    let counted : Output = record p { next = suc p.next } in
    if is_empty content
    then p
    else if is_spilled p.spill || ltb p.memory_limit (p.memory_bytes + length content)
    then spill_chunk reads chunk counted p.spill
    else record counted {
      memory = p.memory ++ chunk ∷ [];
      memory_bytes = p.memory_bytes + length content;
    }

-- The loop of `Read` over the file, with the result so far; `none` is an error. A line is scanned before the
-- length of the result is tested.
unfoldable pub read_spill : Lines → ℕ → ℕ → List Chunk → List Chunk → Option (List Chunk)
read_spill lines after limit [] result = some result
read_spill lines after limit (line ∷ file) result =
    let chunk = lines.through line in
    let skipped = read_spill lines after limit file result in
    let taken = read_spill lines after limit file (result ++ chunk ∷ []) in
    if not (lines.fits line)
    then none
    else if not (ltb (length result) limit)
    then some result
    else if ltb after chunk.cursor
    then taken
    else skipped

-- The loop of `Read` over the memory.
unfoldable pub read_memory : ℕ → ℕ → List Chunk → List Chunk → List Chunk
read_memory after limit [] result = result
read_memory after limit (chunk ∷ memory) result =
    let skipped = read_memory after limit memory result in
    let taken = read_memory after limit memory (result ++ chunk ∷ []) in
    if leb limit (length result) then result else if ltb after chunk.cursor then taken else skipped

-- `Read` by the file; `opened` says that it can be opened.
unfoldable pub read_from :
    Lines → Bool → ℕ → ℕ → List Chunk → Option (List Chunk) → Option (List Chunk)
read_from lines opened after limit memory none = some (read_memory after limit memory [])
read_from lines opened after limit memory (some file) =
    if not opened then none else elim (read_spill lines after limit file []) [
      | none ↦ none
      | some result ↦ some (read_memory after limit memory result)
    ]

-- `Read`; an error is `none`.
unfoldable pub read : Lines → Bool → ℕ → ℕ → Output → Option (List Chunk)
read lines opened after limit p =
    if limit == 0 || ltb 1024 limit
    then none
    else read_from lines opened after limit p.memory p.spill
