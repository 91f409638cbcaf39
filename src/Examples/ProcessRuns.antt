-- ===== src/Examples/ProcessRuns.antt =====
-- Three reads of a process, of which the second does not fit in memory.
use m3_repoworker.Prelude.{◌≡◌, refl, ℕ, true, List, [], ◌∷◌, text, some}
use m3_repoworker.Process.Output.{
  Stream, stdout, stderr, Chunk, SpillReads, Lines, write_chunk, write_all, spill_chunk, is_spilled,
  append_chunk, read_spill, read_memory, read_from, read,
}
use m3_repoworker.Process.Whole.{Said, append_all, empty}

abbrev said : Said
said = (stdout, text "ab") ∷ (stderr, text "cde") ∷ (stdout, []) ∷ (stdout, text "f") ∷ []

abbrev good : SpillReads
good = record { created = true; wrote = λ c. true }

abbrev lines : Lines
lines = record { through = λ c. c; fits = λ c. true }

abbrev chunk : ℕ → Stream × List ℕ → Chunk
chunk cursor (stream, data_of) = record { cursor = cursor; stream = stream; data_of = data_of }

second_page :
    read lines true 2 2 (append_all good said (empty 3)) ≡ some (chunk 3 (stdout, text "f") ∷ [])
unfolding read read_from read_spill read_memory append_all append_chunk spill_chunk write_chunk
    write_all is_spilled
second_page = refl
