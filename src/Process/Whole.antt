-- ===== src/Process/Whole.antt =====
-- That the buffer of internal/process/process.go keeps every chunk, in memory or in its file.
use m3_repoworker.Prelude.{
  ℕ, ◌≡◌, true, false, List, [], ◌∷◌, map, length, Bytes, is_empty, none, if◌then◌else◌,
}
use m3_repoworker.Process.Output.{Stream, Chunk, Output, SpillReads, is_spilled, append_chunk}
use m3_repoworker.Process.Paging.{all_of}
use m3_repoworker.Process.Transcript.{IsNumbered}

abbrev pub Said : Type 0
Said = List (Stream × Bytes)

abbrev pub content : Chunk → Stream × Bytes
content chunk = (chunk.stream, chunk.data_of)

-- What was read from the process, less the empty reads.
unfoldable pub spoken : Said → Said
spoken [] = []
spoken ((stream, data_of) ∷ said) =
    let rest = spoken said in if is_empty data_of then rest else (stream, data_of) ∷ rest

unfoldable pub append_all : SpillReads → Said → Output → Output
append_all reads [] p = p
append_all reads ((stream, data_of) ∷ said) p =
    append_all reads said (append_chunk reads stream data_of p)

abbrev pub empty : ℕ → Output
empty memory_limit = record {
  next = 0;
  memory = [];
  memory_bytes = 0;
  memory_limit = memory_limit;
  spill = none;
  truncated = false;
}

record IsWhole (said : Said) (p : Output) : Type 0 where
  pub contents : map content (all_of p) ≡ said
  pub numbered : IsNumbered 1 (all_of p)
  pub next : p.next ≡ length (all_of p)
  pub aside : is_spilled p.spill ≡ true → p.memory ≡ []
