-- ===== src/Examples/IntegrationRuns.antt =====
-- The integration of one new file, finished and broken off.
use m3_repoworker.Prelude.{
  ◌≡◌, refl, true, false, List, [], ◌∷◌, Bytes, text, bytes_eq, none, some, lookup, insert,
  contains_any, has_prefix,
}
use m3_repoworker.Go.Filepath.{clean, elements, is_abs, rel, relative_elements}
use m3_repoworker.Go.Hex.{encode_to_string, hex_digit}
use m3_repoworker.Go.Order.{text_before}
use m3_repoworker.Workspace.Types.{missing, holds, written, is_written, after_write}
use m3_repoworker.Workspace.Checks.{
  active_state, valid_generation_id, valid_owner, path_within, path_of, lease_eq,
}
use m3_repoworker.Workspace.Generations.{matches, loaded_record, loaded_directory, load_generation}
use m3_repoworker.Workspace.Leases.{is_held, assert_loaded, assert_lease}
use m3_repoworker.Examples.WorkspaceData.{r, at, g, disk, old}
use m3_repoworker.Workspace.Integration.Plans.{
  Step, Plan, regular, Hash, create_operation, update_operation, delete_operation, known_operation,
  small_blob, valid_relative_path, digest_of, entry_state, file_state_at, valid_step, valid_steps,
  valid_plan,
}
use m3_repoworker.Workspace.Integration.Apply.{
  Journal, prepared, applying, committed, StepReads, has_digest, check_after, synced_after,
  write_file, apply_step, Live, commits, noted, commit, stepped, apply_steps, Opening, is_bytes,
  opened_journal, asserted, apply_integration,
}
use m3_repoworker.Workspace.Integration.Recovery.{RecoveryReads}

abbrev hash : Hash
hash content = content

abbrev file : Bytes
file = text "a"

abbrev step : Step
step = record {
  path = file;
  operation = text "create";
  before_digest = [];
  after_digest = text "090001a4";
  mode = 420;
  staged_blob = 9 ∷ [];
}

abbrev plan : Plan
plan = record {
  repository_id = text "i";
  source_filesystem = text "f";
  generation_id = g;
  lease_generation = 3;
  base_snapshot = text "b";
  candidate_snapshot = text "c";
  steps = step ∷ [];
  plan_digest = text "d";
}

abbrev opening : Opening
opening = record {
  asserts = at 10;
  disk = disk (holds old);
  digest = some (text "d");
  base = some (text "b");
  random = some (7 ∷ []);
  journal = written;
}

abbrev fine : StepReads
fine = record {
  readable = true;
  opened = true;
  prepared = true;
  renamed = true;
  synced = true;
  readable_after = true;
  left = none;
  dies = false;
  journal = written;
}

abbrev live : Live
live = record { tree = (text "b", regular [] 420) ∷ []; journal = missing }

abbrev written_tree : Live
written_tree = record {
  tree = (text "b", regular [] 420) ∷ (file, regular (9 ∷ []) 420) ∷ [];
  journal = missing;
}

abbrev first : Journal
first = record { id = text "journal_07"; state = text "PREPARED"; cursor = 0; plan = plan }

abbrev last : Journal
last = record { id = text "journal_07"; state = text "COMMITTED"; cursor = 1; plan = plan }

applied :
    apply_integration r hash opening (fine ∷ fine ∷ []) plan old live
    ≡ (commits last, record written_tree { journal = holds last })
unfolding apply_integration asserted assert_lease assert_loaded is_held lease_eq load_generation
    loaded_directory loaded_record matches valid_generation_id valid_owner path_within path_of
    active_state clean elements is_abs rel relative_elements is_bytes valid_plan valid_steps
    valid_step text_before valid_relative_path known_operation create_operation update_operation
    delete_operation small_blob opened_journal apply_steps stepped apply_step has_digest
    file_state_at entry_state digest_of encode_to_string hex_digit write_file synced_after
    check_after noted commit prepared applying committed is_written after_write lookup insert
    bytes_eq contains_any has_prefix
applied = refl

abbrev dying : StepReads
dying = record fine { dies = true }

abbrev again : List RecoveryReads
again =
    record { readable = true; write = written } ∷ record { readable = true; write = written } ∷ []
