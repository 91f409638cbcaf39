-- ===== src/Examples/WorkspaceData.antt =====
-- A disk with one generation, and its lease.
use m3_repoworker.Prelude.{ℕ, true, false, [], ◌∷◌, Bytes, text}
use m3_repoworker.Workspace.Types.{
  Lease, File, missing, holds, Directory, Disk, Repository, written, Reads,
}

abbrev pub r : Repository
r = record {
  root = text "/s";
  root_identity = text "i";
  filesystem_id = text "f";
  workspace_root = text "/w";
}

abbrev pub at : ℕ → Reads
at now = record {
  ctx = true;
  now = now;
  later = now;
  write = written;
  write_next = written;
  removed = true;
  removed_next = true;
  synced = true;
  lost_generation = false;
  lost_owner = false;
}

abbrev pub g : Bytes
g = text "gen_1"

abbrev pub directory : File Lease → Directory
directory lease = record {
  generation = holds (record {
    id = g;
    path = text "/w/gen_1";
    repository_id = text "i";
    source_filesystem = text "f";
    candidate_snapshot = text "c";
    fencing_generation = 0;
    state = text "ACTIVE";
    created_at = 1;
  });
  lease = lease;
  runtime_owner = missing;
  plain = true;
}

abbrev pub disk : File Lease → Disk
disk lease = record { directories = (g, directory lease) ∷ []; fence = holds 4; quarantine = [] }

abbrev pub lease : ℕ → ℕ → Lease
lease fence expires = record {
  generation_id = g;
  owner = text "o";
  fencing_generation = fence;
  expires_at = expires;
}

abbrev pub old : Lease
old = lease 3 20

abbrev pub owner : Bytes
owner = text "o"
