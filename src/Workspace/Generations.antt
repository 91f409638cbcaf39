-- ===== src/Workspace/Generations.antt =====
-- The generations of internal/workspace/workspace.go: loading, materializing, refreshing, discarding and
-- recovering them.
use m3_repoworker.Prelude.{
  ℕ, ◌&&◌, ◌||◌, not, Bool, true, false, List, [], ◌∷◌, ◌++◌, Bytes, text, bytes_eq, is_empty,
  has_prefix, Option, none, some, lookup, delete, if◌then◌else◌,
}
use m3_repoworker.Go.Hex.{encode_to_string}
use m3_repoworker.Workspace.Types.{
  rejected, lease_busy, canceled, Result, ok, err, Generation, Lease, File, missing, unreadable,
  holds, Directory, Disk, Repository, Outcome, Reads, is_written, after_write, put,
}
use m3_repoworker.Workspace.Checks.{
  active_state, valid_generation_id, path_within, path_of, well_formed,
}

-- What `loadGeneration` asks of the record in the directory's `.generation.json`.
unfoldable pub matches : Repository → Bytes → Generation → Bool
matches r id generation =
    bytes_eq generation.id id
    && bytes_eq generation.path (path_of r id)
    && bytes_eq generation.repository_id r.root_identity
    && bytes_eq generation.source_filesystem r.filesystem_id
    && bytes_eq generation.state active_state
    && not (is_empty generation.candidate_snapshot)

unfoldable pub loaded_record :
    Repository → Bytes → Directory → File Generation → Result (Generation × Directory)
loaded_record r id dir missing = err rejected
loaded_record r id dir unreadable = err rejected
loaded_record r id dir (holds generation) =
    if not (matches r id generation) || not dir.plain || path_within r.root (path_of r id)
    then err rejected
    else ok (generation, dir)

unfoldable pub loaded_directory :
    Repository → Bytes → Option Directory → Result (Generation × Directory)
loaded_directory r id none = err rejected
loaded_directory r id (some dir) = loaded_record r id dir dir.generation

-- `loadGeneration`, with the directory that it found.
unfoldable pub load_generation : Repository → Bytes → Disk → Result (Generation × Directory)
load_generation r id d =
    if not (valid_generation_id id)
    then err rejected
    else loaded_directory r id (lookup id d.directories)

-- What `Materialize` learns from the file system, Git and crypto/rand before it renames the copy.
pub record Materials : Type 0 where
  pub source : Option Bytes
  pub before : Option Bytes
  pub random : Option Bytes
  pub copied : Bool
  pub initialized : Bool
  pub source_again : Option Bytes
  pub after : Option Bytes
  pub renamed : Bool

-- `assertSource`, with the identity of the open root, which is `none` when it cannot be read.
unfoldable pub same_source : Repository → Option Bytes → Bool
same_source r none = false
same_source r (some identity) = bytes_eq identity r.filesystem_id

unfoldable pub same_snapshot : Bytes → Option Bytes → Bool
same_snapshot before none = false
same_snapshot before (some after) = bytes_eq before after

unfoldable pub fresh_generation : Repository → ℕ → Bytes → Bytes → Generation
fresh_generation r now id snapshot = record {
  id = id;
  path = path_of r id;
  repository_id = r.root_identity;
  source_filesystem = r.filesystem_id;
  candidate_snapshot = snapshot;
  fencing_generation = 0;
  state = active_state;
  created_at = now;
}

-- The copy under its final name, with the record that the write leaves in it.
unfoldable pub fresh_directory : Outcome → Generation → Directory
fresh_directory outcome generation = record {
  generation = after_write outcome generation missing;
  lease = missing;
  runtime_owner = missing;
  plain = true;
}

-- The rename of the finished copy, which does not replace a directory, and the record in it.
unfoldable pub place :
    Reads → Bool → Generation → Option Directory → Disk → Result Generation × Disk
place reads renamed generation (some dir) d = (err rejected, d)
place reads renamed generation none d = if not renamed then (err rejected, d) else (
  if not (is_written reads.write) || not reads.synced then err rejected else ok generation,
  put generation.id (fresh_directory reads.write generation) d,
)

unfoldable pub materialize_from :
    Repository → Reads → Materials → Option Bytes → Option Bytes → Disk → Result Generation × Disk
materialize_from r reads m none random d = (err rejected, d)
materialize_from r reads m (some before) none d = (err rejected, d)
materialize_from r reads m (some before) (some random) d =
    if not m.copied
      || not m.initialized
      || not (same_source r m.source_again)
      || not (same_snapshot before m.after)
    then (err rejected, d)
    else let id = text "gen_" ++ encode_to_string random in
      place reads m.renamed (fresh_generation r reads.now id before) (lookup id d.directories) d

-- `Materialize`. The temporary copy is gone again when it returns.
unfoldable pub materialize : Repository → Reads → Materials → Disk → Result Generation × Disk
materialize r reads m d =
    if not reads.ctx || not (same_source r m.source)
    then (err rejected, d)
    else materialize_from r reads m m.before m.random d

-- What a removal that fails midway leaves of a directory.
unfoldable pub half_removed : Reads → Directory → Directory
half_removed reads dir = record dir {
  generation = if reads.lost_generation then missing else dir.generation;
  runtime_owner = if reads.lost_owner then missing else dir.runtime_owner;
}

unfoldable pub half_put : Reads → Bytes → Option Directory → Disk → Disk
half_put reads id none d = d
half_put reads id (some dir) d = put id (half_removed reads dir) d

-- `DiscardGeneration` once the checks of its path have passed; `removed` says that the tree is gone.
unfoldable pub discard_found :
    Reads → Bytes → File Lease → Option Directory → Disk → Result (Unit {0}) × Disk
discard_found reads id missing dir d =
    if not reads.removed then (err rejected, half_put reads id dir d) else (
      if reads.synced then ok tt else err rejected,
      record d { directories = delete id d.directories },
    )
discard_found reads id unreadable dir d = (err lease_busy, d)
discard_found reads id (holds lease) dir d = (err lease_busy, d)

unfoldable pub lease_file : Option Directory → File Lease
lease_file none = missing
lease_file (some dir) = dir.lease

-- `DiscardGeneration`.
unfoldable pub discard_generation : Repository → Reads → Bytes → Disk → Result (Unit {0}) × Disk
discard_generation r reads id d =
    if not reads.ctx || not (valid_generation_id id) || path_within r.root (path_of r id)
    then (err rejected, d)
    else discard_found reads id (lease_file (lookup id d.directories)) (lookup id d.directories) d

-- `quarantineGeneration`: the move, which may fail, and the sync after it.
unfoldable pub quarantine_found : Reads → Bytes → Option Directory → Disk → Bool × Disk
quarantine_found reads id none d = (false, d)
quarantine_found reads id (some dir) d = if not reads.removed then (false, d) else (
  reads.synced,
  record d { directories = delete id d.directories; quarantine = (id, dir) ∷ d.quarantine },
)

unfoldable pub quarantine_generation : Reads → Bytes → Disk → Result (Unit {0}) × Disk
quarantine_generation reads id d =
    let (done, after) = quarantine_found reads id (lookup id d.directories) d in
    (if done then ok tt else err rejected, after)

-- The last steps of `Recover` for one directory: the runtime owner goes, and the directory is synced.
unfoldable pub forget_owner : Reads → Bytes → Directory → Disk → Result (Unit {0}) × Disk
forget_owner reads id dir d = if not reads.removed_next then (err rejected, d) else (
  if reads.synced then ok tt else err rejected,
  put id (record dir { runtime_owner = missing }) d,
)

-- `Recover` for one directory whose generation is in order.
unfoldable pub recover_lease :
    Reads → Bytes → Directory → File Lease → Disk → Result (Unit {0}) × Disk
recover_lease reads id dir missing d = forget_owner reads id dir d
recover_lease reads id dir unreadable d = quarantine_generation reads id d
recover_lease reads id dir (holds lease) d =
    if not (well_formed id lease)
    then quarantine_generation reads id d
    else if not reads.removed
    then (err rejected, d)
    else let freed : Directory = record dir { lease = missing } in
      forget_owner reads id freed (put id freed d)

unfoldable pub recover_loaded :
    Reads → Bytes → Result (Generation × Directory) → Disk → Result (Unit {0}) × Disk
recover_loaded reads id (err error) d = quarantine_generation reads id d
recover_loaded reads id (ok (generation, dir)) d = recover_lease reads id dir dir.lease d

-- The body of the loop of `Recover`, for one directory of the workspace root.
unfoldable pub recover_entry : Repository → Reads → Bytes → Disk → Result (Unit {0}) × Disk
recover_entry r reads name d =
    if not reads.ctx
    then (err canceled, d)
    else if has_prefix name (text ".tmp-")
    then quarantine_generation reads name d
    else if not (has_prefix name (text "gen_"))
    then (ok tt, d)
    else recover_loaded reads name (load_generation r name d) d

-- `Recover` over the directories that `os.ReadDir` lists, each with what it reads, and the last sync.
unfoldable pub recover : Repository → Bool → List (Bytes × Reads) → Disk → Result (Unit {0}) × Disk
recover r synced [] d = (if synced then ok tt else err rejected, d)
recover r synced ((name, reads) ∷ entries) d =
    let (result, after) = recover_entry r reads name d in
    elim result [ err error ↦ (err error, after) | ok _ ↦ recover r synced entries after ]
