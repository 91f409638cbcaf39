-- ===== src/Workspace/Types.antt =====
-- The values of internal/workspace/workspace.go, and the directory of workspaces as a map from names.
use m3_repoworker.Prelude.{ℕ, Bool, true, false, List, Bytes, Dict, insert}

pub data Error : Type 0 where
  rejected lease_busy stale_fence canceled : Error

pub data Result (A : Type 0) : Type 0 where
  ok : A → Result A
  err : Error → Result A

pub record Generation : Type 0 where
  pub id : Bytes
  pub path : Bytes
  pub repository_id : Bytes
  pub source_filesystem : Bytes
  pub candidate_snapshot : Bytes
  pub fencing_generation : ℕ
  pub state : Bytes
  pub created_at : ℕ

pub record Lease : Type 0 where
  pub generation_id : Bytes
  pub owner : Bytes
  pub fencing_generation : ℕ
  pub expires_at : ℕ

pub record RuntimeOwner : Type 0 where
  pub owner : Bytes
  pub fencing_generation : ℕ
  pub reserved_at : ℕ

-- A file as its reader finds it: not there, not the JSON text that is asked for, or a value.
pub data File (A : Type 0) : Type 0 where
  missing unreadable : File A
  holds : A → File A

-- A workspace's directory with its three metadata files. `plain` says that the path is a directory and
-- no symbolic link stands in it.
pub record Directory : Type 0 where
  pub generation : File Generation
  pub lease : File Lease
  pub runtime_owner : File RuntimeOwner
  pub plain : Bool

-- The workspace root: the directories by name, the `.fence` file with the number in it, and the
-- directories in quarantine.
pub record Disk : Type 0 where
  pub directories : Dict Directory
  pub fence : File ℕ
  pub quarantine : List (Bytes × Directory)

-- The fields of `Repository` that do not change while it is open.
pub record Repository : Type 0 where
  pub root : Bytes
  pub root_identity : Bytes
  pub filesystem_id : Bytes
  pub workspace_root : Bytes

-- How an atomic write ends. The third is the failure of the sync that follows the rename.
pub data Outcome : Type 0 where
  written unchanged unsynced : Outcome

-- What one critical section reads besides the disk: the context, the clock in turn, how writes and
-- removals end.
pub record Reads : Type 0 where
  pub ctx : Bool
  pub now : ℕ
  pub later : ℕ
  pub write : Outcome
  pub write_next : Outcome
  pub removed : Bool
  pub removed_next : Bool
  pub synced : Bool
  -- What a failed removal of a whole directory has taken along.
  pub lost_generation : Bool
  pub lost_owner : Bool

unfoldable pub is_written : Outcome → Bool
is_written written = true
is_written unchanged = false
is_written unsynced = false

-- The file after a write of `value`.
unfoldable pub after_write : {A : Type 0} → Outcome → A → File A → File A
after_write written value file = holds value
after_write unchanged value file = file
after_write unsynced value file = holds value

-- The disk with a directory in place.
unfoldable pub put : Bytes → Directory → Disk → Disk
put id dir d = record d { directories = insert id dir d.directories }
