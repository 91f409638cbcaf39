-- ===== src/Workspace/Mutations.antt =====
-- The critical sections of internal/workspace/workspace.go that follow an `AssertLease`. The lock is free
-- between the two, so that other calls may come in between.
use m3_repoworker.Prelude.{
  ◌&&◌, ◌||◌, not, Bool, false, ◌==◌, Bytes, bytes_eq, is_empty, Option, none, some, if◌then◌else◌,
}
use m3_repoworker.Workspace.Types.{
  rejected, lease_busy, stale_fence, Result, ok, err, Generation, Lease, RuntimeOwner, File,
  missing, unreadable, holds, Directory, Disk, Repository, Reads, is_written, after_write, put,
}
use m3_repoworker.Workspace.Checks.{valid_owner}
use m3_repoworker.Workspace.Leases.{assert_lease}
use m3_repoworker.Workspace.Generations.{load_generation}

-- The rest of `RefreshGeneration`, with the snapshot of the directory, which may fail.
unfoldable pub refresh_snapshot :
    Reads → Generation → Directory → Option Bytes → Disk → Result Generation × Disk
refresh_snapshot reads loaded dir none d = (err rejected, d)
refresh_snapshot reads loaded dir (some snapshot) d =
    if is_empty snapshot
    then (err rejected, d)
    else let refreshed : Generation = record loaded { candidate_snapshot = snapshot } in
      (
        if is_written reads.write then ok refreshed else err rejected,
        put loaded.id (record dir { generation = after_write reads.write refreshed dir.generation })
            d,
      )

unfoldable pub refresh_loaded :
    Reads
    → Generation
    → Lease
    → Option Bytes
    → Result (Generation × Directory)
    → Disk
    → Result Generation × Disk
refresh_loaded reads generation lease snapshot (err error) d = (err stale_fence, d)
refresh_loaded reads generation lease snapshot (ok (loaded, dir)) d =
    if not (bytes_eq loaded.path generation.path)
      || not (bytes_eq lease.generation_id generation.id)
    then (err stale_fence, d)
    else refresh_snapshot reads loaded dir snapshot d

unfoldable pub refresh_locked :
    Repository → Reads → Generation → Lease → Option Bytes → Disk → Result Generation × Disk
refresh_locked r reads generation lease snapshot d =
    if not reads.ctx
    then (err rejected, d)
    else refresh_loaded reads generation lease snapshot (load_generation r generation.id d) d

unfoldable pub same_generation :
    Generation → Lease → Result (Generation × Directory) → Result (Unit {0})
same_generation generation lease (err error) = err stale_fence
same_generation generation lease (ok (loaded, dir)) =
    if not (bytes_eq loaded.path generation.path)
      || not (bytes_eq loaded.candidate_snapshot generation.candidate_snapshot)
      || not (bytes_eq lease.generation_id generation.id)
    then err stale_fence
    else ok tt

-- The rest of `AssertGeneration`.
unfoldable pub assert_generation_locked : Repository → Generation → Lease → Disk → Result (Unit {0})
assert_generation_locked r generation lease d =
    same_generation generation lease (load_generation r generation.id d)

unfoldable pub reserve_file :
    Reads → Lease → Bytes → Directory → File RuntimeOwner → Disk → Result (Unit {0}) × Disk
reserve_file reads lease owner dir (holds existing) d = (err lease_busy, d)
reserve_file reads lease owner dir unreadable d = (err rejected, d)
reserve_file reads lease owner dir missing d =
    let reserved : RuntimeOwner = record {
      owner = owner;
      fencing_generation = lease.fencing_generation;
      reserved_at = reads.now;
    } in
    (
      if is_written reads.write then ok tt else err rejected,
      put lease.generation_id
          (record dir { runtime_owner = after_write reads.write reserved dir.runtime_owner }) d,
    )

unfoldable pub reserve_loaded :
    Reads → Lease → Bytes → Result (Generation × Directory) → Disk → Result (Unit {0}) × Disk
reserve_loaded reads lease owner (err error) d = (err error, d)
reserve_loaded reads lease owner (ok (loaded, dir)) d =
    reserve_file reads lease owner dir dir.runtime_owner d

-- The rest of `ReserveRuntime`; a write that fails gives the file system's error.
unfoldable pub reserve_locked : Repository → Reads → Lease → Bytes → Disk → Result (Unit {0}) × Disk
reserve_locked r reads lease owner d =
    reserve_loaded reads lease owner (load_generation r lease.generation_id d) d

-- Whether the file holds the owner's reservation under the lease's fence.
unfoldable pub is_reserved : Lease → Bytes → File RuntimeOwner → Bool
is_reserved lease owner missing = false
is_reserved lease owner unreadable = false
is_reserved lease owner (holds current) =
    bytes_eq current.owner owner && current.fencing_generation == lease.fencing_generation

unfoldable pub release_runtime_loaded :
    Reads → Lease → Bytes → Result (Generation × Directory) → Disk → Result (Unit {0}) × Disk
release_runtime_loaded reads lease owner (err error) d = (err error, d)
release_runtime_loaded reads lease owner (ok (loaded, dir)) d =
    if not (is_reserved lease owner dir.runtime_owner)
    then (err stale_fence, d)
    else if not reads.removed
    then (err rejected, d)
    else (
      if reads.synced then ok tt else err rejected,
      put lease.generation_id (record dir { runtime_owner = missing }) d,
    )

-- The rest of `ReleaseRuntime`.
unfoldable pub release_runtime_locked :
    Repository → Reads → Lease → Bytes → Disk → Result (Unit {0}) × Disk
release_runtime_locked r reads lease owner d =
    release_runtime_loaded reads lease owner (load_generation r lease.generation_id d) d

-- `AssertLease`, then the rest, by what the assertion answered. The first disk is the one that the
-- assertion saw, and the last the one that the second critical section finds.
unfoldable pub after_assert :
    {R : Type 0} → Result (Unit {0}) → Result R × Disk → Disk → Result R × Disk
after_assert (err error) rest d = (err error, d)
after_assert (ok _) rest d = rest

-- `RefreshGeneration`.
unfoldable pub refresh_generation :
    Repository → Reads → Generation → Lease → Option Bytes → Disk → Disk → Result Generation × Disk
refresh_generation r reads generation lease snapshot seen d =
    after_assert (assert_lease r reads lease seen)
      (refresh_locked r reads generation lease snapshot d) d

-- `AssertGeneration`, which changes nothing.
unfoldable pub assert_generation :
    Repository → Reads → Generation → Lease → Disk → Disk → Result (Unit {0})
assert_generation r reads generation lease seen d =
    (after_assert (assert_lease r reads lease seen)
      (assert_generation_locked r generation lease d, d) d).0

-- `ReserveRuntime`.
unfoldable pub reserve_runtime :
    Repository → Reads → Lease → Bytes → Disk → Disk → Result (Unit {0}) × Disk
reserve_runtime r reads lease owner seen d =
    after_assert (assert_lease r reads lease seen)
      (if not (valid_owner owner) then (err rejected, d) else reserve_locked r reads lease owner d)
      d

-- `ReleaseRuntime`.
unfoldable pub release_runtime :
    Repository → Reads → Lease → Bytes → Disk → Disk → Result (Unit {0}) × Disk
release_runtime r reads lease owner seen d =
    after_assert (assert_lease r reads lease seen)
      (if not (valid_owner owner)
        then (err rejected, d)
        else release_runtime_locked r reads lease owner d)
      d
