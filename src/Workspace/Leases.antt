-- ===== src/Workspace/Leases.antt =====
-- The leases of internal/workspace/workspace.go and what they fence: one function per critical section.
use m3_repoworker.Prelude.{ℕ, suc, ◌+◌, ◌||◌, not, Bool, false, ltb, leb, Bytes, if◌then◌else◌}
use m3_repoworker.Workspace.Types.{
  rejected, lease_busy, stale_fence, Result, ok, err, Generation, Lease, File, missing, unreadable,
  holds, Directory, Disk, Repository, Reads, is_written, after_write, put,
}
use m3_repoworker.Workspace.Checks.{
  quarantined_state, valid_generation_id, valid_owner, valid_ttl, well_formed, lease_eq,
}
use m3_repoworker.Workspace.Generations.{load_generation}

abbrev pub max_fence : ℕ
max_fence = 18446744073709551615

-- `nextFence` from the number in the file.
unfoldable pub bump : Reads → ℕ → Disk → Result ℕ × Disk
bump reads current d = if leb max_fence current then (err rejected, d) else (
  if is_written reads.write then ok (suc current) else err rejected,
  record d { fence = after_write reads.write (suc current) d.fence },
)

unfoldable pub bump_file : Reads → File ℕ → Disk → Result ℕ × Disk
bump_file reads missing d = bump reads 0 d
bump_file reads unreadable d = (err rejected, d)
bump_file reads (holds current) d = bump reads current d

-- `nextFence`.
unfoldable pub next_fence : Reads → Disk → Result ℕ × Disk
next_fence reads d = bump_file reads d.fence d

-- The lease is written into the directory that was loaded before.
unfoldable pub grant : Reads → Bytes → Bytes → ℕ → Directory → Result ℕ × Disk → Result Lease × Disk
grant reads id owner ttl dir (err error, d) = (err rejected, d)
grant reads id owner ttl dir (ok fence, d) =
    let lease : Lease = record {
      generation_id = id;
      owner = owner;
      fencing_generation = fence;
      expires_at = reads.later + ttl;
    } in
    (
      if is_written reads.write_next then ok lease else err rejected,
      put id (record dir { lease = after_write reads.write_next lease dir.lease }) d,
    )

-- `AcquireLease` by the lease file. An expired lease retires the generation.
unfoldable pub acquire_file :
    Reads → Bytes → Bytes → ℕ → Generation → Directory → File Lease → Disk → Result Lease × Disk
acquire_file reads id owner ttl generation dir missing d =
    grant reads id owner ttl dir (next_fence reads d)
acquire_file reads id owner ttl generation dir unreadable d = (err rejected, d)
acquire_file reads id owner ttl generation dir (holds existing) d =
    if ltb reads.now existing.expires_at
    then (err lease_busy, d)
    else let retired : Generation = record generation { state = quarantined_state } in
      (
        if is_written reads.write then err stale_fence else err rejected,
        put id (record dir { generation = after_write reads.write retired dir.generation }) d,
      )

unfoldable pub acquire_loaded :
    Reads → Bytes → Bytes → ℕ → Result (Generation × Directory) → Disk → Result Lease × Disk
acquire_loaded reads id owner ttl (err error) d = (err error, d)
acquire_loaded reads id owner ttl (ok (generation, dir)) d =
    acquire_file reads id owner ttl generation dir dir.lease d

-- `AcquireLease`.
unfoldable pub acquire_lease : Repository → Reads → Bytes → Bytes → ℕ → Disk → Result Lease × Disk
acquire_lease r reads id owner ttl d =
    if not reads.ctx || not (valid_owner owner) || not (valid_ttl ttl)
    then (err rejected, d)
    else acquire_loaded reads id owner ttl (load_generation r id d) d

-- Whether the file holds the very lease.
unfoldable pub is_held : Lease → File Lease → Bool
is_held lease missing = false
is_held lease unreadable = false
is_held lease (holds current) = lease_eq current lease

unfoldable pub renew_loaded :
    Reads → Lease → ℕ → Result (Generation × Directory) → Disk → Result Lease × Disk
renew_loaded reads lease ttl (err error) d = (err error, d)
renew_loaded reads lease ttl (ok (generation, dir)) d =
    if not (is_held lease dir.lease) || not (ltb reads.now lease.expires_at)
    then (err stale_fence, d)
    else let renewed : Lease = record lease { expires_at = reads.later + ttl } in
      (
        if is_written reads.write then ok renewed else err rejected,
        put lease.generation_id (record dir { lease = after_write reads.write renewed dir.lease })
            d,
      )

-- `RenewLease`; a lease that the file holds has the file's expiry.
unfoldable pub renew_lease : Repository → Reads → Lease → ℕ → Disk → Result Lease × Disk
renew_lease r reads lease ttl d =
    if not reads.ctx
      || not (valid_owner lease.owner)
      || not (valid_generation_id lease.generation_id)
      || not (valid_ttl ttl)
    then (err rejected, d)
    else renew_loaded reads lease ttl (load_generation r lease.generation_id d) d

unfoldable pub release_loaded :
    Reads → Lease → Result (Generation × Directory) → Disk → Result (Unit {0}) × Disk
release_loaded reads lease (err error) d = (err error, d)
release_loaded reads lease (ok (generation, dir)) d =
    if not (is_held lease dir.lease)
    then (err stale_fence, d)
    else if not reads.removed
    then (err rejected, d)
    else (
      if reads.synced then ok tt else err rejected,
      put lease.generation_id (record dir { lease = missing }) d,
    )

-- `ReleaseLease`.
unfoldable pub release_lease : Repository → Reads → Lease → Disk → Result (Unit {0}) × Disk
release_lease r reads lease d =
    if not reads.ctx
      || not (valid_owner lease.owner)
      || not (valid_generation_id lease.generation_id)
    then (err rejected, d)
    else release_loaded reads lease (load_generation r lease.generation_id d) d

unfoldable pub assert_loaded : Reads → Lease → Result (Generation × Directory) → Result (Unit {0})
assert_loaded reads lease (err error) = err error
assert_loaded reads lease (ok (generation, dir)) =
    if not (is_held lease dir.lease)
    then err stale_fence
    else if not (ltb reads.now lease.expires_at)
    then err stale_fence
    else ok tt

-- `AssertLease`, which changes nothing.
unfoldable pub assert_lease : Repository → Reads → Lease → Disk → Result (Unit {0})
assert_lease r reads lease d =
    if not reads.ctx
      || not (valid_generation_id lease.generation_id)
      || not (valid_owner lease.owner)
    then err rejected
    else assert_loaded reads lease (load_generation r lease.generation_id d)

-- `CurrentLease`.
unfoldable pub current_file : Bytes → File Lease → Result Lease
current_file id missing = err rejected
current_file id unreadable = err rejected
current_file id (holds lease) = if not (well_formed id lease) then err rejected else ok lease

unfoldable pub current_loaded : Bytes → Result (Generation × Directory) → Result Lease
current_loaded id (err error) = err error
current_loaded id (ok (generation, dir)) = current_file id dir.lease

unfoldable pub current_lease : Repository → Reads → Bytes → Disk → Result Lease
current_lease r reads id d =
    if not reads.ctx then err rejected else current_loaded id (load_generation r id d)
