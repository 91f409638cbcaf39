-- ===== src/Workspace/Refines.antt =====
-- Every operation on leases changes the disk as the relation of Change allows.
use m3_repoworker.Prelude.{
  ◌≡◌, refl, sym, ap, subst, ℕ, suc, ◌+◌, Bool, true, ltb, leb, Bytes, bytes_eq_iff, some, lookup,
  if◌then◌else◌, arith, Bool-cases, inl, inr,
}
use m3_repoworker.Workspace.Types.{
  rejected, Result, ok, err, Generation, Lease, File, missing, unreadable, holds, Directory, Disk,
  Repository, Outcome, written, unchanged, unsynced, Reads, is_written, after_write, put,
}
use m3_repoworker.Workspace.Checks.{active_state, quarantined_state, lease_eq}
use m3_repoworker.Workspace.Generations.{load_generation}
use m3_repoworker.Workspace.Leases.{
  max_fence, bump, bump_file, next_fence, grant, acquire_file, acquire_loaded, acquire_lease,
  is_held, renew_loaded, renew_lease, release_loaded, release_lease,
}
use m3_repoworker.Workspace.Change.{
  fence_of, IsLive, Change, stays, and_then, counts, grants, renews, releases, rewrites,
}
use m3_repoworker.Workspace.Leads.{
  if_Change, Leads, leads, if_Leads, IsLoaded, load_generation-IsLoaded,
}

pub live_state : (g : Generation) → IsLive (holds g) → g.state ≡ active_state
live_state g live = ground (arith, live.1, live.2)

module _ {frees : Bool} where
  -- A write of the directory's lease that may not happen.
  pub lease-Change :
      (d : Disk) (id : Bytes) (dir : Directory) (lease : Lease) (o : Outcome)
      → lookup id d.directories ≡ some dir
      → Change frees d (put id (record dir { lease = holds lease }) d)
      → Change frees d (put id (record dir { lease = after_write o lease dir.lease }) d)
  unfolding after_write
  lease-Change d id dir lease written found h = h
  lease-Change d id dir lease unsynced found h = h
  lease-Change d id dir lease unchanged found h =
      rewrites id dir dir.generation dir.runtime_owner found (λ live. live)

  pub generation-Change :
      (d : Disk) (id : Bytes) (dir : Directory) (g : Generation) (o : Outcome)
      → lookup id d.directories ≡ some dir
      → (g.state ≡ active_state → IsLive dir.generation)
      → Change frees d (put id (record dir { generation = after_write o g dir.generation }) d)
  unfolding after_write
  generation-Change d id dir g written found h =
      rewrites id dir (holds g) dir.runtime_owner found (λ live. h (live_state g live))
  generation-Change d id dir g unsynced found h =
      rewrites id dir (holds g) dir.runtime_owner found (λ live. h (live_state g live))
  generation-Change d id dir g unchanged found h =
      rewrites id dir dir.generation dir.runtime_owner found (λ live. live)

  -- What `nextFence` answers is on the disk, and nothing else has changed.
  bump-Change :
      (reads : Reads) (n : ℕ) (d : Disk) → fence_of d.fence ≡ n → Change frees d (bump reads n d).1
  unfolding bump after_write
  bump-Change reads n d h =
      if_Change d (leb max_fence n) _ _ (λ full. stays) (λ room. counted reads.write)
    where
      counted : (o : Outcome) → Change frees d (record d { fence = after_write o (suc n) d.fence })
      counted written = subst (λ k. Change frees d (record d { fence = holds (suc k) })) h counts
      counted unsynced = subst (λ k. Change frees d (record d { fence = holds (suc k) })) h counts
      counted unchanged = stays

  next_fence-Change : (reads : Reads) (d : Disk) → Change frees d (next_fence reads d).1
  unfolding next_fence bump_file
  next_fence-Change reads d = go d.fence refl
    where
      go : (file : File ℕ) → d.fence ≡ file → Change frees d (bump_file reads file d).1
      go missing h = bump-Change reads 0 d (ap fence_of h)
      go unreadable h = stays
      go (holds n) h = bump-Change reads n d (ap fence_of h)

  -- `AcquireLease` after the fence.
  grant-Change :
      (reads : Reads) (id owner : Bytes) (ttl : ℕ) (dir : Directory) (d : Disk)
      (r : Result ℕ × Disk)
      → Change frees d r.1
      → ((f : ℕ) → r.0 ≡ ok f → (r.1.fence ≡ holds f) × (lookup id r.1.directories ≡ some dir))
      → dir.lease ≡ missing
      → Change frees d (grant reads id owner ttl dir r).1
  unfolding grant
  grant-Change reads id owner ttl dir d (err error, e) change facts free = change
  grant-Change reads id owner ttl dir d (ok f, e) change facts free =
      let lease : Lease = record {
        generation_id = id;
        owner = owner;
        fencing_generation = f;
        expires_at = reads.later + ttl;
      } in
      and_then change (
        lease-Change e id dir lease reads.write_next (facts f refl).1
          (grants id dir lease (facts f refl).1 free (facts f refl).0 refl))

written_fence :
    (o : Outcome) (n f : ℕ) (file : File ℕ)
    → (if is_written o then ok (suc n) else err rejected) ≡ ok f
    → after_write o (suc n) file ≡ holds f
unfolding is_written after_write
written_fence written n f file h = cc
written_fence unchanged n f file h = cc
written_fence unsynced n f file h = cc

bump_ok :
    (reads : Reads) (n f : ℕ) (d : Disk)
    → (bump reads n d).0 ≡ ok f
    → ((bump reads n d).1.fence ≡ holds f) × ((bump reads n d).1.directories ≡ d.directories)
unfolding bump
bump_ok reads n f d h = elim (Bool-cases (leb max_fence n)) [
  | inl full ↦ absurd (ground arith)
  | inr room ↦ rw room (written_fence reads.write n f d.fence (ground arith), refl)
]

pub next_fence_ok :
    (reads : Reads) (f : ℕ) (d : Disk)
    → (next_fence reads d).0 ≡ ok f
    → ((next_fence reads d).1.fence ≡ holds f)
      × ((next_fence reads d).1.directories ≡ d.directories)
unfolding next_fence bump_file
next_fence_ok reads f d h = go d.fence h
  where
    go :
        (file : File ℕ)
        → (bump_file reads file d).0 ≡ ok f
        → ((bump_file reads file d).1.fence ≡ holds f)
          × ((bump_file reads file d).1.directories ≡ d.directories)
    go missing h = bump_ok reads 0 f d h
    go unreadable h = cc
    go (holds n) h = bump_ok reads n f d h

pub held_lease :
    (lease : Lease) (file : File Lease)
    → is_held lease file ≡ true
    → (l : Lease) × (file ≡ holds l)
      × (lease.fencing_generation ≡ l.fencing_generation)
      × (lease.owner ≡ l.owner)
unfolding is_held lease_eq
held_lease lease missing h = cc
held_lease lease unreadable h = cc
held_lease lease (holds l) h =
    (l, refl, ground arith, ground (arith, bytes_eq_iff l.owner lease.owner))

module _ {frees : Bool} where
  acquire_file-Change :
      (reads : Reads) (id owner : Bytes) (ttl : ℕ) (g : Generation) (dir : Directory)
      (file : File Lease) (d : Disk)
      → IsLoaded id d g dir
      → dir.lease ≡ file
      → Change frees d (acquire_file reads id owner ttl g dir file d).1
  unfolding acquire_file
  acquire_file-Change reads id owner ttl g dir missing d h free =
      grant-Change reads id owner ttl dir d (next_fence reads d) (next_fence-Change reads d)
        (λ f e. (
          (next_fence_ok reads f d e).0,
          subst (λ m. lookup id m ≡ some dir) (sym ((next_fence_ok reads f d e).1)) h.found,
        ))
        free
  acquire_file-Change reads id owner ttl g dir unreadable d h free = stays
  acquire_file-Change reads id owner ttl g dir (holds lease) d h free =
      if_Change d (ltb reads.now lease.expires_at) _ _ (λ live. stays)
        (λ over.
          generation-Change d id dir (record g { state = quarantined_state }) reads.write h.found
            (λ active. (g, h.recorded, h.active)))

  acquire_loaded-Change :
      (r : Repository) (reads : Reads) (id owner : Bytes) (ttl : ℕ) (d : Disk)
      (x : Result (Generation × Directory))
      → load_generation r id d ≡ x
      → Change frees d (acquire_loaded reads id owner ttl x d).1
  unfolding acquire_loaded
  acquire_loaded-Change r reads id owner ttl d (err e) h = stays
  acquire_loaded-Change r reads id owner ttl d (ok (g, dir)) h =
      acquire_file-Change reads id owner ttl g dir dir.lease d
        (load_generation-IsLoaded r id d g dir h) refl

  pub acquire_lease-Change :
      (r : Repository) (reads : Reads) (id owner : Bytes) (ttl : ℕ) (d : Disk)
      → Change frees d (acquire_lease r reads id owner ttl d).1
  unfolding acquire_lease
  acquire_lease-Change r reads id owner ttl d =
      if_Change d _ _ _ (λ bad. stays) (λ good. acquire_loaded-Change r reads id owner ttl d _ refl)

  renew_loaded-Change :
      (r : Repository) (reads : Reads) (lease : Lease) (ttl : ℕ) (d : Disk)
      (x : Result (Generation × Directory))
      → load_generation r lease.generation_id d ≡ x
      → Change frees d (renew_loaded reads lease ttl x d).1
  unfolding renew_loaded
  renew_loaded-Change r reads lease ttl d (err e) h = stays
  renew_loaded-Change r reads lease ttl d (ok (g, dir)) h =
      let loaded = load_generation-IsLoaded r lease.generation_id d g dir h in
      if_Change d _ _ _ (λ stale. stays)
        (λ fine.
          let held = held_lease lease dir.lease (ground arith) in
          let renewed : Lease = record lease { expires_at = reads.later + ttl } in
          lease-Change d lease.generation_id dir renewed reads.write loaded.found
            (renews lease.generation_id dir held.0 renewed loaded.found held.1 held.2 held.3))

  pub renew_lease-Change :
      (r : Repository) (reads : Reads) (lease : Lease) (ttl : ℕ) (d : Disk)
      → Change frees d (renew_lease r reads lease ttl d).1
  unfolding renew_lease
  renew_lease-Change r reads lease ttl d =
      if_Change d _ _ _ (λ bad. stays) (λ good. renew_loaded-Change r reads lease ttl d _ refl)

release_loaded-Leads :
    (r : Repository) (reads : Reads) (lease : Lease) (d : Disk)
    (x : Result (Generation × Directory))
    → load_generation r lease.generation_id d ≡ x
    → Leads true d (release_loaded reads lease x d)
unfolding release_loaded
release_loaded-Leads r reads lease d (err e) h = leads stays
release_loaded-Leads r reads lease d (ok (g, dir)) h =
    let freed : Change true d (put lease.generation_id (record dir { lease = missing }) d) =
      releases lease.generation_id dir refl
        (load_generation-IsLoaded r lease.generation_id d g dir h).found in
    search (if_Leads, leads stays, leads freed)

pub release_lease-Leads :
    (r : Repository) (reads : Reads) (lease : Lease) (d : Disk)
    → Leads true d (release_lease r reads lease d)
unfolding release_lease
release_lease-Leads r reads lease d =
    let rest : Leads true d
        (release_loaded reads lease (load_generation r lease.generation_id d) d) =
      release_loaded-Leads r reads lease d _ refl in
    search (if_Leads, leads stays, rest)
