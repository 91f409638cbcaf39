-- ===== src/Workspace/Fenced.antt =====
-- The critical sections that follow an `AssertLease` change the disk as the relation of Change allows.
use m3_repoworker.Prelude.{◌≡◌, refl, sym, subst, Bool, Bytes, Option, none, some, lookup}
use m3_repoworker.Workspace.Types.{
  Result, ok, err, Generation, Lease, RuntimeOwner, File, missing, unreadable, holds, Directory,
  Disk, Repository, Reads, after_write, put,
}
use m3_repoworker.Workspace.Generations.{load_generation}
use m3_repoworker.Workspace.Mutations.{
  refresh_snapshot, refresh_loaded, refresh_locked, reserve_file, reserve_loaded, reserve_locked,
  release_runtime_loaded, release_runtime_locked,
}
use m3_repoworker.Workspace.Change.{Change, stays, rewrites}
use m3_repoworker.Workspace.Leads.{Leads, leads, if_Leads, IsLoaded, load_generation-IsLoaded}
use m3_repoworker.Workspace.Refines.{generation-Change}

module _ {frees : Bool} where
  refresh_snapshot-Leads :
      (reads : Reads) (g : Generation) (dir : Directory) (snapshot : Option Bytes) (d : Disk)
      → IsLoaded g.id d g dir
      → Leads frees d (refresh_snapshot reads g dir snapshot d)
  unfolding refresh_snapshot
  refresh_snapshot-Leads reads g dir none d h = leads stays
  refresh_snapshot-Leads reads g dir (some snapshot) d h =
      let new : Generation = record g { candidate_snapshot = snapshot } in
      let rest : Change frees d
          (put g.id (record dir { generation = after_write reads.write new dir.generation }) d) =
        generation-Change d g.id dir new reads.write h.found
          (λ active. (g, h.recorded, h.active)) in
      search (if_Leads, leads stays, leads rest)

  refresh_loaded-Leads :
      (r : Repository) (reads : Reads) (g : Generation) (lease : Lease) (snapshot : Option Bytes)
      (x : Result (Generation × Directory)) (d : Disk)
      → load_generation r g.id d ≡ x
      → Leads frees d (refresh_loaded reads g lease snapshot x d)
  unfolding refresh_loaded
  refresh_loaded-Leads r reads g lease snapshot (err e) d h = leads stays
  refresh_loaded-Leads r reads g lease snapshot (ok (loaded, dir)) d h =
      let is = load_generation-IsLoaded r g.id d loaded dir h in
      let rest =
        refresh_snapshot-Leads reads loaded dir snapshot d
          (subst (λ k. IsLoaded k d loaded dir) (sym is.named) is) in
      search (if_Leads, leads stays, rest)

  pub refresh_locked-Leads :
      (r : Repository) (reads : Reads) (g : Generation) (lease : Lease) (snapshot : Option Bytes)
      (d : Disk)
      → Leads frees d (refresh_locked r reads g lease snapshot d)
  unfolding refresh_locked
  refresh_locked-Leads r reads g lease snapshot d =
      let rest : Leads frees d
          (refresh_loaded reads g lease snapshot (load_generation r g.id d) d) =
        refresh_loaded-Leads r reads g lease snapshot _ d refl in
      search (if_Leads, leads stays, rest)

  reserve_file-Leads :
      (reads : Reads) (lease : Lease) (owner : Bytes) (dir : Directory) (file : File RuntimeOwner)
      (d : Disk)
      → lookup lease.generation_id d.directories ≡ some dir
      → Leads frees d (reserve_file reads lease owner dir file d)
  unfolding reserve_file
  reserve_file-Leads reads lease owner dir (holds x) d h = leads stays
  reserve_file-Leads reads lease owner dir unreadable d h = leads stays
  reserve_file-Leads reads lease owner dir missing d h =
      leads (rewrites lease.generation_id dir dir.generation _ h (λ live. live))

  reserve_loaded-Leads :
      (r : Repository) (reads : Reads) (lease : Lease) (owner : Bytes)
      (x : Result (Generation × Directory)) (d : Disk)
      → load_generation r lease.generation_id d ≡ x
      → Leads frees d (reserve_loaded reads lease owner x d)
  unfolding reserve_loaded
  reserve_loaded-Leads r reads lease owner (err e) d h = leads stays
  reserve_loaded-Leads r reads lease owner (ok (g, dir)) d h =
      reserve_file-Leads reads lease owner dir dir.runtime_owner d
        (load_generation-IsLoaded r lease.generation_id d g dir h).found

  pub reserve_locked-Leads :
      (r : Repository) (reads : Reads) (lease : Lease) (owner : Bytes) (d : Disk)
      → Leads frees d (reserve_locked r reads lease owner d)
  unfolding reserve_locked
  reserve_locked-Leads r reads lease owner d = reserve_loaded-Leads r reads lease owner _ d refl

  release_runtime_loaded-Leads :
      (r : Repository) (reads : Reads) (lease : Lease) (owner : Bytes)
      (x : Result (Generation × Directory)) (d : Disk)
      → load_generation r lease.generation_id d ≡ x
      → Leads frees d (release_runtime_loaded reads lease owner x d)
  unfolding release_runtime_loaded
  release_runtime_loaded-Leads r reads lease owner (err e) d h = leads stays
  release_runtime_loaded-Leads r reads lease owner (ok (g, dir)) d h =
      let gone : Change frees d
          (put lease.generation_id (record dir { runtime_owner = missing }) d) =
        rewrites lease.generation_id dir dir.generation missing
          (load_generation-IsLoaded r lease.generation_id d g dir h).found (λ live. live) in
      search (if_Leads, leads stays, leads gone)

  pub release_runtime_locked-Leads :
      (r : Repository) (reads : Reads) (lease : Lease) (owner : Bytes) (d : Disk)
      → Leads frees d (release_runtime_locked r reads lease owner d)
  unfolding release_runtime_locked
  release_runtime_locked-Leads r reads lease owner d =
      release_runtime_loaded-Leads r reads lease owner _ d refl
