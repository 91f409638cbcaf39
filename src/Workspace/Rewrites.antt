-- ===== src/Workspace/Rewrites.antt =====
-- The operations on generations change the disk as the relation of Change allows.
use m3_repoworker.Prelude.{
  ◌≡◌, refl, sym, ◌∙◌, Bool, true, false, ◌∷◌, ◌++◌, Bytes, text, bytes_eq_iff, Option, none, some,
  lookup, delete, lookup-insert, if◌then◌else◌, arith,
}
use m3_repoworker.Go.Hex.{encode_to_string}
use m3_repoworker.Workspace.Types.{
  rejected, Result, ok, err, Generation, Lease, File, missing, unreadable, holds, Directory, Disk,
  Repository, Reads, put,
}
use m3_repoworker.Workspace.Generations.{
  load_generation, Materials, fresh_generation, fresh_directory, place, materialize_from,
  materialize, half_removed, half_put, discard_found, lease_file, discard_generation,
  quarantine_found, quarantine_generation, forget_owner, recover_lease, recover_loaded,
  recover_entry,
}
use m3_repoworker.Workspace.Change.{
  IsLive, Change, stays, and_then, releases, rewrites, discards, sets_aside, creates,
}
use m3_repoworker.Workspace.Leads.{Leads, leads, if_Leads, load_generation-IsLoaded}

lost-IsLive :
    (lost : Bool) (file : File Generation) → IsLive (if lost then missing else file) → IsLive file
lost-IsLive true file live = cc
lost-IsLive false file live = live

module _ {frees : Bool} where
  place-Leads :
      (reads : Reads) (renamed : Bool) (g : Generation) (o : Option Directory) (d : Disk)
      → lookup g.id d.directories ≡ o
      → Leads frees d (place reads renamed g o d)
  unfolding place fresh_directory
  place-Leads reads renamed g (some dir) d h = leads stays
  place-Leads reads renamed g none d h =
      let made : Change frees d (put g.id (fresh_directory reads.write g) d) =
        creates g.id _ h refl in
      search (if_Leads, leads stays, leads made)

  materialize_from-Leads :
      (r : Repository) (reads : Reads) (m : Materials) (before random : Option Bytes) (d : Disk)
      → Leads frees d (materialize_from r reads m before random d)
  unfolding materialize_from fresh_generation
  materialize_from-Leads r reads m none random d = leads stays
  materialize_from-Leads r reads m (some before) none d = leads stays
  materialize_from-Leads r reads m (some before) (some random) d =
      let id = text "gen_" ++ encode_to_string random in
      let g = fresh_generation r reads.now id before in
      let placed : Leads frees d (place reads m.renamed g (lookup id d.directories) d) =
        place-Leads reads m.renamed g (lookup id d.directories) d refl in
      search (if_Leads, leads stays, placed)

  pub materialize-Leads :
      (r : Repository) (reads : Reads) (m : Materials) (d : Disk)
      → Leads frees d (materialize r reads m d)
  unfolding materialize
  materialize-Leads r reads m d = search (if_Leads, leads stays, materialize_from-Leads)

  half_put-Change :
      (reads : Reads) (id : Bytes) (o : Option Directory) (d : Disk)
      → lookup id d.directories ≡ o
      → Change frees d (half_put reads id o d)
  unfolding half_put half_removed
  half_put-Change reads id none d h = stays
  half_put-Change reads id (some dir) d h =
      rewrites id dir _ _ h (lost-IsLive reads.lost_generation dir.generation)

  discard_found-Leads :
      (reads : Reads) (id : Bytes) (file : File Lease) (o : Option Directory) (d : Disk)
      → lookup id d.directories ≡ o
      → lease_file o ≡ file
      → Leads frees d (discard_found reads id file o d)
  unfolding discard_found lease_file
  discard_found-Leads reads id unreadable o d h free = leads stays
  discard_found-Leads reads id (holds lease) o d h free = leads stays
  discard_found-Leads reads id missing o d h free =
      let half = half_put-Change reads id o d h in
      let gone : Change frees d (record d { directories = delete id d.directories }) =
        discards id (λ dir found. no_lease o dir (sym h ∙ found) free) in
      search (if_Leads, leads half, leads gone)
    where
      no_lease :
          (o : Option Directory) (dir : Directory)
          → o ≡ some dir
          → lease_file o ≡ missing
          → dir.lease ≡ missing
      no_lease none dir found free = cc
      no_lease (some e) dir found free = ground arith

  pub discard_generation-Leads :
      (r : Repository) (reads : Reads) (id : Bytes) (d : Disk)
      → Leads frees d (discard_generation r reads id d)
  unfolding discard_generation
  discard_generation-Leads r reads id d =
      let rest : Leads frees d (
          discard_found reads id (lease_file (lookup id d.directories)) (lookup id d.directories)
            d) =
        discard_found-Leads reads id _ _ d refl refl in
      search (if_Leads, leads stays, rest)

quarantine_found-Leads :
    (reads : Reads) (id : Bytes) (o : Option Directory) (d : Disk)
    → lookup id d.directories ≡ o
    → Leads true d (quarantine_found reads id o d)
unfolding quarantine_found
quarantine_found-Leads reads id none d h = leads stays
quarantine_found-Leads reads id (some dir) d h =
    let aside : Change true d (record d {
      directories = delete id d.directories;
      quarantine = (id, dir) ∷ d.quarantine;
    }) =
      sets_aside id dir refl h in
    search (if_Leads, leads stays, leads aside)

pub quarantine_generation-Leads :
    (reads : Reads) (id : Bytes) (d : Disk) → Leads true d (quarantine_generation reads id d)
unfolding quarantine_generation
quarantine_generation-Leads reads id d =
    go (quarantine_found reads id (lookup id d.directories) d)
      (quarantine_found-Leads reads id _ d refl)
  where
    go :
        (x : Bool × Disk) → Leads true d x → Leads true d (if x.0 then ok tt else err rejected, x.1)
    go (b, e) (leads change) = leads change

forget_owner-Change :
    (reads : Reads) (id : Bytes) (dir : Directory) (d e : Disk)
    → lookup id e.directories ≡ some dir
    → Change true d e
    → Leads true d (forget_owner reads id dir e)
unfolding forget_owner
forget_owner-Change reads id dir d e h change =
    let gone : Change true d (put id (record dir { runtime_owner = missing }) e) =
      and_then change (rewrites id dir dir.generation missing h (λ live. live)) in
    search (if_Leads, leads change, leads gone)

put_found :
    (id : Bytes) (dir : Directory) (d : Disk) → lookup id (put id dir d).directories ≡ some dir
unfolding put
put_found id dir d = ground (arith, lookup-insert id id dir d.directories, bytes_eq_iff id id)

recover_lease-Leads :
    (reads : Reads) (id : Bytes) (dir : Directory) (file : File Lease) (d : Disk)
    → lookup id d.directories ≡ some dir
    → Leads true d (recover_lease reads id dir file d)
unfolding recover_lease
recover_lease-Leads reads id dir missing d h = forget_owner-Change reads id dir d d h stays
recover_lease-Leads reads id dir unreadable d h = quarantine_generation-Leads reads id d
recover_lease-Leads reads id dir (holds lease) d h =
    let freed : Directory = record dir { lease = missing } in
    let rest : Leads true d (forget_owner reads id freed (put id freed d)) =
      forget_owner-Change reads id freed d (put id freed d) (put_found id freed d)
        (releases id dir refl h) in
    search (if_Leads, leads stays, quarantine_generation-Leads, rest)

recover_loaded-Leads :
    (r : Repository) (reads : Reads) (id : Bytes) (x : Result (Generation × Directory)) (d : Disk)
    → load_generation r id d ≡ x
    → Leads true d (recover_loaded reads id x d)
unfolding recover_loaded
recover_loaded-Leads r reads id (err e) d h = quarantine_generation-Leads reads id d
recover_loaded-Leads r reads id (ok (g, dir)) d h =
    recover_lease-Leads reads id dir dir.lease d (load_generation-IsLoaded r id d g dir h).found

pub recover_entry-Leads :
    (r : Repository) (reads : Reads) (name : Bytes) (d : Disk)
    → Leads true d (recover_entry r reads name d)
unfolding recover_entry
recover_entry-Leads r reads name d =
    let rest : Leads true d (recover_loaded reads name (load_generation r name d) d) =
      recover_loaded-Leads r reads name _ d refl in
    search (if_Leads, leads stays, quarantine_generation-Leads, rest)
