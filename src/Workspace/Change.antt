-- ===== src/Workspace/Change.antt =====
-- What the operations on workspaces may do to the disk, as a relation. It is the contract that fences
-- mutations, and says nothing of files that are read or of how an operation answers.
use m3_repoworker.Prelude.{◌≡◌, ℕ, suc, Bool, true, ◌∷◌, Bytes, none, some, lookup, delete}
use m3_repoworker.Workspace.Types.{
  Generation, Lease, RuntimeOwner, File, missing, unreadable, holds, Directory, Disk, put,
}
use m3_repoworker.Workspace.Checks.{active_state}

-- The last fence that was counted.
abbrev pub fence_of : File ℕ → ℕ
fence_of missing = 0
fence_of unreadable = 0
fence_of (holds n) = n

-- A generation that can be loaded.
abbrev pub IsLive : File Generation → Type 0
IsLive file = (g : Generation) × (file ≡ holds g) × (g.state ≡ active_state)

-- The index says whether a lease may go that is not given up by removing its directory.
pub data Change (frees : Bool) : Disk → Disk → Type 0 where
  stays : {d : Disk} → Change frees d d
  and_then : {d e f : Disk} → Change frees d e → Change frees e f → Change frees d f
  counts : {d : Disk} → Change frees d (record d { fence = holds (suc (fence_of d.fence)) })
  grants :
      {d : Disk} (id : Bytes) (dir : Directory) (lease : Lease)
      → lookup id d.directories ≡ some dir
      → dir.lease ≡ missing
      → d.fence ≡ holds lease.fencing_generation
      → lease.generation_id ≡ id
      → Change frees d (put id (record dir { lease = holds lease }) d)
  renews :
      {d : Disk} (id : Bytes) (dir : Directory) (old new : Lease)
      → lookup id d.directories ≡ some dir
      → dir.lease ≡ holds old
      → new.fencing_generation ≡ old.fencing_generation
      → new.owner ≡ old.owner
      → Change frees d (put id (record dir { lease = holds new }) d)
  releases :
      {d : Disk} (id : Bytes) (dir : Directory)
      → frees ≡ true
      → lookup id d.directories ≡ some dir
      → Change frees d (put id (record dir { lease = missing }) d)
  rewrites :
      {d : Disk} (id : Bytes) (dir : Directory) (generation : File Generation)
      (owner : File RuntimeOwner)
      → lookup id d.directories ≡ some dir
      → (IsLive generation → IsLive dir.generation)
      → Change frees d (put id (record dir { generation = generation; runtime_owner = owner }) d)
  discards :
      {d : Disk} (id : Bytes)
      → ((dir : Directory) → lookup id d.directories ≡ some dir → dir.lease ≡ missing)
      → Change frees d (record d { directories = delete id d.directories })
  sets_aside :
      {d : Disk} (id : Bytes) (dir : Directory)
      → frees ≡ true
      → lookup id d.directories ≡ some dir
      → Change frees d (record d {
        directories = delete id d.directories;
        quarantine = (id, dir) ∷ d.quarantine;
      })
  creates :
      {d : Disk} (id : Bytes) (dir : Directory)
      → lookup id d.directories ≡ none
      → dir.lease ≡ missing
      → Change frees d (put id dir d)
