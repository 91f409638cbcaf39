-- ===== src/Workspace/Leads.antt =====
-- How to show that an operation changes the disk as the relation of Change allows.
use m3_repoworker.Prelude.{
  ◌≡◌, refl, Bool, true, false, Bytes, bytes_eq_iff, Option, none, some, lookup, if◌then◌else◌,
  arith,
}
use m3_repoworker.Workspace.Types.{
  ok, Generation, File, missing, unreadable, holds, Directory, Disk, Repository,
}
use m3_repoworker.Workspace.Checks.{active_state}
use m3_repoworker.Workspace.Generations.{matches, loaded_record, loaded_directory, load_generation}
use m3_repoworker.Workspace.Change.{Change}

pub if_Change :
    {R : Type 0} {frees : Bool} (d : Disk) (test : Bool) (x y : R × Disk)
    → (test ≡ true → Change frees d x.1)
    → (test ≡ false → Change frees d y.1)
    → Change frees d (if test then x else y).1
if_Change d true x y h k = h refl
if_Change d false x y h k = k refl

-- An operation's answer and disk, where the disk is one that the change allows.
pub data Leads (frees : Bool) (d : Disk) {R : Type 0} : R × Disk → Type 0 where
  leads : {r : R} {e : Disk} → Change frees d e → Leads frees d (r, e)

pub if_Leads :
    {R : Type 0} {frees : Bool} (d : Disk) (test : Bool) (x y : R × Disk)
    → (test ≡ true → Leads frees d x)
    → (test ≡ false → Leads frees d y)
    → Leads frees d (if test then x else y)
if_Leads d true x y h k = h refl
if_Leads d false x y h k = k refl

-- What a generation that was loaded is.
pub record IsLoaded (id : Bytes) (d : Disk) (g : Generation) (dir : Directory) : Type 0 where
  pub found : lookup id d.directories ≡ some dir
  pub recorded : dir.generation ≡ holds g
  pub active : g.state ≡ active_state
  pub named : g.id ≡ id

loaded_record-IsLoaded :
    (r : Repository) (id : Bytes) (d : Disk) (e dir : Directory) (file : File Generation)
    (g : Generation)
    → lookup id d.directories ≡ some e
    → e.generation ≡ file
    → loaded_record r id e file ≡ ok (g, dir)
    → IsLoaded id d g dir
unfolding loaded_record matches
loaded_record-IsLoaded r id d e dir missing g found file h = cc
loaded_record-IsLoaded r id d e dir unreadable g found file h = cc
loaded_record-IsLoaded r id d e dir (holds x) g found file h = record {
  found = ground arith;
  recorded = ground arith;
  active = ground (arith, bytes_eq_iff x.state active_state);
  named = ground (arith, bytes_eq_iff x.id id);
}

loaded_directory-IsLoaded :
    (r : Repository) (id : Bytes) (d : Disk) (o : Option Directory) (g : Generation)
    (dir : Directory)
    → lookup id d.directories ≡ o
    → loaded_directory r id o ≡ ok (g, dir)
    → IsLoaded id d g dir
unfolding loaded_directory
loaded_directory-IsLoaded r id d none g dir found h = cc
loaded_directory-IsLoaded r id d (some e) g dir found h =
    loaded_record-IsLoaded r id d e dir e.generation g found refl h

pub load_generation-IsLoaded :
    (r : Repository) (id : Bytes) (d : Disk) (g : Generation) (dir : Directory)
    → load_generation r id d ≡ ok (g, dir)
    → IsLoaded id d g dir
unfolding load_generation
load_generation-IsLoaded r id d g dir h =
    loaded_directory-IsLoaded r id d (lookup id d.directories) g dir refl (ground arith)
