-- ===== src/Workspace/History.antt =====
-- Histories of internal/workspace/workspace.go: critical sections of `Repository` in the order in which its
-- mutex, or the process that recovers, lets them run.
use m3_repoworker.Prelude.{ℕ, Bool, true, false, ◌||◌, List, [], ◌∷◌, Bytes, Option}
use m3_repoworker.Workspace.Types.{Generation, Lease, Disk, Repository, Reads}
use m3_repoworker.Workspace.Generations.{Materials, materialize, discard_generation, recover_entry}
use m3_repoworker.Workspace.Leases.{acquire_lease, renew_lease, release_lease}
use m3_repoworker.Workspace.Mutations.{refresh_locked, reserve_locked, release_runtime_locked}
use m3_repoworker.Workspace.Change.{Change}
use m3_repoworker.Workspace.Leads.{Leads, leads}
use m3_repoworker.Workspace.Refines.{acquire_lease-Change, renew_lease-Change, release_lease-Leads}
use m3_repoworker.Workspace.Rewrites.{
  materialize-Leads, discard_generation-Leads, recover_entry-Leads,
}
use m3_repoworker.Workspace.Fenced.{
  refresh_locked-Leads, reserve_locked-Leads, release_runtime_locked-Leads,
}

pub data Op : Type 0 where
  materializes : Materials → Op
  acquires : Bytes → Bytes → ℕ → Op
  renews : Lease → ℕ → Op
  releases : Lease → Op
  discards : Bytes → Op
  recovers : Bytes → Op
  refreshes : Generation → Lease → Option Bytes → Op
  reserves : Lease → Bytes → Op
  releases_runtime : Lease → Bytes → Op

-- Whether the operation may give up a lease. Recovery runs when the process starts.
unfoldable pub may_free : Op → Bool
may_free (materializes m) = false
may_free (acquires id owner ttl) = false
may_free (renews lease ttl) = false
may_free (releases lease) = true
may_free (discards id) = false
may_free (recovers id) = true
may_free (refreshes generation lease snapshot) = false
may_free (reserves lease owner) = false
may_free (releases_runtime lease owner) = false

unfoldable pub step : Repository → Reads → Op → Disk → Disk
step r reads (materializes m) d = (materialize r reads m d).1
step r reads (acquires id owner ttl) d = (acquire_lease r reads id owner ttl d).1
step r reads (renews lease ttl) d = (renew_lease r reads lease ttl d).1
step r reads (releases lease) d = (release_lease r reads lease d).1
step r reads (discards id) d = (discard_generation r reads id d).1
step r reads (recovers id) d = (recover_entry r reads id d).1
step r reads (refreshes generation lease snapshot) d =
    (refresh_locked r reads generation lease snapshot d).1
step r reads (reserves lease owner) d = (reserve_locked r reads lease owner d).1
step r reads (releases_runtime lease owner) d = (release_runtime_locked r reads lease owner d).1

unfoldable pub run : Repository → List (Op × Reads) → Disk → Disk
run r [] d = d
run r ((op, reads) ∷ ops) d = run r ops (step r reads op d)

unfoldable pub any_frees : List (Op × Reads) → Bool
any_frees [] = false
any_frees ((op, reads) ∷ ops) = may_free op || any_frees ops

Leads-Change :
    {R : Type 0} {frees : Bool} (d : Disk) (x : R × Disk) → Leads frees d x → Change frees d x.1
Leads-Change d x (leads change) = change

-- Every operation changes the disk as the abstract relation of changes allows, whatever it reads and
-- however it ends; a lease is given up only by a release or a recovery.
pub step-Change :
    (r : Repository) (reads : Reads) (op : Op) (d : Disk)
    → Change (may_free op) d (step r reads op d)
unfolding step may_free
step-Change r reads (materializes m) d = Leads-Change d _ (materialize-Leads r reads m d)
step-Change r reads (acquires id owner ttl) d = acquire_lease-Change r reads id owner ttl d
step-Change r reads (renews lease ttl) d = renew_lease-Change r reads lease ttl d
step-Change r reads (releases lease) d = Leads-Change d _ (release_lease-Leads r reads lease d)
step-Change r reads (discards id) d = Leads-Change d _ (discard_generation-Leads r reads id d)
step-Change r reads (recovers id) d = Leads-Change d _ (recover_entry-Leads r reads id d)
step-Change r reads (refreshes generation lease snapshot) d =
    Leads-Change d _ (refresh_locked-Leads r reads generation lease snapshot d)
step-Change r reads (reserves lease owner) d =
    Leads-Change d _ (reserve_locked-Leads r reads lease owner d)
step-Change r reads (releases_runtime lease owner) d =
    Leads-Change d _ (release_runtime_locked-Leads r reads lease owner d)

pub step_through :
    (r : Repository) (P : Disk → Type 0)
    → ((frees : Bool) (d e : Disk) → Change frees d e → P d → P e)
    → (ops : List (Op × Reads)) (d : Disk) → P d
    → P (run r ops d)
unfolding run
step_through r P keeps [] d h = h
step_through r P keeps ((op, reads) ∷ ops) d h =
    step_through r P keeps ops (step r reads op d)
      (keeps (may_free op) d _ (step-Change r reads op d) h)
