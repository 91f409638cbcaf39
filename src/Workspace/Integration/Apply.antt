-- ===== src/Workspace/Integration/Apply.antt =====
-- `ApplyIntegration` of internal/workspace/integration.go, over the live tree and the journal's file. The
-- process may stop between any two writes.
use m3_repoworker.Prelude.{
  ℕ, suc, ◌%◌, ◌||◌, not, Bool, true, false, ◌==◌, List, [], ◌∷◌, ◌++◌, Bytes, text, bytes_eq,
  Option, none, some, lookup, insert, delete, if◌then◌else◌,
}
use m3_repoworker.Go.Hex.{encode_to_string}
use m3_repoworker.Workspace.Types.{
  Error, rejected, stale_fence, Result, ok, err, Lease, File, Disk, Repository, Outcome, Reads,
  is_written, after_write,
}
use m3_repoworker.Workspace.Leases.{assert_lease}
use m3_repoworker.Workspace.Integration.Plans.{
  Step, Plan, Entry, regular, Tree, Hash, FileState, delete_operation, known_operation, small_blob,
  valid_relative_path, file_state_at, valid_plan,
}

-- `IntegrationJournal`, less the time of its update.
pub record Journal : Type 0 where
  pub id : Bytes
  pub state : Bytes
  pub cursor : ℕ
  pub plan : Plan

unfoldable pub prepared : Bytes
prepared = text "PREPARED"

unfoldable pub applying : Bytes
applying = text "APPLYING"

unfoldable pub committed : Bytes
committed = text "COMMITTED"

unfoldable pub quarantined : Bytes
quarantined = text "QUARANTINED"

-- What one round of the loop of `ApplyIntegration` reads: whether each part of it succeeds, what a temporary
-- file leaves in the tree when it does not, whether the process stops before the journal is written,
-- and how that write ends.
pub record StepReads : Type 0 where
  pub readable : Bool
  pub opened : Bool
  pub prepared : Bool
  pub renamed : Bool
  pub synced : Bool
  pub readable_after : Bool
  pub left : Option (Bytes × Entry)
  pub dies : Bool
  pub journal : Outcome

unfoldable pub leave : Option (Bytes × Entry) → Tree → Tree
leave none tree = tree
leave (some (path, entry)) tree = insert path entry tree

unfoldable pub has_digest : Bytes → Option FileState → Bool
has_digest digest none = false
has_digest digest (some state) = bytes_eq state.digest digest

-- The last check of `applyIntegrationStep`.
unfoldable pub check_after : Hash → StepReads → Step → Tree → Option Error × Tree
check_after hash reads step tree =
    if not (has_digest step.after_digest (file_state_at hash reads.readable_after step.path tree))
    then (some rejected, tree)
    else (none, tree)

unfoldable pub synced_after : Hash → StepReads → Step → Tree → Option Error × Tree
synced_after hash reads step tree =
    if not reads.synced then (some rejected, tree) else check_after hash reads step tree

unfoldable pub is_there : Option Entry → Bool
is_there none = false
is_there (some entry) = true

-- The deletion of a file.
unfoldable pub remove_file : Hash → StepReads → Step → Tree → Option Error × Tree
remove_file hash reads step tree =
    if not reads.opened || not reads.renamed || not (is_there (lookup step.path tree))
    then (some rejected, tree)
    else synced_after hash reads step (delete step.path tree)

-- The replacement of a file by way of a temporary one.
unfoldable pub write_file : Hash → StepReads → Step → Tree → Option Error × Tree
write_file hash reads step tree =
    if not (small_blob step.staged_blob) || not reads.opened
    then (some rejected, tree)
    else if not reads.prepared || not reads.renamed
    then (some rejected, leave reads.left tree)
    else synced_after hash reads step
        (insert step.path (regular step.staged_blob (step.mode % 512)) tree)

-- `applyIntegrationStep`.
unfoldable pub apply_step : Hash → StepReads → Step → Tree → Option Error × Tree
apply_step hash reads step tree =
    if not (valid_relative_path step.path) || not (known_operation step.operation)
    then (some rejected, tree)
    else if not (has_digest step.before_digest (file_state_at hash reads.readable step.path tree))
    then (some stale_fence, tree)
    else if bytes_eq step.operation delete_operation
    then remove_file hash reads step tree
    else write_file hash reads step tree

-- The live tree and the journal's file.
pub record Live : Type 0 where
  pub tree : Tree
  pub journal : File Journal

pub data Ending : Type 0 where
  commits : Journal → Ending
  fails : Error → Ending
  -- The process was stopped.
  stops : Ending

unfoldable pub noted : StepReads → Journal → Live → Live
noted reads journal live = record live { journal = after_write reads.journal journal live.journal }

-- The last write of `ApplyIntegration`.
unfoldable pub commit : StepReads → Journal → Live → Ending × Live
commit reads journal live =
    let last : Journal = record journal { state = committed } in
    (if is_written reads.journal then commits last else fails rejected, noted reads last live)

-- The end of a round, by what the step has answered.
unfoldable pub stepped :
    StepReads → Journal → Option Error → Live → (Journal → Live → Ending × Live) → Ending × Live
stepped reads journal (some error) live rest =
    if reads.dies
    then (stops, live)
    else (fails error, noted reads (record journal { state = quarantined }) live)
stepped reads journal none live rest =
    let next : Journal = record journal { state = applying; cursor = suc journal.cursor } in
    if reads.dies
    then (stops, live)
    else if not (is_written reads.journal)
    then (fails rejected, noted reads next live)
    else rest next (noted reads next live)

-- The loop of `ApplyIntegration` over the steps that are left. It stops where there is nothing to read.
unfoldable pub apply_steps : Hash → List StepReads → List Step → Journal → Live → Ending × Live
apply_steps hash [] steps journal live = (stops, live)
apply_steps hash (reads ∷ script) [] journal live =
    if reads.dies then (stops, live) else commit reads journal live
apply_steps hash (reads ∷ script) (step ∷ steps) journal live =
    let (error, tree) = apply_step hash reads step live.tree in
    stepped reads journal error (record live { tree = tree })
      (λ next after. apply_steps hash script steps next after)

-- What `ApplyIntegration` reads before it writes: the disk of workspaces, the digest of the plan, the snapshot
-- of the live root, random bytes and how its first write ends.
pub record Opening : Type 0 where
  pub asserts : Reads
  pub disk : Disk
  pub digest : Option Bytes
  pub base : Option Bytes
  pub random : Option Bytes
  pub journal : Outcome

unfoldable pub is_bytes : Bytes → Option Bytes → Bool
is_bytes expected none = false
is_bytes expected (some found) = bytes_eq found expected

unfoldable pub opened_journal :
    Hash → Opening → List StepReads → Plan → Live → Option Bytes → Ending × Live
opened_journal hash opening script plan live none = (fails rejected, live)
opened_journal hash opening script plan live (some random) =
    let first : Journal = record {
      id = text "journal_" ++ encode_to_string random;
      state = prepared;
      cursor = 0;
      plan = plan;
    } in
    let started : Live = record live { journal = after_write opening.journal first live.journal } in
    let rest = apply_steps hash script plan.steps first started in
    if not (is_written opening.journal) then (fails rejected, started) else rest

unfoldable pub asserted : Result (Unit {0}) → Ending × Live → Live → Ending × Live
asserted (err error) rest live = (fails error, live)
asserted (ok _) rest live = rest

-- `ApplyIntegration`.
unfoldable pub apply_integration :
    Repository → Hash → Opening → List StepReads → Plan → Lease → Live → Ending × Live
apply_integration r hash opening script plan lease live =
    asserted (assert_lease r opening.asserts lease opening.disk)
      (if not (bytes_eq plan.repository_id r.root_identity)
          || not (bytes_eq plan.source_filesystem r.filesystem_id)
          || not (bytes_eq plan.generation_id lease.generation_id)
          || not (plan.lease_generation == lease.fencing_generation)
        then (fails rejected, live)
        else if not (is_bytes plan.plan_digest opening.digest) || not (valid_plan plan)
        then (fails rejected, live)
        else if not (is_bytes plan.base_snapshot opening.base)
        then (fails stale_fence, live)
        else opened_journal hash opening script plan live opening.random)
      live
