-- ===== src/Workspace/Integration/Recovery.antt =====
-- `recoverJournals` of internal/workspace/integration.go, which reads the live tree and never writes it.
use m3_repoworker.Prelude.{
  ℕ, zero, suc, ◌&&◌, ◌||◌, not, Bool, leb, List, [], ◌∷◌, length, bytes_eq, Option, none, some,
  if◌then◌else◌,
}
use m3_repoworker.Workspace.Types.{
  Error, rejected, File, missing, unreadable, holds, Outcome, is_written, after_write,
}
use m3_repoworker.Workspace.Integration.Plans.{
  Step, Tree, Hash, FileState, file_state_at, valid_plan,
}
use m3_repoworker.Workspace.Integration.Apply.{Journal, prepared, applying, committed, quarantined}

-- What one round of the loop reads: whether the file can be read, and how the write ends.
pub record RecoveryReads : Type 0 where
  pub readable : Bool
  pub write : Outcome

unfoldable pub skip : ℕ → List Step → List Step
skip zero steps = steps
skip (suc n) [] = []
skip (suc n) (step ∷ steps) = skip n steps

-- One round, by the state of the file, with what the next rounds do.
unfoldable pub observed :
    RecoveryReads
    → Step
    → Journal
    → File Journal
    → Option FileState
    → Option Error × File Journal
    → Option Error × File Journal
observed reads step journal file none rest = (some rejected, file)
observed reads step journal file (some state) rest =
    let next : Journal = record journal { state = applying; cursor = suc journal.cursor } in
    if not (bytes_eq state.digest step.after_digest)
    then (some rejected, after_write reads.write (record journal { state = quarantined }) file)
    else if not (is_written reads.write)
    then (some rejected, after_write reads.write next file)
    else rest

-- The loop of `recoverJournal` over the steps that are left, and its last write. Without anything to read
-- the process has stopped, which counts as an error here.
unfoldable pub recover_steps :
    Hash
    → List RecoveryReads
    → Tree
    → List Step
    → Journal
    → File Journal
    → Option Error × File Journal
recover_steps hash [] tree steps journal file = (some rejected, file)
recover_steps hash (reads ∷ script) tree [] journal file = (
  if is_written reads.write then none else some rejected,
  after_write reads.write (record journal { state = committed }) file,
)
recover_steps hash (reads ∷ script) tree (step ∷ steps) journal file =
    let next : Journal = record journal { state = applying; cursor = suc journal.cursor } in
    observed reads step journal file (file_state_at hash reads.readable step.path tree)
      (recover_steps hash script tree steps next (after_write reads.write next file))

-- `recoverJournal`.
unfoldable pub recover_journal :
    Hash → List RecoveryReads → Tree → Journal → File Journal → Option Error × File Journal
recover_journal hash script tree journal file =
    if not (bytes_eq journal.state prepared) && not (bytes_eq journal.state applying)
    then (some rejected, file)
    else if not (valid_plan journal.plan) || not (leb journal.cursor (length journal.plan.steps))
    then (some rejected, file)
    else recover_steps hash script tree (skip journal.cursor journal.plan.steps) journal file

-- The body of the loop of `recoverJournals`, for one file.
unfoldable pub recover_file :
    Hash → List RecoveryReads → Tree → File Journal → Option Error × File Journal
recover_file hash script tree missing = (none, missing)
recover_file hash script tree unreadable = (some rejected, unreadable)
recover_file hash script tree (holds journal) =
    if bytes_eq journal.state committed
    then (none, holds journal)
    else recover_journal hash script tree journal (holds journal)

abbrev files_of : List (List RecoveryReads × File Journal) → List (File Journal)
files_of [] = []
files_of ((script, file) ∷ files) = file ∷ files_of files

-- `recoverJournals` over the files of the directory of journals.
unfoldable pub recover_journals :
    Hash → Tree → List (List RecoveryReads × File Journal) → Option Error × List (File Journal)
recover_journals hash tree [] = (none, [])
recover_journals hash tree ((script, file) ∷ files) =
    let (answer, after) = recover_file hash script tree file in
    let (later, rest) = recover_journals hash tree files in
    elim answer [ some error ↦ (some error, after ∷ files_of files) | none ↦ (later, after ∷ rest) ]
