-- ===== src/Scheduler/Least.antt =====
-- `chooseReady` of internal/scheduler/scheduler.go takes the first of the jobs that it may launch.
use m3_repoworker.Prelude.{◌≡◌, Bool, true, false, List, [], ◌∷◌, All, Option, none, some}
use m3_repoworker.Scheduler.Types.{Job}
use m3_repoworker.Scheduler.Choice.{IsIn}

-- No later entry is before an earlier one.
abbrev IsSorted : (Job → Job → Bool) → List Job → Type 0
IsSorted less [] = Unit
IsSorted less (x ∷ xs) = All (λ y. less y x ≡ false) xs × IsSorted less xs

-- What a choice among jobs is: one that passes the test and has none in front of it that passes too, or
-- nothing where none passes.
abbrev pub IsChoice : (Job → Job → Bool) → (Job → Bool) → List Job → Option Job → Type 0
IsChoice less test jobs none = (k : Job) → IsIn k jobs → test k ≡ false
IsChoice less test jobs (some job) =
    IsIn job jobs
    × (test job ≡ true)
    × ((k : Job) → IsIn k jobs → test k ≡ true → less k job ≡ false)
