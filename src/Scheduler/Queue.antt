-- ===== src/Scheduler/Queue.antt =====
-- The configuration and the queue of internal/scheduler/scheduler.go.
use m3_repoworker.Prelude.{
  ℕ, ◌&&◌, ◌||◌, not, Bool, true, false, ◌==◌, List, [], ◌∷◌, ◌++◌, exists, every, length, Bytes,
  bytes_eq, is_empty, Option, none, some, if◌then◌else◌,
}
use m3_repoworker.Go.Int64.{less}
use m3_repoworker.Scheduler.Types.{
  Error, rejected, backpressure, Quota, JobClass, Job, Config, Scheduler,
}

unfoldable pub or_default : ℕ → ℕ → ℕ
or_default default n = if n == 0 then default else n

unfoldable pub filled_quota : Config → Quota → Quota
filled_quota config quota = record {
  cpu = or_default config.capacity.cpu quota.cpu;
  memory_bytes = or_default config.capacity.memory_bytes quota.memory_bytes;
  concurrent = or_default config.max_concurrent quota.concurrent;
}

unfoldable pub valid_class : Bytes × JobClass → Bool
valid_class (name, class) =
    not (is_empty name) && less 0 class.weight && not (less class.max_concurrent 0)

-- `New`.
unfoldable pub new : Config → Option Scheduler
new config =
    if not (less 0 config.capacity.cpu)
      || not (less 0 config.capacity.memory_bytes)
      || not (less 0 config.max_concurrent)
      || not (less 0 config.max_queued)
    then none
    else if not (every valid_class config.classes)
    then none
    else some (record {
      config = record config {
        per_task_quota = filled_quota config config.per_task_quota;
        per_runtime_quota = filled_quota config config.per_runtime_quota;
      };
      queued = [];
      run = false;
    })

unfoldable pub valid_job : Job → Bool
valid_job job =
    not (is_empty job.id)
    && not (is_empty job.task_id)
    && not (is_empty job.runtime_id)
    && not (is_empty job.class)
    && less 0 job.resources.cpu
    && less 0 job.resources.memory_bytes
    && job.has_run

-- Whether a job of the list has the identity.
unfoldable pub has_id : Bytes → List Job → Bool
has_id id jobs = exists (λ job. bytes_eq job.id id) jobs

-- `Submit`. `live` says that there is a context and that it is not done.
unfoldable pub submit : Bool → Job → Scheduler → Option Error × Scheduler
submit live job s =
    if not live || s.run || not (valid_job job)
    then (some rejected, s)
    else if not (less (length s.queued) s.config.max_queued)
    then (some backpressure, s)
    else if has_id job.id s.queued
    then (some rejected, s)
    else (none, record s { queued = s.queued ++ job ∷ [] })

-- `RunSubmitted` until it calls `Run`, and after `Run` has returned.
unfoldable pub take_submitted : Scheduler → Option (List Job) × Scheduler
take_submitted s =
    if s.run then (none, s) else (some s.queued, record s { run = true; queued = [] })

unfoldable pub finish_submitted : Scheduler → Scheduler
finish_submitted s = record s { run = false }
