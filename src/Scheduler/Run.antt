-- ===== src/Scheduler/Run.antt =====
-- `Run` of internal/scheduler/scheduler.go. The jobs run beside it: what they answer, and when, and what
-- the contexts and the host say, is what each round reads.
use m3_repoworker.Prelude.{
  ℕ, zero, suc, ◌-◌, ◌&&◌, ◌||◌, not, Bool, true, false, ◌==◌, ltb, List, [], ◌∷◌, length, Bytes,
  Option, none, some, Dict, insert, if◌then◌else◌,
}
use m3_repoworker.Go.Int64.{less}
use m3_repoworker.Scheduler.Types.{
  Error, rejected, backpressure, unschedulable, HostPressure, Job, Config, JobState, pending,
  running, done, RunState, count_at, usage_at,
}
use m3_repoworker.Scheduler.Admission.{
  Ratio, add_resources, subtract_resources, add_usage, subtract_usage, Figures, choose_ready,
  ready_jobs, admission_error,
}
use m3_repoworker.Scheduler.Graph.{Verdict, accepts, refuses, unfinished, job_at, validate_graph}

-- What one round of the outer loop reads: the error of `runCtx` at its start, and for each walk the order
-- of the jobs in the map and what the host answers about each.
pub record Round : Type 0 where
  pub context : Option Error
  pub walk : ℕ → List Job
  pub pressure : ℕ → Bytes → Option HostPressure

-- What `select` takes: the result of a job, or that `runCtx` is done, with its error.
pub data Event : Type 0 where
  finishes : Bytes → Option Error → Event
  observes : Error → Event

unfoldable pub pending_all : List Job → Dict JobState
pending_all [] = []
pending_all (job ∷ jobs) = insert job.id pending (pending_all jobs)

unfoldable pub start : List Job → RunState
start jobs = record {
  state = pending_all jobs;
  active = 0;
  completed = 0;
  class_served = [];
  class_running = [];
  task_usage = [];
  runtime_usage = [];
  used = record { cpu = 0; memory_bytes = 0 };
  first_err = none;
  cancelled = false;
}

unfoldable pub first_error : Option Error → Option Error → Option Error
first_error none error = error
first_error (some error) later = some error

unfoldable pub is_some : Option Error → Bool
is_some none = false
is_some (some error) = true

-- The test of the context at the start of a round.
unfoldable pub enter : Round → RunState → RunState
enter round s = record s {
  first_err = first_error s.first_err round.context;
  cancelled = s.cancelled || is_some round.context;
}

-- The figures that go up when a job is launched.
unfoldable pub launch : Job → RunState → RunState
launch job s = record s {
  state = insert job.id running s.state;
  active = suc s.active;
  class_running = insert job.class (suc (count_at job.class s.class_running)) s.class_running;
  class_served = insert job.class (suc (count_at job.class s.class_served)) s.class_served;
  used = add_resources s.used job.resources;
  task_usage =
      insert job.task_id (add_usage (usage_at job.task_id s.task_usage) job.resources) s.task_usage;
  runtime_usage =
      insert job.runtime_id (add_usage (usage_at job.runtime_id s.runtime_usage) job.resources)
        s.runtime_usage;
}

unfoldable pub figures : RunState → Figures
figures s = record {
  served = s.class_served;
  running = s.class_running;
  task_usage = s.task_usage;
  runtime_usage = s.runtime_usage;
  used = s.used;
}

unfoldable pub choose : Ratio → Config → Round → ℕ → RunState → Option Job
choose ratio config round n s =
    choose_ready ratio config (round.pressure n) (figures s) (ready_jobs s.state (round.walk n))

-- The loop `for active < s.config.MaxConcurrent`, whose argument is how many launches are left.
unfoldable pub fill : Ratio → Config → Round → ℕ → RunState → RunState
fill ratio config round zero s = s
fill ratio config round (suc n) s = elim (choose ratio config round n s) [
  | none ↦ s
  | some job ↦ fill ratio config round n (launch job s)
]

unfoldable pub filled : Ratio → Config → Round → RunState → RunState
filled ratio config round s =
    fill ratio config round (config.max_concurrent - s.active) (enter round s)

-- The figures that go down when the result of a job comes.
unfoldable pub settle : Job → Option Error → RunState → RunState
settle job error s = record s {
  active = s.active - 1;
  state = insert job.id done s.state;
  used = subtract_resources s.used job.resources;
  task_usage =
      insert job.task_id (subtract_usage (usage_at job.task_id s.task_usage) job.resources)
        s.task_usage;
  runtime_usage =
      insert job.runtime_id (subtract_usage (usage_at job.runtime_id s.runtime_usage) job.resources)
        s.runtime_usage;
  class_running = insert job.class (count_at job.class s.class_running - 1) s.class_running;
  completed = suc s.completed;
  first_err = first_error s.first_err error;
  cancelled = s.cancelled || is_some error && not (is_some s.first_err);
}

-- `select`. Only the identities of launched jobs come over the channel.
unfoldable pub receive : List Job → Event → RunState → RunState
receive jobs (finishes id error) s = elim (job_at id jobs) [
  | none ↦ s
  | some job ↦ settle job error s
]
receive jobs (observes error) s = record s { first_err = first_error s.first_err (some error) }

-- The error of a round in which nothing runs and nothing can be launched.
unfoldable pub stuck : Config → Round → RunState → Option Error
stuck config round s = first_error s.first_err (some (reason (ready_jobs s.state (round.walk 0))))
  where
    reason : List Job → Error
    reason [] = unschedulable
    reason (job ∷ jobs) = admission_error config (round.pressure 0) (job ∷ jobs)

-- The rounds of `Run`, as long as the script has one, with the state in which they end. The answer is
-- `none` when the script is too short.
unfoldable pub rounds :
    Ratio → Config → List Job → List (Round × Event) → RunState → Option (RunState × Option Error)
rounds ratio config jobs [] s =
    if ltb s.completed (length jobs) then none else some (s, s.first_err)
rounds ratio config jobs ((round, event) ∷ script) s =
    let t = filled ratio config round s in
    let rest = rounds ratio config jobs script (receive jobs event t) in
    if not (ltb s.completed (length jobs))
    then some (s, s.first_err)
    else if t.active == 0
    then some (t, stuck config round t)
    else rest

-- `Run` in front of its rounds: the error that it answers, or the state from which they start.
unfoldable pub admitted_run :
    Bool → Config → ℕ → List Bytes → List Job → Option Error × Option RunState
admitted_run has_context config fuel ids jobs =
    if not has_context
    then (some rejected, none)
    else if length jobs == 0
    then (none, none)
    else if less config.max_queued (length jobs)
    then (some backpressure, none)
    else graph (validate_graph fuel ids jobs)
  where
    graph : Verdict → Option Error × Option RunState
    graph (accepts m) = (none, some (start jobs))
    graph (refuses error) = (some error, none)
    graph unfinished = (none, none)
