-- ===== src/Examples/SchedulerRuns.antt =====
-- Two jobs, of which the second waits for the first.
use m3_repoworker.Prelude.{
  ◌≡◌, refl, subst, ℕ, ◌<◌, ◌/◌, true, false, List, [], ◌∷◌, Bytes, text, bytes_eq, none, some,
  lookup, insert, arith, inl, inr,
}
use m3_repoworker.Go.Int64.{add, sub, less}
use m3_repoworker.Go.Order.{text_before}
use m3_repoworker.Scheduler.Types.{
  Quota, Job, Config, running, RunState, Scheduler, count_at, usage_at,
}
use m3_repoworker.Scheduler.Admission.{
  Ratio, class_of, score, before, insert_sorted, sort_stable, add_resources, subtract_resources,
  add_usage, subtract_usage, within_quota, fits_class, fits_capacity, admits, first_admitted,
  choose_ready, is_state, is_ready, ready_jobs,
}
use m3_repoworker.Scheduler.Queue.{valid_job, has_id}
use m3_repoworker.Scheduler.Graph.{
  valid_jobs, job_at, visit, visit_each, visit_roots, leave, dependencies, is_marked,
  validate_graph, accepts,
}
use m3_repoworker.Scheduler.Run.{
  Round, finishes, pending_all, start, first_error, is_some, enter, launch, figures, choose, fill,
  filled, settle, receive, rounds,
}
use m3_repoworker.Scheduler.Totals.{total}
use m3_repoworker.Scheduler.Figures.{one_each}
use m3_repoworker.Scheduler.Choice.{IsIn}
use m3_repoworker.Scheduler.Accounts.{IsSmall}
use m3_repoworker.Scheduler.Order.{all_done, is_launched}
use m3_repoworker.Scheduler.Reach.{Reaches, starts, turns, launched-done}
use m3_repoworker.Scheduler.Ending.{rounds-settled}
use m3_repoworker.Scheduler.Batch.{submits, calls, IsQueued, calls-IsQueued}

abbrev job : Bytes → List Bytes → ℕ → Job
job id deps cpu = record {
  id = id;
  task_id = text "t";
  runtime_id = text "r";
  class = text "build";
  resources = record { cpu = cpu; memory_bytes = 5 };
  depends_on = deps;
  has_run = true;
}

abbrev first : Job
first = job (text "a") [] 2

abbrev second : Job
second = job (text "b") (text "a" ∷ []) 3

abbrev jobs : List Job
jobs = second ∷ first ∷ []

abbrev quota : Quota
quota = record { cpu = 10; memory_bytes = 100; concurrent = 2 }

abbrev config : Config
config = record {
  capacity = record { cpu = 10; memory_bytes = 100 };
  max_concurrent = 2;
  max_queued = 5;
  classes = [];
  per_task_quota = quota;
  per_runtime_quota = quota;
  has_pressure = false;
}

abbrev ratio : Ratio
ratio a b = a / b

abbrev round : Round
round = record { context = none; walk = λ n. jobs; pressure = λ n id. none }

valid : valid_jobs jobs ≡ true
unfolding valid_jobs valid_job has_id less bytes_eq
valid = refl

accepted : (m : _) × (validate_graph 3 (text "b" ∷ text "a" ∷ []) jobs ≡ accepts m)
unfolding validate_graph visit_roots visit visit_each leave dependencies is_marked job_at valid_jobs
    valid_job has_id less bytes_eq lookup insert
accepted = (_, refl)

small : IsSmall config jobs
unfolding class_of lookup
small = record {
  cpu = omega arith;
  memory = omega arith;
  concurrent = omega arith;
  classes = λ name. omega arith;
  demands = λ k there. fits k there;
}
  where
    fits :
        (k : Job)
        → IsIn k jobs
        → (k.resources.cpu < 4611686018427387904) × (k.resources.memory_bytes < 4611686018427387904)
    fits k (inl same) =
        subst
          (λ j.
            (j.resources.cpu < 4611686018427387904)
            × (j.resources.memory_bytes < 4611686018427387904))
          same (omega arith, omega arith)
    fits k (inr (inl same)) =
        subst
          (λ j.
            (j.resources.cpu < 4611686018427387904)
            × (j.resources.memory_bytes < 4611686018427387904))
          same (omega arith, omega arith)
    fits k (inr (inr nowhere)) = absurd nowhere

abbrev once : RunState
once = receive jobs (finishes (text "a") none) (filled ratio config round (start jobs))

first_runs :
    is_state running (lookup (text "a") (filled ratio config round (start jobs)).state) ≡ true
unfolding filled fill enter start pending_all choose choose_ready figures ready_jobs is_ready
    is_state sort_stable insert_sorted first_admitted admits fits_class fits_capacity within_quota
    class_of usage_at count_at launch add_usage add_resources add less before score text_before
    lookup insert bytes_eq first_error is_some
first_runs = refl

second_launched : is_launched (lookup (text "b") (filled ratio config round once).state) ≡ true
unfolding receive settle job_at subtract_usage subtract_resources sub is_launched filled fill enter
    start pending_all choose choose_ready figures ready_jobs is_ready is_state sort_stable
    insert_sorted first_admitted admits fits_class fits_capacity within_quota class_of usage_at
    count_at launch add_usage add_resources add less before score text_before lookup insert bytes_eq
    first_error is_some
second_launched = refl

reached : Reaches ratio config jobs once
reached = turns round (finishes (text "a") none) starts (λ n k there. there) first_runs

abbrev both : RunState
both = receive jobs (finishes (text "b") none) (filled ratio config round once)

second_runs : is_state running (lookup (text "b") (filled ratio config round once).state) ≡ true
unfolding receive settle job_at subtract_usage subtract_resources sub is_launched filled fill enter
    start pending_all choose choose_ready figures ready_jobs is_ready is_state sort_stable
    insert_sorted first_admitted admits fits_class fits_capacity within_quota class_of usage_at
    count_at launch add_usage add_resources add less before score text_before lookup insert bytes_eq
    first_error is_some
second_runs = refl

completed :
    rounds ratio config jobs
      ((round, finishes (text "a") none) ∷ (round, finishes (text "b") none) ∷ [])
      (start jobs)
    ≡ some (both, none)
unfolding rounds receive settle job_at subtract_usage subtract_resources sub filled fill enter start
    pending_all choose choose_ready figures ready_jobs is_ready is_state sort_stable insert_sorted
    first_admitted admits fits_class fits_capacity within_quota class_of usage_at count_at launch
    add_usage add_resources add less before score text_before lookup insert bytes_eq first_error
    is_some
completed = refl

-- The sum of a job's demand and what is used wraps to a negative number, and the job fits.
wrapped :
    fits_capacity config
      (record (figures (start jobs)) { used = record { cpu = 1; memory_bytes = 5 } })
      (job (text "c") [] 9223372036854775807)
    ≡ true
unfolding fits_capacity figures start add less
wrapped = refl

launched-done_example : all_done (filled ratio config round once).state (text "a" ∷ []) ≡ true
launched-done_example =
    launched-done ratio config jobs valid round second reached (λ n k there. there) (inl refl)
      second_launched

rounds-settled_example : (both.active ≡ 0) × (total running one_each jobs both.state ≡ 0)
rounds-settled_example =
    rounds-settled ratio config jobs valid small
      ((round, finishes (text "a") none) ∷ (round, finishes (text "b") none) ∷ []) both none
      ((λ n k there. there), first_runs, ((λ n k there. there), second_runs, tt)) completed

abbrev scheduler : Scheduler
scheduler = record { config = config; queued = first ∷ []; run = false }

queued : IsQueued scheduler
unfolding valid_jobs valid_job has_id less
queued = record { small = omega arith; valid = refl; bounded = omega arith }

calls-IsQueued_example : IsQueued (calls (submits true second ∷ submits true first ∷ []) scheduler)
calls-IsQueued_example =
    calls-IsQueued (submits true second ∷ submits true first ∷ []) scheduler queued
