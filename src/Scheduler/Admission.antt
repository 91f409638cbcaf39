-- ===== src/Scheduler/Admission.antt =====
-- Which job internal/scheduler/scheduler.go launches next.
use m3_repoworker.Prelude.{
  ℕ, ◌&&◌, ◌||◌, not, Bool, true, false, ◌==◌, ltb, List, [], ◌∷◌, every, Bytes, Option, none, some,
  Dict, lookup, if◌then◌else◌,
}
use m3_repoworker.Go.Int64.{add, sub, less}
use m3_repoworker.Go.Order.{text_before}
use m3_repoworker.Scheduler.Types.{
  Error, unschedulable, host_pressure, Resources, Quota, HostPressure, JobClass, Job, Config, Usage,
  JobState, pending, running, done, count_at, usage_at,
}

-- `float64(a) / float64(b)` for a count and a positive weight: the bits of the quotient, which are in the
-- order of the quotients.
abbrev pub Ratio : Type 0
Ratio = ℕ → ℕ → ℕ

-- `class`.
unfoldable pub class_of : Config → Bytes → JobClass
class_of config name = elim (lookup name config.classes) [
  | none ↦ record { weight = 1; max_concurrent = 0 }
  | some class ↦ class
]

unfoldable pub score : Ratio → Config → Dict ℕ → Job → ℕ
score ratio config served job = ratio (count_at job.class served) (class_of config job.class).weight

-- The comparison that `chooseReady` sorts by.
unfoldable pub before : Ratio → Config → Dict ℕ → Job → Job → Bool
before ratio config served a b =
    if not (score ratio config served a == score ratio config served b)
    then ltb (score ratio config served a) (score ratio config served b)
    else text_before a.id b.id

-- A stable sort: an entry goes in front of the first one that is not before it.
unfoldable pub insert_sorted : (Job → Job → Bool) → Job → List Job → List Job
insert_sorted less x [] = x ∷ []
insert_sorted less x (y ∷ ys) =
    let rest = insert_sorted less x ys in if less y x then y ∷ rest else x ∷ y ∷ ys

unfoldable pub sort_stable : (Job → Job → Bool) → List Job → List Job
sort_stable less [] = []
sort_stable less (x ∷ xs) = insert_sorted less x (sort_stable less xs)

unfoldable pub add_resources : Resources → Resources → Resources
add_resources left right = record {
  cpu = add left.cpu right.cpu;
  memory_bytes = add left.memory_bytes right.memory_bytes;
}

unfoldable pub subtract_resources : Resources → Resources → Resources
subtract_resources left right = record {
  cpu = sub left.cpu right.cpu;
  memory_bytes = sub left.memory_bytes right.memory_bytes;
}

unfoldable pub add_usage : Usage → Resources → Usage
add_usage current resources = record {
  resources = add_resources current.resources resources;
  concurrent = add current.concurrent 1;
}

unfoldable pub subtract_usage : Usage → Resources → Usage
subtract_usage current resources = record {
  resources = subtract_resources current.resources resources;
  concurrent = sub current.concurrent 1;
}

unfoldable pub within_quota : Usage → Resources → Quota → Bool
within_quota current requested quota =
    not (less quota.cpu (add current.resources.cpu requested.cpu))
    && not (less quota.memory_bytes (add current.resources.memory_bytes requested.memory_bytes))
    && not (less quota.concurrent (add current.concurrent 1))

-- What the host answers when it is asked about a job; `none` is an error.
unfoldable pub host_admits : Resources → Option HostPressure → Bool
host_admits requested none = false
host_admits requested (some pressure) = not (
    less pressure.available_cpu requested.cpu
    || less pressure.available_memory_bytes requested.memory_bytes)

-- The figures that `chooseReady` is given.
pub record Figures : Type 0 where
  pub served : Dict ℕ
  pub running : Dict ℕ
  pub task_usage : Dict Usage
  pub runtime_usage : Dict Usage
  pub used : Resources

unfoldable pub fits_class : Config → Figures → Job → Bool
fits_class config f job =
    let class = class_of config job.class in
    not (
      less 0 class.max_concurrent && not (less (count_at job.class f.running) class.max_concurrent))

unfoldable pub fits_capacity : Config → Figures → Job → Bool
fits_capacity config f job =
    less 0 config.max_concurrent
    && not (less config.capacity.cpu (add f.used.cpu job.resources.cpu))
    && not (less config.capacity.memory_bytes (add f.used.memory_bytes job.resources.memory_bytes))

-- The body of the second loop of `chooseReady`.
unfoldable pub admits : Config → (Bytes → Option HostPressure) → Figures → Job → Bool
admits config pressure f job =
    fits_class config f job
    && fits_capacity config f job
    && within_quota (usage_at job.task_id f.task_usage) job.resources config.per_task_quota
    && within_quota (usage_at job.runtime_id f.runtime_usage) job.resources config.per_runtime_quota
    && (not config.has_pressure || host_admits job.resources (pressure job.id))

unfoldable pub first_admitted : (Job → Bool) → List Job → Option Job
first_admitted test [] = none
first_admitted test (job ∷ jobs) = if test job then some job else first_admitted test jobs

-- `chooseReady`; the host is asked about a job at most once.
unfoldable pub choose_ready :
    Ratio → Config → (Bytes → Option HostPressure) → Figures → List Job → Option Job
choose_ready ratio config pressure f ready =
    first_admitted (admits config pressure f) (sort_stable (before ratio config f.served) ready)

-- `state[id] == s`; a missing key is no state.
unfoldable pub is_state : JobState → Option JobState → Bool
is_state s none = false
is_state pending (some pending) = true
is_state running (some running) = true
is_state done (some done) = true
is_state s (some t) = false

unfoldable pub is_ready : Dict JobState → Job → Bool
is_ready state job =
    is_state pending (lookup job.id state)
    && every (λ dep. is_state done (lookup dep state)) job.depends_on

-- `readyJobs`, over the jobs as the map is walked.
unfoldable pub ready_jobs : Dict JobState → List Job → List Job
ready_jobs state [] = []
ready_jobs state (job ∷ jobs) =
    let rest = ready_jobs state jobs in if is_ready state job then job ∷ rest else rest

-- `admissionError`.
unfoldable pub admission_error : Config → (Bytes → Option HostPressure) → List Job → Error
admission_error config pressure [] = unschedulable
admission_error config pressure (job ∷ jobs) =
    let rest = admission_error config pressure jobs in
    if less config.capacity.cpu job.resources.cpu
      || less config.capacity.memory_bytes job.resources.memory_bytes
    then unschedulable
    else if config.has_pressure && refuses job.resources (pressure job.id)
    then host_pressure
    else rest
  where
    refuses : Resources → Option HostPressure → Bool
    refuses requested none = false
    refuses requested (some p) =
        less p.available_cpu requested.cpu || less p.available_memory_bytes requested.memory_bytes
