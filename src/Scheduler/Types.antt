-- ===== src/Scheduler/Types.antt =====
-- The values of internal/scheduler/scheduler.go. A number of Go's is its word of 64 bits, and a count of
-- what is in memory a number.
use m3_repoworker.Prelude.{ℕ, Bool, List, Bytes, Dict, Option, none, some, lookup}

pub data Error : Type 0 where
  rejected backpressure cycle unschedulable host_pressure canceled : Error
  -- What a job's own `Run` answers.
  failed : Bytes → Error

pub record Resources : Type 0 where
  pub cpu : ℕ
  pub memory_bytes : ℕ

pub record Quota : Type 0 where
  pub cpu : ℕ
  pub memory_bytes : ℕ
  pub concurrent : ℕ

pub record HostPressure : Type 0 where
  pub available_cpu : ℕ
  pub available_memory_bytes : ℕ

pub record JobClass : Type 0 where
  pub weight : ℕ
  pub max_concurrent : ℕ

-- `has_run` says that the function `Run` is not nil.
pub record Job : Type 0 where
  pub id : Bytes
  pub task_id : Bytes
  pub runtime_id : Bytes
  pub class : Bytes
  pub resources : Resources
  pub depends_on : List Bytes
  pub has_run : Bool

-- `has_pressure` says that the function `Pressure` is not nil.
pub record Config : Type 0 where
  pub capacity : Resources
  pub max_concurrent : ℕ
  pub max_queued : ℕ
  pub classes : Dict JobClass
  pub per_task_quota : Quota
  pub per_runtime_quota : Quota
  pub has_pressure : Bool

pub record Scheduler : Type 0 where
  pub config : Config
  pub queued : List Job
  pub run : Bool

pub record Usage : Type 0 where
  pub resources : Resources
  pub concurrent : ℕ

-- The three strings that the map `state` of `Run` holds.
pub data JobState : Type 0 where
  pending running done : JobState

-- The local variables of `Run`.
pub record RunState : Type 0 where
  pub state : Dict JobState
  pub active : ℕ
  pub completed : ℕ
  pub class_served : Dict ℕ
  pub class_running : Dict ℕ
  pub task_usage : Dict Usage
  pub runtime_usage : Dict Usage
  pub used : Resources
  pub first_err : Option Error
  -- Whether `cancel` was called.
  pub cancelled : Bool

-- A map that reads zero at a missing key.
unfoldable pub count_at : Bytes → Dict ℕ → ℕ
count_at k m = elim (lookup k m) [ none ↦ 0 | some n ↦ n ]

abbrev pub no_usage : Usage
no_usage = record { resources = record { cpu = 0; memory_bytes = 0 }; concurrent = 0 }

unfoldable pub usage_at : Bytes → Dict Usage → Usage
usage_at k m = elim (lookup k m) [ none ↦ no_usage | some u ↦ u ]
