-- ===== src/Scheduler/Accounts.antt =====
-- What the figures of `Run` in internal/scheduler/scheduler.go say of the jobs that run.
use m3_repoworker.Prelude.{
  ℕ, zero, suc, ◌+◌, ◌-◌, ◌≤◌, ◌<◌, ◌≡◌, refl, sym, true, List, Bytes, Option, none, some, lookup,
  insert, arith,
}
use m3_repoworker.Go.Int64.{sub, quarter, half, sub_small}
use m3_repoworker.Scheduler.Types.{
  Error, HostPressure, Job, Config, pending, running, done, RunState, count_at,
}
use m3_repoworker.Scheduler.Admission.{
  Ratio, add_resources, subtract_resources, class_of, admits, fits_capacity, is_state,
}
use m3_repoworker.Scheduler.Graph.{valid_jobs}
use m3_repoworker.Scheduler.Run.{Round, start, launch, figures, choose, fill, settle}
use m3_repoworker.Scheduler.Choice.{IsIn, choose-admitted}
use m3_repoworker.Scheduler.Totals.{total, total_launched, total_settled, total-pending}
use m3_repoworker.Scheduler.Figures.{
  cpu_of, memory_of, one_each, in_class, fits_cpu, launched_class, in_class-total, launched_limit,
  settled_class, settled_limit, launched_room, ready_pending,
}

-- No sum of two of the numbers wraps.
pub record IsSmall (config : Config) (jobs : List Job) : Type 0 where
  pub cpu : config.capacity.cpu < quarter
  pub memory : config.capacity.memory_bytes < quarter
  pub concurrent : config.max_concurrent < half
  pub classes : (name : Bytes) → (class_of config name).max_concurrent < half
  pub demands :
      (job : Job)
      → IsIn job jobs
      → (job.resources.cpu < quarter) × (job.resources.memory_bytes < quarter)

-- The figures are those of the jobs that run, and within what is configured.
pub record IsAccounted (config : Config) (jobs : List Job) (s : RunState) : Type 0 where
  pub active : s.active ≡ total running one_each jobs s.state
  pub completed : s.completed ≡ total done one_each jobs s.state
  pub cpu : s.used.cpu ≡ total running cpu_of jobs s.state
  pub memory : s.used.memory_bytes ≡ total running memory_of jobs s.state
  pub classes :
      (class : Bytes) → count_at class s.class_running ≡ total running (in_class class) jobs s.state
  pub within_max : s.active ≤ config.max_concurrent
  pub within_cpu : s.used.cpu ≤ config.capacity.cpu
  pub within_memory : s.used.memory_bytes ≤ config.capacity.memory_bytes
  pub within_class :
      (class : Bytes)
      → 0 < (class_of config class).max_concurrent
      → count_at class s.class_running ≤ (class_of config class).max_concurrent

module _ (config : Config) (jobs : List Job) (valid : valid_jobs jobs ≡ true)
    (small : IsSmall config jobs) where
  pub start-IsAccounted : IsAccounted config jobs (start jobs)
  unfolding start is_state count_at lookup
  start-IsAccounted = record {
    active = sym (total-pending running one_each jobs jobs refl);
    completed = sym (total-pending done one_each jobs jobs refl);
    cpu = sym (total-pending running cpu_of jobs jobs refl);
    memory = sym (total-pending running memory_of jobs jobs refl);
    classes = λ class. sym (total-pending running (in_class class) jobs jobs refl);
    within_max = omega arith;
    within_cpu = omega arith;
    within_memory = omega arith;
    within_class = λ class h. omega arith;
  }

  few :
      (s : RunState)
      → IsAccounted config jobs s
      → (class : Bytes) → count_at class s.class_running < half
  few s h class = omega (
    arith,
    h.classes class,
    h.active,
    h.within_max,
    small.concurrent,
    in_class-total class jobs s.state,
  )

  launch-IsAccounted :
      (pressure : Bytes → Option HostPressure) (job : Job) (s : RunState)
      → IsIn job jobs
      → is_state pending (lookup job.id s.state) ≡ true
      → admits config pressure (figures s) job ≡ true
      → s.active < config.max_concurrent
      → IsAccounted config jobs s
      → IsAccounted config jobs (launch job s)
  unfolding launch add_resources admits fits_capacity figures
  launch-IsAccounted pressure job s isin ready admitted room h =
      let moved : (f : Job → ℕ)
          → (total running f jobs (insert job.id running s.state)
              ≡ total running f jobs s.state + f job)
            × (total done f jobs (insert job.id running s.state) ≡ total done f jobs s.state) =
        λ f. total_launched f jobs s.state job valid isin ready in
      let demand = small.demands job isin in
      let cpu =
        fits_cpu config.capacity.cpu s.used.cpu job.resources.cpu small.cpu h.within_cpu demand.0
          (ground (arith, admitted)) in
      let memory =
        fits_cpu config.capacity.memory_bytes s.used.memory_bytes job.resources.memory_bytes
          small.memory h.within_memory demand.1 (ground (arith, admitted)) in
      record {
        active = omega (arith, h.active, (moved one_each).0);
        completed = omega (arith, h.completed, (moved one_each).1);
        cpu = omega (arith, h.cpu, (moved cpu_of).0, cpu.0);
        memory = omega (arith, h.memory, (moved memory_of).0, memory.0);
        classes = λ class.
            launched_class job class s.class_running (h.classes class) (moved (in_class class)).0;
        within_max = room;
        within_cpu = omega (arith, cpu.0, cpu.1);
        within_memory = omega (arith, memory.0, memory.1);
        within_class = λ class limited.
            launched_limit config job class (figures s) (small.classes class) limited
              (few s h class) (ground (arith, admitted)) (h.within_class class limited);
      }

  pub fill-IsAccounted :
      (ratio : Ratio) (round : Round) (n : ℕ) (s : RunState)
      → ((k : ℕ) (job : Job) → IsIn job (round.walk k) → IsIn job jobs)
      → s.active + n ≤ config.max_concurrent
      → IsAccounted config jobs s
      → IsAccounted config jobs (fill ratio config round n s)
  unfolding fill
  fill-IsAccounted ratio round zero s walks room h = h
  fill-IsAccounted ratio round (suc n) s walks room h =
      go (choose ratio config round n s) refl
        (λ job. fill-IsAccounted ratio round n (launch job s) walks)
    where
      go :
          (o : Option Job)
          → choose ratio config round n s ≡ o
          → ((job : Job)
              → (launch job s).active + n ≤ config.max_concurrent
              → IsAccounted config jobs (launch job s)
              → IsAccounted config jobs (fill ratio config round n (launch job s)))
          → IsAccounted config jobs
              (elim o [ none ↦ s | some job ↦ fill ratio config round n (launch job s) ])
      go none chosen rest = h
      go (some job) chosen rest =
          let facts = choose-admitted ratio config round n s job chosen in
          rest job (launched_room job s n room) (
            launch-IsAccounted (round.pressure n) job s (walks n job facts.0)
              (ready_pending s.state job facts.1) facts.2 (omega (arith, room)) h)

  pub settle-IsAccounted :
      (job : Job) (error : Option Error) (s : RunState)
      → IsIn job jobs
      → is_state running (lookup job.id s.state) ≡ true
      → IsAccounted config jobs s
      → IsAccounted config jobs (settle job error s)
  unfolding settle subtract_resources
  settle-IsAccounted job error s isin runs h =
      let moved : (f : Job → ℕ)
          → (total running f jobs (insert job.id done s.state) + f job
              ≡ total running f jobs s.state)
            × (total done f jobs (insert job.id done s.state) ≡ total done f jobs s.state + f job) =
        λ f. total_settled f jobs s.state job valid isin runs in
      let cpu : sub s.used.cpu job.resources.cpu ≡ s.used.cpu - job.resources.cpu =
        sub_small s.used.cpu job.resources.cpu (omega (arith, h.within_cpu, small.cpu))
          (omega (arith, h.cpu, (moved cpu_of).0)) in
      let memory : sub s.used.memory_bytes job.resources.memory_bytes
          ≡ s.used.memory_bytes - job.resources.memory_bytes =
        sub_small s.used.memory_bytes job.resources.memory_bytes
          (omega (arith, h.within_memory, small.memory))
          (omega (arith, h.memory, (moved memory_of).0)) in
      record {
        active = omega (arith, h.active, (moved one_each).0);
        completed = omega (arith, h.completed, (moved one_each).1);
        cpu = omega (arith, h.cpu, cpu, (moved cpu_of).0);
        memory = omega (arith, h.memory, memory, (moved memory_of).0);
        classes = λ class.
            settled_class job class s.class_running (h.classes class) (moved (in_class class)).0;
        within_max = omega (arith, h.within_max);
        within_cpu = omega (arith, h.within_cpu, cpu);
        within_memory = omega (arith, h.within_memory, memory);
        within_class =
            λ class limited. settled_limit job class s.class_running (h.within_class class limited);
      }
