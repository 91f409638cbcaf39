-- ===== src/Scheduler/Reach.antt =====
-- The states that `Run` of internal/scheduler/scheduler.go reaches, and what holds in each.
use m3_repoworker.Prelude.{
  ℕ, ◌+◌, ◌-◌, ◌≤◌, ◌≡◌, refl, sym, subst, ap, ◌∙◌, true, List, [], ◌∷◌, Bytes, bytes_eq,
  bytes_eq_iff, Option, none, some, lookup, arith, Bool-cases, inl, inr,
}
use m3_repoworker.Scheduler.Types.{Job, Config, running, RunState}
use m3_repoworker.Scheduler.Admission.{Ratio, is_state}
use m3_repoworker.Scheduler.Graph.{valid_jobs, job_at}
use m3_repoworker.Scheduler.Run.{
  Round, Event, finishes, observes, start, enter, filled, settle, receive,
}
use m3_repoworker.Scheduler.Choice.{IsIn}
use m3_repoworker.Scheduler.Accounts.{
  IsSmall, IsAccounted, start-IsAccounted, fill-IsAccounted, settle-IsAccounted,
}
use m3_repoworker.Scheduler.Order.{
  all_done, is_launched, IsOrdered, start-IsOrdered, fill-IsOrdered, settle-IsOrdered,
}

-- The walks of a round are walks through the jobs.
abbrev pub IsWalk : List Job → Round → Type 0
IsWalk jobs round = (n : ℕ) (job : Job) → IsIn job (round.walk n) → IsIn job jobs

-- A result comes from a job that runs.
abbrev pub IsLegal : Event → RunState → Type 0
IsLegal (finishes id error) s = is_state running (lookup id s.state) ≡ true
IsLegal (observes error) s = Unit

-- The states at the start of a round.
pub data Reaches (ratio : Ratio) (config : Config) (jobs : List Job) : RunState → Type 0 where
  starts : Reaches ratio config jobs (start jobs)
  turns :
      {s : RunState} (round : Round) (event : Event)
      → Reaches ratio config jobs s
      → IsWalk jobs round
      → IsLegal event (filled ratio config round s)
      → Reaches ratio config jobs (receive jobs event (filled ratio config round s))

job_at-some :
    (id : Bytes) (jobs : List Job) (job : Job)
    → job_at id jobs ≡ some job
    → IsIn job jobs × (job.id ≡ id)
unfolding job_at
job_at-some id [] job h = cc
job_at-some id (x ∷ xs) job h = elim (Bool-cases (bytes_eq x.id id)) [
  | inl same ↦
      (let eq : x ≡ job = ground (arith, same, h) in
        (inl eq, ap (λ k. k.id) (sym eq) ∙ (bytes_eq_iff x.id id).0 same))
  | inr other ↦
      (let rest = job_at-some id xs job (ground (arith, other, h)) in (inr rest.0, rest.1))
]

module _ (ratio : Ratio) (config : Config) (jobs : List Job) (valid : valid_jobs jobs ≡ true)
    (small : IsSmall config jobs) where
  enter-IsAccounted :
      (round : Round) (s : RunState)
      → IsAccounted config jobs s
      → IsAccounted config jobs (enter round s)
  unfolding enter
  enter-IsAccounted round s h = record {
    active = h.active;
    completed = h.completed;
    cpu = h.cpu;
    memory = h.memory;
    classes = h.classes;
    within_max = h.within_max;
    within_cpu = h.within_cpu;
    within_memory = h.within_memory;
    within_class = h.within_class;
  }

  pub filled-IsAccounted :
      (round : Round) (s : RunState)
      → IsWalk jobs round
      → IsAccounted config jobs s
      → IsAccounted config jobs (filled ratio config round s)
  unfolding filled enter
  filled-IsAccounted round s walks h =
      fill-IsAccounted config jobs valid small ratio round (config.max_concurrent - s.active)
        (enter round s) walks (enter_room round s h.within_max) (enter-IsAccounted round s h)
    where
      enter_room :
          (round : Round) (s : RunState)
          → s.active ≤ config.max_concurrent
          → (enter round s).active + (config.max_concurrent - s.active) ≤ config.max_concurrent
      enter_room round s h = omega (arith, h)

  receive-IsAccounted :
      (event : Event) (s : RunState)
      → IsLegal event s
      → IsAccounted config jobs s
      → IsAccounted config jobs (receive jobs event s)
  unfolding receive
  receive-IsAccounted (finishes id error) s legal h = go (job_at id jobs) refl
    where
      go :
          (o : Option Job)
          → job_at id jobs ≡ o
          → IsAccounted config jobs (elim o [ none ↦ s | some job ↦ settle job error s ])
      go none found = h
      go (some job) found =
          let at = job_at-some id jobs job found in
          settle-IsAccounted config jobs valid small job error s at.0
            (subst (λ k. is_state running (lookup k s.state) ≡ true) (sym at.1) legal) h
  receive-IsAccounted (observes error) s legal h = record {
    active = h.active;
    completed = h.completed;
    cpu = h.cpu;
    memory = h.memory;
    classes = h.classes;
    within_max = h.within_max;
    within_cpu = h.within_cpu;
    within_memory = h.within_memory;
    within_class = h.within_class;
  }

  pub Reaches-IsAccounted : {s : RunState} → Reaches ratio config jobs s → IsAccounted config jobs s
  Reaches-IsAccounted starts = start-IsAccounted config jobs valid small
  Reaches-IsAccounted (turns {s} round event before walks legal) =
      receive-IsAccounted event (filled ratio config round s) legal
        (filled-IsAccounted round s walks (Reaches-IsAccounted before))

module _ (ratio : Ratio) (config : Config) (jobs : List Job) (valid : valid_jobs jobs ≡ true) where
  receive-IsOrdered :
      (event : Event) (s : RunState)
      → IsLegal event s
      → IsOrdered jobs s.state
      → IsOrdered jobs (receive jobs event s).state
  unfolding receive settle
  receive-IsOrdered (finishes id error) s legal h = go (job_at id jobs) refl
    where
      go :
          (o : Option Job)
          → job_at id jobs ≡ o
          → IsOrdered jobs
              (elim o as (λ x. RunState) [ none ↦ s | some job ↦ settle job error s ]).state
      go none found = h
      go (some job) found =
          let at = job_at-some id jobs job found in
          settle-IsOrdered jobs valid job s.state at.0
            (subst (λ k. is_state running (lookup k s.state) ≡ true) (sym at.1) legal) h
  receive-IsOrdered (observes error) s legal h = h

  filled-IsOrdered :
      (round : Round) (s : RunState)
      → IsWalk jobs round
      → IsOrdered jobs s.state
      → IsOrdered jobs (filled ratio config round s).state
  unfolding filled enter
  filled-IsOrdered round s walks h =
      fill-IsOrdered jobs valid ratio config round (config.max_concurrent - s.active)
        (enter round s) walks h

  Reaches-IsOrdered : {s : RunState} → Reaches ratio config jobs s → IsOrdered jobs s.state
  unfolding start
  Reaches-IsOrdered starts = start-IsOrdered jobs jobs
  Reaches-IsOrdered (turns {s} round event before walks legal) =
      receive-IsOrdered event (filled ratio config round s) legal
        (filled-IsOrdered round s walks (Reaches-IsOrdered before))

  -- A job that was launched, whether it still runs or is done, has all its dependencies done.
  pub launched-done :
      {s : RunState} (round : Round) (job : Job)
      → Reaches ratio config jobs s
      → IsWalk jobs round
      → IsIn job jobs
      → is_launched (lookup job.id (filled ratio config round s).state) ≡ true
      → all_done (filled ratio config round s).state job.depends_on ≡ true
  unfolding IsOrdered
  launched-done {s} round job reached walks isin launched =
      filled-IsOrdered round s walks (Reaches-IsOrdered reached) job isin launched
