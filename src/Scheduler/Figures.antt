-- ===== src/Scheduler/Figures.antt =====
-- How one figure of internal/scheduler/scheduler.go moves when a job is launched and when it is settled.
use m3_repoworker.Prelude.{
  ℕ, suc, ◌+◌, ◌-◌, ◌≤◌, ◌<◌, ◌≡◌, sym, subst, ◌∙◌, ap, ◌&&◌, not, true, false, ltb, List, [], ◌∷◌,
  Bytes, bytes_eq, bytes_eq_iff, Dict, lookup, insert, lookup-insert, if◌then◌else◌, arith,
  Bool-cases, inl, inr,
}
use m3_repoworker.Go.Int64.{add, less, quarter, half, add_small, less_small}
use m3_repoworker.Scheduler.Types.{Job, Config, JobState, pending, running, RunState, count_at}
use m3_repoworker.Scheduler.Admission.{class_of, Figures, fits_class, is_state, is_ready}
use m3_repoworker.Scheduler.Run.{launch}
use m3_repoworker.Scheduler.Totals.{total, counted}

abbrev pub cpu_of : Job → ℕ
cpu_of job = job.resources.cpu

abbrev pub memory_of : Job → ℕ
memory_of job = job.resources.memory_bytes

abbrev pub one_each : Job → ℕ
one_each job = 1

unfoldable pub in_class : Bytes → Job → ℕ
in_class class job = if bytes_eq job.class class then 1 else 0

pub count_at-insert :
    (k j : Bytes) (n : ℕ) (m : Dict ℕ)
    → count_at j (insert k n m) ≡ (if bytes_eq k j then n else count_at j m)
unfolding count_at
count_at-insert k j n m = ground (arith, lookup-insert k j n m)

pub fits_cpu :
    (limit used need : ℕ)
    → limit < quarter
    → used ≤ limit
    → need < quarter
    → less limit (add used need) ≡ false
    → (add used need ≡ used + need) × (used + need ≤ limit)
fits_cpu limit used need small within few h =
    let sum : add used need ≡ used + need =
      add_small used need (omega (arith, small, within)) few in
    let fits : ltb limit (used + need) ≡ false =
      subst (λ k. ltb limit k ≡ false) sum
        (sym (
            less_small limit (add used need) (omega (arith, small))
              (omega (arith, sum, small, within, few)))
          ∙ h) in
    (sum, ground (arith, fits))

pub launched_class :
    (job : Job) (class : Bytes) (m : Dict ℕ) {before after : ℕ}
    → count_at class m ≡ before
    → after ≡ before + in_class class job
    → count_at class (insert job.class (suc (count_at job.class m)) m) ≡ after
unfolding in_class
launched_class job class m h moved = elim (Bool-cases (bytes_eq job.class class)) [
  | inl same ↦
      (let eq = (bytes_eq_iff job.class class).0 same in
        ground (
          arith,
          same,
          ap (λ k. count_at k m) eq,
          count_at-insert job.class class (suc (count_at job.class m)) m,
        ))
  | inr other ↦
      ground (arith, other, count_at-insert job.class class (suc (count_at job.class m)) m)
]

pub in_class-total :
    (class : Bytes) (jobs : List Job) (state : Dict JobState)
    → total running (in_class class) jobs state ≤ total running one_each jobs state
unfolding total counted in_class
in_class-total class [] state = omega arith
in_class-total class (job ∷ jobs) state = ground (arith, in_class-total class jobs state)

pub own_limit :
    (limit n : ℕ)
    → limit < half
    → 0 < limit
    → n < half
    → not (less 0 limit && not (less n limit)) ≡ true
    → suc n ≤ limit
own_limit limit n small limited few fits =
    ground (arith, fits, less_small 0 limit, less_small n limit)

opened :
    (config : Config) (f : Figures) (job : Job)
    → fits_class config f job ≡ true
    → not (
        less 0 (class_of config job.class).max_concurrent
        && not (less (count_at job.class f.running) (class_of config job.class).max_concurrent))
      ≡ true
unfolding fits_class
opened config f job fits = fits

-- A class that admits one more of its jobs is below its limit.
pub launched_limit :
    (config : Config) (job : Job) (class : Bytes) (f : Figures)
    → (class_of config class).max_concurrent < half
    → 0 < (class_of config class).max_concurrent
    → count_at class f.running < half
    → fits_class config f job ≡ true
    → count_at class f.running ≤ (class_of config class).max_concurrent
    → count_at class (insert job.class (suc (count_at job.class f.running)) f.running)
      ≤ (class_of config class).max_concurrent
launched_limit config job class f small limited few fits h =
    elim (Bool-cases (bytes_eq job.class class)) [
      | inl same ↦
          (let eq = (bytes_eq_iff job.class class).0 same in
            let raised : count_at class
                  (insert job.class (suc (count_at job.class f.running)) f.running)
                ≡ suc (count_at class f.running) =
              ground (
                arith,
                same,
                ap (λ k. count_at k f.running) eq,
                count_at-insert job.class class (suc (count_at job.class f.running)) f.running,
              ) in
            omega (
              arith,
              raised,
              own_limit (class_of config class).max_concurrent (count_at class f.running) small
                  limited few (class_fits config class f job eq fits),
            ))
      | inr other ↦ ground (
        arith,
        other,
        h,
        count_at-insert job.class class (suc (count_at job.class f.running)) f.running,
      )
    ]
  where
    class_fits :
        (config : Config) (class : Bytes) (f : Figures) (job : Job)
        → job.class ≡ class
        → fits_class config f job ≡ true
        → not (
            less 0 (class_of config class).max_concurrent
            && not (less (count_at class f.running) (class_of config class).max_concurrent))
          ≡ true
    class_fits config class f job eq fits =
        subst
          (λ k.
            not (
              less 0 (class_of config k).max_concurrent
              && not (less (count_at k f.running) (class_of config k).max_concurrent))
            ≡ true)
          eq (opened config f job fits)

pub settled_class :
    (job : Job) (class : Bytes) (m : Dict ℕ) {before after : ℕ}
    → count_at class m ≡ before
    → after + in_class class job ≡ before
    → count_at class (insert job.class (count_at job.class m - 1) m) ≡ after
unfolding in_class
settled_class job class m h moved = elim (Bool-cases (bytes_eq job.class class)) [
  | inl same ↦
      (let eq = (bytes_eq_iff job.class class).0 same in
        ground (
          arith,
          same,
          ap (λ k. count_at k m) eq,
          count_at-insert job.class class (count_at job.class m - 1) m,
        ))
  | inr other ↦ ground (arith, other, count_at-insert job.class class (count_at job.class m - 1) m)
]

pub settled_limit :
    (job : Job) (class : Bytes) (m : Dict ℕ) {limit : ℕ}
    → count_at class m ≤ limit
    → count_at class (insert job.class (count_at job.class m - 1) m) ≤ limit
settled_limit job class m h = elim (Bool-cases (bytes_eq job.class class)) [
  | inl same ↦
      (let eq = (bytes_eq_iff job.class class).0 same in
        ground (
          arith,
          same,
          ap (λ k. count_at k m) eq,
          count_at-insert job.class class (count_at job.class m - 1) m,
        ))
  | inr other ↦ ground (arith, other, count_at-insert job.class class (count_at job.class m - 1) m)
]

pub launched_room :
    (job : Job) (s : RunState) (n : ℕ) {limit : ℕ}
    → s.active + suc n ≤ limit
    → (launch job s).active + n ≤ limit
unfolding launch
launched_room job s n h = omega (arith, h)

pub ready_pending :
    (state : Dict JobState) (job : Job)
    → is_ready state job ≡ true
    → is_state pending (lookup job.id state) ≡ true
unfolding is_ready
ready_pending state job h = ground arith
