-- ===== src/Scheduler/Totals.antt =====
-- Sums over the jobs in a state, and how they change when the state of one job does.
use m3_repoworker.Prelude.{
  ℕ, ◌+◌, ◌≤◌, ◌≡◌, refl, sym, subst, ◌⊎◌, inl, inr, Bool, true, false, List, [], ◌∷◌, length,
  Bytes, bytes_eq, bytes_eq_iff, Option, none, some, Dict, lookup, insert, lookup-insert,
  if◌then◌else◌, arith, Bool-cases,
}
use m3_repoworker.Scheduler.Types.{Job, JobState, pending, running, done}
use m3_repoworker.Scheduler.Admission.{is_state}
use m3_repoworker.Scheduler.Queue.{has_id}
use m3_repoworker.Scheduler.Graph.{valid_jobs}
use m3_repoworker.Scheduler.Run.{pending_all}
use m3_repoworker.Scheduler.Choice.{IsIn}

-- What a job counts for, by its state.
unfoldable pub counted : JobState → (Job → ℕ) → Job → Option JobState → ℕ
counted which f job o = if is_state which o then f job else 0

unfoldable pub total : JobState → (Job → ℕ) → List Job → Dict JobState → ℕ
total which f [] state = 0
total which f (job ∷ jobs) state =
    counted which f job (lookup job.id state) + total which f jobs state

total-other :
    (which : JobState) (f : Job → ℕ) (jobs : List Job) (state : Dict JobState) (id : Bytes)
    (v : JobState)
    → has_id id jobs ≡ false
    → total which f jobs (insert id v state) ≡ total which f jobs state
unfolding total has_id
total-other which f [] state id v h = refl
total-other which f (job ∷ jobs) state id v h =
    let rest = total-other which f jobs state id v (ground arith) in
    let same : lookup job.id (insert id v state) ≡ lookup job.id state =
      ground
        (arith, lookup-insert id job.id v state, bytes_eq_iff id job.id, bytes_eq_iff job.id id) in
    rw same (rw rest refl)

pub IsIn-has_id : (job : Job) (jobs : List Job) → IsIn job jobs → has_id job.id jobs ≡ true
unfolding has_id
IsIn-has_id job [] h = absurd h
IsIn-has_id job (x ∷ xs) (inl same) = ground (arith, bytes_eq_iff x.id job.id)
IsIn-has_id job (x ∷ xs) (inr there) = ground (arith, IsIn-has_id job xs there)

total-first :
    (which : JobState) (f : Job → ℕ) (xs : List Job) (state : Dict JobState) (x : Job)
    (v : JobState)
    → has_id x.id xs ≡ false
    → total which f (x ∷ xs) (insert x.id v state) + counted which f x (lookup x.id state)
      ≡ total which f (x ∷ xs) state + counted which f x (some v)
unfolding total
total-first which f xs state x v new =
    let rest = total-other which f xs state x.id v new in
    let now : lookup x.id (insert x.id v state) ≡ some v =
      ground (arith, lookup-insert x.id x.id v state, bytes_eq_iff x.id x.id) in
    rw now (rw rest (omega arith))

apart :
    (x job : Job) (xs : List Job)
    → has_id x.id xs ≡ false
    → has_id job.id xs ≡ true
    → bytes_eq job.id x.id ≡ false
apart x job xs new old = elim (Bool-cases (bytes_eq job.id x.id)) [
  | inl same ↦ absurd (
      clash (has_id job.id xs) old
        (subst (λ k. has_id k xs ≡ false) (sym ((bytes_eq_iff job.id x.id).0 same)) new))
  | inr other ↦ other
]
  where
    clash : (b : Bool) → b ≡ true → b ≡ false → ⊥
    clash b h k = cc

-- When one of several distinct jobs changes its state, each sum changes by what the job counts for.
pub total-insert :
    (which : JobState) (f : Job → ℕ) (jobs : List Job) (state : Dict JobState) (job : Job)
    (v : JobState)
    → valid_jobs jobs ≡ true
    → IsIn job jobs
    → total which f jobs (insert job.id v state) + counted which f job (lookup job.id state)
      ≡ total which f jobs state + counted which f job (some v)
unfolding total valid_jobs
total-insert which f [] state job v valid h = absurd h
total-insert which f (x ∷ xs) state job v valid (inl same) =
    subst
      (λ k.
        total which f (x ∷ xs) (insert k.id v state) + counted which f k (lookup k.id state)
        ≡ total which f (x ∷ xs) state + counted which f k (some v))
      same (total-first which f xs state x v (ground arith))
total-insert which f (x ∷ xs) state job v valid (inr there) =
    let rest = total-insert which f xs state job v (ground arith) there in
    let other : bytes_eq job.id x.id ≡ false =
      apart x job xs (ground arith) (IsIn-has_id job xs there) in
    let kept : lookup x.id (insert job.id v state) ≡ lookup x.id state =
      ground (arith, other, lookup-insert job.id x.id v state) in
    rw kept (omega (arith, rest))

pub is_state-some :
    (which : JobState) (o : Option JobState) → is_state which o ≡ true → o ≡ some which
unfolding is_state
is_state-some pending none h = cc
is_state-some running none h = cc
is_state-some done none h = cc
is_state-some pending (some pending) h = refl
is_state-some pending (some running) h = cc
is_state-some pending (some done) h = cc
is_state-some running (some pending) h = cc
is_state-some running (some running) h = refl
is_state-some running (some done) h = cc
is_state-some done (some pending) h = cc
is_state-some done (some running) h = cc
is_state-some done (some done) h = refl

module _ (f : Job → ℕ) (jobs : List Job) (state : Dict JobState) (job : Job)
    (valid : valid_jobs jobs ≡ true) (isin : IsIn job jobs) where
  pub total_moved :
      (which from to : JobState)
      → is_state from (lookup job.id state) ≡ true
      → total which f jobs (insert job.id to state) + counted which f job (some from)
        ≡ total which f jobs state + counted which f job (some to)
  total_moved which from to h =
      subst
        (λ o.
          total which f jobs (insert job.id to state) + counted which f job o
          ≡ total which f jobs state + counted which f job (some to))
        (is_state-some from (lookup job.id state) h)
        (total-insert which f jobs state job to valid isin)

  pub total_launched :
      is_state pending (lookup job.id state) ≡ true
      → (total running f jobs (insert job.id running state) ≡ total running f jobs state + f job)
        × (total done f jobs (insert job.id running state) ≡ total done f jobs state)
  unfolding counted is_state
  total_launched h = (
    omega (arith, total_moved running pending running h),
    omega (arith, total_moved done pending running h),
  )

  pub total_settled :
      is_state running (lookup job.id state) ≡ true
      → (total running f jobs (insert job.id done state) + f job ≡ total running f jobs state)
        × (total done f jobs (insert job.id done state) ≡ total done f jobs state + f job)
  unfolding counted is_state
  total_settled h = (
    omega (arith, total_moved running running done h),
    omega (arith, total_moved done running done h),
  )

counted_once :
    (job : Job) (o : Option JobState)
    → counted running (λ job. 1) job o + counted done (λ job. 1) job o ≤ 1
unfolding counted is_state
counted_once job none = omega arith
counted_once job (some pending) = omega arith
counted_once job (some running) = omega arith
counted_once job (some done) = omega arith

-- A job counts in one state at most.
pub total-le :
    (jobs : List Job) (state : Dict JobState)
    → total running (λ job. 1) jobs state + total done (λ job. 1) jobs state ≤ length jobs
unfolding total
total-le [] state = omega arith
total-le (job ∷ jobs) state =
    omega (arith, total-le jobs state, counted_once job (lookup job.id state))

pub pending_all-lookup :
    (all : List Job) (id : Bytes)
    → (lookup id (pending_all all) ≡ none) ⊎ (lookup id (pending_all all) ≡ some pending)
unfolding pending_all lookup
pending_all-lookup [] id = inl refl
pending_all-lookup (x ∷ xs) id = elim (Bool-cases (bytes_eq x.id id)) [
  | inl same ↦ inr (ground (arith, same, lookup-insert x.id id pending (pending_all xs)))
  | inr other ↦
      (let kept : lookup id (insert x.id pending (pending_all xs)) ≡ lookup id (pending_all xs) =
          ground (arith, other, lookup-insert x.id id pending (pending_all xs)) in
        subst (λ o. (o ≡ none) ⊎ (o ≡ some pending)) (sym kept) (pending_all-lookup xs id))
]

none_counted :
    (which : JobState) (f : Job → ℕ) (job : Job) (o : Option JobState)
    → is_state which (some pending) ≡ false
    → (o ≡ none) ⊎ (o ≡ some pending)
    → counted which f job o ≡ 0
unfolding counted is_state
none_counted pending f job o h (inl e) = cc
none_counted running f job o h (inl e) = rw e refl
none_counted done f job o h (inl e) = rw e refl
none_counted which f job o h (inr e) = rw e (rw h refl)

-- Where every job is pending, nothing counts in another state.
pub total-pending :
    (which : JobState) (f : Job → ℕ) (all jobs : List Job)
    → is_state which (some pending) ≡ false
    → total which f jobs (pending_all all) ≡ 0
unfolding total
total-pending which f all [] h = refl
total-pending which f all (job ∷ jobs) h = omega (
  arith,
  total-pending which f all jobs h,
  none_counted which f job (lookup job.id (pending_all all)) h (pending_all-lookup all job.id),
)
