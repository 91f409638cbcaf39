-- ===== src/Scheduler/Batch.antt =====
-- What `Submit` of internal/scheduler/scheduler.go lets into the queue.
use m3_repoworker.Prelude.{
  ℕ, ◌≤◌, ◌<◌, ◌≡◌, refl, sym, ◌∙◌, ◌||◌, not, Bool, true, false, ltb, ltb→lt, List, [], ◌∷◌, ◌++◌,
  length, length-append, Bytes, bytes_eq, bytes_eq_iff, none, if◌then◌else◌, arith,
}
use m3_repoworker.Go.Int64.{less, half, less_small}
use m3_repoworker.Scheduler.Types.{Job, Scheduler}
use m3_repoworker.Scheduler.Queue.{valid_job, has_id, submit, take_submitted, finish_submitted}
use m3_repoworker.Scheduler.Graph.{valid_jobs}

-- A call of the scheduler's methods; a run of the submitted jobs takes two steps.
pub data Call : Type 0 where
  submits : Bool → Job → Call
  takes finishes : Call

unfoldable pub call : Call → Scheduler → Scheduler
call (submits live job) s = (submit live job s).1
call takes s = (take_submitted s).1
call finishes s = finish_submitted s

unfoldable pub calls : List Call → Scheduler → Scheduler
calls [] s = s
calls (c ∷ cs) s = calls cs (call c s)

-- The queue passes the first checks of `Run`.
pub record IsQueued (s : Scheduler) : Type 0 where
  pub small : s.config.max_queued < half
  pub valid : valid_jobs s.queued ≡ true
  pub bounded : length s.queued ≤ s.config.max_queued

has_id-append :
    (id : Bytes) (xs : List Job) (job : Job)
    → has_id id (xs ++ job ∷ []) ≡ (has_id id xs || bytes_eq job.id id)
unfolding has_id
has_id-append id [] job = ground arith
has_id-append id (x ∷ xs) job = ground (arith, has_id-append id xs job)

valid_jobs-append :
    (xs : List Job) (job : Job)
    → valid_jobs xs ≡ true
    → valid_job job ≡ true
    → has_id job.id xs ≡ false
    → valid_jobs (xs ++ job ∷ []) ≡ true
unfolding valid_jobs has_id
valid_jobs-append [] job h k new = ground arith
valid_jobs-append (x ∷ xs) job h k new = ground (
  arith,
  valid_jobs-append xs job,
  has_id-append x.id xs job,
  bytes_eq_iff x.id job.id,
  bytes_eq_iff job.id x.id,
)

if-IsQueued :
    {R : Type 0} (test : Bool) (x y : R × Scheduler)
    → IsQueued x.1
    → (test ≡ false → IsQueued y.1)
    → IsQueued (if test then x else y).1
if-IsQueued true x y h k = h
if-IsQueued false x y h k = k refl

one_more :
    (xs : List Job) (job : Job) (most : ℕ)
    → most < half
    → length xs ≤ most
    → less (length xs) most ≡ true
    → length (xs ++ job ∷ []) ≤ most
one_more xs job most small within room =
    let below : ltb (length xs) most ≡ true =
      sym (less_small (length xs) most (omega (arith, small, within)) small) ∙ room in
    omega (arith, length-append xs (job ∷ []), ltb→lt (length xs) most below)

submit-IsQueued :
    (live : Bool) (job : Job) (s : Scheduler) → IsQueued s → IsQueued (submit live job s).1
unfolding submit
submit-IsQueued live job s h = if-IsQueued (not live || s.run || not (valid_job job)) _ _ h (λ fine.
    if-IsQueued (not (less (length s.queued) s.config.max_queued)) _ _ h (λ room.
      if-IsQueued (has_id job.id s.queued) _ _ h (λ new. record {
        small = h.small;
        valid = valid_jobs-append s.queued job h.valid (ground (arith, fine)) new;
        bounded =
            one_more s.queued job s.config.max_queued h.small h.bounded (ground (arith, room));
      })))

call-IsQueued : (c : Call) (s : Scheduler) → IsQueued s → IsQueued (call c s)
unfolding call take_submitted finish_submitted valid_jobs
call-IsQueued (submits live job) s h = submit-IsQueued live job s h
call-IsQueued takes s h =
    if-IsQueued s.run (none, s) _ h
      (λ idle. record { small = h.small; valid = refl; bounded = omega arith })
call-IsQueued finishes s h = record { small = h.small; valid = h.valid; bounded = h.bounded }

-- Whatever calls come, the queue holds valid jobs with distinct identities, and no more than MaxQueued.
pub calls-IsQueued : (cs : List Call) (s : Scheduler) → IsQueued s → IsQueued (calls cs s)
unfolding calls
calls-IsQueued [] s h = h
calls-IsQueued (c ∷ cs) s h = calls-IsQueued cs (call c s) (call-IsQueued c s h)
