-- ===== src/Loop/Termination.antt =====
-- The loop ends: every turn but the last brings it nearer to a stop.
use m3_repoworker.Prelude.{
  ◌≡◌, ◌≢◌, ℕ, suc, zero, ◌+◌, ◌*◌, ◌-◌, ◌<◌, true, ◌||◌, not, Bytes, is_empty, ltb, length, Option,
  none, some, arith, Bool-cases, inl, inr,
}
use m3_repoworker.Loop.Types.{
  Phase, inspect, hypothesis, plan, parallel_commands, patch_candidate, targeted_test,
  diagnose_retry, full_verify, checkpoint, completed, failed, human_checkpoint, other, Binding,
  Action, Plan, Failure, State, Cause, Error, Answer, answered, refused, no_state,
}
use m3_repoworker.Loop.Services.{Services}
use m3_repoworker.Loop.Plans.{valid_binding, runnable, repeated_plan}
use m3_repoworker.Loop.Controller.{
  Next, continue, return, persisted, inspected, planned, diagnosed, diagnose, refreshed, refresh,
  rebound, patched, marked, saved, checkpointed, record_failure, after_call, turn, settle, guarded,
  iteration, go_on, loop,
}
use m3_repoworker.Loop.Rule.{OnNext, stop-On, fail-On, record_failure-On, after_call-On}

-- The turns that an attempt can still take in a phase.
abbrev rank : Phase → ℕ
rank inspect = 9
rank hypothesis = 8
rank plan = 7
rank parallel_commands = 6
rank patch_candidate = 5
rank targeted_test = 4
rank full_verify = 3
rank checkpoint = 2
rank diagnose_retry = 1
rank _ = 0

module _ {S : Type 0} (services : Services S) (max_retries : ℕ) (run_id : Bytes) where
  abbrev measure : State → ℕ
  measure state = 6 * (max_retries - state.retry_count) + rank state.phase

  -- The next state's measure is below `n`.
  abbrev Below : ℕ → Binding → State → S → Type 0
  Below n binding state w = measure state < n

  abbrev AnyEnd : State → Option Error → S → Type 0
  AnyEnd state e w = Unit

  abbrev Descends : ℕ → Next × S → Type 0
  Descends n = OnNext (Below n) AnyEnd

  any_end : (e : Error) (w : S) → AnyEnd no_state (some e) w
  any_end e w = tt

  module _ (b : Binding) (s : State) (n : ℕ) where
    inspected-Descends :
        (r : Answer Bytes × S)
        → measure (record s { phase = hypothesis }) < n
        → Descends n (inspected services max_retries run_id b s r)
    unfolding inspected
    inspected-Descends (refused cause, w) h =
        fail-On services max_retries run_id (Below n) AnyEnd any_end _ _ _ _ cause w (λ f v. tt)
    inspected-Descends (answered found, w) h =
        elim (Bool-cases (is_empty found || ltb 4096 (length found))) [
          | inl bad ↦ rw bad tt
          | inr good ↦ rw good h
        ]

    planned-Descends :
        (r : Answer Plan × S)
        → measure (record s { phase = parallel_commands }) < n
        → Descends n (planned services max_retries run_id b s r)
    unfolding planned
    planned-Descends (refused cause, w) h =
        fail-On services max_retries run_id (Below n) AnyEnd any_end _ _ _ _ cause w (λ f v. tt)
    planned-Descends (answered proposal, w) h = elim (Bool-cases (runnable proposal b)) [
      | inl good ↦ rw good h
      | inr bad ↦
          rw bad (stop-On services max_retries run_id (Below n) AnyEnd any_end _ s _ w (λ v. tt))
    ]

    diagnosed-Descends :
        (r : Answer Plan × S)
        → measure (record s { phase = parallel_commands; retry_count = suc s.retry_count }) < n
        → Descends n (diagnosed services max_retries run_id b s r)
    unfolding diagnosed
    diagnosed-Descends (refused cause, w) h =
        fail-On services max_retries run_id (Below n) AnyEnd any_end _ _ _ _ cause w (λ f v. tt)
    diagnosed-Descends (answered proposal, w) h =
        elim (Bool-cases (not (runnable proposal b) || repeated_plan proposal s.failed_actions)) [
          | inl bad ↦
              rw bad
                (stop-On services max_retries run_id (Below n) AnyEnd any_end _ s _ w (λ v. tt))
          | inr good ↦ rw good h
        ]

    rebound-Descends :
        (r : Option Cause × S)
        → measure (record s { phase = targeted_test }) < n
        → Descends n (rebound services max_retries run_id b s r)
    unfolding rebound
    rebound-Descends (none, w) h = h
    rebound-Descends (some cause, w) h = tt

    marked-Descends :
        (r : Option Cause × S)
        → measure (record s { phase = completed }) < n
        → Descends n (marked services max_retries run_id b s r)
    unfolding marked
    marked-Descends (none, w) h = h
    marked-Descends (some cause, w) h = tt

    saved-Descends :
        (r : Option Cause × S)
        → measure (record s { phase = completed }) < n
        → Descends n (saved services max_retries run_id b s r)
    unfolding saved
    saved-Descends (none, w) h = marked-Descends (services.update_run_status run_id _ w) h
    saved-Descends (some cause, w) h = tt

    failure-Descends :
        (failure : Failure) (w : S)
        → measure (record s { phase = diagnose_retry }) < n
        → Descends n (record_failure services max_retries run_id b s failure w)
    failure-Descends failure w h =
        record_failure-On services max_retries run_id (Below n) AnyEnd any_end b s failure w
          (λ v. tt) (λ known. h)

    call-Descends :
        (action : Action) (next : Phase) (r : Option Cause × S)
        → measure (record s { phase = diagnose_retry }) < n
        → measure (record s { phase = next }) < n
        → Descends n (after_call services max_retries run_id b s action next r)
    call-Descends action next r h k =
        after_call-On services max_retries run_id (Below n) AnyEnd any_end b s action next r
          (λ v. tt) (λ failure known. h) (λ e. k)

  module _ (b : Binding) (s : State) (n : ℕ) where
    checkpointed-Descends :
        (r : Option Cause × S)
        → measure (record s { phase = diagnose_retry }) < n
        → measure (record s { phase = completed }) < n
        → Descends n (checkpointed services max_retries run_id b s r)
    unfolding checkpointed
    checkpointed-Descends (none, w) h k = saved-Descends b (record s { checkpoint_id = _ }) n _ k
    checkpointed-Descends (some cause, w) h k = call-Descends b s n _ completed (some cause, w) h k

    refreshed-Descends :
        (r : Answer Binding × S)
        → measure (record s { phase = diagnose_retry }) < n
        → measure (record s { phase = targeted_test }) < n
        → Descends n (refreshed services max_retries run_id b s r)
    unfolding refreshed
    refreshed-Descends (refused cause, w) h k = failure-Descends b s n _ w h
    refreshed-Descends (answered fresh, w) h k = elim (Bool-cases (valid_binding fresh)) [
      | inl good ↦ rw good (rebound-Descends fresh (record s { binding = fresh; plan = _ }) n _ k)
      | inr bad ↦ rw bad (failure-Descends b s n _ w h)
    ]

    refresh-Descends :
        (refresher : Option (Binding → S → Answer Binding × S)) (w : S)
        → measure (record s { phase = diagnose_retry }) < n
        → measure (record s { phase = targeted_test }) < n
        → Descends n (refresh services max_retries run_id refresher b s w)
    unfolding refresh
    refresh-Descends none w h k = k
    refresh-Descends (some refresher) w h k = refreshed-Descends _ h k

    patched-Descends :
        (r : Option Cause × S)
        → measure (record s { phase = diagnose_retry }) < n
        → measure (record s { phase = targeted_test }) < n
        → Descends n (patched services max_retries run_id b s r)
    unfolding patched
    patched-Descends (none, w) h k = refresh-Descends services.refresh_binding w h k
    patched-Descends (some cause, w) h k = call-Descends b s n _ targeted_test (some cause, w) h k

    diagnose-Descends :
        (w : S)
        → 6 * (max_retries - s.retry_count) + 1 < suc n
        → Descends n (diagnose services max_retries run_id b s w)
    unfolding diagnose
    diagnose-Descends w h = elim (Bool-cases (ltb s.retry_count max_retries)) [
      | inl room ↦ rw room (diagnosed-Descends b s n _ (fewer room))
      | inr full ↦
          rw full (stop-On services max_retries run_id (Below n) AnyEnd any_end _ s _ w (λ v. tt))
    ]
      where
        fewer : ltb s.retry_count max_retries ≡ true → 6 * (max_retries - suc s.retry_count) + 6 < n
        fewer room = ground (arith, h)

    turn-Descends :
        (phase : Phase) (w : S)
        → 6 * (max_retries - s.retry_count) + rank phase < suc n
        → Descends n (turn services max_retries run_id phase b s w)
    unfolding turn
    turn-Descends inspect w h = inspected-Descends b s n _ (omega (arith, h))
    turn-Descends hypothesis w h = omega (arith, h)
    turn-Descends plan w h = planned-Descends b s n _ (omega (arith, h))
    turn-Descends parallel_commands w h =
        call-Descends b s n _ patch_candidate _ (omega (arith, h)) (omega (arith, h))
    turn-Descends patch_candidate w h = patched-Descends _ (omega (arith, h)) (omega (arith, h))
    turn-Descends targeted_test w h =
        call-Descends b s n _ full_verify _ (omega (arith, h)) (omega (arith, h))
    turn-Descends diagnose_retry w h = diagnose-Descends w h
    turn-Descends full_verify w h =
        call-Descends b s n _ checkpoint _ (omega (arith, h)) (omega (arith, h))
    turn-Descends checkpoint w h = checkpointed-Descends _ (omega (arith, h)) (omega (arith, h))
    turn-Descends completed w h = tt
    turn-Descends failed w h = tt
    turn-Descends human_checkpoint w h = tt
    turn-Descends (other _) w h = tt

  persisted-Descends :
      (n : ℕ) (b : Binding) (s : State) (r : Option Error × S)
      → measure s < n
      → Descends n (persisted services max_retries run_id b s r)
  unfolding persisted
  persisted-Descends n b s (none, w) h = h
  persisted-Descends n b s (some e, w) h = tt

  settle-Descends :
      (n : ℕ) (r : Next × S) → Descends n r → Descends n (settle services max_retries run_id r)
  unfolding settle
  settle-Descends n (continue b s, w) h = persisted-Descends n b s _ h
  settle-Descends n (return s e, w) h = tt

  guarded-Descends :
      (e : Option Cause) (b : Binding) (s : State) (w : S)
      → Descends (measure s) (guarded services max_retries run_id e b s w)
  unfolding guarded
  guarded-Descends none b s w =
      settle-Descends (measure s) _ (turn-Descends b s (measure s) s.phase w (omega arith))
  guarded-Descends (some cause) b s w = tt

  go_on_returns :
      (n : ℕ) (rest : Binding → State → S → Option (State × Option Error) × S)
      → ((b : Binding) (s : State) (w : S) → measure s < n → (rest b s w).0 ≢ none)
      → (r : Next × S) → Descends n r
      → (go_on rest r).0 ≢ none
  unfolding go_on
  go_on_returns n rest later (continue b s, w) h = later b s w h
  go_on_returns n rest later (return s e, w) h = λ x. cc

  -- The loop gets to an end within the turns that the state's measure allows.
  pub loop_returns :
      (turns : ℕ) (b : Binding) (s : State) (w : S)
      → measure s < turns
      → (loop services max_retries run_id turns b s w).0 ≢ none
  unfolding loop iteration
  loop_returns zero b s w h = absurd (omega (arith, h))
  loop_returns (suc turns) b s w h =
      go_on_returns (measure s) (loop services max_retries run_id turns)
        (λ c t v k. loop_returns turns c t v (omega (arith, h, k)))
        (iteration services max_retries run_id b s w) (guarded-Descends (services.ctx_err w) b s w)
