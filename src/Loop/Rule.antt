-- ===== src/Loop/Rule.antt =====
-- The rule by which a property of the loop's states and a property of what it returns are carried from turn to
-- turn.
use m3_repoworker.Prelude.{
  ◌≡◌, refl, ℕ, suc, zero, false, ◌||◌, [], ◌∷◌, ◌++◌, Bytes, is_empty, Option, none, some, arith,
  Bool-cases, inl, inr,
}
use m3_repoworker.Loop.Types.{
  Phase, failed, diagnose_retry, Binding, Action, Failure, State, Cause, Error, retry_exhausted,
  from_cause, no_state,
}
use m3_repoworker.Loop.Services.{Services}
use m3_repoworker.Loop.Plans.{action_fingerprint, contains_fingerprint}
use m3_repoworker.Loop.Controller.{
  Next, continue, return, persist, returned, persisted, stop, record_failure, fail, after_call,
  turn, settle, guarded, iteration, go_on, loop,
}

-- `P` of the state that goes on, `Q` of what is returned.
abbrev pub OnNext :
    {S : Type 0}
    → (Binding → State → S → Type 0)
    → (State → Option Error → S → Type 0)
    → Next × S
    → Type 0
OnNext P Q (continue binding state, w) = P binding state w
OnNext P Q (return state e, w) = Q state e w

-- A loop that does not run out of turns ends in `Q`.
abbrev pub OnEnd :
    {S : Type 0} → (State → Option Error → S → Type 0) → Option (State × Option Error) × S → Type 0
OnEnd Q (none, w) = Unit
OnEnd Q (some (state, e), w) = Q state e w

-- The state after a failure of the action.
abbrev pub after_failure : State → Failure → State
after_failure state failure = record state {
  phase = diagnose_retry;
  last_failure = failure;
  failed_actions = state.failed_actions ++ (action_fingerprint failure.action ∷ []);
}

module _ {S : Type 0} (services : Services S) (max_retries : ℕ) (run_id : Bytes)
    (P : Binding → State → S → Type 0) (Q : State → Option Error → S → Type 0)
    (no_state-Q : (e : Error) (w : S) → Q no_state (some e) w) where
  returned-On :
      (state : State) (error : Error) (r : Option Error × S)
      → ((w : S) → Q state (some error) w)
      → OnNext P Q (returned services max_retries run_id state error r)
  unfolding returned
  returned-On state error (none, w) h = h w
  returned-On state error (some e, w) h = no_state-Q e w

  pub stop-On :
      (phase : Phase) (state : State) (error : Error) (w : S)
      → ((w : S) → Q (record state { phase = phase }) (some error) w)
      → OnNext P Q (stop services max_retries run_id phase state error w)
  unfolding stop
  stop-On phase state error w h = returned-On (record state { phase = phase }) error _ h

  pub fail-On :
      (state : State) (phase : Phase) (action : Action) (class : Bytes) (cause : Cause) (w : S)
      → ((failure : Failure) (w : S)
          → Q (record state { phase = failed; last_failure = failure }) (some (from_cause cause)) w)
      → OnNext P Q (fail services max_retries run_id state phase action class cause w)
  unfolding fail
  fail-On state phase action class cause w h = stop-On failed _ (from_cause cause) w (λ w1. h _ w1)

  pub record_failure-On :
      (binding : Binding) (state : State) (failure : Failure) (w : S)
      → ((w : S) → Q (record state { phase = failed }) (some retry_exhausted) w)
      → (contains_fingerprint state.failed_actions (action_fingerprint failure.action) ≡ false
          → P binding (after_failure state failure) w)
      → OnNext P Q (record_failure services max_retries run_id binding state failure w)
  unfolding record_failure
  record_failure-On binding state failure w q p =
      let fingerprint = action_fingerprint failure.action in
      elim (Bool-cases
        (is_empty fingerprint || contains_fingerprint state.failed_actions fingerprint)) [
          | inl bad ↦ rw bad (stop-On failed state retry_exhausted w q)
          | inr good ↦ rw good (p (ground arith))
        ]

  -- The two ways on from a call of the authority.
  pub after_call-On :
      (binding : Binding) (state : State) (action : Action) (next : Phase) (r : Option Cause × S)
      → ((w : S) → Q (record state { phase = failed }) (some retry_exhausted) w)
      → ((failure : Failure)
          → contains_fingerprint state.failed_actions (action_fingerprint failure.action) ≡ false
          → P binding (after_failure state failure) r.1)
      → (r.0 ≡ none → P binding (record state { phase = next }) r.1)
      → OnNext P Q (after_call services max_retries run_id binding state action next r)
  unfolding after_call
  after_call-On binding state action next (none, w) q p h = h refl
  after_call-On binding state action next (some cause, w) q p h =
      record_failure-On binding state _ w q (p _)

  persisted-On :
      (binding : Binding) (state : State) (r : Option Error × S)
      → P binding state r.1
      → OnNext P Q (persisted services max_retries run_id binding state r)
  unfolding persisted
  persisted-On binding state (none, w) h = h
  persisted-On binding state (some e, w) h = no_state-Q e w

  module _
      (quiet : (binding : Binding) (state : State) (w : S)
        → P binding state w
        → P binding state (persist services max_retries run_id state w).1)
      (interrupted : (binding : Binding) (state : State) (cause : Cause) (w : S)
        → P binding state w
        → Q state (some (from_cause cause)) w)
      (each : (binding : Binding) (state : State) (w : S)
        → P binding state w
        → OnNext P Q (turn services max_retries run_id state.phase binding state w)) where
    settle-On : (n : Next × S) → OnNext P Q n → OnNext P Q (settle services max_retries run_id n)
    unfolding settle
    settle-On (continue binding state, w) h = persisted-On binding state _ (quiet binding state w h)
    settle-On (return state e, w) h = h

    guarded-On :
        (e : Option Cause) (binding : Binding) (state : State) (w : S)
        → P binding state w
        → OnNext P Q (guarded services max_retries run_id e binding state w)
    unfolding guarded
    guarded-On none binding state w p = settle-On _ (each binding state w p)
    guarded-On (some cause) binding state w p = interrupted binding state cause w p

    go_on-On :
        (rest : Binding → State → S → Option (State × Option Error) × S)
        → ((binding : Binding) (state : State) (w : S)
            → P binding state w
            → OnEnd Q (rest binding state w))
        → (n : Next × S) → OnNext P Q n
        → OnEnd Q (go_on rest n)
    unfolding go_on
    go_on-On rest later (continue binding state, w) h = later binding state w h
    go_on-On rest later (return state e, w) h = h

    pub loop-On :
        (turns : ℕ) (binding : Binding) (state : State) (w : S)
        → P binding state w
        → OnEnd Q (loop services max_retries run_id turns binding state w)
    unfolding loop iteration
    loop-On zero binding state w p = tt
    loop-On (suc turns) binding state w p =
        go_on-On (loop services max_retries run_id turns) (loop-On turns)
          (iteration services max_retries run_id binding state w)
          (guarded-On (services.ctx_err w) binding state w p)
