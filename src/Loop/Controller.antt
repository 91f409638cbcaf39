-- ===== src/Loop/Controller.antt =====
-- `Controller` of internal/loop/loop.go: one function per phase of the loop in `Run`, each with what its
-- calls answer as an argument of a helper by clauses.
use m3_repoworker.Prelude.{
  ℕ, suc, zero, ◌||◌, not, [], ◌∷◌, ◌++◌, Bytes, text, is_empty, Option, none, some, ltb,
  if◌then◌else◌, length,
}
use m3_repoworker.Go.Hex.{encode_to_string}
use m3_repoworker.Loop.Types.{
  Phase, inspect, hypothesis, plan, parallel_commands, patch_candidate, targeted_test,
  diagnose_retry, full_verify, checkpoint, completed, failed, human_checkpoint, other, Binding,
  Action, Plan, Failure, State, Cause, Error, rejected, needs_human, retry_exhausted, not_terminal,
  from_cause, Answer, answered, refused, Checkpoint, no_state,
}
use m3_repoworker.Loop.Services.{Services}
use m3_repoworker.Loop.Plans.{
  valid_binding, runnable, first_action, action_fingerprint, contains_fingerprint, repeated_plan,
  classify, take, safe_diagnostic,
}

-- What one turn of the loop comes to: another turn, or the values that `Run` returns.
pub data Next : Type 0 where
  continue : Binding → State → Next
  return : State → Option Error → Next

unfoldable pub terminal_error : State → Option Error
terminal_error state = elim state.phase [
  | completed ↦ none
  | human_checkpoint ↦ some needs_human
  | failed ↦ some retry_exhausted
  | _ ↦ some not_terminal
]

unfoldable pub or_empty : Option Bytes → Bytes
or_empty none = []
or_empty (some bytes) = bytes

abbrev pub acted : Bytes → Action
acted kind = record { id = []; kind = kind; fingerprint = [] }

-- One turn, and then the rest of the loop.
unfoldable pub go_on :
    {S : Type 0}
    → (Binding → State → S → Option (State × Option Error) × S)
    → Next × S
    → Option (State × Option Error) × S
go_on rest (continue binding state, w) = rest binding state w
go_on rest (return state e, w) = (some (state, e), w)

module _ {S : Type 0} (services : Services S) (max_retries : ℕ) (run_id : Bytes) where
  unfoldable pub digest_state : State → Bytes
  digest_state state = encode_to_string (services.sha256 (or_empty (services.marshal state)))

  unfoldable pub appended : Option Cause × S → Option Error × S
  appended (none, w) = (none, w)
  appended (some cause, w) = (some (from_cause cause), w)

  unfoldable pub append_payload : Option Bytes → S → Option Error × S
  append_payload none w = (some rejected, w)
  append_payload (some payload) w =
      appended (services.append_event run_id (text "loop.state") payload w)

  -- `persist`; its error, if there is one.
  unfoldable pub persist : State → S → Option Error × S
  persist state w = append_payload (services.marshal state) w

  -- Returns the zero state if the state was not persisted.
  unfoldable pub returned : State → Error → Option Error × S → Next × S
  returned state error (none, w) = (return state (some error), w)
  returned state error (some e, w) = (return no_state (some e), w)

  unfoldable pub persisted : Binding → State → Option Error × S → Next × S
  persisted binding state (none, w) = (continue binding state, w)
  persisted binding state (some e, w) = (return no_state (some e), w)

  -- A stop in the phase `phase`, which is persisted first.
  unfoldable pub stop : Phase → State → Error → S → Next × S
  stop phase state error w =
      let stopped : State = record state { phase = phase } in
      returned stopped error (persist stopped w)

  -- `recordFailure`, with the caller's return of its error.
  unfoldable pub record_failure : Binding → State → Failure → S → Next × S
  record_failure binding state failure w =
      let fingerprint = action_fingerprint failure.action in
      if is_empty fingerprint || contains_fingerprint state.failed_actions fingerprint
      then stop failed state retry_exhausted w
      else (
        continue binding (record state {
          phase = diagnose_retry;
          last_failure = failure;
          failed_actions = state.failed_actions ++ (fingerprint ∷ []);
        }),
        w,
      )

  -- `fail`.
  unfoldable pub fail : State → Phase → Action → Bytes → Cause → S → Next × S
  fail state phase action class cause w =
      stop failed
        (record state {
          last_failure = record {
            phase = phase;
            action = action;
            class = class;
            diagnostic = safe_diagnostic (some cause);
          };
        })
        (from_cause cause) w

  -- A call of the authority: its error is recorded as a failure of the action, its success leads to the phase
  -- `next`.
  unfoldable pub after_call : Binding → State → Action → Phase → Option Cause × S → Next × S
  after_call binding state action next (none, w) =
      (continue binding (record state { phase = next }), w)
  after_call binding state action next (some cause, w) =
      record_failure binding state
        (record {
          phase = state.phase;
          action = action;
          class = classify cause;
          diagnostic = safe_diagnostic (some cause);
        })
        w

  unfoldable pub inspected : Binding → State → Answer Bytes × S → Next × S
  inspected binding state (refused cause, w) =
      fail state inspect (acted (text "inspect")) (text "model") cause w
  inspected binding state (answered found, w) =
      if is_empty found || ltb 4096 (length found)
      then (return no_state (some rejected), w)
      else (continue binding (record state { hypothesis = found; phase = hypothesis }), w)

  unfoldable pub planned : Binding → State → Answer Plan × S → Next × S
  planned binding state (refused cause, w) =
      fail state plan (acted (text "plan")) (text "model") cause w
  planned binding state (answered proposal, w) =
      if not (runnable proposal binding)
      then stop human_checkpoint state needs_human w
      else (continue binding (record state { plan = proposal; phase = parallel_commands }), w)

  unfoldable pub diagnosed : Binding → State → Answer Plan × S → Next × S
  diagnosed binding state (refused cause, w) =
      fail state diagnose_retry state.last_failure.action (text "model") cause w
  diagnosed binding state (answered proposal, w) =
      if not (runnable proposal binding) || repeated_plan proposal state.failed_actions
      then stop failed state retry_exhausted w
      else (
        continue binding (record state {
          plan = proposal;
          retry_count = suc state.retry_count;
          phase = parallel_commands;
        }),
        w,
      )

  unfoldable pub diagnose : Binding → State → S → Next × S
  diagnose binding state w =
      if not (ltb state.retry_count max_retries)
      then stop failed state retry_exhausted w
      else diagnosed binding state
          (services.diagnose binding state.last_failure state.failed_actions w)

  -- The new binding is in force once the store has taken it.
  unfoldable pub rebound : Binding → State → Option Cause × S → Next × S
  rebound binding state (none, w) = (continue binding (record state { phase = targeted_test }), w)
  rebound binding state (some cause, w) = (return no_state (some (from_cause cause)), w)

  abbrev pub binding_failure : State → Option Cause → Failure
  binding_failure state cause = record {
    phase = patch_candidate;
    action = state.plan.patch;
    class = text "binding";
    diagnostic = safe_diagnostic cause;
  }

  unfoldable pub refreshed : Binding → State → Answer Binding × S → Next × S
  refreshed binding state (refused cause, w) =
      record_failure binding state (binding_failure state (some cause)) w
  refreshed binding state (answered fresh_binding, w) =
      if not (valid_binding fresh_binding)
      then record_failure binding state (binding_failure state none) w
      else rebound fresh_binding
          (record state {
            binding = fresh_binding;
            plan = record (state.plan) { binding = fresh_binding };
          })
          (services.update_run_binding run_id fresh_binding.candidate_snapshot
            fresh_binding.environment_id fresh_binding.policy_version w)

  -- `PhasePatch` after a patch that the authority took.
  unfoldable pub refresh :
      Option (Binding → S → Answer Binding × S) → Binding → State → S → Next × S
  refresh none binding state w = (continue binding (record state { phase = targeted_test }), w)
  refresh (some refresh_binding) binding state w =
      refreshed binding state (refresh_binding binding w)

  unfoldable pub patched : Binding → State → Option Cause × S → Next × S
  patched binding state (none, w) = refresh services.refresh_binding binding state w
  patched binding state (some cause, w) =
      after_call binding state state.plan.patch targeted_test (some cause, w)

  unfoldable pub marked : Binding → State → Option Cause × S → Next × S
  marked binding state (none, w) = (continue binding (record state { phase = completed }), w)
  marked binding state (some cause, w) = (return no_state (some (from_cause cause)), w)

  unfoldable pub saved : Binding → State → Option Cause × S → Next × S
  saved binding state (none, w) =
      marked binding state (services.update_run_status run_id (text "completed") w)
  saved binding state (some cause, w) = (return no_state (some (from_cause cause)), w)

  unfoldable pub checkpoint_of : Binding → State → S → Checkpoint
  checkpoint_of binding state w = record {
    id = state.checkpoint_id;
    run_id = run_id;
    candidate_snapshot = binding.candidate_snapshot;
    environment_id = binding.environment_id;
    policy_version = binding.policy_version;
    state = text "checkpoint";
    payload = or_empty (services.marshal state);
    created_at = services.now w;
  }

  -- `PhaseCheckpoint` after the authority's checkpoint.
  unfoldable pub checkpointed : Binding → State → Option Cause × S → Next × S
  checkpointed binding state (none, w) =
      let named : State = record state {
        checkpoint_id = text "checkpoint_" ++ take 24 (digest_state state);
      } in
      saved binding named (services.save_checkpoint (checkpoint_of binding named w) w)
  checkpointed binding state (some cause, w) =
      after_call binding state (acted (text "checkpoint")) completed (some cause, w)

  -- The switch on the phase.
  unfoldable pub turn : Phase → Binding → State → S → Next × S
  turn inspect b s w = inspected b s (services.inspect b w)
  turn hypothesis b s w = (continue b (record s { phase = plan }), w)
  turn plan b s w = planned b s (services.plan b s.hypothesis w)
  turn parallel_commands b s w =
      after_call b s (first_action s.plan.commands (text "parallel")) patch_candidate
        (services.parallel_commands b s.plan.commands w)
  turn patch_candidate b s w = patched b s (services.patch_candidate b s.plan.patch w)
  turn targeted_test b s w =
      after_call b s s.plan.targeted_test full_verify
        (services.targeted_test b s.plan.targeted_test w)
  turn diagnose_retry b s w = diagnose b s w
  turn full_verify b s w =
      after_call b s s.plan.full_verify checkpoint (services.full_verify b s.plan.full_verify w)
  turn checkpoint b s w = checkpointed b s (services.checkpoint b w)
  turn completed b s w = (return s (terminal_error s), w)
  turn failed b s w = (return s (terminal_error s), w)
  turn human_checkpoint b s w = (return s (terminal_error s), w)
  turn (other _) b s w = (return no_state (some rejected), w)

  -- The state that goes into the next turn is persisted first.
  unfoldable pub settle : Next × S → Next × S
  settle (continue binding state, w) = persisted binding state (persist state w)
  settle (return state e, w) = (return state e, w)

  unfoldable pub guarded : Option Cause → Binding → State → S → Next × S
  guarded (some cause) binding state w = (return state (some (from_cause cause)), w)
  guarded none binding state w = settle (turn state.phase binding state w)

  unfoldable pub iteration : Binding → State → S → Next × S
  iteration binding state w = guarded (services.ctx_err w) binding state w

  -- The loop, on as many turns as the first argument; `none` if they are not enough.
  unfoldable pub loop : ℕ → Binding → State → S → Option (State × Option Error) × S
  loop zero binding state w = (none, w)
  loop (suc turns) binding state w = go_on (loop turns) (iteration binding state w)
