-- ===== src/Loop/Completion.antt =====
-- From the journal of each turn to that of a completed run.
use m3_repoworker.Prelude.{
  ◌≡◌, refl, sym, subst, ap, ℕ, List, ◌∷◌, ◌++◌, Bytes, text, Option, none, some, Bool-cases, inl,
  inr,
}
use m3_repoworker.Loop.Types.{
  Phase, inspect, hypothesis, plan, parallel_commands, patch_candidate, targeted_test,
  diagnose_retry, full_verify, checkpoint, completed, failed, human_checkpoint, other, Binding,
  Failure, State, Cause, Answer, answered, refused, Checkpoint,
}
use m3_repoworker.Loop.Services.{Services}
use m3_repoworker.Loop.Plans.{valid_binding, take}
use m3_repoworker.Loop.Controller.{
  after_call, appended, append_payload, persist, terminal_error, refreshed, refresh, rebound,
  patched, marked, saved, digest_state, checkpoint_of, checkpointed, record_failure, turn, loop,
}
use m3_repoworker.Loop.Runs.{initial}
use m3_repoworker.Loop.Rule.{OnEnd, record_failure-On, loop-On}
use m3_repoworker.Loop.Journal.{
  Call, did_commands, did_patch, did_test, did_verify, did_checkpoint, did_save, logged, journaled,
  journaled_refresh,
}
use m3_repoworker.Loop.Evidence.{
  Shows, Shown, Ended, Evident, no_state-Ended, call-Evident, inspected-Evident, planned-Evident,
  diagnose-Evident,
}

module _ {S : Type 0} (services : Services S) (max_retries : ℕ) (run_id : Bytes) where
  rebound-Evident :
      (b : Binding) (s : State) (r : Option Cause × (S × List Call))
      → s.binding ≡ b
      → Shows run_id targeted_test b s r.1.1
      → Evident services max_retries run_id (rebound (journaled services) max_retries run_id b s r)
  unfolding rebound
  rebound-Evident b s (none, w) bound h = (bound, h)
  rebound-Evident b s (some cause, w) bound h = tt

  failure-Evident :
      (b : Binding) (s : State) (failure : Failure) (w : S × List Call)
      → s.binding ≡ b
      → Evident services max_retries run_id
          (record_failure (journaled services) max_retries run_id b s failure w)
  failure-Evident b s failure w bound =
      record_failure-On (journaled services) max_retries run_id (Shown services max_retries run_id)
        (Ended services max_retries run_id) (no_state-Ended services max_retries run_id) b s failure
        w (λ v. tt) (λ known. (bound, tt))

  refreshed-Evident :
      (b : Binding) (s : State) (r : Answer Binding × (S × List Call))
      → s.binding ≡ b
      → Shows run_id targeted_test b s r.1.1
      → Evident services max_retries run_id
          (refreshed (journaled services) max_retries run_id b s r)
  unfolding refreshed journaled
  refreshed-Evident b s (refused cause, w) bound h = failure-Evident b s _ w bound
  refreshed-Evident b s (answered fresh, w) bound h = elim (Bool-cases (valid_binding fresh)) [
    | inl good ↦ rw good (
        rebound-Evident fresh
          (record s { binding = fresh; plan = record (s.plan) { binding = fresh } }) _ refl h)
    | inr bad ↦ rw bad (failure-Evident b s _ w bound)
  ]

  refresh-Evident :
      (refresher : Option (Binding → S → Answer Binding × S)) (b : Binding) (s : State)
      (w : S × List Call)
      → s.binding ≡ b
      → Shows run_id targeted_test b s w.1
      → Evident services max_retries run_id
          (refresh (journaled services) max_retries run_id (journaled_refresh refresher) b s w)
  unfolding refresh journaled_refresh
  refresh-Evident none b s w bound h = (bound, h)
  refresh-Evident (some refresher) b s w bound h = refreshed-Evident b s _ bound h

  patched-Evident :
      (b : Binding) (s : State) (j : List Call) (r : Option Cause × S)
      → s.binding ≡ b
      → Shows run_id patch_candidate b s j
      → Evident services max_retries run_id (
          patched
            (journaled services)
            max_retries
            run_id
            b
            s
            (logged (did_patch b s.plan.patch) j r))
  unfolding patched logged journaled after_call
  patched-Evident b s j (none, w) bound h =
      refresh-Evident services.refresh_binding b s (w, did_patch b s.plan.patch ∷ j) bound
        (b, h.0, ap (λ k. did_patch b s.plan.patch ∷ k) h.1)
  patched-Evident b s j (some cause, w) bound h = failure-Evident b s _ (w, j) bound

  marked-Evident :
      (b : Binding) (s : State) (r : Option Cause × (S × List Call))
      → s.binding ≡ b
      → Shows run_id completed b s r.1.1
      → Evident services max_retries run_id (marked (journaled services) max_retries run_id b s r)
  unfolding marked
  marked-Evident b s (none, w) bound h = (bound, h)
  marked-Evident b s (some cause, w) bound h = tt

  saved-Evident :
      (b : Binding) (s : State) (k : Checkpoint) (j : List Call) (r : Option Cause × S)
      → s.binding ≡ b
      → Shows run_id completed b s (did_save k ∷ j)
      → Evident services max_retries run_id
          (saved (journaled services) max_retries run_id b s (logged (did_save k) j r))
  unfolding saved logged journaled
  saved-Evident b s k j (none, w) bound h = marked-Evident b s _ bound h
  saved-Evident b s k j (some cause, w) bound h = tt

  checkpointed-Evident :
      (b : Binding) (s : State) (j : List Call) (r : Option Cause × S)
      → s.binding ≡ b
      → Shows run_id checkpoint b s j
      → Evident services max_retries run_id
          (checkpointed (journaled services) max_retries run_id b s (logged (did_checkpoint b) j r))
  unfolding checkpointed checkpoint_of logged journaled after_call
  checkpointed-Evident b s j (none, w) bound h =
      let named : State = record s {
        checkpoint_id =
            text "checkpoint_" ++ take 24 (digest_state (journaled services) max_retries run_id s);
      } in
      let k : Checkpoint =
        checkpoint_of (journaled services) max_retries run_id b named (w, did_checkpoint b ∷ j) in
      saved-Evident b named k (did_checkpoint b ∷ j) _ bound
        (h.0, h.1, k, ap (λ before. did_save k ∷ did_checkpoint b ∷ before) h.2, refl, refl, refl)
  checkpointed-Evident b s j (some cause, w) bound h = failure-Evident b s _ (w, j) bound

  turn-Evident :
      (phase : Phase) (b : Binding) (s : State) (w : S × List Call)
      → s.phase ≡ phase
      → s.binding ≡ b
      → Shows run_id phase b s w.1
      → Evident services max_retries run_id
          (turn (journaled services) max_retries run_id phase b s w)
  unfolding turn terminal_error journaled
  turn-Evident inspect b s w at bound h = inspected-Evident services max_retries run_id b s _ bound
  turn-Evident hypothesis b s w at bound h = (bound, tt)
  turn-Evident plan b s w at bound h = planned-Evident services max_retries run_id b s _ bound
  turn-Evident parallel_commands b s w at bound h =
      call-Evident services max_retries run_id b s _ patch_candidate
        (did_commands b s.plan.commands) w.1 _ bound (w.1, refl)
  turn-Evident patch_candidate b s w at bound h = patched-Evident b s w.1 _ bound h
  turn-Evident targeted_test b s w at bound h =
      call-Evident services max_retries run_id b s _ full_verify (did_test b s.plan.targeted_test)
        w.1 _ bound (h.0, h.1, ap (λ j. did_test b s.plan.targeted_test ∷ j) h.2)
  turn-Evident diagnose_retry b s w at bound h =
      diagnose-Evident services max_retries run_id b s w bound
  turn-Evident full_verify b s w at bound h =
      call-Evident services max_retries run_id b s _ checkpoint (did_verify b s.plan.full_verify)
        w.1 _ bound (h.0, h.1, ap (λ j. did_verify b s.plan.full_verify ∷ j) h.2)
  turn-Evident checkpoint b s w at bound h = checkpointed-Evident b s w.1 _ bound h
  turn-Evident completed b s w at bound h =
      rw at (subst (λ c. Shows run_id completed c s w.1) (sym bound) h)
  turn-Evident failed b s w at bound h = rw at tt
  turn-Evident human_checkpoint b s w at bound h = rw at tt
  turn-Evident (other _) b s w at bound h = tt

  appended-journal :
      (r : Option Cause × (S × List Call))
      → (appended (journaled services) max_retries run_id r).1.1 ≡ r.1.1
  unfolding appended
  appended-journal (none, w) = refl
  appended-journal (some cause, w) = refl

  append_payload-journal :
      (payload : Option Bytes) (w : S × List Call)
      → (append_payload (journaled services) max_retries run_id payload w).1.1 ≡ w.1
  unfolding append_payload journaled
  append_payload-journal none w = refl
  append_payload-journal (some payload) w = appended-journal _

  persist-journal :
      (s : State) (w : S × List Call)
      → (persist (journaled services) max_retries run_id s w).1.1 ≡ w.1
  unfolding persist
  persist-journal s w = append_payload-journal _ w

  -- A run that starts afresh and ends without an error has, last of all and in this order: run the plan's
  -- commands and its patch under one binding, passed the plan's targeted test and its full verification under
  -- the binding of the state that it returns, had the authority's checkpoint of that binding, and
  -- saved a checkpoint of that run and candidate under the identity in the state. Nothing else that is on the journal came in
  -- between, and the plan is the one of the state that it returns.
  pub completed_run :
      (turns : ℕ) (b : Binding) (w : S × List Call)
      → OnEnd
          (Ended services max_retries run_id)
          (loop (journaled services) max_retries run_id turns b (initial b) w)
  completed_run turns b w =
      loop-On (journaled services) max_retries run_id (Shown services max_retries run_id)
        (Ended services max_retries run_id) (no_state-Ended services max_retries run_id)
        (λ c t v h. (h.0, subst (λ j. Shows run_id t.phase c t j) (sym (persist-journal t v)) h.1))
        (λ c t cause v h. tt) (λ c t v h. turn-Evident t.phase c t v refl h.0 h.1) turns b
        (initial b) w (refl, tt)
