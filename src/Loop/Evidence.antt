-- ===== src/Loop/Evidence.antt =====
-- What a run that completes has done: the whole attempt, in order, with the plan that it reports.
use m3_repoworker.Prelude.{
  ◌≡◌, ℕ, ◌||◌, not, List, ◌∷◌, Bytes, is_empty, ltb, length, Option, none, some, Bool-cases, inl,
  inr,
}
use m3_repoworker.Loop.Types.{
  Phase, patch_candidate, targeted_test, full_verify, checkpoint, completed, Binding, Action, Plan,
  State, Cause, Error, Answer, answered, refused, Checkpoint, no_state,
}
use m3_repoworker.Loop.Services.{Services}
use m3_repoworker.Loop.Plans.{runnable, repeated_plan}
use m3_repoworker.Loop.Controller.{Next, inspected, planned, diagnosed, diagnose, after_call}
use m3_repoworker.Loop.Rule.{OnNext, stop-On, fail-On, after_call-On}
use m3_repoworker.Loop.Journal.{
  Call, did_commands, did_patch, did_test, did_verify, did_checkpoint, did_save, logged,
  logged-none, journaled,
}

-- The calls of the first half of an attempt, under the binding that it began with.
abbrev pub candidate_calls : Binding → Plan → List Call → List Call
candidate_calls c p before = did_patch c p.patch ∷ did_commands c p.commands ∷ before

-- The calls that verify the candidate, under the binding that the patch left.
abbrev pub verified_calls : Binding → Binding → Plan → List Call → List Call
verified_calls b c p before =
    did_verify b p.full_verify ∷ did_test b p.targeted_test ∷ candidate_calls c p before

-- What the journal shows in each phase of an attempt.
abbrev pub Shows : Bytes → Phase → Binding → State → List Call → Type 0
Shows run_id patch_candidate b s j =
    (before : List Call) × (j ≡ did_commands b s.plan.commands ∷ before)
Shows run_id targeted_test b s j =
    (c : Binding) × (before : List Call) × (j ≡ candidate_calls c s.plan before)
Shows run_id full_verify b s j =
    (c : Binding) × (before : List Call) × (j
      ≡ did_test b s.plan.targeted_test ∷ candidate_calls c s.plan before)
Shows run_id checkpoint b s j =
    (c : Binding) × (before : List Call) × (j ≡ verified_calls b c s.plan before)
Shows run_id completed b s j =
    (c : Binding) × (before : List Call) × (k : Checkpoint) × (j
      ≡ did_save k ∷ did_checkpoint b ∷ verified_calls b c s.plan before)
    × (k.id ≡ s.checkpoint_id)
    × (k.run_id ≡ run_id)
    × (k.candidate_snapshot ≡ b.candidate_snapshot)
Shows run_id _ b s j = Unit

module _ {S : Type 0} (services : Services S) (max_retries : ℕ) (run_id : Bytes) where
  abbrev pub Shown : Binding → State → S × List Call → Type 0
  Shown b s w = (s.binding ≡ b) × Shows run_id s.phase b s w.1

  abbrev pub Ended : State → Option Error → S × List Call → Type 0
  Ended s none w = Shows run_id completed s.binding s w.1
  Ended s (some e) w = Unit

  abbrev pub Evident : Next × (S × List Call) → Type 0
  Evident = OnNext Shown Ended

  pub no_state-Ended : (e : Error) (w : S × List Call) → Ended no_state (some e) w
  no_state-Ended e w = tt

  pub call-Evident :
      (b : Binding) (s : State) (action : Action) (next : Phase) (call : Call) (j : List Call)
      (r : Option Cause × S)
      → s.binding ≡ b
      → Shows run_id next b (record s { phase = next }) (call ∷ j)
      → Evident
          (after_call (journaled services) max_retries run_id b s action next (logged call j r))
  call-Evident b s action next call j r bound h =
      after_call-On (journaled services) max_retries run_id Shown Ended no_state-Ended b s action
        next (logged call j r) (λ v. tt) (λ failure known. (bound, tt))
        (λ e. (bound, rw (logged-none call j r e) h))

  pub inspected-Evident :
      (b : Binding) (s : State) (r : Answer Bytes × (S × List Call))
      → s.binding ≡ b
      → Evident (inspected (journaled services) max_retries run_id b s r)
  unfolding inspected
  inspected-Evident b s (refused cause, w) bound =
      fail-On (journaled services) max_retries run_id Shown Ended no_state-Ended _ _ _ _ cause w
        (λ f v. tt)
  inspected-Evident b s (answered found, w) bound =
      elim (Bool-cases (is_empty found || ltb 4096 (length found))) [
        | inl bad ↦ rw bad tt
        | inr good ↦ rw good (bound, tt)
      ]

  pub planned-Evident :
      (b : Binding) (s : State) (r : Answer Plan × (S × List Call))
      → s.binding ≡ b
      → Evident (planned (journaled services) max_retries run_id b s r)
  unfolding planned
  planned-Evident b s (refused cause, w) bound =
      fail-On (journaled services) max_retries run_id Shown Ended no_state-Ended _ _ _ _ cause w
        (λ f v. tt)
  planned-Evident b s (answered proposal, w) bound = elim (Bool-cases (runnable proposal b)) [
    | inl good ↦ rw good (bound, tt)
    | inr bad ↦ rw bad (
        stop-On (journaled services) max_retries run_id Shown Ended no_state-Ended _ s _ w
          (λ v. tt))
  ]

  diagnosed-Evident :
      (b : Binding) (s : State) (r : Answer Plan × (S × List Call))
      → s.binding ≡ b
      → Evident (diagnosed (journaled services) max_retries run_id b s r)
  unfolding diagnosed
  diagnosed-Evident b s (refused cause, w) bound =
      fail-On (journaled services) max_retries run_id Shown Ended no_state-Ended _ _ _ _ cause w
        (λ f v. tt)
  diagnosed-Evident b s (answered proposal, w) bound =
      elim (Bool-cases (not (runnable proposal b) || repeated_plan proposal s.failed_actions)) [
        | inl bad ↦ rw bad (
            stop-On (journaled services) max_retries run_id Shown Ended no_state-Ended _ s _ w
              (λ v. tt))
        | inr good ↦ rw good (bound, tt)
      ]

  pub diagnose-Evident :
      (b : Binding) (s : State) (w : S × List Call)
      → s.binding ≡ b
      → Evident (diagnose (journaled services) max_retries run_id b s w)
  unfolding diagnose
  diagnose-Evident b s w bound = elim (Bool-cases (ltb s.retry_count max_retries)) [
    | inl room ↦ rw room (diagnosed-Evident b s _ bound)
    | inr full ↦ rw full (
        stop-On (journaled services) max_retries run_id Shown Ended no_state-Ended _ s _ w
          (λ v. tt))
  ]
