-- ===== src/Loop/Plans.antt =====
-- The checks of plans and the failures of internal/loop/loop.go.
use m3_repoworker.Prelude.{
  ℕ, Bool, ◌&&◌, not, List, [], ◌∷◌, ◌++◌, Bytes, bytes_eq, is_empty, text, Option, none, some,
  zero, suc, ◌==◌, leb, if◌then◌else◌, exists, every, length, eq_by, contains_any,
}
use m3_repoworker.Loop.Types.{Binding, Binding-discrete, Action, Plan, Cause}

unfoldable pub valid_binding : Binding → Bool
valid_binding binding =
    not (is_empty binding.repository_id)
    && not (is_empty binding.candidate_snapshot)
    && not (is_empty binding.environment_id)
    && not (is_empty binding.policy_version)

abbrev forbidden : Bytes
forbidden = 0 ∷ 13 ∷ 10 ∷ []

unfoldable pub valid_action : Action → Bool
valid_action action =
    not (is_empty action.id)
    && leb (length action.id) 128
    && not (is_empty action.kind)
    && leb (length action.kind) 128
    && not (is_empty action.fingerprint)
    && leb (length action.fingerprint) 128
    && not (contains_any (action.id ++ action.kind ++ action.fingerprint) forbidden)

unfoldable pub valid_plan : Plan → Binding → Bool
valid_plan plan binding =
    eq_by Binding-discrete plan.binding binding
    && valid_action plan.patch
    && valid_action plan.targeted_test
    && valid_action plan.full_verify
    && not (length plan.commands == 0)
    && leb (length plan.commands) 64
    && every valid_action plan.commands

-- A plan that the loop may carry out without a human.
unfoldable pub runnable : Plan → Binding → Bool
runnable plan binding = valid_plan plan binding && not plan.destructive && not plan.ambiguous

unfoldable pub first_action : List Action → Bytes → Action
first_action [] kind = record { id = []; kind = kind; fingerprint = [] }
first_action (action ∷ actions) kind = action

unfoldable pub action_fingerprint : Action → Bytes
action_fingerprint action = action.fingerprint

-- `contains` of a list of fingerprints.
unfoldable pub contains_fingerprint : List Bytes → Bytes → Bool
contains_fingerprint values target = exists (λ value. bytes_eq value target) values

abbrev pub all_actions : Plan → List Action
all_actions plan = plan.commands ++ (plan.patch ∷ plan.targeted_test ∷ plan.full_verify ∷ [])

unfoldable pub repeated_plan : Plan → List Bytes → Bool
repeated_plan plan failures =
    exists (λ action. contains_fingerprint failures (action_fingerprint action)) (all_actions plan)

unfoldable pub classify : Cause → Bytes
classify cause =
    if cause.canceled
    then text "canceled"
    else if cause.deadline_exceeded
    then text "timeout"
    else text "execution"

unfoldable pub take : ℕ → Bytes → Bytes
take zero bytes = []
take (suc n) [] = []
take (suc n) (byte ∷ bytes) = byte ∷ take n bytes

unfoldable pub safe_diagnostic : Option Cause → Bytes
safe_diagnostic none = []
safe_diagnostic (some cause) = take 1024 cause.message
