-- ===== src/Loop/Soundness.antt =====
-- The invariant of the loop's state: the retry budget, the failed actions and the plan in force.
pub mod Turns
use m3_repoworker.Prelude.{
  ◌≡◌, ◌≢◌, refl, sym, ℕ, suc, zero, ◌+◌, ◌<◌, ◌≤◌, Bool, true, false, ◌||◌, not, List, [], ◌∷◌,
  ◌++◌, Bytes, text, bytes_eq, bytes_eq_iff, is_empty, ltb, length, length-append, Option, none,
  some, if◌then◌else◌, arith, Bool-cases, eq_by, exists, inl, inr,
}
use m3_repoworker.Loop.Types.{
  Phase, inspect, hypothesis, plan, parallel_commands, patch_candidate, targeted_test,
  diagnose_retry, full_verify, checkpoint, completed, failed, human_checkpoint, other, Binding,
  Binding-discrete, Action, Plan, Failure, State, Cause, Error, Answer, answered, refused,
  from_cause, no_state,
}
use m3_repoworker.Loop.Services.{Services}
use m3_repoworker.Loop.Plans.{
  valid_binding, valid_plan, runnable, all_actions, repeated_plan, action_fingerprint,
  contains_fingerprint,
}
use m3_repoworker.Loop.Controller.{
  Next, continue, return, persist, terminal_error, acted, inspected, planned, diagnosed, diagnose,
  refreshed, refresh, rebound, patched, marked, saved, checkpointed, record_failure, after_call,
  turn, loop,
}
use m3_repoworker.Loop.Rule.{
  OnNext, OnEnd, after_failure, stop-On, fail-On, record_failure-On, after_call-On, loop-On,
}

-- No fingerprint stands twice.
abbrev pub IsDistinct : List Bytes → Type 0
IsDistinct [] = Unit
IsDistinct (x ∷ xs) = (contains_fingerprint xs x ≡ false) × IsDistinct xs

contains-append :
    (xs : List Bytes) (x y : Bytes)
    → contains_fingerprint xs y ≡ false
    → bytes_eq x y ≡ false
    → contains_fingerprint (xs ++ (x ∷ [])) y ≡ false
unfolding contains_fingerprint
contains-append [] x y h k = ground arith
contains-append (z ∷ xs) x y h k = ground (arith, contains-append xs x y)

pub IsDistinct-append :
    (xs : List Bytes) (x : Bytes)
    → IsDistinct xs
    → contains_fingerprint xs x ≡ false
    → IsDistinct (xs ++ (x ∷ []))
unfolding contains_fingerprint
IsDistinct-append [] x d h = (refl, tt)
IsDistinct-append (z ∷ xs) x d h = (
  contains-append xs x z d.0 (ground (arith, bytes_eq_iff z x, bytes_eq_iff x z)),
  IsDistinct-append xs x d.1 (ground arith),
)

-- How many failed actions are recorded after so many retries.
abbrev pub Counts : Phase → ℕ → ℕ → Type 0
Counts inspect retries failures = (retries ≡ 0) × (failures ≡ 0)
Counts hypothesis retries failures = (retries ≡ 0) × (failures ≡ 0)
Counts plan retries failures = (retries ≡ 0) × (failures ≡ 0)
Counts diagnose_retry retries failures = failures ≡ suc retries
Counts failed retries failures = failures ≤ suc retries
Counts human_checkpoint retries failures = (retries ≡ 0) × (failures ≡ 0)
Counts (other _) retries failures = failures ≤ suc retries
Counts _ retries failures = failures ≡ retries

-- The plan of an attempt is one that the loop may carry out, and repeats no failed action.
pub record Carries (p : Plan) (binding : Binding) (failures : List Bytes) : Type 0 where
  pub fits : runnable p binding ≡ true
  pub new : repeated_plan p failures ≡ false

abbrev pub InForce : Phase → Plan → Binding → List Bytes → Type 0
InForce parallel_commands p b failures = Carries p b failures
InForce patch_candidate p b failures = Carries p b failures
InForce targeted_test p b failures = Carries p b failures
InForce full_verify p b failures = Carries p b failures
InForce checkpoint p b failures = Carries p b failures
InForce completed p b failures = Carries p b failures
InForce _ p b failures = Unit

pub record IsSound (max_retries : ℕ) (phase : Phase) (binding : Binding) (s : State) : Type 0 where
  pub bound : s.binding ≡ binding
  pub within : s.retry_count ≤ max_retries
  pub distinct : IsDistinct s.failed_actions
  pub counted : Counts phase s.retry_count (length s.failed_actions)
  pub in_force : InForce phase s.plan binding s.failed_actions

-- What holds of the state that is returned; a state without an error is complete.
abbrev pub Closes : State → Option Error → Type 0
Closes s none = (s.phase ≡ completed) × Carries s.plan s.binding s.failed_actions
Closes s (some e) = Unit

pub record IsClosed (max_retries : ℕ) (s : State) (e : Option Error) : Type 0 where
  pub within : s.retry_count ≤ max_retries
  pub distinct : IsDistinct s.failed_actions
  pub counted : length s.failed_actions ≤ suc s.retry_count
  pub closes : Closes s e

pub Counts-le :
    (phase : Phase) (retries failures : ℕ) → Counts phase retries failures → failures ≤ suc retries
Counts-le inspect retries failures h = omega (arith, h.1)
Counts-le hypothesis retries failures h = omega (arith, h.1)
Counts-le plan retries failures h = omega (arith, h.1)
Counts-le parallel_commands retries failures h = omega (arith, h)
Counts-le patch_candidate retries failures h = omega (arith, h)
Counts-le targeted_test retries failures h = omega (arith, h)
Counts-le diagnose_retry retries failures h = omega (arith, h)
Counts-le full_verify retries failures h = omega (arith, h)
Counts-le checkpoint retries failures h = omega (arith, h)
Counts-le completed retries failures h = omega (arith, h)
Counts-le failed retries failures h = h
Counts-le human_checkpoint retries failures h = omega (arith, h.1)
Counts-le (other _) retries failures h = h

-- An error may end the loop in every phase.
pub IsSound-IsClosed :
    (max_retries : ℕ) (phase : Phase) (binding : Binding) (s : State) (e : Error)
    → IsSound max_retries phase binding s
    → IsClosed max_retries s (some e)
IsSound-IsClosed max_retries phase binding s e h = record {
  within = h.within;
  distinct = h.distinct;
  counted = Counts-le phase s.retry_count (length s.failed_actions) h.counted;
  closes = tt;
}

eq_self : (b : Binding) → eq_by Binding-discrete b b ≡ true
eq_self b = ground arith

-- A refreshed binding is that of the plan too.
pub Carries-rebound :
    (p : Plan) (b c : Binding) (failures : List Bytes)
    → Carries p b failures
    → Carries (record p { binding = c }) c failures
unfolding runnable valid_plan repeated_plan
Carries-rebound p b c failures h = record { fits = ground (arith, h.fits, eq_self c); new = h.new }

-- Without a failure there is nothing that a plan could repeat.
pub repeated_none :
    (p : Plan) (failures : List Bytes) → length failures ≡ 0 → repeated_plan p failures ≡ false
unfolding repeated_plan contains_fingerprint
repeated_none p (x ∷ failures) h = absurd (omega (arith, h))
repeated_none p [] h = none_of (all_actions p)
  where
    none_of :
        (actions : List Action)
        → exists (λ action. contains_fingerprint [] (action_fingerprint action)) actions ≡ false
    none_of [] = refl
    none_of (action ∷ actions) = none_of actions
