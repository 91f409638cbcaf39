-- ===== src/Loop/Types.antt =====
-- The values of internal/loop/loop.go.
use m3_repoworker.Prelude.{ℕ, Bool, false, List, [], Bytes, ℕ_discrete}

-- The phases that the code names, and any other string that a stored state may hold.
pub data Phase : Type 0 where
  inspect hypothesis plan parallel_commands patch_candidate targeted_test diagnose_retry : Phase
  full_verify checkpoint completed failed human_checkpoint : Phase
  other : Bytes → Phase

pub record Binding : Type 0 where
  pub repository_id : Bytes
  pub candidate_snapshot : Bytes
  pub environment_id : Bytes
  pub policy_version : Bytes

pub record Action : Type 0 where
  pub id : Bytes
  pub kind : Bytes
  pub fingerprint : Bytes

pub record Plan : Type 0 where
  pub binding : Binding
  pub commands : List Action
  pub patch : Action
  pub targeted_test : Action
  pub full_verify : Action
  pub destructive : Bool
  pub ambiguous : Bool

pub record Failure : Type 0 where
  pub phase : Phase
  pub action : Action
  pub class : Bytes
  pub diagnostic : Bytes

pub record State : Type 0 where
  pub phase : Phase
  pub binding : Binding
  pub hypothesis : Bytes
  pub plan : Plan
  pub last_failure : Failure
  pub retry_count : ℕ
  pub failed_actions : List Bytes
  pub checkpoint_id : Bytes

-- An error that the model, the authority or the store answers with: what `errors.Is` finds in it and
-- what it says.
pub record Cause : Type 0 where
  pub canceled : Bool
  pub deadline_exceeded : Bool
  pub message : Bytes

pub data Error : Type 0 where
  rejected needs_human retry_exhausted not_terminal : Error
  from_cause : Cause → Error

-- A value, or the error in its place.
pub data Answer (A : Type 0) : Type 0 where
  answered : A → Answer A
  refused : Cause → Answer A

-- The events and checkpoints of internal/events, as far as the loop sees them.
pub record Event : Type 0 where
  pub sequence : ℕ
  pub type : Bytes
  pub payload : Bytes

pub record Checkpoint : Type 0 where
  pub id : Bytes
  pub run_id : Bytes
  pub candidate_snapshot : Bytes
  pub environment_id : Bytes
  pub policy_version : Bytes
  pub state : Bytes
  pub payload : Bytes
  pub created_at : ℕ

-- Go's zero values.
abbrev pub no_binding : Binding
no_binding = record {
  repository_id = [];
  candidate_snapshot = [];
  environment_id = [];
  policy_version = [];
}

abbrev pub no_action : Action
no_action = record { id = []; kind = []; fingerprint = [] }

abbrev pub no_state : State
no_state = record {
  phase = other [];
  binding = no_binding;
  hypothesis = [];
  plan = record {
    binding = no_binding;
    commands = [];
    patch = no_action;
    targeted_test = no_action;
    full_verify = no_action;
    destructive = false;
    ambiguous = false;
  };
  last_failure = record { phase = other []; action = no_action; class = []; diagnostic = [] };
  retry_count = 0;
  failed_actions = [];
  checkpoint_id = [];
}

unfoldable pub Binding-discrete : Discrete Binding
Binding-discrete = hlevel ℕ_discrete
