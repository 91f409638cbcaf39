-- ===== src/Examples/EngineData.antt =====
-- An engine with one enrolled repository, one open session and one approved integration.
use m3_repoworker.Prelude.{true, [], ◌∷◌, Bytes, text, some}
use m3_repoworker.Security.Types.{
  Policy, Session, Confirmation, ConfirmationBinding, Request, Binding, ExecutionSpec, execute,
  integrate, workspace_write, unset, live_repository, task_workspace, destructive,
}
use m3_repoworker.Security.Compile.{policy_version}
use m3_repoworker.Security.State.{Engine, Reads}

-- A stand-in for the hash, which the theorems leave open.
abbrev pub sha256 : Bytes → Bytes
sha256 value = 0 ∷ 255 ∷ []

abbrev pub identity : Bytes
identity = text "0123456789abcdef0123456789abcdef0123456789abcdef0123456789abcdef"

abbrev pub policy : Policy
policy = record {
  version = policy_version;
  capabilities = workspace_write ∷ execute ∷ integrate ∷ [];
  mounts = [];
  network = record { mode = unset; registry_domain = [] };
  credentials = record { allowed_scopes = []; provider = [] };
  execution = record {
    allowed_executables = text "go" ∷ text "sh" ∷ [];
    max_arg_bytes = 0;
    max_arguments = 0;
    max_environment_bytes = 0;
    max_environment_items = 0;
  };
}

abbrev pub session : Session
session = record {
  id = text "session_1";
  principal_id = text "alice";
  repository_id = identity;
  transport_id = text "t";
  authentication_id = identity;
  nonce = text "nonce_1";
  expires_at = 100;
}

abbrev pub approval : ConfirmationBinding
approval = record {
  action = text "integrate";
  repository_id = identity;
  principal_id = text "alice";
  session_id = text "session_1";
  generation_id = text "gen";
  fencing_generation = 1;
  candidate_snapshot = identity;
  plan_digest = identity;
}

abbrev pub confirmation : Confirmation
confirmation = record {
  token = text "confirm_1";
  class = destructive;
  binding = approval;
  expires_at = 50;
}

abbrev pub engine : Engine
engine = record {
  policy = policy;
  enrollments =
      (
        identity,
        record {
          repository_id = identity;
          filesystem_id = text "fs";
          trusted_ref_digest = text "00ff";
          enrolled_at = 1;
        },
      )
      ∷ [];
  sessions = (text "session_1", session) ∷ [];
  confirmations = (text "confirm_1", confirmation) ∷ [];
  audit = [];
}

abbrev pub reads : Reads
reads = record {
  ctx = true;
  first = 10;
  second = 11;
  third = 12;
  random = some (1 ∷ 2 ∷ []);
  random_next = some (3 ∷ 4 ∷ []);
}

abbrev pub binding : Binding
binding = record {
  repository_id = identity;
  filesystem_id = text "fs";
  live_repository = text "/repo";
  task_workspace = text "/work/1";
  workspace_id = text "w1";
}

abbrev pub integration : Request
integration = record {
  session_id = text "session_1";
  principal_id = text "alice";
  repository_id = identity;
  nonce = text "nonce_1";
  capability = integrate;
  target = live_repository;
  path = [];
  trusted_integration_ref = text "ref_1";
  confirmation_token = text "confirm_1";
  confirmation_binding = approval;
  execution = record { backend = []; executable = []; arguments = []; cwd = []; environment = [] };
}

abbrev pub execution : ExecutionSpec
execution = record {
  backend = text "apple-container";
  executable = text "sh";
  arguments = text "-lc" ∷ text "go test" ∷ [];
  cwd = text "/workspace";
  environment = text "CI=1" ∷ [];
}

abbrev pub run_tests : Request
run_tests = record integration {
  capability = execute;
  target = task_workspace;
  execution = execution;
}
