-- ===== src/Examples/EngineRuns.antt =====
-- The engine of EngineData at work.
use m3_repoworker.Prelude.{
  ◌≡◌, ◌≢◌, refl, true, false, [], ◌∷◌, Bytes, text, bytes_eq, bytes_eq_iff, none, some, lookup,
  insert, delete, contains, contains_any, has_prefix, All, arith, ℕ_discrete, ◌↔◌, ◌<◌, ◌≤◌, length,
}
use m3_repoworker.Go.Filepath.{clean, is_abs, rel, base}
use m3_repoworker.Go.Utf8.{valid_string}
use m3_repoworker.Go.Hex.{encode_to_string, hex_digit}
use m3_repoworker.Go.Case.{to_lower, to_upper}
use m3_repoworker.Security.Types.{
  Confirmation, OperatorConfirmationRequest, destructive, CompiledPolicy, CompiledExecution, is_ok,
  is_ok→ok, Result, ok, err, replay, no_confirmation, Request, Capability-discrete,
  TargetKind-discrete, ConfirmationClass-discrete, ConfirmationBinding-discrete,
  NetworkMode-discrete, MountSource-discrete,
}
use m3_repoworker.Security.Values.{
  valid_identity, valid_opaque, valid_id, valid_confirmation_binding, same_or_within, new_opaque,
  safe_absolute, safe_runtime_path, is_shell, contains_capability, contains_string, redact,
}
use m3_repoworker.Security.Environment.{
  valid_entries, valid_entry, cut_name, valid_environment_name, protected_environment_name,
  contains_sensitive_environment_marker, validate_user_environment,
}
use m3_repoworker.Security.Compile.{
  compile, compile_mounts, compile_network, or_default_mount, compile_execution, validate_policy,
  distinct_capabilities,
}
use m3_repoworker.Security.State.{Engine, Decision, append_audit}
use m3_repoworker.Security.Authorize.{
  authorize, authorize_session, authorize_random, authorize_fresh, authorize_compiled,
  authorize_confirmed, authorize_execution, grant, deny, confirm, trusted, validate_target,
  bound_to_session, bound_to_enrollment, consume_nonce, nonce_prefix, request_event, digest_string,
}
use m3_repoworker.Security.Environment.{validate_environment}
use m3_repoworker.Security.Environment.{total_bytes, IsSafeEntry}
use m3_repoworker.Security.Limits.{validate_environment_iff}
use m3_repoworker.Security.Confinement.{IsWorkspaceMount, IsConfinedNetwork, compile-confines}
use m3_repoworker.Security.Authorize.{required_confirmation}
use m3_repoworker.Security.History.Confirmations.{confirmation_once, revoke_session-clears}
use m3_repoworker.Security.Sessions.{
  revoke_session, authenticated_authorize, issue_in_session, issue_operator_confirmation,
  confirmable, hour, confirm_prefix,
}
use m3_repoworker.Security.Operators.{IsApproved, issue_operator_confirmation-IsApproved}
use m3_repoworker.Security.History.{authorizes, nonce_drawn, token_drawn, run}
use m3_repoworker.Security.History.Nonces.{IsAdmitted, IsKeyed, no_replay}
use m3_repoworker.Examples.EngineData.{
  session, approval, sha256, engine, reads, binding, integration, policy, execution,
}

-- Opens all that a call of the engine computes with.
evaluated : Request → Result Decision × Engine
unfolding authorize authorize_session authorize_random authorize_fresh authorize_compiled
    authorize_confirmed grant deny confirm trusted validate_target bound_to_session
    bound_to_enrollment consume_nonce nonce_prefix request_event digest_string lookup insert delete
    bytes_eq contains_any has_prefix contains_capability valid_identity valid_opaque valid_string
    safe_absolute same_or_within rel clean is_abs compile compile_mounts compile_network
    or_default_mount validate_policy distinct_capabilities encode_to_string hex_digit new_opaque
    append_audit Capability-discrete TargetKind-discrete ConfirmationClass-discrete
    ConfirmationBinding-discrete NetworkMode-discrete ℕ_discrete revoke_session redact
    safe_runtime_path is_shell base to_lower contains_string contains compile_execution
    authorize_execution validate_user_environment validate_environment valid_entries valid_entry
    cut_name valid_environment_name protected_environment_name contains_sensitive_environment_marker
    to_upper MountSource-discrete nonce_drawn token_drawn
evaluated request = authorize sha256 reads request binding engine

integration_granted : is_ok (evaluated integration).0 ≡ true
unfolding evaluated
integration_granted = refl

replay_refused :
    (authorize sha256 reads integration binding (evaluated integration).1).0 ≡ err replay
unfolding evaluated
replay_refused = refl

admitted : IsAdmitted reads integration binding engine
unfolding evaluated
admitted = record {
  session = session;
  random = 1 ∷ 2 ∷ [];
  given = refl;
  found = refl;
  live = refl;
  bound = refl;
  enrolled = refl;
  drawn = refl;
}

keyed : IsKeyed engine
unfolding lookup
keyed k s found = ground (arith, bytes_eq_iff (text "session_1") k)

other_nonce : nonce_drawn (authorizes reads integration binding) ≢ some integration.nonce
unfolding evaluated
other_nonce e = cc

no_replay_example :
    is_ok
      (authorize sha256 reads integration binding
        (run sha256 engine (authorizes reads integration binding ∷ []))).0
    ≡ false
no_replay_example =
    no_replay sha256 reads integration binding engine keyed admitted [] (other_nonce, tt) reads
      integration binding refl refl

needs_approval : required_confirmation integration.capability ≢ no_confirmation
unfolding required_confirmation
needs_approval e = cc

granted_here : is_ok (authorize sha256 reads integration binding engine).0 ≡ true
unfolding evaluated
granted_here = integration_granted

confirmation_once_example :
    is_ok
      (authorize sha256 reads integration binding
        (run sha256 (authorize sha256 reads integration binding engine).1 [])).0
    ≡ false
confirmation_once_example =
    confirmation_once sha256 reads integration binding engine needs_approval granted_here [] tt
      reads integration binding needs_approval refl

revoked : (revoke_session true (text "session_1") engine).0 ≡ ok tt
unfolding evaluated
revoked = refl

revoke_session-clears_example :
    (lookup (text "session_1") (revoke_session true (text "session_1") engine).1.sessions ≡ none)
    × ((token : Bytes) (c : Confirmation)
        → lookup token (revoke_session true (text "session_1") engine).1.confirmations ≡ some c
        → c.binding.session_id ≢ text "session_1")
    × ((other : Bytes)
        → text "session_1" ≢ other
        → lookup other (revoke_session true (text "session_1") engine).1.sessions
          ≡ lookup other engine.sessions)
revoke_session-clears_example = revoke_session-clears (text "session_1") engine revoked

validate_environment_iff_example :
    (validate_environment (text "CI=1" ∷ []) 64 16384 true ≡ true) ↔ (
      (0 < 64)
      × (0 < 16384)
      × (length (text "CI=1" ∷ []) ≤ 64)
      × (total_bytes (text "CI=1" ∷ []) ≤ 16384)
      × All (IsSafeEntry true) (text "CI=1" ∷ []))
validate_environment_iff_example = validate_environment_iff (text "CI=1" ∷ []) 64 16384 true

compiled_execution : CompiledExecution
compiled_execution = record {
  backend = execution.backend;
  executable = execution.executable;
  arguments = execution.arguments;
  cwd = execution.cwd;
  environment = execution.environment;
}

policy_compiles : (c : CompiledPolicy) × (compile policy binding ≡ ok c)
unfolding evaluated
policy_compiles = is_ok→ok (compile policy binding) refl

compile-confines_example :
    All (IsWorkspaceMount binding) policy_compiles.0.mounts
    × (policy_compiles.0.mounts ≢ [])
    × (same_or_within binding.live_repository binding.task_workspace ≡ false)
    × (same_or_within binding.task_workspace binding.live_repository ≡ false)
    × IsConfinedNetwork policy policy_compiles.0.network
compile-confines_example = compile-confines policy binding policy_compiles.0 policy_compiles.1

approval_request : OperatorConfirmationRequest
approval_request = record { binding = approval; class = destructive; ttl = 5 }

approved :
    (c : Confirmation) × ((issue_operator_confirmation reads
        (some (authenticated_authorize (text "root") true (some (text "root"))))
        approval_request
        engine).0
      ≡ ok c)
unfolding evaluated approval_request issue_operator_confirmation issue_in_session
    authenticated_authorize confirmable hour confirm_prefix valid_id valid_confirmation_binding
approved =
    is_ok→ok
      (issue_operator_confirmation reads
        (some (authenticated_authorize (text "root") true (some (text "root")))) approval_request
        engine).0
      refl

issue_operator_confirmation-IsApproved_example :
    (some (text "root") ≡ some (text "root"))
    × IsApproved (text "root") reads approval_request engine approved.0
issue_operator_confirmation-IsApproved_example =
    issue_operator_confirmation-IsApproved (text "root") true (some (text "root")) reads
      approval_request engine approved.0 approved.1
