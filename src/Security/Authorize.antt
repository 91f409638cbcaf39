-- ===== src/Security/Authorize.antt =====
-- `Authorize` of internal/security/policy.go, with the checks that only it calls.
pub mod Stages
pub mod Course
pub mod Grants
use m3_repoworker.Prelude.{
  ℕ, ◌+◌, Bool, true, false, ◌&&◌, ◌||◌, not, List, [], ◌∷◌, ◌++◌, Bytes, text, ◌==◌, bytes_eq,
  is_empty, if◌then◌else◌, ltb, eq_by, Option, none, some, Dict, lookup, insert, delete, delete_if,
}
use m3_repoworker.Go.Hex.{encode_to_string}
use m3_repoworker.Security.Types.{
  Error, Result, ok, err, denied, replay, expired, Capability, repo_read, repo_search,
  workspace_read, workspace_write, execute, process_control, runtime_create, integrate, publish,
  TargetKind, live_repository, task_workspace, runtime, ConfirmationClass, no_confirmation,
  destructive, publication, Policy, Principal, RepositoryEnrollment, Session, Confirmation,
  ConfirmationBinding, OperatorConfirmationRequest, Request, Binding, CompiledPolicy,
  CompiledExecution, Outcome, enrolled, was_denied, was_allowed, Capability-discrete,
  TargetKind-discrete, ConfirmationClass-discrete, ConfirmationBinding-discrete,
}
use m3_repoworker.Security.Values.{
  valid_identity, valid_opaque, valid_id, valid_relative_path, same_or_within, new_opaque,
  contains_capability, valid_confirmation_binding, valid_principal, redact,
}
use m3_repoworker.Security.Compile.{validate_policy, compile, compile_execution}
use m3_repoworker.Security.State.{AuditEvent, Engine, Decision, Reads, append_audit}

-- `validateTarget`.
unfoldable pub kind_and_path : Request → Bool
kind_and_path request =
    let live = eq_by TargetKind-discrete request.target live_repository in
    let inside =
      eq_by TargetKind-discrete request.target task_workspace
      || eq_by TargetKind-discrete request.target runtime in
    let optional_path = is_empty request.path || valid_relative_path request.path in
    elim request.capability [
      | repo_read ↦ live && valid_relative_path request.path
      | repo_search ↦ live && valid_relative_path request.path
      | workspace_read ↦ inside && optional_path
      | workspace_write ↦ inside && optional_path
      | execute ↦ inside && optional_path
      | process_control ↦ inside && optional_path
      | runtime_create ↦ inside && optional_path
      | integrate ↦ live && optional_path
      | publish ↦ live && optional_path
      | _ ↦ false
    ]

unfoldable pub validate_target : Request → Binding → Bool
unfolding kind_and_path
validate_target request binding =
    if not (kind_and_path request)
    then false
    else not (
        same_or_within binding.live_repository binding.task_workspace
        || same_or_within binding.task_workspace binding.live_repository)

unfoldable pub required_confirmation : Capability → ConfirmationClass
required_confirmation integrate = destructive
required_confirmation publish = publication
required_confirmation _ = no_confirmation

-- `consumeConfirmationLocked`: a record that is found goes, whether it fits or not.
unfoldable pub consume_confirmation :
    ℕ → Bytes → Bytes → ConfirmationClass → ConfirmationBinding → Engine → Bool × Engine
consume_confirmation now session_id token class binding e = elim (lookup token e.confirmations) [
  | none ↦ (false, e)
  | some c ↦ (
    bytes_eq c.binding.session_id session_id
        && eq_by ConfirmationClass-discrete c.class class
        && ltb now c.expires_at
        && eq_by ConfirmationBinding-discrete c.binding binding,
    record e { confirmations = delete token e.confirmations },
  )
]

-- The session and the confirmation parts below do not depend on the hash.
unfoldable pub confirm : ℕ → Request → Engine → Bool × Engine
unfolding required_confirmation consume_confirmation
confirm now request e = elim (required_confirmation request.capability) [
  | no_confirmation ↦ (true, e)
  | class ↦
      consume_confirmation now request.session_id request.confirmation_token class
        request.confirmation_binding e
]

unfoldable pub request_event : Reads → Request → AuditEvent
request_event reads request = record {
  at = reads.first;
  principal_id = request.principal_id;
  session_id = request.session_id;
  repository_id = request.repository_id;
  capability = request.capability;
  outcome = was_denied;
  detail = [];
}

unfoldable pub deny : AuditEvent → Error → Bytes → Engine → Result Decision × Engine
deny event error detail e =
    (err error, append_audit (record event { outcome = was_denied; detail = redact detail }) e)

-- Whether the request names the session's principal and repository and carries its nonce.
unfoldable pub bound_to_session : Request → Session → Bool
bound_to_session request session =
    bytes_eq session.principal_id request.principal_id
    && bytes_eq session.repository_id request.repository_id
    && not (is_empty request.nonce)
    && bytes_eq request.nonce session.nonce

unfoldable pub bound_to_enrollment : Request → Binding → Option RepositoryEnrollment → Bool
bound_to_enrollment request binding none = false
bound_to_enrollment request binding (some enrollment) =
    bytes_eq binding.repository_id request.repository_id
    && not (is_empty binding.filesystem_id)
    && bytes_eq enrollment.filesystem_id binding.filesystem_id

-- The session with its nonce replaced.
unfoldable pub consume_nonce : Session → Bytes → Engine → Engine
consume_nonce session next e = record e {
  sessions = insert session.id (record session { nonce = next }) e.sessions;
}

unfoldable pub nonce_prefix : Bytes
nonce_prefix = text "nonce_"

-- The decision of a granted request; a refused one has none.
unfoldable pub grant :
    AuditEvent
    → Bytes
    → CompiledPolicy
    → Option CompiledExecution
    → Engine
    → Result Decision × Engine
grant event next compiled execution e =
    let allowed : AuditEvent = record event {
      outcome = was_allowed;
      detail = text "typed policy allowed";
    } in
    (
      ok (record {
        next_nonce = next;
        policy = compiled;
        execution = execution;
        audit_event = allowed;
      }),
      append_audit allowed e,
    )

module _ (sha256 : Bytes → Bytes) where
  unfoldable pub digest_string : Bytes → Bytes
  digest_string value = encode_to_string (sha256 value)

  unfoldable pub validate_trusted_ref : Bytes → Bytes → Engine → Bool
  validate_trusted_ref repository_id ref e = elim (lookup repository_id e.enrollments) [
    | none ↦ false
    | some enrollment ↦
        not (is_empty ref) && bytes_eq (digest_string ref) enrollment.trusted_ref_digest
  ]

  -- The trusted reference is asked for by the two capabilities that touch the repository.
  unfoldable pub trusted : Request → Engine → Bool
  unfolding validate_trusted_ref
  trusted request e =
      if eq_by Capability-discrete request.capability integrate
        || eq_by Capability-discrete request.capability publish
      then validate_trusted_ref request.repository_id request.trusted_integration_ref e
      else true

  -- `Authorize` from the compiled execution on, for the capability that asks for one.
  unfoldable pub authorize_execution :
      AuditEvent
      → Bytes
      → CompiledPolicy
      → Result CompiledExecution
      → Engine
      → Result Decision × Engine
  authorize_execution event next compiled (err error) e =
      deny event denied (text "execution denied") e
  authorize_execution event next compiled (ok execution) e =
      grant event next compiled (some execution) e

  -- `Authorize` from the confirmation on.
  unfoldable pub authorize_confirmed :
      Reads → Request → Bytes → CompiledPolicy → Bool × Engine → Result Decision × Engine
  unfolding trusted
  authorize_confirmed reads request next compiled (is_confirmed, e) =
      let event = request_event reads request in
      if not is_confirmed
      then deny event denied (text "confirmation denied") e
      else if not (trusted request e)
      then deny event denied (text "trusted integration reference denied") e
      else if eq_by Capability-discrete request.capability execute
      then authorize_execution event next compiled
          (compile_execution e.policy.execution request.execution) e
      else grant event next compiled none e

  unfoldable pub authorize_compiled :
      Reads → Request → Binding → Bytes → Result CompiledPolicy → Engine → Result Decision × Engine
  authorize_compiled reads request binding next (err error) e =
      deny (request_event reads request) denied (text "runtime policy compilation failed") e
  authorize_compiled reads request binding next (ok compiled) e =
      if not (validate_target request binding)
      then deny (request_event reads request) denied (text "target denied") e
      else authorize_confirmed reads request next compiled (confirm reads.third request e)

  -- `Authorize` once the nonce is consumed.
  unfoldable pub authorize_fresh :
      Reads → Request → Binding → Bytes → Engine → Result Decision × Engine
  authorize_fresh reads request binding next e =
      if not (contains_capability e.policy.capabilities request.capability)
      then deny (request_event reads request) denied (text "capability denied") e
      else authorize_compiled reads request binding next (compile e.policy binding) e

  unfoldable pub authorize_random :
      Reads → Request → Binding → Session → Option Bytes → Engine → Result Decision × Engine
  authorize_random reads request binding session none e =
      deny (request_event reads request) denied (text "nonce generation failed") e
  authorize_random reads request binding session (some random) e =
      let next = new_opaque nonce_prefix random in
      authorize_fresh reads request binding next (consume_nonce session next e)

  unfoldable pub authorize_session :
      Reads → Request → Binding → Option Session → Engine → Result Decision × Engine
  authorize_session reads request binding none e =
      deny (request_event reads request) expired (text "session expired") e
  authorize_session reads request binding (some session) e =
      let event = request_event reads request in
      if not (ltb reads.second session.expires_at)
      then deny event expired (text "session expired") e
      else if not (bound_to_session request session)
      then deny event replay (text "session binding or nonce rejected") e
      else if not (bound_to_enrollment request binding (lookup request.repository_id e.enrollments))
      then deny event denied (text "repository enrollment rejected") e
      else authorize_random reads request binding session reads.random e

  unfoldable pub authorize : Reads → Request → Binding → Engine → Result Decision × Engine
  authorize reads request binding e =
      if not reads.ctx
      then (err denied, e)
      else authorize_session reads request binding (lookup request.session_id e.sessions) e
