-- ===== src/Security/State.antt =====
-- The state of `Engine` in internal/security/policy.go, and what its methods read and return. A method
-- takes the engine and returns its result with the engine that it leaves behind; what it reads from
-- outside (whether a context was given, the clock at each of its reads, crypto/rand) is `Reads`.
use m3_repoworker.Prelude.{ℕ, Bool, not, List, [], ◌∷◌, ◌++◌, Bytes, if◌then◌else◌, Option, Dict}
use m3_repoworker.Security.Types.{
  Result, ok, err, denied, Capability, Policy, RepositoryEnrollment, Session, Confirmation,
  CompiledPolicy, CompiledExecution, Outcome,
}
use m3_repoworker.Security.Values.{redact}
use m3_repoworker.Security.Compile.{validate_policy}

pub record AuditEvent : Type 0 where
  pub at : ℕ
  pub principal_id : Bytes
  pub session_id : Bytes
  pub repository_id : Bytes
  pub capability : Capability
  pub outcome : Outcome
  pub detail : Bytes

pub record Engine : Type 0 where
  pub policy : Policy
  pub enrollments : Dict RepositoryEnrollment
  pub sessions : Dict Session
  pub confirmations : Dict Confirmation
  pub audit : List AuditEvent

pub record Decision : Type 0 where
  pub next_nonce : Bytes
  pub policy : CompiledPolicy
  pub execution : Option CompiledExecution
  pub audit_event : AuditEvent

-- The clock's reads come in the order of the call; `random` is what crypto/rand gives, and `none` its
-- failure.
pub record Reads : Type 0 where
  pub ctx : Bool
  pub first : ℕ
  pub second : ℕ
  pub third : ℕ
  pub random : Option Bytes
  pub random_next : Option Bytes

unfoldable pub new_engine : Policy → Result Engine
new_engine policy =
    if not (validate_policy policy)
    then err denied
    else ok (record {
      policy = policy;
      enrollments = [];
      sessions = [];
      confirmations = [];
      audit = [];
    })

unfoldable pub append_audit : AuditEvent → Engine → Engine
append_audit event e = record e {
  audit = e.audit ++ record event { detail = redact event.detail } ∷ [];
}

-- `AuditEvents`: a copy of the log.
unfoldable pub audit_events : Engine → List AuditEvent
audit_events e = e.audit
