-- ===== src/Security/Sessions.antt =====
-- The other methods of `Engine` in internal/security/policy.go: enrollment, sessions, confirmations.
use m3_repoworker.Prelude.{
  ℕ, ◌+◌, Bool, false, ◌&&◌, ◌||◌, not, [], Bytes, text, ◌==◌, bytes_eq, if◌then◌else◌, ltb, eq_by,
  Option, none, some, lookup, insert, delete, delete_if,
}
use m3_repoworker.Security.Types.{
  Result, ok, err, denied, expired, Capability, ConfirmationClass, destructive, publication,
  Principal, RepositoryEnrollment, Session, Confirmation, OperatorConfirmationRequest, enrolled,
  ConfirmationClass-discrete,
}
use m3_repoworker.Security.Values.{
  valid_identity, valid_opaque, valid_id, new_opaque, valid_confirmation_binding, valid_principal,
}
use m3_repoworker.Security.State.{Engine, Reads, append_audit}
use m3_repoworker.Security.Authorize.{digest_string, nonce_prefix}

module _ (sha256 : Bytes → Bytes) where
  -- `EnrollRepository`: the record, and the trusted reference that only the caller keeps.
  unfoldable pub enroll_repository :
      Reads → Bytes → Bytes → Bytes → Engine → Result (RepositoryEnrollment × Bytes) × Engine
  enroll_repository reads principal_id repository_id filesystem_id e =
      if not reads.ctx
        || not (valid_id principal_id)
        || not (valid_identity repository_id)
        || not (valid_identity filesystem_id)
      then (err denied, e)
      else elim reads.random [
        | none ↦ (err denied, e)
        | some random ↦
            let ref = new_opaque (text "ref_") random in
            let enrollment : RepositoryEnrollment = record {
              repository_id = repository_id;
              filesystem_id = filesystem_id;
              trusted_ref_digest = digest_string sha256 ref;
              enrolled_at = reads.first;
            } in
            (
              ok (enrollment, ref),
              append_audit
                  (record {
                    at = reads.second;
                    principal_id = principal_id;
                    session_id = [];
                    repository_id = repository_id;
                    capability = Capability.other [];
                    outcome = enrolled;
                    detail = text "repository enrolled";
                  })
                  (record e { enrollments = insert repository_id enrollment e.enrollments }),
            )
      ]

unfoldable pub confirm_prefix : Bytes
confirm_prefix = text "confirm_"

unfoldable pub day : ℕ
day = 86400000000000

unfoldable pub hour : ℕ
hour = 3600000000000

abbrev earlier : ℕ → ℕ → ℕ
earlier a b = if ltb a b then a else b

-- The session that `OpenAuthenticatedSession` makes of what it draws.
unfoldable pub new_session : Reads → Principal → Bytes → ℕ → Bytes → Bytes → Session
new_session reads principal repository_id ttl random random_next = record {
  id = new_opaque (text "session_") random;
  principal_id = principal.id;
  repository_id = repository_id;
  transport_id = principal.transport_id;
  authentication_id = principal.authentication_id;
  nonce = new_opaque nonce_prefix random_next;
  expires_at = earlier principal.expires_at (reads.second + ttl);
}

-- The last part, from what the repository's enrollment and crypto/rand give.
unfoldable pub open_enrolled :
    (Bytes → Bytes → Session)
    → Option RepositoryEnrollment
    → Option Bytes
    → Option Bytes
    → Engine
    → Result Session × Engine
open_enrolled session none random random_next e = (err denied, e)
open_enrolled session (some _) none random_next e = (err denied, e)
open_enrolled session (some _) (some random) none e = (err denied, e)
open_enrolled session (some _) (some random) (some random_next) e =
    let opened = session random random_next in
    (ok opened, record e { sessions = insert opened.id opened e.sessions })

-- `OpenAuthenticatedSession`; the principal is checked at the first read of the clock.
unfoldable pub open_authenticated_session :
    Reads → Principal → Bytes → ℕ → Engine → Result Session × Engine
unfolding day
open_authenticated_session reads principal repository_id ttl e =
    if not reads.ctx
      || not (valid_principal reads.first principal)
      || not (valid_identity repository_id)
      || ttl == 0
      || ltb day ttl
    then (err denied, e)
    else open_enrolled (new_session reads principal repository_id ttl)
        (lookup repository_id e.enrollments) reads.random reads.random_next e

-- Whether the class is one that an operator can approve.
unfoldable pub confirmable : ConfirmationClass → Bool
confirmable class =
    eq_by ConfirmationClass-discrete class destructive
    || eq_by ConfirmationClass-discrete class publication

-- `AuthorizeOperator` of the authenticated authority, with the operator that the context carries.
unfoldable pub authenticated_authorize :
    Bytes → Bool → Option Bytes → OperatorConfirmationRequest → Bool
unfolding confirmable
authenticated_authorize operator_id ctx carried request = elim carried [
  | none ↦ false
  | some authenticated_id ↦
      ctx
      && bytes_eq authenticated_id operator_id
      && valid_id operator_id
      && valid_confirmation_binding request.binding
      && not (bytes_eq request.binding.principal_id operator_id)
      && confirmable request.class
]

-- The last part of `IssueOperatorConfirmation`, from the session and what crypto/rand gives.
unfoldable pub issue_in_session :
    Reads
    → OperatorConfirmationRequest
    → Option Session
    → Option Bytes
    → Engine
    → Result Confirmation × Engine
issue_in_session reads request none random e = (err expired, e)
issue_in_session reads request (some session) random e =
    if not (ltb reads.first session.expires_at)
    then (err expired, e)
    else if not (bytes_eq session.principal_id request.binding.principal_id)
        || not (bytes_eq session.repository_id request.binding.repository_id)
    then (err denied, e)
    else elim random [
      | none ↦ (err denied, e)
      | some drawn ↦
          let confirmation : Confirmation = record {
            token = new_opaque confirm_prefix drawn;
            class = request.class;
            binding = request.binding;
            expires_at = reads.second + request.ttl;
          } in
          (
            ok confirmation,
            record e { confirmations = insert confirmation.token confirmation e.confirmations },
          )
    ]

-- `IssueOperatorConfirmation`; the authority is `none` where it is nil.
unfoldable pub issue_operator_confirmation :
    Reads
    → Option (OperatorConfirmationRequest → Bool)
    → OperatorConfirmationRequest
    → Engine
    → Result Confirmation × Engine
unfolding confirmable hour
issue_operator_confirmation reads authority request e = elim authority [
  | none ↦ (err denied, e)
  | some authorize_operator ↦
      if not (authorize_operator request)
      then (err denied, e)
      else if not reads.ctx
          || not (valid_confirmation_binding request.binding)
          || not (confirmable request.class)
          || request.ttl == 0
          || ltb hour request.ttl
      then (err denied, e)
      else issue_in_session reads request (lookup request.binding.session_id e.sessions)
          reads.random e
]

unfoldable pub revoke_session : Bool → Bytes → Engine → Result (Unit {0}) × Engine
revoke_session ctx session_id e =
    if not ctx || not (valid_opaque session_id)
    then (err denied, e)
    else elim (lookup session_id e.sessions) [
      | none ↦ (err expired, e)
      | some _ ↦ (
        ok tt,
        record e {
          sessions = delete session_id e.sessions;
          confirmations =
              delete_if (λ confirmation. bytes_eq confirmation.binding.session_id session_id)
                e.confirmations;
        },
      )
    ]
