-- ===== src/Security/Operators.antt =====
-- The operator authorities of internal/security/policy.go, and what a confirmation that one of them let
-- through says.
use m3_repoworker.Prelude.{
  ◌≡◌, ◌≢◌, refl, ap, ◌⊎◌, ◌+◌, ◌<◌, ◌≤◌, Bool, true, false, ◌&&◌, ◌||◌, not, Bytes, bytes_eq,
  bytes_eq_iff, if◌then◌else◌, Option, none, some, lookup, arith,
}
use m3_repoworker.Security.Types.{
  Result, ok, err, denied, OperatorConfirmationRequest, Confirmation, Session, destructive,
  publication,
}
use m3_repoworker.Security.Values.{valid_id, valid_confirmation_binding}
use m3_repoworker.Security.State.{Engine, Reads}
use m3_repoworker.Security.Sessions.{
  confirmable, authenticated_authorize, issue_in_session, issue_operator_confirmation, hour,
}

-- `WithOperatorAuthentication`: what the new context carries; `none` for the nil context.
unfoldable pub with_operator_authentication : Bool → Bytes → Option Bytes
with_operator_authentication ctx operator_id =
    if not ctx || not (valid_id operator_id) then none else some operator_id

-- `NewAuthenticatedOperatorAuthority`; an authority is its operator's identity.
unfoldable pub new_authenticated_authority : Bytes → Result Bytes
new_authenticated_authority operator_id =
    if not (valid_id operator_id) then err denied else ok operator_id

-- `NewExplicitOperatorAuthority`.
unfoldable pub new_explicit_authority : Bytes → Result Bytes
new_explicit_authority operator_id =
    if not (valid_id operator_id) then err denied else ok operator_id

-- `AuthorizeOperator` of the explicit authority.
unfoldable pub explicit_authorize : Bytes → Bool → OperatorConfirmationRequest → Bool
unfolding confirmable
explicit_authorize operator_id ctx request =
    ctx
    && valid_id operator_id
    && valid_confirmation_binding request.binding
    && not (bytes_eq request.binding.principal_id operator_id)
    && confirmable request.class

-- What an operator has approved when a confirmation is issued.
pub record IsApproved (operator_id : Bytes) (reads : Reads) (request : OperatorConfirmationRequest)
    (e : Engine) (c : Confirmation) : Type 0 where
  identified : valid_id operator_id ≡ true
  not_self : request.binding.principal_id ≢ operator_id
  class : (c.class ≡ destructive) ⊎ (c.class ≡ publication)
  bound : c.binding ≡ request.binding
  session :
      (s : Session) × (lookup request.binding.session_id e.sessions ≡ some s)
      × (reads.first < s.expires_at)
      × (s.principal_id ≡ request.binding.principal_id)
      × (s.repository_id ≡ request.binding.repository_id)
  within : c.expires_at ≤ reads.second + hour

-- What the last part of `IssueOperatorConfirmation` adds.
issued :
    (reads : Reads) (request : OperatorConfirmationRequest) (s : Option Session)
    (random : Option Bytes) (e : Engine) (c : Confirmation)
    → (issue_in_session reads request s random e).0 ≡ ok c
    → ((t : Session) × (s ≡ some t)
        × (reads.first < t.expires_at)
        × (t.principal_id ≡ request.binding.principal_id)
        × (t.repository_id ≡ request.binding.repository_id))
      × (c.class ≡ request.class)
      × (c.binding ≡ request.binding)
      × (c.expires_at ≡ reads.second + request.ttl)
unfolding issue_in_session
issued reads request none random e c h = cc
issued reads request (some s) none e c h = absurd (ground arith)
issued reads request (some s) (some drawn) e c h = (
  (
    s,
    refl,
    ground arith,
    (bytes_eq_iff s.principal_id request.binding.principal_id).0 (ground arith),
    (bytes_eq_iff s.repository_id request.binding.repository_id).0 (ground arith),
  ),
  ground arith,
  ground arith,
  ground arith,
)

-- The authenticated authority's answer, read back.
authorized :
    (operator_id : Bytes) (ctx : Bool) (carried : Option Bytes)
    (request : OperatorConfirmationRequest)
    → authenticated_authorize operator_id ctx carried request ≡ true
    → (carried ≡ some operator_id)
      × (valid_id operator_id ≡ true)
      × (bytes_eq request.binding.principal_id operator_id ≡ false)
unfolding authenticated_authorize
authorized operator_id ctx none request h = absurd (ground arith)
authorized operator_id ctx (some carried_id) request h =
    (ap some ((bytes_eq_iff carried_id operator_id).0 (ground arith)), ground arith, ground arith)

-- A confirmation issued through the authenticated authority was approved by the operator whom the
-- context carries and who is not the principal that it is for; it has one of the two classes that ask for
-- approval and the binding that was asked for, belongs to a live session of that principal and
-- repository, and ends within an hour.
pub issue_operator_confirmation-IsApproved :
    (operator_id : Bytes) (ctx : Bool) (carried : Option Bytes) (reads : Reads)
    (request : OperatorConfirmationRequest) (e : Engine) (c : Confirmation)
    → (issue_operator_confirmation reads
        (some (authenticated_authorize operator_id ctx carried))
        request
        e).0
      ≡ ok c
    → (carried ≡ some operator_id) × IsApproved operator_id reads request e c
unfolding issue_operator_confirmation confirmable hour
issue_operator_confirmation-IsApproved operator_id ctx carried reads request e c h =
    let operator = authorized operator_id ctx carried request (ground arith) in
    let part =
      issued reads request (lookup request.binding.session_id e.sessions) reads.random e c
        (ground arith) in
    let classes : (request.class ≡ destructive) ⊎ (request.class ≡ publication) = ground arith in
    (
      operator.0,
      record {
        identified = operator.1;
        not_self = λ same. absurd (
            ground
              (arith, operator.2, (bytes_eq_iff request.binding.principal_id operator_id).1 same));
        class = ground (arith, part, classes);
        bound = part.2;
        session = part.0;
        within = ground (arith, part);
      },
    )
