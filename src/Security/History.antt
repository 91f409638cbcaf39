-- ===== src/Security/History.antt =====
-- Histories of an engine: any sequence of calls of its methods, each with what it reads from outside.
-- One lock covers a method (`e.mu`), so interleaved callers amount to such a sequence.
pub mod Each
pub mod Nonces
pub mod Confirmations
use m3_repoworker.Prelude.{ℕ, Bool, List, [], ◌∷◌, Bytes, Option, none, some}
use m3_repoworker.Security.Types.{Principal, OperatorConfirmationRequest, Request, Binding}
use m3_repoworker.Security.Values.{new_opaque}
use m3_repoworker.Security.State.{Engine, Reads}
use m3_repoworker.Security.Authorize.{authorize, nonce_prefix}
use m3_repoworker.Security.Sessions.{
  enroll_repository, open_authenticated_session, issue_operator_confirmation, revoke_session,
  confirm_prefix,
}

pub data Op : Type 0 where
  enrolls : Reads → Bytes → Bytes → Bytes → Op
  opens : Reads → Principal → Bytes → ℕ → Op
  issues : Reads → Option (OperatorConfirmationRequest → Bool) → OperatorConfirmationRequest → Op
  revokes : Bool → Bytes → Op
  authorizes : Reads → Request → Binding → Op

-- The nonce that the operation would draw, and the confirmation token.
abbrev pub opaque_of : Bytes → Option Bytes → Option Bytes
opaque_of prefix none = none
opaque_of prefix (some random) = some (new_opaque prefix random)

unfoldable pub nonce_drawn : Op → Option Bytes
nonce_drawn (opens reads principal repository_id ttl) = opaque_of nonce_prefix reads.random_next
nonce_drawn (authorizes reads request binding) = opaque_of nonce_prefix reads.random
nonce_drawn _ = none

unfoldable pub token_drawn : Op → Option Bytes
token_drawn (issues reads authority request) = opaque_of confirm_prefix reads.random
token_drawn _ = none

module _ (sha256 : Bytes → Bytes) where
  unfoldable pub step : Engine → Op → Engine
  step e (enrolls reads principal_id repository_id filesystem_id) =
      (enroll_repository sha256 reads principal_id repository_id filesystem_id e).1
  step e (opens reads principal repository_id ttl) =
      (open_authenticated_session reads principal repository_id ttl e).1
  step e (issues reads authority request) =
      (issue_operator_confirmation reads authority request e).1
  step e (revokes ctx session_id) = (revoke_session ctx session_id e).1
  step e (authorizes reads request binding) = (authorize sha256 reads request binding e).1

  unfoldable pub run : Engine → List Op → Engine
  run e [] = e
  run e (op ∷ ops) = run (step e op) ops
