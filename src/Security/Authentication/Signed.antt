-- ===== src/Security/Authentication/Signed.antt =====
-- What the signed header proves of a principal.
use m3_repoworker.Prelude.{◌≡◌, ℕ, ◌+◌, ◌<◌, ◌≤◌, true, Bytes, length}
use m3_repoworker.Security.Types.{Principal}
use m3_repoworker.Security.Values.{valid_id}
use m3_repoworker.Security.Authentication.{Claim, one_day, message_of, unix_time}

-- The claim that stands behind a principal, under a key and for a session.
pub record IsSigned (hmac : Bytes → Bytes → Bytes) (now : ℕ) (key session_id : Bytes)
    (principal : Principal) : Type 0 where
  claim : Claim
  signed : claim.signature ≡ hmac key (message_of claim)
  full : length claim.signature ≡ 32
  named : principal.id ≡ claim.principal_id
  identified : valid_id principal.id ≡ true
  in_session : claim.transport_id ≡ session_id
  of_session : principal.transport_id ≡ session_id
  timed : principal.expires_at ≡ unix_time claim.expires_unix
  live : now < principal.expires_at
  short : principal.expires_at ≤ now + one_day
