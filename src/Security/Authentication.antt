-- ===== src/Security/Authentication.antt =====
-- The principal providers of internal/security/auth.go. HMAC and SHA-256 are parameters.
pub mod Signed
use m3_repoworker.Prelude.{
  ◌≡◌, refl, ℕ, suc, zero, ◌+◌, ◌*◌, ◌<◌, ◌≤◌, Bool, true, false, ◌&&◌, ◌||◌, not, List, [], ◌∷◌,
  ◌++◌, Bytes, text, bytes_eq, bytes_eq_iff, is_empty, has_prefix, Option, none, some, ltb, leb,
  ◌==◌, if◌then◌else◌, length, arith,
}
use m3_repoworker.Go.Space.{trim_space}
use m3_repoworker.Go.Parse.{split_on, join_with, raw_url_decode, hex_decode, parse_positive}
use m3_repoworker.Security.Types.{Principal, Result, ok, err, unauthenticated}
use m3_repoworker.Security.Values.{valid_id, valid_opaque, new_opaque}
use m3_repoworker.Security.Authorize.{digest_string}

-- `Headers.Get` is what it answers.
pub record TransportMetadata : Type 0 where
  pub session_id : Bytes
  pub header : Bytes → Bytes
  pub trusted_name : Bytes

pub record TrustedPrincipalProvider : Type 0 where
  pub principal_id : Bytes
  pub transport_id : Bytes

-- An empty header name stands for the default.
pub record SignedHeaderPrincipalProvider : Type 0 where
  pub key : Bytes
  pub header_name : Bytes

-- What a credential says.
pub record Claim : Type 0 where
  pub principal_id : Bytes
  pub transport_id : Bytes
  pub expires : Bytes
  pub expires_unix : ℕ
  pub nonce : Bytes
  pub signature : Bytes

abbrev pub one_day : ℕ
one_day = 86400000000000

-- `NewTrustedPrincipalProvider`, with what crypto/rand gives.
unfoldable pub new_trusted : Bytes → Option Bytes → Result TrustedPrincipalProvider
new_trusted principal_id none = err unauthenticated
new_trusted principal_id (some random) =
    if not (valid_id principal_id)
    then err unauthenticated
    else ok (record {
      principal_id = principal_id;
      transport_id = new_opaque (text "transport_") random;
    })

unfoldable pub or_else : Bytes → Bytes → Bytes
or_else [] other = other
or_else (c ∷ s) other = c ∷ s

-- `decodeCredentialPart`.
unfoldable pub decode_part : Bytes → Option Bytes
decode_part value = elim (raw_url_decode value) [
  | none ↦ none
  | some decoded ↦ if is_empty decoded then none else some decoded
]

unfoldable pub drop : ℕ → Bytes → Bytes
drop zero s = s
drop (suc n) [] = []
drop (suc n) (c ∷ s) = drop n s

abbrev authorization : Bytes
authorization = text "Authorization"

-- The credential in the header; the default header has it behind `Bearer `.
unfoldable pub credential_in : Bytes → Bytes → Option Bytes
credential_in header_name value =
    if bytes_eq header_name authorization
    then if has_prefix value (text "Bearer ") then some (trim_space (drop 7 value)) else none
    else some value

unfoldable pub assemble :
    Bytes
    → Bytes
    → Option Bytes
    → Option Bytes
    → Option ℕ
    → Option Bytes
    → Option Bytes
    → Option Claim
assemble version expires (some principal_id) (some transport_id) (some unix) (some nonce)
      (some signature) =
    if bytes_eq version (text "rw1")
    then some (record {
      principal_id = principal_id;
      transport_id = transport_id;
      expires = expires;
      expires_unix = unix;
      nonce = nonce;
      signature = signature;
    })
    else none
assemble _ _ _ _ _ _ _ = none

unfoldable pub claim_of : List Bytes → Option Claim
claim_of (version ∷ principal ∷ transport ∷ expires ∷ nonce ∷ signature ∷ []) =
    assemble version expires (decode_part principal) (decode_part transport)
      (parse_positive expires) (decode_part nonce) (hex_decode signature)
claim_of _ = none

-- The message that is signed.
unfoldable pub message_of : Claim → Bytes
message_of claim =
    join_with (text "|")
      (text "rw1" ∷ claim.principal_id ∷ claim.transport_id ∷ claim.expires ∷ claim.nonce ∷ [])

-- `time.Unix`, in nanoseconds since the zero time.
unfoldable pub unix_time : ℕ → ℕ
unix_time seconds = (seconds + 62135596800) * 1000000000

module _ (hmac : Bytes → Bytes → Bytes) (sha256 : Bytes → Bytes) where
  unfoldable pub trusted_authenticate :
      Bool → ℕ → TrustedPrincipalProvider → TransportMetadata → Result Principal
  trusted_authenticate ctx now p metadata =
      let transport_id =
        or_else metadata.session_id (or_else metadata.trusted_name p.transport_id) in
      if not ctx || not (valid_id p.principal_id) || not (valid_opaque transport_id)
      then err unauthenticated
      else ok (record {
        id = p.principal_id;
        transport_id = transport_id;
        authentication_id =
            digest_string sha256 (text "trusted" ++ (0 ∷ p.principal_id) ++ (0 ∷ transport_id));
        expires_at = now + one_day;
      })

  -- The checks of what the credential says; all of them answer with one error.
  unfoldable pub acceptable : ℕ → Bytes → Bytes → Claim → Bool
  acceptable now key session_id claim =
      valid_id claim.principal_id
      && bytes_eq claim.transport_id session_id
      && valid_opaque claim.transport_id
      && valid_opaque claim.nonce
      && length claim.signature == 32
      && bytes_eq claim.signature (hmac key (message_of claim))
      && ltb now (unix_time claim.expires_unix)
      && leb (unix_time claim.expires_unix) (now + one_day)

  unfoldable pub accept_claim : ℕ → Bytes → Bytes → Bytes → Option Claim → Result Principal
  accept_claim now key session_id credential none = err unauthenticated
  accept_claim now key session_id credential (some claim) =
      if not (acceptable now key session_id claim)
      then err unauthenticated
      else ok (record {
        id = claim.principal_id;
        transport_id = claim.transport_id;
        authentication_id = digest_string sha256 (text "signed" ++ (0 ∷ credential));
        expires_at = unix_time claim.expires_unix;
      })

  unfoldable pub with_credential : ℕ → Bytes → Bytes → Option Bytes → Result Principal
  with_credential now key session_id none = err unauthenticated
  with_credential now key session_id (some credential) =
      accept_claim now key session_id credential (claim_of (split_on b'.' credential))

  -- `Authenticate` of the signed header.
  unfoldable pub signed_authenticate :
      Bool → ℕ → SignedHeaderPrincipalProvider → TransportMetadata → Result Principal
  signed_authenticate ctx now p metadata =
      let name = or_else p.header_name authorization in
      if not ctx || ltb (length p.key) 32 || is_empty metadata.session_id
      then err unauthenticated
      else with_credential now p.key metadata.session_id (credential_in name (metadata.header name))
