-- ===== src/Examples/AuthenticationRuns.antt =====
-- A credential in the Authorization header.
use m3_repoworker.Prelude.{
  ◌≡◌, refl, ℕ, zero, suc, true, [], ◌∷◌, Bytes, text, contains, contains_any, has_prefix,
}
use m3_repoworker.Go.Utf8.{valid_string}
use m3_repoworker.Go.Parse.{join_with}
use m3_repoworker.Security.Values.{valid_id, valid_opaque}
use m3_repoworker.Security.Authentication.{
  TransportMetadata, SignedHeaderPrincipalProvider, Claim, message_of,
}

abbrev repeat : ℕ → ℕ → Bytes
repeat zero c = []
repeat (suc n) c = c ∷ repeat n c

-- Stand-ins for the hashes.
abbrev hmac : Bytes → Bytes → Bytes
hmac key message = repeat 32 7

abbrev sha256 : Bytes → Bytes
sha256 value = 1 ∷ 2 ∷ []

abbrev provider : SignedHeaderPrincipalProvider
provider = record { key = repeat 32 1; header_name = [] }

abbrev metadata : TransportMetadata
metadata = record {
  session_id = text "mcp_1";
  header = λ name.
      text
        "Bearer rw1.YWxpY2U.bWNwXzE.1000.bjE.0707070707070707070707070707070707070707070707070707070707070707";
  trusted_name = [];
}

-- 1000 seconds of Unix time, less one.
abbrev just_before : ℕ
just_before = 62135597799000000000

abbrev claim : Bytes → Bytes → Claim
claim principal_id transport_id = record {
  principal_id = principal_id;
  transport_id = transport_id;
  expires = text "1000";
  expires_unix = 1000;
  nonce = text "n1";
  signature = [];
}

-- Two principals, one message: the separator may stand in an identity.
one_message :
    message_of (claim (text "a|b") (text "c")) ≡ message_of (claim (text "a") (text "b|c"))
unfolding message_of join_with
one_message = refl

separator_allowed : valid_id (text "a|b") ≡ true
unfolding valid_id valid_opaque valid_string contains contains_any has_prefix
separator_allowed = refl
