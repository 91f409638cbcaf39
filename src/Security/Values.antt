-- ===== src/Security/Values.antt =====
-- The checks on single values in internal/security/policy.go.
use m3_repoworker.Prelude.{
  ℕ, zero, suc, Bool, true, false, ◌&&◌, ◌||◌, not, List, [], ◌∷◌, Bytes, text, ◌==◌, bytes_eq,
  is_empty, contains_any, contains, has_prefix, if◌then◌else◌, leb, ltb, every, exists, length,
  eq_by, ◌++◌,
}
use m3_repoworker.Go.Utf8.{valid_string}
use m3_repoworker.Go.Hex.{encode_to_string}
use m3_repoworker.Go.Filepath.{is_abs, clean, rel, base, dotdot, dot}
use m3_repoworker.Go.Case.{to_lower}
use m3_repoworker.Security.Types.{Capability, ConfirmationBinding, Principal, Capability-discrete}

abbrev pub nul_cr_lf : List ℕ
nul_cr_lf = 0 ∷ 13 ∷ 10 ∷ []

abbrev lower_hex : ℕ → Bool
lower_hex r = (leb b'0' r && leb r b'9') || (leb b'a' r && leb r b'f')

-- `validIdentity`; the loop over runes runs over bytes, since a byte of a longer rune is refused too.
unfoldable pub valid_identity : Bytes → Bool
valid_identity value =
    if not (length value == 64) || not (valid_string value) then false else every lower_hex value

unfoldable pub valid_opaque : Bytes → Bool
valid_opaque value =
    if is_empty value
      || ltb 256 (length value)
      || not (valid_string value)
      || contains_any value (0 ∷ 13 ∷ 10 ∷ b'/' ∷ 92 ∷ [])
    then false
    else true

unfoldable pub valid_id : Bytes → Bool
valid_id value =
    valid_opaque value
    && not (contains value (text "secret"))
    && not (contains value (text "token"))

unfoldable pub valid_relative_path : Bytes → Bool
valid_relative_path path =
    if is_empty path || is_abs path || contains_any path (92 ∷ 0 ∷ [])
    then false
    else bytes_eq (clean path) path
      && not (bytes_eq (clean path) dot)
      && not (bytes_eq (clean path) dotdot)
      && not (has_prefix (clean path) (text "../"))

unfoldable pub safe_absolute : Bytes → Bool
safe_absolute path =
    not (is_empty path)
    && is_abs path
    && bytes_eq (clean path) path
    && not (contains_any path nul_cr_lf)

unfoldable pub safe_runtime_path : Bytes → Bool
safe_runtime_path path =
    safe_absolute path
    && (bytes_eq path (text "/workspace") || has_prefix path (text "/workspace/"))
    && not (contains path dotdot)

unfoldable pub same_or_within : Bytes → Bytes → Bool
same_or_within parent candidate =
    if not (safe_absolute parent) || not (safe_absolute candidate)
    then true
    else bytes_eq (rel parent candidate) dot
      || (not (bytes_eq (rel parent candidate) dotdot)
          && not (has_prefix (rel parent candidate) (text "../"))
          && not (is_abs (rel parent candidate)))

unfoldable pub is_shell : Bytes → Bool
is_shell executable =
    exists (bytes_eq (to_lower (base executable)))
      (text "sh" ∷ text "bash" ∷ text "zsh" ∷ text "fish" ∷ text "cmd" ∷ text "powershell" ∷ [])

-- `newOpaque`, given the sixteen bytes that crypto/rand supplies.
unfoldable pub new_opaque : Bytes → Bytes → Bytes
new_opaque prefix random = prefix ++ encode_to_string random

unfoldable pub contains_capability : List Capability → Capability → Bool
contains_capability capabilities wanted =
    exists (λ capability. eq_by Capability-discrete capability wanted) capabilities

unfoldable pub contains_string : List Bytes → Bytes → Bool
contains_string values wanted = exists (λ value. bytes_eq value wanted) values

unfoldable pub valid_confirmation_binding : ConfirmationBinding → Bool
valid_confirmation_binding binding =
    valid_opaque binding.action
    && valid_identity binding.repository_id
    && valid_id binding.principal_id
    && valid_opaque binding.session_id
    && valid_opaque binding.generation_id
    && ltb 0 binding.fencing_generation
    && valid_identity binding.candidate_snapshot
    && valid_identity binding.plan_digest

-- `validPrincipal` at the time `now`; the zero time is zero.
unfoldable pub valid_principal : ℕ → Principal → Bool
valid_principal now principal =
    valid_id principal.id
    && valid_opaque principal.transport_id
    && valid_identity principal.authentication_id
    && not (principal.expires_at == 0)
    && ltb now principal.expires_at

-- Without NUL and carriage return, hidden where it shows a credential, and cut at 1024 bytes.
redact_lines : Bytes → Bytes
redact_lines [] = []
redact_lines (c ∷ s) = let rest = redact_lines s in if c == 0 || c == 13 then rest else c ∷ rest

take_bytes : ℕ → Bytes → Bytes
take_bytes zero s = []
take_bytes (suc n) [] = []
take_bytes (suc n) (c ∷ s) = c ∷ take_bytes n s

unfoldable pub redact : Bytes → Bytes
unfolding redact_lines take_bytes
redact raw =
    let value = redact_lines raw in
    if exists (contains (to_lower value)) (
      text "authorization: bearer "
      ∷ text "-----begin private key-----"
      ∷ text "ghp_"
      ∷ text "github_pat_"
      ∷ text "sk-proj-"
      ∷ [])
    then text "[redacted]"
    else if ltb 1024 (length value)
    then take_bytes 1024 value ++ 0xE2 ∷ 0x80 ∷ 0xA6 ∷ []
    else value
