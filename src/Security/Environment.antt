-- ===== src/Security/Environment.antt =====
-- The checks on a process environment in internal/security/policy.go.
use m3_repoworker.Prelude.{
  ℕ, ◌+◌, ◌≡◌, Bool, true, false, ◌&&◌, ◌||◌, not, List, [], ◌∷◌, Bytes, text, ◌==◌, bytes_eq,
  contains_any, contains, if◌then◌else◌, leb, ltb, every, exists, Option, none, some, length,
}
use m3_repoworker.Go.Utf8.{valid_string}
use m3_repoworker.Go.Case.{to_upper}
use m3_repoworker.Security.Values.{nul_cr_lf}

-- The part of `strings.Cut(value, "=")` in front of the separator, if there is one.
unfoldable pub cut_name : Bytes → Option Bytes
cut_name [] = none
cut_name (c ∷ s) =
    if c == b'=' then some [] else elim (cut_name s) [ none ↦ none | some name ↦ some (c ∷ name) ]

abbrev name_start : ℕ → Bool
name_start c = c == b'_' || (leb b'A' c && leb c b'Z') || (leb b'a' c && leb c b'z')

abbrev name_rest : ℕ → Bool
name_rest c = name_start c || (leb b'0' c && leb c b'9')

unfoldable pub valid_environment_name : Bytes → Bool
valid_environment_name [] = false
valid_environment_name (c ∷ s) = if not (name_start c) then false else every name_rest s

abbrev protected_names : List Bytes
protected_names =
    text "PATH"
    ∷ text "HOME"
    ∷ text "TMPDIR"
    ∷ text "LC_ALL"
    ∷ text "PWD"
    ∷ text "OLDPWD"
    ∷ text "SHELL"
    ∷ text "ENV"
    ∷ text "BASH_ENV"
    ∷ text "ZDOTDIR"
    ∷ text "LD_PRELOAD"
    ∷ text "LD_LIBRARY_PATH"
    ∷ text "GIT_CONFIG_SYSTEM"
    ∷ text "GIT_CONFIG_GLOBAL"
    ∷ []

unfoldable pub protected_environment_name : Bytes → Bool
protected_environment_name name = exists (bytes_eq (to_upper name)) protected_names

abbrev sensitive_markers : List Bytes
sensitive_markers =
    text "AUTHORIZATION"
    ∷ text "BEARER"
    ∷ text "TOKEN"
    ∷ text "SECRET"
    ∷ text "PASSWORD"
    ∷ text "PRIVATE_KEY"
    ∷ text "SSH_AUTH_SOCK"
    ∷ text "CONTROL_PLANE_API_KEY"
    ∷ text "OPERATOR_KEY"
    ∷ text "GITHUB_TOKEN"
    ∷ text "AWS_SECRET"
    ∷ text "AWS_ACCESS_KEY"
    ∷ text "AZURE_CLIENT_SECRET"
    ∷ text "GOOGLE_APPLICATION_CREDENTIALS"
    ∷ []

unfoldable pub contains_sensitive_environment_marker : Bytes → Bool
contains_sensitive_environment_marker name = exists (contains (to_upper name)) sensitive_markers

-- The tests on one entry that do not concern the running total.
unfoldable pub valid_entry : Bool → Bytes → Bool
valid_entry user_supplied value = elim (cut_name value) [
  | none ↦ false
  | some name ↦
      if not (valid_environment_name name)
        || contains_any value nul_cr_lf
        || not (valid_string value)
      then false
      else if user_supplied && protected_environment_name name
      then false
      else if contains_sensitive_environment_marker name
      then false
      else true
]

-- The loop of `validateEnvironment`, from the bytes counted so far.
unfoldable pub valid_entries : Bool → ℕ → ℕ → List Bytes → Bool
valid_entries user_supplied max_bytes total [] = true
valid_entries user_supplied max_bytes total (value ∷ values) =
    let rest = valid_entries user_supplied max_bytes (total + length value) values in
    if not (valid_entry user_supplied value)
    then false
    else if ltb max_bytes (total + length value)
    then false
    else rest

-- `validateEnvironment`; a limit that is not positive is zero.
unfoldable pub validate_environment : List Bytes → ℕ → ℕ → Bool → Bool
validate_environment values max_items max_bytes user_supplied =
    if ltb max_items (length values) || max_items == 0 || max_bytes == 0
    then false
    else valid_entries user_supplied max_bytes 0 values

-- `ValidateEnvironment`, for a complete baseline.
unfoldable pub validate_baseline : List Bytes → Bool
unfolding validate_environment
validate_baseline values = validate_environment values 128 32768 false

-- `ValidateUserEnvironment`, for what a caller supplies.
unfoldable pub validate_user_environment : List Bytes → ℕ → ℕ → Bool
unfolding validate_environment
validate_user_environment values max_items max_bytes =
    validate_environment values max_items max_bytes true

-- The bytes of all entries together.
abbrev pub total_bytes : List Bytes → ℕ
total_bytes [] = 0
total_bytes (value ∷ values) = length value + total_bytes values

-- What an accepted entry looks like to the process: `name=…`, with a shell-safe name that neither
-- belongs to the baseline nor hints at a secret, and no byte that ends a line or the text.
pub record IsSafeEntry (user_supplied : Bool) (value : Bytes) : Type 0 where
  pub name : Bytes
  pub cut : cut_name value ≡ some name
  pub named : valid_environment_name name ≡ true
  pub one_line : contains_any value nul_cr_lf ≡ false
  pub encoded : valid_string value ≡ true
  pub unprotected : (user_supplied && protected_environment_name name) ≡ false
  pub harmless : contains_sensitive_environment_marker name ≡ false
