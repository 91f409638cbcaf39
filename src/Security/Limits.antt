-- ===== src/Security/Limits.antt =====
-- What an accepted environment, execution and policy are limited to.
use m3_repoworker.Prelude.{
  ℕ, ◌+◌, ◌≤◌, ◌<◌, ◌≡◌, ◌↔◌, refl, Bool, true, ◌⊎◌, List, [], ◌∷◌, Bytes, text, Option, none, some,
  arith, ◌==◌, if◌then◌else◌, All, length,
}
use m3_repoworker.Security.Types.{ExecutionPolicy, ExecutionSpec}
use m3_repoworker.Security.Values.{contains_string, is_shell, safe_runtime_path}
use m3_repoworker.Security.Environment.{
  cut_name, valid_entry, valid_entries, validate_environment, total_bytes, IsSafeEntry,
}
use m3_repoworker.Security.Compile.{argument_bytes}

IsSafeEntry-of :
    (user_supplied : Bool) (value : Bytes) (o : Option Bytes)
    → cut_name value ≡ o
    → valid_entry user_supplied value ≡ true
    → IsSafeEntry user_supplied value
unfolding valid_entry
IsSafeEntry-of user_supplied value none cut h = ground arith
IsSafeEntry-of user_supplied value (some name) cut h = record {
  name = name;
  cut = cut;
  named = ground arith;
  one_line = ground arith;
  encoded = ground arith;
  unprotected = ground arith;
  harmless = ground arith;
}

valid_entry-of :
    (user_supplied : Bool) (value : Bytes)
    → IsSafeEntry user_supplied value
    → valid_entry user_supplied value ≡ true
unfolding valid_entry
valid_entry-of user_supplied value s =
    ground (arith, s.cut, s.named, s.one_line, s.encoded, s.unprotected, s.harmless)

valid_entries_sound :
    (user_supplied : Bool) (max_bytes total : ℕ) (values : List Bytes)
    → total ≤ max_bytes
    → valid_entries user_supplied max_bytes total values ≡ true
    → (total + total_bytes values ≤ max_bytes) × All (IsSafeEntry user_supplied) values
unfolding valid_entries
valid_entries_sound u max_bytes total [] le h = (omega arith, tt)
valid_entries_sound u max_bytes total (value ∷ values) le h =
    let rest =
      valid_entries_sound u max_bytes (total + length value) values (ground arith) (ground arith) in
    (omega (arith, rest.0), (IsSafeEntry-of u value _ refl (ground arith), rest.1))

valid_entries_complete :
    (user_supplied : Bool) (max_bytes total : ℕ) (values : List Bytes)
    → total + total_bytes values ≤ max_bytes
    → All (IsSafeEntry user_supplied) values
    → valid_entries user_supplied max_bytes total values ≡ true
unfolding valid_entries
valid_entries_complete u max_bytes total [] le h = refl
valid_entries_complete u max_bytes total (value ∷ values) le h = ground (
  arith,
  valid_entry-of u value h.0,
  valid_entries_complete u max_bytes (total + length value) values (omega arith) h.1,
)

-- An environment is accepted exactly when its limits are positive, it has no more entries than the first
-- and, all entries together, no more bytes than the second, and every entry is safe: a
-- name and a value, the name well formed, not of the baseline if a user supplies it and without a
-- marker of secrets, and no NUL, line end or broken UTF-8 in the entry.
pub validate_environment_iff :
    (values : List Bytes) (max_items max_bytes : ℕ) (user_supplied : Bool)
    → (validate_environment values max_items max_bytes user_supplied ≡ true) ↔ (
        (0 < max_items)
        × (0 < max_bytes)
        × (length values ≤ max_items)
        × (total_bytes values ≤ max_bytes)
        × All (IsSafeEntry user_supplied) values)
unfolding validate_environment
validate_environment_iff values max_items max_bytes u = (
  λ h.
      let all = valid_entries_sound u max_bytes 0 values (omega arith) (ground arith) in
      (ground arith, ground arith, ground arith, omega (arith, all.0), all.1),
  λ h. ground (arith, valid_entries_complete u max_bytes 0 values (omega arith) h.4),
)

-- What an execution that compiles is limited to, whatever the caller asked for.
pub record IsBounded (policy : ExecutionPolicy) (spec : ExecutionSpec) : Type 0 where
  pub allowed : contains_string policy.allowed_executables spec.executable ≡ true
  pub inside : safe_runtime_path spec.cwd ≡ true
  pub contained : is_shell spec.executable ≡ true → spec.backend ≡ text "apple-container"
  pub backend : (spec.backend ≡ text "apple-container") ⊎ (spec.backend ≡ text "lima")
  pub arguments :
      length spec.arguments ≤ (if policy.max_arguments == 0 then 128 else policy.max_arguments)
  pub bytes :
      argument_bytes spec.arguments
      ≤ (if policy.max_arg_bytes == 0 then 65536 else policy.max_arg_bytes)
  pub variables :
      length spec.environment
      ≤ (if policy.max_environment_items == 0 then 64 else policy.max_environment_items)
  pub environment : All (IsSafeEntry true) spec.environment
