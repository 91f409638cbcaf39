-- ===== src/Security/Types.antt =====
-- The domain values of internal/security/policy.go. A string type whose values the code compares with
-- named constants is a data type of those constants and `other` for the rest; times and durations
-- are nanoseconds, with zero for Go's zero time and for a duration that is not positive.
use m3_repoworker.Prelude.{ℕ, Bool, true, false, ◌≡◌, ◌≢◌, refl, List, Bytes, ℕ_discrete}

pub data Error : Type 0 where
  denied replay expired unauthenticated request_metadata : Error

pub data Result {ℓ} (A : Type ℓ) : Type ℓ where
  ok : A → Result A
  err : Error → Result A

abbrev pub is_ok {ℓ} : {A : Type ℓ} → Result A → Bool
is_ok (ok a) = true
is_ok (err e) = false

pub is_ok→ok {ℓ} : {A : Type ℓ} (r : Result A) → is_ok r ≡ true → (a : A) × (r ≡ ok a)
is_ok→ok (ok a) h = (a, refl)
is_ok→ok (err e) h = cc

-- A result that equals no success is an error.
pub not-ok {ℓ} : {A : Type ℓ} (r : Result A) → ((a : A) → r ≢ ok a) → is_ok r ≡ false
not-ok (ok a) h = absurd (h a refl)
not-ok (err e) h = refl

pub data Capability : Type 0 where
  repo_read repo_search workspace_read workspace_write execute process_control : Capability
  runtime_create network_registry_use integrate publish credential_read : Capability
  other : Bytes → Capability

pub data TargetKind : Type 0 where
  live_repository task_workspace runtime : TargetKind
  other : Bytes → TargetKind

pub data ConfirmationClass : Type 0 where
  no_confirmation destructive publication : ConfirmationClass
  other : Bytes → ConfirmationClass

pub data NetworkMode : Type 0 where
  unset network_none network_registry network_full : NetworkMode
  other : Bytes → NetworkMode

pub data MountSource : Type 0 where
  mount_task_workspace : MountSource
  other : Bytes → MountSource

pub record MountRule : Type 0 where
  pub source : MountSource
  pub target : Bytes
  pub read_only : Bool

pub record NetworkPolicy : Type 0 where
  pub mode : NetworkMode
  pub registry_domain : List Bytes

pub record CredentialPolicy : Type 0 where
  pub allowed_scopes : List Bytes
  pub provider : Bytes

-- A limit that is not positive is zero: the code replaces both by its default.
pub record ExecutionPolicy : Type 0 where
  pub allowed_executables : List Bytes
  pub max_arg_bytes : ℕ
  pub max_arguments : ℕ
  pub max_environment_bytes : ℕ
  pub max_environment_items : ℕ

pub record Policy : Type 0 where
  pub version : Bytes
  pub capabilities : List Capability
  pub mounts : List MountRule
  pub network : NetworkPolicy
  pub credentials : CredentialPolicy
  pub execution : ExecutionPolicy

pub record RepositoryEnrollment : Type 0 where
  pub repository_id : Bytes
  pub filesystem_id : Bytes
  pub trusted_ref_digest : Bytes
  pub enrolled_at : ℕ

pub record Principal : Type 0 where
  pub id : Bytes
  pub transport_id : Bytes
  pub authentication_id : Bytes
  pub expires_at : ℕ

pub record Session : Type 0 where
  pub id : Bytes
  pub principal_id : Bytes
  pub repository_id : Bytes
  pub transport_id : Bytes
  pub authentication_id : Bytes
  pub nonce : Bytes
  pub expires_at : ℕ

pub record ConfirmationBinding : Type 0 where
  pub action : Bytes
  pub repository_id : Bytes
  pub principal_id : Bytes
  pub session_id : Bytes
  pub generation_id : Bytes
  pub fencing_generation : ℕ
  pub candidate_snapshot : Bytes
  pub plan_digest : Bytes

pub record Confirmation : Type 0 where
  pub token : Bytes
  pub class : ConfirmationClass
  pub binding : ConfirmationBinding
  pub expires_at : ℕ

pub record OperatorConfirmationRequest : Type 0 where
  pub binding : ConfirmationBinding
  pub class : ConfirmationClass
  pub ttl : ℕ

pub record ExecutionSpec : Type 0 where
  pub backend : Bytes
  pub executable : Bytes
  pub arguments : List Bytes
  pub cwd : Bytes
  pub environment : List Bytes

pub record Request : Type 0 where
  pub session_id : Bytes
  pub principal_id : Bytes
  pub repository_id : Bytes
  pub nonce : Bytes
  pub capability : Capability
  pub target : TargetKind
  pub path : Bytes
  pub trusted_integration_ref : Bytes
  pub confirmation_token : Bytes
  pub confirmation_binding : ConfirmationBinding
  pub execution : ExecutionSpec

pub record Binding : Type 0 where
  pub repository_id : Bytes
  pub filesystem_id : Bytes
  pub live_repository : Bytes
  pub task_workspace : Bytes
  pub workspace_id : Bytes

pub record CompiledMount : Type 0 where
  pub source : Bytes
  pub target : Bytes
  pub read_only : Bool

pub record CompiledCredentials : Type 0 where
  pub provider : Bytes
  pub scopes : List Bytes

pub record CompiledPolicy : Type 0 where
  pub version : Bytes
  pub mounts : List CompiledMount
  pub network : NetworkPolicy
  pub credentials : CompiledCredentials

pub record CompiledExecution : Type 0 where
  pub backend : Bytes
  pub executable : Bytes
  pub arguments : List Bytes
  pub cwd : Bytes
  pub environment : List Bytes

pub data Outcome : Type 0 where
  enrolled was_denied was_allowed : Outcome

unfoldable pub Capability-discrete : Discrete Capability
Capability-discrete = hlevel ℕ_discrete

unfoldable pub TargetKind-discrete : Discrete TargetKind
TargetKind-discrete = hlevel ℕ_discrete

unfoldable pub ConfirmationClass-discrete : Discrete ConfirmationClass
ConfirmationClass-discrete = hlevel ℕ_discrete

unfoldable pub NetworkMode-discrete : Discrete NetworkMode
NetworkMode-discrete = hlevel ℕ_discrete

unfoldable pub MountSource-discrete : Discrete MountSource
MountSource-discrete = hlevel ℕ_discrete

unfoldable pub ConfirmationBinding-discrete : Discrete ConfirmationBinding
ConfirmationBinding-discrete = hlevel ℕ_discrete
