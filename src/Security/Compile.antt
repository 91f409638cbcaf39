-- ===== src/Security/Compile.antt =====
-- What a policy compiles to: the mounts, network and credentials of a runtime, and one execution
-- (`Compile` and `CompileExecution` of internal/security/policy.go).
use m3_repoworker.Prelude.{
  ℕ, ◌+◌, Bool, true, false, ◌&&◌, ◌||◌, not, List, [], ◌∷◌, Bytes, text, ◌==◌, bytes_eq, is_empty,
  contains_any, if◌then◌else◌, ltb, length, eq_by,
}
use m3_repoworker.Go.Utf8.{valid_string}
use m3_repoworker.Go.Case.{to_lower}
use m3_repoworker.Go.Space.{trim_space, sort_strings}
use m3_repoworker.Security.Types.{
  Result, ok, err, denied, Capability, network_registry_use, workspace_write, NetworkMode, unset,
  network_none, network_registry, network_full, mount_task_workspace, MountRule, NetworkPolicy,
  ExecutionPolicy, Policy, Binding, ExecutionSpec, CompiledMount, CompiledPolicy, CompiledExecution,
  NetworkMode-discrete, MountSource-discrete, Capability-discrete,
}
use m3_repoworker.Security.Values.{
  valid_identity, valid_opaque, safe_absolute, safe_runtime_path, same_or_within, is_shell,
  contains_capability, contains_string, nul_cr_lf,
}
use m3_repoworker.Security.Environment.{validate_user_environment}

infixl 5 ◌>>=◌
abbrev pub ◌>>=◌ {ℓ κ} : {A : Type ℓ} {B : Type κ} → Result A → (A → Result B) → Result B
ok a >>= f = f a
err e >>= f = err e

abbrev pub policy_version : Bytes
policy_version = text "m3.2-v1"

-- No capability is empty, and none stands twice; `seen` holds those that the loop has passed.
unfoldable pub distinct_capabilities : List Capability → List Capability → Bool
distinct_capabilities seen [] = true
distinct_capabilities seen (capability ∷ rest) =
    let later = distinct_capabilities (capability ∷ seen) rest in
    if eq_by Capability-discrete capability (Capability.other [])
    then false
    else if contains_capability seen capability
    then false
    else later

unfoldable pub validate_policy : Policy → Bool
validate_policy policy =
    if not (bytes_eq policy.version policy_version)
    then false
    else if not (distinct_capabilities [] policy.capabilities)
    then false
    else if eq_by NetworkMode-discrete policy.network.mode network_full
    then false
    else true

-- The loop over the mount rules.
unfoldable pub compile_mounts : Policy → Binding → List MountRule → Result (List CompiledMount)
compile_mounts policy binding [] = ok []
compile_mounts policy binding (mount ∷ rest) =
    let later = compile_mounts policy binding rest in
    if not (eq_by MountSource-discrete mount.source mount_task_workspace)
      || not (safe_absolute mount.target)
      || same_or_within binding.live_repository binding.task_workspace
    then err denied
    else do
      mounts ← later
      ok (
          record {
            source = binding.task_workspace;
            target = mount.target;
            read_only =
                if contains_capability policy.capabilities workspace_write
                then false
                else mount.read_only;
          }
          ∷ mounts)

unfoldable pub or_default_mount : Policy → Binding → List CompiledMount → List CompiledMount
or_default_mount policy binding (mount ∷ mounts) = mount ∷ mounts
or_default_mount policy binding [] =
    record {
      source = binding.task_workspace;
      target = text "/workspace";
      read_only = not (contains_capability policy.capabilities workspace_write);
    }
    ∷ []

-- The loop of `canonicalDomains` that fills the set.
domain_set : List Bytes → List Bytes → List Bytes
domain_set set [] = set
domain_set set (raw ∷ rest) =
    let domain = to_lower (trim_space raw) in
    domain_set
      (if not (is_empty domain)
          && not (contains_any domain (b'/' ∷ 92 ∷ 0 ∷ b':' ∷ b' ' ∷ []))
          && not (contains_string set domain)
        then domain ∷ set
        else set)
      rest

unfoldable pub canonical_domains : List Bytes → List Bytes
unfolding domain_set
canonical_domains domains = sort_strings (domain_set [] domains)

-- The network of a compiled policy.
unfoldable pub compile_network : Policy → Result NetworkPolicy
compile_network policy = elim policy.network.mode [
  | unset ↦ ok (record { mode = network_none; registry_domain = policy.network.registry_domain })
  | network_none ↦ ok policy.network
  | network_full ↦ err denied
  | network_registry ↦
      if not (contains_capability policy.capabilities network_registry_use)
        || length policy.network.registry_domain == 0
      then err denied
      else if length (canonical_domains policy.network.registry_domain) == 0
      then err denied
      else ok (record {
        mode = network_registry;
        registry_domain = canonical_domains policy.network.registry_domain;
      })
  | NetworkMode.other mode ↦ err denied
]

unfoldable pub compile : Policy → Binding → Result CompiledPolicy
compile policy binding =
    if not (validate_policy policy)
      || not (valid_identity binding.repository_id)
      || is_empty binding.filesystem_id
      || not (valid_opaque binding.workspace_id)
      || not (safe_absolute binding.task_workspace)
      || not (safe_absolute binding.live_repository)
      || same_or_within binding.live_repository binding.task_workspace
      || same_or_within binding.task_workspace binding.live_repository
    then err denied
    else do
      mounts ← compile_mounts policy binding policy.mounts
      network ← compile_network policy
      ok (record {
        version = policy.version;
        mounts = or_default_mount policy binding mounts;
        network = network;
        credentials = record {
          provider = policy.credentials.provider;
          scopes = policy.credentials.allowed_scopes;
        };
      })

abbrev or_default : ℕ → ℕ → ℕ
or_default limit default = if limit == 0 then default else limit

-- The loop over the arguments: no NUL, and UTF-8.
abbrev plain_arguments : List Bytes → Bool
plain_arguments [] = true
plain_arguments (arg ∷ args) =
    if contains_any arg (0 ∷ []) || not (valid_string arg) then false else plain_arguments args

abbrev pub argument_bytes : List Bytes → ℕ
argument_bytes [] = 0
argument_bytes (arg ∷ args) = length arg + argument_bytes args

unfoldable pub compile_execution : ExecutionPolicy → ExecutionSpec → Result CompiledExecution
compile_execution policy spec =
    if not (bytes_eq spec.backend (text "apple-container"))
      && not (bytes_eq spec.backend (text "lima"))
    then err denied
    else if not (safe_runtime_path spec.cwd)
        || is_empty spec.executable
        || contains_any spec.executable nul_cr_lf
        || not (contains_string policy.allowed_executables spec.executable)
    then err denied
    else if is_shell spec.executable && not (bytes_eq spec.backend (text "apple-container"))
    then err denied
    else if ltb (or_default policy.max_arguments 128) (length spec.arguments)
    then err denied
    else if not (plain_arguments spec.arguments)
    then err denied
    else if ltb (or_default policy.max_arg_bytes 65536) (argument_bytes spec.arguments)
    then err denied
    else if not (
        validate_user_environment spec.environment (or_default policy.max_environment_items 64)
          (or_default policy.max_environment_bytes 16384))
    then err denied
    else ok (record {
      backend = spec.backend;
      executable = spec.executable;
      arguments = spec.arguments;
      cwd = spec.cwd;
      environment = spec.environment;
    })
