-- ===== src/Security/Confinement.antt =====
-- What a compiled policy confines a runtime to.
use m3_repoworker.Prelude.{
  subst, ◌≡◌, ◌≢◌, refl, sym, ◌∙◌, Bool, true, false, ◌⊎◌, inl, inr, List, [], ◌∷◌, text, bytes_eq,
  contains_any, arith, if◌then◌else◌, All,
}
use m3_repoworker.Go.Filepath.{is_abs, clean}
use m3_repoworker.Security.Types.{
  Result, ok, err, denied, MountRule, Policy, Binding, NetworkPolicy, CompiledMount, CompiledPolicy,
  NetworkMode, unset, network_none, network_registry, network_full, network_registry_use,
  workspace_write,
}
use m3_repoworker.Security.Values.{contains_capability, same_or_within, safe_absolute}
use m3_repoworker.Security.Compile.{
  ◌>>=◌, compile, compile_mounts, compile_network, or_default_mount,
}

abbrev Ensures : {A : Type 0} → (A → Type 0) → Result A → Type 0
Ensures P (ok a) = P a
Ensures P (err e) = Unit

-- A mount of the task workspace, at an absolute target that is clean.
abbrev pub IsWorkspaceMount : Binding → CompiledMount → Type 0
IsWorkspaceMount binding m = (m.source ≡ binding.task_workspace) × (safe_absolute m.target ≡ true)

Ensures-cons :
    (P : CompiledMount → Type 0) (m : CompiledMount) (r : Result (List CompiledMount))
    → P m
    → Ensures (All P) r
    → Ensures (All P) (r >>= λ ms. ok (m ∷ ms))
Ensures-cons P m (ok ms) h hs = (h, hs)
Ensures-cons P m (err e) h hs = tt

Ensures-guard :
    (P : List CompiledMount → Type 0) (b : Bool) (r : Result (List CompiledMount))
    → (b ≡ false → Ensures P r)
    → Ensures P (if b then err denied else r)
Ensures-guard P true r h = tt
Ensures-guard P false r h = h refl

compile_mounts-confined :
    (policy : Policy) (binding : Binding) (rules : List MountRule)
    → Ensures (All (IsWorkspaceMount binding)) (compile_mounts policy binding rules)
unfolding compile_mounts
compile_mounts-confined policy binding [] = tt
compile_mounts-confined policy binding (rule ∷ rules) =
    let compiled : CompiledMount = record {
      source = binding.task_workspace;
      target = rule.target;
      read_only =
          if contains_capability policy.capabilities workspace_write then false else rule.read_only;
    } in
    Ensures-guard (All (IsWorkspaceMount binding)) _
      (compile_mounts policy binding rules >>= λ ms. ok (compiled ∷ ms))
      λ passed.
        Ensures-cons (IsWorkspaceMount binding) compiled (compile_mounts policy binding rules)
          (refl, ground arith) (compile_mounts-confined policy binding rules)

default_target-safe : safe_absolute (text "/workspace") ≡ true
unfolding safe_absolute is_abs clean contains_any bytes_eq
default_target-safe = refl

or_default_mount-confined :
    (policy : Policy) (binding : Binding) (ms : List CompiledMount)
    → All (IsWorkspaceMount binding) ms
    → All (IsWorkspaceMount binding) (or_default_mount policy binding ms)
      × (or_default_mount policy binding ms ≢ [])
unfolding or_default_mount
or_default_mount-confined policy binding [] h = (((refl, default_target-safe), tt), λ e. cc)
or_default_mount-confined policy binding (m ∷ ms) h = (h, λ e. cc)

-- No network, or the registry network with its capability and at least one domain.
abbrev pub IsConfinedNetwork : Policy → NetworkPolicy → Type 0
IsConfinedNetwork policy network =
    (network.mode ≡ network_none)
    ⊎ ((network.mode ≡ network_registry)
        × (contains_capability policy.capabilities network_registry_use ≡ true)
        × (network.registry_domain ≢ []))

compile_network-confined :
    (policy : Policy) (mode : NetworkMode) (network : NetworkPolicy)
    → policy.network.mode ≡ mode
    → compile_network policy ≡ ok network
    → IsConfinedNetwork policy network
unfolding compile_network
compile_network-confined policy unset network same h = inl (ground arith)
compile_network-confined policy network_none network same h = inl (ground arith)
compile_network-confined policy network_registry network same h =
    inr (ground arith, ground arith, λ e. ground arith)
compile_network-confined policy network_full network same h = ground arith
compile_network-confined policy (NetworkMode.other mode) network same h = ground arith

compile-mounts :
    (policy : Policy) (binding : Binding) (c : CompiledPolicy)
    → compile policy binding ≡ ok c
    → (ms : List CompiledMount) × (compile_mounts policy binding policy.mounts ≡ ok ms)
      × (c.mounts ≡ or_default_mount policy binding ms)
unfolding compile
compile-mounts policy binding c h = ground arith

compile-network :
    (policy : Policy) (binding : Binding) (c : CompiledPolicy)
    → compile policy binding ≡ ok c
    → compile_network policy ≡ ok c.network
unfolding compile
compile-network policy binding c h = ground arith

-- A policy that compiles confines the runtime: it mounts something, and nothing but the task workspace at
-- clean absolute targets; the workspace lies apart from the live repository, neither inside the
-- other; and the network is off, or the registry with its capability and a domain.
pub compile-confines :
    (policy : Policy) (binding : Binding) (c : CompiledPolicy)
    → compile policy binding ≡ ok c
    → All (IsWorkspaceMount binding) c.mounts
      × (c.mounts ≢ [])
      × (same_or_within binding.live_repository binding.task_workspace ≡ false)
      × (same_or_within binding.task_workspace binding.live_repository ≡ false)
      × IsConfinedNetwork policy c.network
unfolding compile
compile-confines policy binding c h =
    let (ms, compiles, same) = compile-mounts policy binding c h in
    let inside : All (IsWorkspaceMount binding) ms =
      subst (Ensures (All (IsWorkspaceMount binding))) compiles
        (compile_mounts-confined policy binding policy.mounts) in
    let mounts = or_default_mount-confined policy binding ms inside in
    (
      subst (All (IsWorkspaceMount binding)) (sym same) mounts.0,
      λ e. mounts.1 (sym same ∙ e),
      ground arith,
      ground arith,
      compile_network-confined policy policy.network.mode c.network refl
          (compile-network policy binding c h),
    )
