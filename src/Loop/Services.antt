-- ===== src/Loop/Services.antt =====
-- What the loop of internal/loop/loop.go calls: the model, the authority, the store of
-- internal/events, the clock, JSON and SHA-256. `S` is the world that the calls change.
use m3_repoworker.Prelude.{ℕ, Option, List, Bytes}
use m3_repoworker.Loop.Types.{
  Binding, Action, Plan, Failure, State, Cause, Answer, Event, Checkpoint,
}

pub record Services (S : Type 0) : Type 0 where
  -- `ctx.Err()`.
  pub ctx_err : S → Option Cause
  pub now : S → ℕ
  pub marshal : State → Option Bytes
  pub unmarshal : Bytes → Option State
  pub sha256 : Bytes → Bytes
  -- `Model`.
  pub inspect : Binding → S → Answer Bytes × S
  pub plan : Binding → Bytes → S → Answer Plan × S
  pub diagnose : Binding → Failure → List Bytes → S → Answer Plan × S
  -- `Authority`; an answer is the error, if there is one.
  pub parallel_commands : Binding → List Action → S → Option Cause × S
  pub patch_candidate : Binding → Action → S → Option Cause × S
  pub targeted_test : Binding → Action → S → Option Cause × S
  pub full_verify : Binding → Action → S → Option Cause × S
  pub checkpoint : Binding → S → Option Cause × S
  -- `BindingRefresher`, which an authority may lack.
  pub refresh_binding : Option (Binding → S → Answer Binding × S)
  -- The store: a run's binding is its repository, snapshot, environment and policy version.
  pub get_run : Bytes → S → Answer Binding × S
  pub list_events : Bytes → ℕ → ℕ → S → Answer (List Event) × S
  pub append_event : Bytes → Bytes → Bytes → S → Option Cause × S
  pub update_run_binding : Bytes → Bytes → Bytes → Bytes → S → Option Cause × S
  pub save_checkpoint : Checkpoint → S → Option Cause × S
  pub update_run_status : Bytes → Bytes → S → Option Cause × S
