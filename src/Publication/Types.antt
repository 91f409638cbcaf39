-- ===== src/Publication/Types.antt =====
-- The values of internal/publication/publication.go.
use m3_repoworker.Prelude.{Bool, List, Bytes, Option, ℕ_discrete}

pub data Error : Type 0 where
  rejected unauthorized disabled stale : Error

pub data Result (A : Type 0) : Type 0 where
  ok : A → Result A
  err : Error → Result A

pub data Kind : Type 0 where
  git_checkpoint jj_checkpoint git_push github_pr release dagger dagu : Kind
  other : Bytes → Kind

pub data Mode : Type 0 where
  unset plan execute : Mode
  other : Bytes → Mode

pub record Candidate : Type 0 where
  pub repository_root : Bytes
  pub candidate_snapshot : Bytes
  pub verified_snapshot : Bytes
  pub environment_id : Bytes
  pub policy_version : Bytes
  pub verified : Bool

pub record Request : Type 0 where
  pub kind : Kind
  pub mode : Mode
  pub dry_run : Bool
  pub confirmation_token : Bytes
  pub remote : Bytes
  pub ref : Bytes
  pub expected_remote_ref : Bytes
  pub base : Bytes
  pub head : Bytes
  pub title : Bytes
  pub body : Bytes
  pub workflow : Bytes

pub record Gate : Type 0 where
  pub enabled : Bool
  pub allow_local_mutation : Bool
  pub allow_external_mutation : Bool
  pub confirmation_token : Bytes

pub record Command : Type 0 where
  pub executable : Bytes
  pub arguments : List Bytes

pub record Publication : Type 0 where
  pub kind : Kind
  pub dry_run : Bool
  pub commands : List Command
  pub remote_before : Bytes
  pub remote_after : Bytes

-- `Runner` and `SnapshotProvider`; `none` is an error. `S` is the world that they change.
pub record Services (S : Type 0) : Type 0 where
  pub run : Bytes → Command → S → Option Bytes × S
  pub snapshot : Bytes → S → Option Bytes × S

unfoldable pub Kind-discrete : Discrete Kind
Kind-discrete = hlevel ℕ_discrete

unfoldable pub Mode-discrete : Discrete Mode
Mode-discrete = hlevel ℕ_discrete
