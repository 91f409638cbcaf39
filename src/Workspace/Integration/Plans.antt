-- ===== src/Workspace/Integration/Plans.antt =====
-- The plans of internal/workspace/integration.go, and the files that they are about.
use m3_repoworker.Prelude.{
  ℕ, ◌/◌, ◌%◌, ◌&&◌, ◌||◌, not, Bool, true, false, ◌==◌, leb, length, List, [], ◌∷◌, ◌++◌, Bytes,
  text, bytes_eq, is_empty, has_prefix, contains_any, Option, none, some, Dict, lookup,
  if◌then◌else◌,
}
use m3_repoworker.Go.Hex.{encode_to_string}
use m3_repoworker.Go.Filepath.{is_abs, clean, dot, dotdot}
use m3_repoworker.Go.Order.{text_before}
use m3_repoworker.Workspace.Checks.{valid_generation_id}

-- `IntegrationStep`.
pub record Step : Type 0 where
  pub path : Bytes
  pub operation : Bytes
  pub before_digest : Bytes
  pub after_digest : Bytes
  pub mode : ℕ
  pub staged_blob : Bytes

-- `IntegrationPlan`.
pub record Plan : Type 0 where
  pub repository_id : Bytes
  pub source_filesystem : Bytes
  pub generation_id : Bytes
  pub lease_generation : ℕ
  pub base_snapshot : Bytes
  pub candidate_snapshot : Bytes
  pub steps : List Step
  pub plan_digest : Bytes

-- What stands at a path of the live tree: a regular file with its permissions, or something else.
pub data Entry : Type 0 where
  regular : Bytes → ℕ → Entry
  other : Entry

abbrev pub Tree : Type 0
Tree = Dict Entry

-- SHA-256.
abbrev pub Hash : Type 0
Hash = Bytes → Bytes

pub record FileState : Type 0 where
  pub exists : Bool
  pub digest : Bytes
  pub mode : ℕ

unfoldable pub create_operation : Bytes
create_operation = text "create"

unfoldable pub update_operation : Bytes
update_operation = text "update"

unfoldable pub delete_operation : Bytes
delete_operation = text "delete"

unfoldable pub known_operation : Bytes → Bool
known_operation operation =
    bytes_eq operation create_operation
    || bytes_eq operation update_operation
    || bytes_eq operation delete_operation

abbrev max_blob : ℕ
max_blob = 4194304

unfoldable pub small_blob : Bytes → Bool
small_blob blob = leb (length blob) max_blob

-- `validRelativePath`.
unfoldable pub valid_relative_path : Bytes → Bool
valid_relative_path path =
    not (is_empty path || is_abs path || contains_any path (92 ∷ 0 ∷ []))
    && not (
        not (bytes_eq (clean path) path)
        || bytes_eq (clean path) dot
        || has_prefix (clean path) (text "../")
        || bytes_eq (clean path) dotdot
        || has_prefix (clean path) (text ".git/"))

-- The digest that `fileStateAt` takes of a file.
unfoldable pub digest_of : Hash → Bytes → ℕ → Bytes
digest_of hash content mode =
    encode_to_string (hash (content ++ 0 ∷ mode / 256 % 256 ∷ mode % 256 ∷ []))

unfoldable pub entry_state : Hash → Option Entry → Option FileState
entry_state hash none = some (record { exists = false; digest = []; mode = 0 })
entry_state hash (some (regular content mode)) =
    some (record { exists = true; digest = digest_of hash content mode; mode = mode })
entry_state hash (some other) = none

-- `fileStateAt`; `readable` says that the file can be read.
unfoldable pub file_state_at : Hash → Bool → Bytes → Tree → Option FileState
file_state_at hash readable path tree =
    if not (valid_relative_path path) || not readable
    then none
    else entry_state hash (lookup path tree)

-- The body of the loop of `validIntegrationPlan`.
unfoldable pub valid_step : Bytes → Step → Bool
valid_step previous step =
    valid_relative_path step.path
    && text_before previous step.path
    && not (bytes_eq step.before_digest step.after_digest)
    && known_operation step.operation
    && small_blob step.staged_blob
    && not (bytes_eq step.operation delete_operation && not (is_empty step.staged_blob))

unfoldable pub valid_steps : Bytes → List Step → Bool
valid_steps previous [] = true
valid_steps previous (step ∷ steps) = valid_step previous step && valid_steps step.path steps

-- `validIntegrationPlan`.
unfoldable pub valid_plan : Plan → Bool
valid_plan plan =
    not (is_empty plan.repository_id)
    && not (is_empty plan.source_filesystem)
    && valid_generation_id plan.generation_id
    && not (plan.lease_generation == 0)
    && not (is_empty plan.base_snapshot)
    && not (is_empty plan.candidate_snapshot)
    && not (is_empty plan.plan_digest)
    && valid_steps [] plan.steps
