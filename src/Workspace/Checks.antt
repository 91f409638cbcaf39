-- ===== src/Workspace/Checks.antt =====
-- The checks of names and paths in internal/workspace/workspace.go.
use m3_repoworker.Prelude.{
  ◌&&◌, ◌||◌, not, Bool, [], ◌∷◌, ◌++◌, Bytes, text, bytes_eq, is_empty, contains_any, has_prefix,
  leb, length, ◌==◌, ℕ,
}
use m3_repoworker.Go.Filepath.{rel, dot, dotdot, clean}
use m3_repoworker.Workspace.Types.{Lease, Repository}

unfoldable pub active_state : Bytes
active_state = text "ACTIVE"

unfoldable pub quarantined_state : Bytes
quarantined_state = text "QUARANTINED"

unfoldable pub valid_generation_id : Bytes → Bool
valid_generation_id id =
    leb (length id) 64 && has_prefix id (text "gen_") && not (contains_any id (b'/' ∷ 92 ∷ 0 ∷ []))

unfoldable pub valid_owner : Bytes → Bool
valid_owner owner =
    not (is_empty owner)
    && leb (length owner) 256
    && not (contains_any owner (b'/' ∷ 92 ∷ 0 ∷ 13 ∷ 10 ∷ []))

-- `pathWithin`; the relative path of two absolute ones is never absolute.
unfoldable pub path_within : Bytes → Bytes → Bool
path_within parent candidate =
    let relative = rel parent candidate in
    bytes_eq relative dot
    || (not (bytes_eq relative dotdot) && not (has_prefix relative (text "../")))

-- `filepath.Join(r.workspaceRoot, id)`.
unfoldable pub path_of : Repository → Bytes → Bytes
path_of r id = clean (r.workspace_root ++ (b'/' ∷ id))

abbrev one_day : ℕ
one_day = 86400000000000

-- `ttl <= 0 || ttl > 24*time.Hour`, where a duration that is not positive is zero.
unfoldable pub valid_ttl : ℕ → Bool
valid_ttl ttl = not (ttl == 0) && leb ttl one_day

-- The check of a lease on disk: it names the generation, and none of its fields is empty.
unfoldable pub well_formed : Bytes → Lease → Bool
well_formed id lease =
    bytes_eq lease.generation_id id
    && valid_owner lease.owner
    && not (lease.fencing_generation == 0)
    && not (lease.expires_at == 0)

unfoldable pub lease_eq : Lease → Lease → Bool
lease_eq a b =
    bytes_eq a.generation_id b.generation_id
    && bytes_eq a.owner b.owner
    && a.fencing_generation == b.fencing_generation
    && a.expires_at == b.expires_at
