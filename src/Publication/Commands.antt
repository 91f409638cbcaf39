-- ===== src/Publication/Commands.antt =====
-- The checks of a publication request, and the commands that it stands for, of
-- internal/publication/publication.go.
use m3_repoworker.Prelude.{
  ℕ, Bool, ◌&&◌, ◌||◌, not, List, [], ◌∷◌, ◌++◌, Bytes, text, bytes_eq, is_empty, Option, none,
  some, leb, ◌==◌, if◌then◌else◌, length, every, exists, eq_by, contains_any, contains,
}
use m3_repoworker.Go.Filepath.{is_abs, clean}
use m3_repoworker.Go.Case.{to_lower}
use m3_repoworker.Publication.Types.{
  Kind, git_checkpoint, jj_checkpoint, git_push, github_pr, release, dagger, dagu, Kind-discrete,
  other, unset, plan, execute, Mode-discrete, Candidate, Request, Command,
}

unfoldable pub requires_external : Kind → Bool
requires_external kind =
    not (eq_by Kind-discrete kind git_checkpoint) && not (eq_by Kind-discrete kind jj_checkpoint)

unfoldable pub valid_hex : Bytes → Bool
valid_hex value = every (λ c. (leb 48 c && leb c 57) || (leb 97 c && leb c 102)) value

unfoldable pub valid_snapshot : Bytes → Bool
valid_snapshot value = length value == 64 && valid_hex value

unfoldable pub valid_candidate : Candidate → Bool
valid_candidate candidate =
    candidate.verified
    && is_abs candidate.repository_root
    && bytes_eq (clean candidate.repository_root) candidate.repository_root
    && valid_snapshot candidate.candidate_snapshot
    && bytes_eq candidate.candidate_snapshot candidate.verified_snapshot
    && not (is_empty candidate.environment_id)
    && not (is_empty candidate.policy_version)

abbrev pub control_bytes : Bytes
control_bytes = 0 ∷ 13 ∷ 10 ∷ []

unfoldable pub valid_token : Bytes → Bool
valid_token token = leb (length token) 256 && not (contains_any token control_bytes)

unfoldable pub valid_request : Request → Bool
valid_request request =
    not (eq_by Kind-discrete request.kind (other []))
    && (eq_by Mode-discrete request.mode unset
        || eq_by Mode-discrete request.mode plan
        || eq_by Mode-discrete request.mode execute)
    && valid_token request.confirmation_token

abbrev pub ref_bytes : Bytes
ref_bytes = control_bytes ++ text " ~^:?*[\\"

unfoldable pub valid_ref : Bytes → Bool
valid_ref value =
    not (is_empty value)
    && leb (length value) 256
    && not (contains_any value ref_bytes)
    && not (contains value (text ".."))

unfoldable pub valid_expected_ref : Bytes → Bool
valid_expected_ref value = is_empty value || (length value == 40 && valid_hex value)

unfoldable pub valid_remote : Bytes → Bool
valid_remote value = not (is_empty value) && valid_token value

abbrev pub secret_markers : List Bytes
secret_markers =
    text "authorization"
    ∷ text "bearer "
    ∷ text "-----begin private key-----"
    ∷ text "ghp_"
    ∷ text "github_pat_"
    ∷ text "sk-proj-"
    ∷ text "access_token"
    ∷ text "private_key"
    ∷ []

unfoldable pub contains_secret : Bytes → Bool
contains_secret value =
    let lower = to_lower value in exists (λ marker. contains lower marker) secret_markers

unfoldable pub valid_text : Bytes → ℕ → Bool
valid_text value max =
    leb (length value) max && not (contains_any value control_bytes) && not (contains_secret value)

abbrev default_message : Bytes
default_message = text "RepoWorker local checkpoint"

abbrev pub message_of : Request → Bytes
message_of request = if is_empty request.title then default_message else request.title

abbrev one : Bytes → List Bytes → List Command
one executable arguments = record { executable = executable; arguments = arguments } ∷ []

-- The switch on the kind.
unfoldable pub commands_of : Kind → Request → Option (List Command)
commands_of git_checkpoint r = some (
    record {
      executable = text "git";
      arguments = text "add" ∷ text "-A" ∷ text "--" ∷ text "." ∷ [];
    }
    ∷ one (text "git") (text "commit" ∷ text "--no-verify" ∷ text "-m" ∷ message_of r ∷ []))
commands_of jj_checkpoint r = some (one (text "jj") (text "commit" ∷ text "-m" ∷ message_of r ∷ []))
commands_of git_push r =
    if not (valid_ref r.ref)
      || not (valid_remote r.remote)
      || not (valid_expected_ref r.expected_remote_ref)
    then none
    else some (
        one (text "git")
          (text "push" ∷ text "--no-verify" ∷ r.remote ∷ (text "HEAD:refs/heads/" ++ r.ref) ∷ []))
commands_of github_pr r =
    if not (valid_ref r.base)
      || not (valid_ref r.head)
      || not (valid_text r.title 256)
      || is_empty r.body
    then none
    else some (
        one (text "gh") (
          text "pr"
          ∷ text "create"
          ∷ text "--base"
          ∷ r.base
          ∷ text "--head"
          ∷ r.head
          ∷ text "--title"
          ∷ r.title
          ∷ text "--body"
          ∷ r.body
          ∷ []))
commands_of release r =
    if not (valid_ref r.ref) || not (valid_text r.title 256)
    then none
    else some (
        one (text "gh") (
          text "release"
          ∷ text "create"
          ∷ r.ref
          ∷ text "--title"
          ∷ r.title
          ∷ text "--notes"
          ∷ r.body
          ∷ text "--draft"
          ∷ []))
commands_of dagger r =
    if not (valid_ref r.ref)
    then none
    else some (one (text "dagger") (text "call" ∷ text "publish" ∷ text "--ref" ∷ r.ref ∷ []))
commands_of dagu r =
    if not (valid_ref r.workflow)
    then none
    else some (one (text "dagu") (text "start" ∷ r.workflow ∷ []))
commands_of (other _) r = none

-- `commands`; `none` is a rejection.
unfoldable pub commands : Request → Option (List Command)
commands r =
    if not (valid_text (message_of r) 256) || not (valid_text r.body 16384)
    then none
    else commands_of r.kind r
