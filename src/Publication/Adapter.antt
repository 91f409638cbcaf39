-- ===== src/Publication/Adapter.antt =====
-- `Adapter` of internal/publication/publication.go: `Publish` in the order of its calls, each stage with
-- what the call before it answers.
use m3_repoworker.Prelude.{
  Bool, true, false, ◌&&◌, ◌||◌, not, List, [], ◌∷◌, ◌++◌, Bytes, text, bytes_eq, is_empty, Option,
  none, some, ◌==◌, if◌then◌else◌, length, eq_by,
}
use m3_repoworker.Go.Space.{fields}
use m3_repoworker.Publication.Types.{
  rejected, unauthorized, disabled, stale, Result, ok, err, git_push, Kind-discrete, plan, execute,
  Mode-discrete, Candidate, Request, Gate, Command, Publication, Services,
}
use m3_repoworker.Publication.Commands.{
  requires_external, valid_hex, valid_candidate, valid_token, valid_request, commands,
}

-- The check of `New` and `WithGate`.
unfoldable pub valid_gate : Gate → Bool
valid_gate gate = valid_token gate.confirmation_token

-- The fields of the line that `git ls-remote` writes for the reference.
unfoldable pub parse_remote : Request → List Bytes → Option Bytes
parse_remote request [] = some []
parse_remote request (hash ∷ name ∷ []) =
    if not (length hash == 40)
      || not (valid_hex hash)
      || not (bytes_eq name (text "refs/heads/" ++ request.ref))
    then none
    else some hash
parse_remote request _ = none

-- Whether the gate lets the request change anything of its kind.
unfoldable pub permitted : Gate → Request → Bool
permitted gate request =
    if requires_external request.kind
    then gate.allow_external_mutation
      && not (is_empty request.confirmation_token)
      && bytes_eq request.confirmation_token gate.confirmation_token
    else gate.allow_local_mutation

unfoldable pub is_dry : Request → Bool
is_dry request = request.dry_run || not (eq_by Mode-discrete request.mode execute)

abbrev pub read_command : Request → Command
read_command request = record {
  executable = text "git";
  arguments = text "ls-remote" ∷ request.remote ∷ (text "refs/heads/" ++ request.ref) ∷ [];
}

-- Goes on after a command that ran without an error.
unfoldable pub unless_failed : {S : Type 0} → (S → Bool × S) → Option Bytes × S → Bool × S
unless_failed rest (none, w) = (false, w)
unless_failed rest (some output, w) = rest w

module _ {S : Type 0} (services : Services S) (gate : Gate) (candidate : Candidate)
    (request : Request) where
  unfoldable pub read_remote : Option Bytes × S → Option Bytes × S
  read_remote (none, w) = (none, w)
  read_remote (some output, w) = (parse_remote request (fields output), w)

  -- `remoteRef`.
  unfoldable pub remote_ref : S → Option Bytes × S
  remote_ref w = read_remote (services.run candidate.repository_root (read_command request) w)

  -- The last check: the snapshot is still the candidate's.
  unfoldable pub settled : Publication → Option Bytes × S → Result Publication × S
  settled result (none, w) = (err stale, w)
  settled result (some current, w) =
      if not (bytes_eq current candidate.candidate_snapshot) then (err stale, w) else (ok result, w)

  unfoldable pub referred_after : Publication → Option Bytes × S → Result Publication × S
  referred_after result (none, w) = (err rejected, w)
  referred_after result (some remote, w) =
      settled (record result { remote_after = remote })
        (services.snapshot candidate.repository_root w)

  -- Whether all the commands ran, in their order, up to the first that fails.
  unfoldable pub run_all : List Command → S → Bool × S
  run_all [] w = (true, w)
  run_all (command ∷ rest) w =
      unless_failed (run_all rest) (services.run candidate.repository_root command w)

  unfoldable pub ran : Publication → Bool × S → Result Publication × S
  ran result (false, w) = (err rejected, w)
  ran result (true, w) =
      if eq_by Kind-discrete request.kind git_push
      then referred_after result (remote_ref w)
      else settled result (services.snapshot candidate.repository_root w)

  -- From the dry run's return on.
  unfoldable pub carry_out : Publication → S → Result Publication × S
  carry_out result w =
      if result.dry_run
      then (ok result, w)
      else if not gate.enabled
      then (err disabled, w)
      else if not (permitted gate request)
      then (err unauthorized, w)
      else ran result (run_all result.commands w)

  unfoldable pub referred_before : Publication → Option Bytes × S → Result Publication × S
  referred_before result (none, w) = (err rejected, w)
  referred_before result (some remote, w) =
      if not (bytes_eq remote request.expected_remote_ref)
      then (err stale, w)
      else carry_out (record result { remote_before = remote }) w

  unfoldable pub commanded : Option (List Command) → S → Result Publication × S
  commanded none w = (err rejected, w)
  commanded (some list) w =
      let result : Publication = record {
        kind = request.kind;
        dry_run = is_dry request;
        commands = list;
        remote_before = [];
        remote_after = [];
      } in
      if eq_by Kind-discrete request.kind git_push
      then referred_before result (remote_ref w)
      else carry_out result w

  unfoldable pub snapshot_taken : Option Bytes × S → Result Publication × S
  snapshot_taken (none, w) = (err stale, w)
  snapshot_taken (some current, w) =
      if not (bytes_eq current candidate.candidate_snapshot)
        || not (bytes_eq candidate.verified_snapshot candidate.candidate_snapshot)
      then (err stale, w)
      else commanded (commands request) w

  -- `Publish`; the first argument says whether the context is not nil.
  unfoldable pub publish : Bool → S → Result Publication × S
  publish ctx w =
      if not ctx
        || not (valid_candidate candidate)
        || not (valid_request request)
        || (eq_by Mode-discrete request.mode plan && not (is_empty request.confirmation_token))
      then (err rejected, w)
      else snapshot_taken (services.snapshot candidate.repository_root w)
