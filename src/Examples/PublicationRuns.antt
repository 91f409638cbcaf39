-- ===== src/Examples/PublicationRuns.antt =====
-- A push through an open gate.
use m3_repoworker.Prelude.{
  ◌≡◌, refl, ℕ, true, false, List, [], ◌∷◌, ◌++◌, Bytes, text, bytes_eq, contains, contains_any,
  has_prefix, some, ◌⊎◌, All, length, map, ℕ_discrete,
}
use m3_repoworker.Go.Space.{fields}
use m3_repoworker.Go.Filepath.{is_abs, clean}
use m3_repoworker.Go.Case.{to_lower}
use m3_repoworker.Publication.Types.{
  Kind-discrete, Mode-discrete, git_push, execute, Candidate, Request, Gate, Command, Services,
}
use m3_repoworker.Publication.Commands.{
  requires_external, valid_hex, valid_snapshot, valid_candidate, valid_token, valid_request,
  valid_ref, valid_expected_ref, valid_remote, contains_secret, valid_text, commands_of, commands,
}
use m3_repoworker.Publication.Adapter.{
  parse_remote, permitted, is_dry, read_command, read_remote, remote_ref, settled, referred_after,
  unless_failed, run_all, ran, carry_out, referred_before, commanded, snapshot_taken, publish,
}
use m3_repoworker.Publication.Executables.{valid_executable, commands-executable}
use m3_repoworker.Publication.Gate.{recorded, IsSanctioned, publish-IsSanctioned}

abbrev snapshot : Bytes
snapshot = text "0123456789abcdef0123456789abcdef0123456789abcdef0123456789abcdef"

abbrev hash : Bytes
hash = text "0123456789abcdef0123456789abcdef01234567"

abbrev candidate : Candidate
candidate = record {
  repository_root = text "/repo";
  candidate_snapshot = snapshot;
  verified_snapshot = snapshot;
  environment_id = text "env";
  policy_version = text "v";
  verified = true;
}

abbrev push : Request
push = record {
  kind = git_push;
  mode = execute;
  dry_run = false;
  confirmation_token = text "token";
  remote = text "origin";
  ref = text "main";
  expected_remote_ref = hash;
  base = [];
  head = [];
  title = [];
  body = [];
  workflow = [];
}

abbrev gate : Gate
gate = record {
  enabled = true;
  allow_local_mutation = false;
  allow_external_mutation = true;
  confirmation_token = text "token";
}

abbrev services : Services ℕ
services = record {
  run = λ root c w. (some (hash ++ (9 ∷ text "refs/heads/main")), w);
  snapshot = λ root w. (some snapshot, w);
}

-- The reference is read, the push runs, and the reference is read again.
pushed :
    map (λ c. length c.arguments) (publish (recorded services) gate candidate push true (0, [])).1.1
    ≡ 3 ∷ 4 ∷ 3 ∷ []
unfolding publish recorded snapshot_taken commanded referred_before carry_out ran run_all
    unless_failed referred_after settled remote_ref read_remote is_dry permitted parse_remote
    commands commands_of valid_text contains_secret valid_remote valid_expected_ref valid_ref
    valid_request valid_token valid_candidate valid_snapshot valid_hex requires_external to_lower
    clean is_abs fields bytes_eq contains contains_any has_prefix Kind-discrete Mode-discrete
    ℕ_discrete
pushed = refl

publish-IsSanctioned_example :
    All
      (λ c. (c ≡ read_command push) ⊎ IsSanctioned gate candidate push c)
      (publish (recorded services) gate candidate push true (0, [])).1.1
publish-IsSanctioned_example = publish-IsSanctioned services gate candidate push true 0

push_commands : (cs : List Command) × (commands push ≡ some cs)
unfolding pushed
push_commands = (
  record {
    executable = text "git";
    arguments = text "push" ∷ text "--no-verify" ∷ text "origin" ∷ text "HEAD:refs/heads/main" ∷ [];
  }
      ∷ [],
  refl,
)

commands-executable_example : All (λ c. valid_executable c.executable ≡ true) push_commands.0
commands-executable_example = commands-executable push push_commands.0 push_commands.1
