-- ===== src/Examples/LoopRuns.antt =====
-- The loop with a model and an authority whose first targeted test fails.
use m3_repoworker.Prelude.{
  ◌≡◌, refl, ℕ, suc, ◌==◌, true, false, List, [], ◌∷◌, Bytes, text, bytes_eq, Option, none, some,
  if◌then◌else◌, contains_any, ℕ_discrete,
}
use m3_repoworker.Go.Hex.{encode_to_string, hex_digit}
use m3_repoworker.Loop.Types.{
  Phase, completed, Binding, Binding-discrete, Action, Plan, State, Error, answered, Cause,
}
use m3_repoworker.Loop.Services.{Services}
use m3_repoworker.Loop.Plans.{
  valid_binding, valid_action, valid_plan, runnable, first_action, action_fingerprint,
  contains_fingerprint, repeated_plan, classify, take, safe_diagnostic,
}
use m3_repoworker.Loop.Controller.{
  terminal_error, or_empty, digest_state, appended, append_payload, persist, returned, persisted,
  stop, record_failure, fail, after_call, inspected, planned, diagnosed, diagnose, rebound,
  refreshed, refresh, patched, marked, saved, checkpoint_of, checkpointed, turn, settle, guarded,
  iteration, go_on, loop,
}
use m3_repoworker.Loop.Runs.{
  Request, initial, absorb_all, load_pages, load, run_loaded, run_bound, run, valid_request,
}
use m3_repoworker.Loop.Rule.{OnEnd}
use m3_repoworker.Loop.Soundness.{IsClosed}
use m3_repoworker.Loop.Soundness.Turns.{loop-IsClosed, initial-IsSound}
use m3_repoworker.Loop.Journal.{journaled}
use m3_repoworker.Loop.Evidence.{Ended}
use m3_repoworker.Loop.Completion.{completed_run}

abbrev bound_to : Binding
bound_to = record {
  repository_id = text "r";
  candidate_snapshot = text "c";
  environment_id = text "e";
  policy_version = text "v";
}

abbrev action : Bytes → Action
action name = record { id = name; kind = text "k"; fingerprint = name }

abbrev plan_with : Bytes → Plan
plan_with test = record {
  binding = bound_to;
  commands = action (text "build") ∷ [];
  patch = action (text "patch");
  targeted_test = action test;
  full_verify = action (text "all");
  destructive = false;
  ambiguous = false;
}

abbrev failure : Cause
failure = record { canceled = false; deadline_exceeded = false; message = text "boom" }

-- The world counts the targeted tests.
abbrev services : Services ℕ
services = record {
  ctx_err = λ w. none;
  now = λ w. 7;
  marshal = λ s. some [];
  unmarshal = λ bytes. none;
  sha256 = λ bytes. 1 ∷ 2 ∷ [];
  inspect = λ b w. (answered (text "h"), w);
  plan = λ b h w. (answered (plan_with (text "unit")), w);
  diagnose = λ b f failures w. (answered (plan_with (text "unit2")), w);
  parallel_commands = λ b actions w. (none, w);
  patch_candidate = λ b a w. (none, w);
  targeted_test = λ b a w. (if w == 0 then some failure else none, suc w);
  full_verify = λ b a w. (none, w);
  checkpoint = λ b w. (none, w);
  refresh_binding = some (λ b w. (answered b, w));
  get_run = λ run_id w. (answered bound_to, w);
  list_events = λ run_id after limit w. (answered [], w);
  append_event = λ run_id type payload w. (none, w);
  update_run_binding = λ run_id snapshot environment version w. (none, w);
  save_checkpoint = λ k w. (none, w);
  update_run_status = λ run_id status w. (none, w);
}

abbrev request : Request
request = record { run_id = text "run"; binding = bound_to }

abbrev outcome : Option (State × Option Error) × ℕ → Option (Phase × ℕ × List Bytes × Option Error)
outcome (none, w) = none
outcome (some (s, e), w) = some (s.phase, s.retry_count, s.failed_actions, e)

-- One retry, and the failed test on record.
finished : outcome (run services 2 true request 0) ≡ some (completed, 1, text "unit" ∷ [], none)
unfolding run run_bound run_loaded load load_pages absorb_all valid_request valid_binding
    valid_action valid_plan runnable first_action action_fingerprint contains_fingerprint
    repeated_plan classify take safe_diagnostic terminal_error or_empty digest_state appended
    append_payload persist returned persisted stop record_failure fail after_call inspected planned
    diagnosed diagnose rebound refreshed refresh patched marked saved checkpoint_of checkpointed
    turn settle guarded iteration go_on loop bytes_eq contains_any encode_to_string hex_digit
    Binding-discrete ℕ_discrete
finished = refl

loop-IsClosed_example :
    OnEnd (λ t e v. IsClosed 2 t e) (loop services 2 (text "run") 22 bound_to (initial bound_to) 0)
loop-IsClosed_example =
    loop-IsClosed services 2 (text "run") 22 bound_to (initial bound_to) 0
      (initial-IsSound 2 bound_to)

completed_run_example :
    OnEnd
      (Ended services 2 (text "run"))
      (loop (journaled services) 2 (text "run") 22 bound_to (initial bound_to) (0, []))
completed_run_example = completed_run services 2 (text "run") 22 bound_to (0, [])
