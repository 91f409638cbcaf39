-- ===== src/Examples/ReplayRuns.antt =====
-- The replay cache at work.
use m3_repoworker.Prelude.{◌≡◌, refl, [], ◌∷◌, Bytes, ℕ, text}
use m3_repoworker.Security.Types.{ok}
use m3_repoworker.Security.Replay.{Cache, Call, new_cache, run}
use m3_repoworker.Security.Replay.Validity.{IsValid, run-IsValid}

-- One call, at a time, with a request identity and a sequence number.
abbrev call_at : ℕ → Bytes → ℕ → Call
call_at now request_id sequence = record {
  now = now;
  key = record { mcp_session = text "mcp_1"; request_id = request_id; sequence = sequence };
  transport_id = text "t";
  auth_session_id = text "auth_1";
  principal_id = text "alice";
}

abbrev two_calls : Cache
two_calls = record { max = 2; ttl = 100; entries = [] }

opened : new_cache 2 100 ≡ ok two_calls
unfolding new_cache
opened = refl

run-IsValid_example :
    IsValid (
      run (call_at 1 (text "a") 1 ∷ call_at 2 (text "b") 2 ∷ call_at 3 (text "c") 3 ∷ []) two_calls)
run-IsValid_example =
    run-IsValid 2 100 two_calls
      (call_at 1 (text "a") 1 ∷ call_at 2 (text "b") 2 ∷ call_at 3 (text "c") 3 ∷ []) opened
