-- ===== src/Loop/Journal.antt =====
-- The services of the loop with a journal of the calls that succeed, the last one first.
use m3_repoworker.Prelude.{◌≡◌, refl, List, ◌∷◌, Option, none, some}
use m3_repoworker.Loop.Types.{Binding, Action, Cause, Answer, Checkpoint}
use m3_repoworker.Loop.Services.{Services}

pub data Call : Type 0 where
  did_commands : Binding → List Action → Call
  did_patch did_test did_verify : Binding → Action → Call
  did_checkpoint : Binding → Call
  did_save : Checkpoint → Call

module _ {S : Type 0} where
  abbrev pub passed : {A : Type 0} → List Call → A × S → A × (S × List Call)
  passed journal answer = (answer.0, (answer.1, journal))

  unfoldable pub logged : Call → List Call → Option Cause × S → Option Cause × (S × List Call)
  logged call journal (none, w) = (none, (w, call ∷ journal))
  logged call journal (some cause, w) = (some cause, (w, journal))

  pub logged-none :
      (call : Call) (journal : List Call) (r : Option Cause × S)
      → (logged call journal r).0 ≡ none
      → (logged call journal r).1.1 ≡ call ∷ journal
  unfolding logged
  logged-none call journal (none, w) h = refl
  logged-none call journal (some cause, w) h = cc

  unfoldable pub journaled_refresh :
      Option (Binding → S → Answer Binding × S)
      → Option (Binding → S × List Call → Answer Binding × (S × List Call))
  journaled_refresh none = none
  journaled_refresh (some refresh) = some (λ b w. passed w.1 (refresh b w.0))

  -- The same answers, with each success of the authority and each saved checkpoint put on the journal.
  unfoldable pub journaled : Services S → Services (S × List Call)
  unfolding journaled_refresh logged
  journaled services = record {
    ctx_err = λ w. services.ctx_err w.0;
    now = λ w. services.now w.0;
    marshal = services.marshal;
    unmarshal = services.unmarshal;
    sha256 = services.sha256;
    inspect = λ b w. passed w.1 (services.inspect b w.0);
    plan = λ b h w. passed w.1 (services.plan b h w.0);
    diagnose = λ b f failures w. passed w.1 (services.diagnose b f failures w.0);
    parallel_commands = λ b actions w.
        logged (did_commands b actions) w.1 (services.parallel_commands b actions w.0);
    patch_candidate =
        λ b action w. logged (did_patch b action) w.1 (services.patch_candidate b action w.0);
    targeted_test =
        λ b action w. logged (did_test b action) w.1 (services.targeted_test b action w.0);
    full_verify =
        λ b action w. logged (did_verify b action) w.1 (services.full_verify b action w.0);
    checkpoint = λ b w. logged (did_checkpoint b) w.1 (services.checkpoint b w.0);
    refresh_binding = journaled_refresh services.refresh_binding;
    get_run = λ run_id w. passed w.1 (services.get_run run_id w.0);
    list_events = λ run_id after limit w. passed w.1 (services.list_events run_id after limit w.0);
    append_event =
        λ run_id type payload w. passed w.1 (services.append_event run_id type payload w.0);
    update_run_binding = λ run_id snapshot environment version w.
        passed w.1 (services.update_run_binding run_id snapshot environment version w.0);
    save_checkpoint = λ k w. logged (did_save k) w.1 (services.save_checkpoint k w.0);
    update_run_status =
        λ run_id status w. passed w.1 (services.update_run_status run_id status w.0);
  }
