-- ===== src/Loop/Soundness/Turns.antt =====
-- Every turn of the loop keeps the invariant of its state.
use m3_repoworker.Prelude.{
  ◌≡◌, refl, sym, subst, ℕ, ◌<◌, false, ◌||◌, not, [], ◌∷◌, Bytes, is_empty, ltb, length,
  length-append, Option, none, some, arith, Bool-cases, inl, inr,
}
use m3_repoworker.Loop.Types.{
  Phase, inspect, hypothesis, plan, parallel_commands, patch_candidate, targeted_test,
  diagnose_retry, full_verify, checkpoint, completed, failed, human_checkpoint, other, Binding,
  Action, Plan, Failure, State, Cause, Error, Answer, answered, refused, no_state,
}
use m3_repoworker.Loop.Services.{Services}
use m3_repoworker.Loop.Plans.{
  valid_binding, runnable, repeated_plan, action_fingerprint, contains_fingerprint,
}
use m3_repoworker.Loop.Controller.{
  Next, terminal_error, inspected, planned, diagnosed, diagnose, refreshed, refresh, rebound,
  patched, marked, saved, checkpointed, record_failure, after_call, turn, loop,
}
use m3_repoworker.Loop.Runs.{initial}
use m3_repoworker.Loop.Rule.{
  OnNext, OnEnd, after_failure, stop-On, fail-On, record_failure-On, after_call-On, loop-On,
}
use m3_repoworker.Loop.Soundness.{
  IsDistinct-append, Counts, Carries, InForce, IsSound, IsClosed, Closes, IsSound-IsClosed,
  Counts-le, Carries-rebound, repeated_none,
}

module _ {S : Type 0} (services : Services S) (max_retries : ℕ) (run_id : Bytes) where
  abbrev Sound : Binding → State → S → Type 0
  Sound b s w = IsSound max_retries s.phase b s

  abbrev Closed : State → Option Error → S → Type 0
  Closed s e w = IsClosed max_retries s e

  no_state-Closed : (e : Error) (w : S) → Closed no_state (some e) w
  no_state-Closed e w = record {
    within = omega arith;
    distinct = tt;
    counted = omega arith;
    closes = tt;
  }

  abbrev Keeps : Next × S → Type 0
  Keeps = OnNext Sound Closed

  module _ (phase : Phase) (b : Binding) (s : State) (h : IsSound max_retries phase b s) where
    -- A state that keeps the counters may be returned with an error.
    stopped :
        (t : State) (e : Error) (w : S)
        → t.retry_count ≡ s.retry_count
        → t.failed_actions ≡ s.failed_actions
        → Closed t (some e) w
    stopped t e w same_count same_failures =
        let c = IsSound-IsClosed max_retries phase b s e h in
        record {
          within = rw same_count c.within;
          distinct = rw same_failures c.distinct;
          counted = rw (same_count, same_failures) c.counted;
          closes = tt;
        }

  -- The next phase asks for no more than this one gave.
  moved :
      (phase next : Phase) (b : Binding) (s : State)
      → IsSound max_retries phase b s
      → (Counts phase s.retry_count (length s.failed_actions)
          → Counts next s.retry_count (length s.failed_actions))
      → (InForce phase s.plan b s.failed_actions → InForce next s.plan b s.failed_actions)
      → IsSound max_retries next b (record s { phase = next })
  moved phase next b s h counts in_force = record {
    bound = h.bound;
    within = h.within;
    distinct = h.distinct;
    counted = counts h.counted;
    in_force = in_force h.in_force;
  }

  -- An attempt that fails leaves one more failed action than there were retries.
  failure-Sound :
      (phase : Phase) (b : Binding) (s : State) (failure : Failure) (w : S)
      → IsSound max_retries phase b s
      → length s.failed_actions ≡ s.retry_count
      → contains_fingerprint s.failed_actions (action_fingerprint failure.action) ≡ false
      → Sound b (after_failure s failure) w
  failure-Sound phase b s failure w h counted known = record {
    bound = h.bound;
    within = h.within;
    distinct = IsDistinct-append s.failed_actions _ h.distinct known;
    counted =
        omega
          (arith, counted, length-append s.failed_actions (action_fingerprint failure.action ∷ []));
    in_force = tt;
  }

  record_failure-Keeps :
      (phase : Phase) (b : Binding) (s : State) (failure : Failure) (w : S)
      → IsSound max_retries phase b s
      → length s.failed_actions ≡ s.retry_count
      → Keeps (record_failure services max_retries run_id b s failure w)
  record_failure-Keeps phase b s failure w h counted =
      record_failure-On services max_retries run_id Sound Closed no_state-Closed b s failure w
        (λ v. stopped phase b s h _ _ v refl refl)
        (λ known. failure-Sound phase b s failure w h counted known)

  -- A call of the authority in an attempt.
  call-Keeps :
      (phase : Phase) (b : Binding) (s : State) (action : Action) (next : Phase)
      (r : Option Cause × S)
      → IsSound max_retries phase b s
      → length s.failed_actions ≡ s.retry_count
      → IsSound max_retries next b (record s { phase = next })
      → Keeps (after_call services max_retries run_id b s action next r)
  call-Keeps phase b s action next r h counted k =
      after_call-On services max_retries run_id Sound Closed no_state-Closed b s action next r
        (λ v. stopped phase b s h _ _ v refl refl)
        (λ failure known. failure-Sound phase b s failure r.1 h counted known) (λ e. k)

  inspected-Keeps :
      (b : Binding) (s : State) (r : Answer Bytes × S)
      → IsSound max_retries inspect b s
      → Keeps (inspected services max_retries run_id b s r)
  unfolding inspected
  inspected-Keeps b s (refused cause, w) h =
      fail-On services max_retries run_id Sound Closed no_state-Closed _ _ _ _ cause w
        (λ f v. stopped inspect b s h _ _ v refl refl)
  inspected-Keeps b s (answered found, w) h =
      elim (Bool-cases (is_empty found || ltb 4096 (length found))) [
        | inl bad ↦ rw bad (no_state-Closed _ w)
        | inr good ↦ rw good (record {
          bound = h.bound;
          within = h.within;
          distinct = h.distinct;
          counted = h.counted;
          in_force = tt;
        })
      ]

  planned-Keeps :
      (b : Binding) (s : State) (r : Answer Plan × S)
      → IsSound max_retries plan b s
      → Keeps (planned services max_retries run_id b s r)
  unfolding planned
  planned-Keeps b s (refused cause, w) h =
      fail-On services max_retries run_id Sound Closed no_state-Closed _ _ _ _ cause w
        (λ f v. stopped plan b s h _ _ v refl refl)
  planned-Keeps b s (answered proposal, w) h = elim (Bool-cases (runnable proposal b)) [
    | inl good ↦ rw good (record {
      bound = h.bound;
      within = h.within;
      distinct = h.distinct;
      counted = omega (arith, h.counted.0, h.counted.1);
      in_force = record { fits = good; new = repeated_none proposal s.failed_actions h.counted.1 };
    })
    | inr bad ↦ rw bad (
        stop-On services max_retries run_id Sound Closed no_state-Closed _ s _ w
          (λ v. stopped plan b s h _ _ v refl refl))
  ]

  diagnosed-Keeps :
      (b : Binding) (s : State) (r : Answer Plan × S)
      → s.retry_count < max_retries
      → IsSound max_retries diagnose_retry b s
      → Keeps (diagnosed services max_retries run_id b s r)
  unfolding diagnosed
  diagnosed-Keeps b s (refused cause, w) room h =
      fail-On services max_retries run_id Sound Closed no_state-Closed _ _ _ _ cause w
        (λ f v. stopped diagnose_retry b s h _ _ v refl refl)
  diagnosed-Keeps b s (answered proposal, w) room h =
      elim (Bool-cases (not (runnable proposal b) || repeated_plan proposal s.failed_actions)) [
        | inl bad ↦ rw bad (
            stop-On services max_retries run_id Sound Closed no_state-Closed _ s _ w
              (λ v. stopped diagnose_retry b s h _ _ v refl refl))
        | inr good ↦ rw good (record {
          bound = h.bound;
          within = omega (arith, room);
          distinct = h.distinct;
          counted = h.counted;
          in_force = record { fits = ground arith; new = ground arith };
        })
      ]

  diagnose-Keeps :
      (b : Binding) (s : State) (w : S)
      → IsSound max_retries diagnose_retry b s
      → Keeps (diagnose services max_retries run_id b s w)
  unfolding diagnose
  diagnose-Keeps b s w h = elim (Bool-cases (ltb s.retry_count max_retries)) [
    | inl room ↦ rw room (diagnosed-Keeps b s _ (ground arith) h)
    | inr full ↦ rw full (
        stop-On services max_retries run_id Sound Closed no_state-Closed _ s _ w
          (λ v. stopped diagnose_retry b s h _ _ v refl refl))
  ]

  rebound-Keeps :
      (b : Binding) (s : State) (r : Option Cause × S)
      → IsSound max_retries targeted_test b s
      → Keeps (rebound services max_retries run_id b s r)
  unfolding rebound
  rebound-Keeps b s (none, w) h = moved targeted_test targeted_test b s h (λ c. c) (λ p. p)
  rebound-Keeps b s (some cause, w) h = no_state-Closed _ w

  refreshed-Keeps :
      (b : Binding) (s : State) (r : Answer Binding × S)
      → IsSound max_retries patch_candidate b s
      → Keeps (refreshed services max_retries run_id b s r)
  unfolding refreshed
  refreshed-Keeps b s (refused cause, w) h =
      record_failure-Keeps patch_candidate b s _ w h h.counted
  refreshed-Keeps b s (answered fresh, w) h = elim (Bool-cases (valid_binding fresh)) [
    | inl good ↦ rw good (
        rebound-Keeps fresh _ _ (record {
          bound = refl;
          within = h.within;
          distinct = h.distinct;
          counted = h.counted;
          in_force = Carries-rebound s.plan b fresh s.failed_actions h.in_force;
        }))
    | inr bad ↦ rw bad (record_failure-Keeps patch_candidate b s _ w h h.counted)
  ]

  refresh-Keeps :
      (refresher : Option (Binding → S → Answer Binding × S)) (b : Binding) (s : State) (w : S)
      → IsSound max_retries patch_candidate b s
      → Keeps (refresh services max_retries run_id refresher b s w)
  unfolding refresh
  refresh-Keeps none b s w h = moved patch_candidate targeted_test b s h (λ c. c) (λ p. p)
  refresh-Keeps (some refresher) b s w h = refreshed-Keeps b s _ h

  patched-Keeps :
      (b : Binding) (s : State) (r : Option Cause × S)
      → IsSound max_retries patch_candidate b s
      → Keeps (patched services max_retries run_id b s r)
  unfolding patched
  patched-Keeps b s (none, w) h = refresh-Keeps services.refresh_binding b s w h
  patched-Keeps b s (some cause, w) h =
      call-Keeps patch_candidate b s _ targeted_test (some cause, w) h h.counted
        (moved patch_candidate targeted_test b s h (λ c. c) (λ p. p))

  marked-Keeps :
      (b : Binding) (s : State) (r : Option Cause × S)
      → IsSound max_retries completed b s
      → Keeps (marked services max_retries run_id b s r)
  unfolding marked
  marked-Keeps b s (none, w) h = moved completed completed b s h (λ c. c) (λ p. p)
  marked-Keeps b s (some cause, w) h = no_state-Closed _ w

  saved-Keeps :
      (b : Binding) (s : State) (r : Option Cause × S)
      → IsSound max_retries completed b s
      → Keeps (saved services max_retries run_id b s r)
  unfolding saved
  saved-Keeps b s (none, w) h = marked-Keeps b s _ h
  saved-Keeps b s (some cause, w) h = no_state-Closed _ w

  checkpointed-Keeps :
      (b : Binding) (s : State) (r : Option Cause × S)
      → IsSound max_retries checkpoint b s
      → Keeps (checkpointed services max_retries run_id b s r)
  unfolding checkpointed
  checkpointed-Keeps b s (none, w) h = saved-Keeps b _ _ (record {
    bound = h.bound;
    within = h.within;
    distinct = h.distinct;
    counted = h.counted;
    in_force = h.in_force;
  })
  checkpointed-Keeps b s (some cause, w) h =
      call-Keeps checkpoint b s _ completed (some cause, w) h h.counted
        (moved checkpoint completed b s h (λ c. c) (λ p. p))

  -- A state that is returned as it is: an error, or the completed one.
  closed :
      (phase : Phase) (b : Binding) (s : State) (w : S) (e : Option Error)
      → IsSound max_retries phase b s
      → Closes s e
      → Closed s e w
  closed phase b s w (some e) h c = IsSound-IsClosed max_retries phase b s e h
  closed phase b s w none h c = record {
    within = h.within;
    distinct = h.distinct;
    counted = Counts-le phase s.retry_count (length s.failed_actions) h.counted;
    closes = c;
  }

  turn-Keeps :
      (phase : Phase) (b : Binding) (s : State) (w : S)
      → s.phase ≡ phase
      → IsSound max_retries phase b s
      → Keeps (turn services max_retries run_id phase b s w)
  unfolding turn terminal_error
  turn-Keeps inspect b s w at h = inspected-Keeps b s _ h
  turn-Keeps hypothesis b s w at h = moved hypothesis plan b s h (λ c. c) (λ p. p)
  turn-Keeps plan b s w at h = planned-Keeps b s _ h
  turn-Keeps parallel_commands b s w at h =
      call-Keeps parallel_commands b s _ patch_candidate _ h h.counted
        (moved parallel_commands patch_candidate b s h (λ c. c) (λ p. p))
  turn-Keeps patch_candidate b s w at h = patched-Keeps b s _ h
  turn-Keeps targeted_test b s w at h =
      call-Keeps targeted_test b s _ full_verify _ h h.counted
        (moved targeted_test full_verify b s h (λ c. c) (λ p. p))
  turn-Keeps diagnose_retry b s w at h = diagnose-Keeps b s w h
  turn-Keeps full_verify b s w at h =
      call-Keeps full_verify b s _ checkpoint _ h h.counted
        (moved full_verify checkpoint b s h (λ c. c) (λ p. p))
  turn-Keeps checkpoint b s w at h = checkpointed-Keeps b s _ h
  turn-Keeps completed b s w at h =
      closed completed b s w _ h
        (rw at (refl, subst (λ c. Carries s.plan c s.failed_actions) (sym h.bound) h.in_force))
  turn-Keeps failed b s w at h = closed failed b s w _ h (rw at tt)
  turn-Keeps human_checkpoint b s w at h = closed human_checkpoint b s w _ h (rw at tt)
  turn-Keeps (other _) b s w at h = no_state-Closed _ w

  -- From a sound state, however long the run and whatever the model, the authority and the store answer: the
  -- retries stay within the budget, no failed action is recorded twice, at most one more of them is recorded than
  -- there were retries; and a run that ends without an error is in the completed phase, with a plan that
  -- is valid for the state's binding, neither destructive nor ambiguous, and repeats no failed action.
  pub loop-IsClosed :
      (turns : ℕ) (b : Binding) (s : State) (w : S)
      → IsSound max_retries s.phase b s
      → OnEnd (λ t e v. IsClosed max_retries t e) (loop services max_retries run_id turns b s w)
  loop-IsClosed turns b s w h =
      loop-On services max_retries run_id Sound Closed no_state-Closed (λ c t v k. k)
        (λ c t cause v k. IsSound-IsClosed max_retries t.phase c t _ k)
        (λ c t v k. turn-Keeps t.phase c t v refl k) turns b s w h

-- A run starts in a sound state.
pub initial-IsSound : (max_retries : ℕ) (b : Binding) → IsSound max_retries inspect b (initial b)
initial-IsSound max_retries b = record {
  bound = refl;
  within = omega arith;
  distinct = tt;
  counted = (refl, refl);
  in_force = tt;
}
