-- ===== src/Scheduler/Ending.antt =====
-- How `Run` of internal/scheduler/scheduler.go ends.
use m3_repoworker.Prelude.{
  ◌≤◌, ◌≡◌, refl, subst, ◌⊎◌, not, Bool, true, false, ltb, ◌==◌, List, [], ◌∷◌, length, Option,
  some, if◌then◌else◌, arith, inl, inr,
}
use m3_repoworker.Scheduler.Types.{Error, Job, Config, running, RunState}
use m3_repoworker.Scheduler.Admission.{Ratio}
use m3_repoworker.Scheduler.Graph.{valid_jobs}
use m3_repoworker.Scheduler.Run.{Round, Event, start, filled, receive, rounds}
use m3_repoworker.Scheduler.Totals.{total, total-le}
use m3_repoworker.Scheduler.Figures.{one_each}
use m3_repoworker.Scheduler.Accounts.{IsSmall, IsAccounted}
use m3_repoworker.Scheduler.Reach.{
  IsWalk, IsLegal, Reaches, starts, turns, filled-IsAccounted, Reaches-IsAccounted,
}

-- A script that `Run` can meet from the state on.
abbrev pub IsPlayable : Ratio → Config → List Job → List (Round × Event) → RunState → Type 0
IsPlayable ratio config jobs [] s = Unit
IsPlayable ratio config jobs ((round, event) ∷ script) s =
    IsWalk jobs round
    × IsLegal event (filled ratio config round s)
    × IsPlayable ratio config jobs script (receive jobs event (filled ratio config round s))

abbrev End : Type 0
End = Option (RunState × Option Error)

same_end :
    (s t : RunState) (e error : Option Error) (o : End)
    → o ≡ some (s, e)
    → o ≡ some (t, error)
    → s ≡ t
same_end s t e error o h k = cc

-- How one round decides.
ended :
    (more idle : Bool) (s u t : RunState) (e f error : Option Error) (rest : End)
    → (if not more then some (s, e) else if idle then some (u, f) else rest) ≡ some (t, error)
    → ((more ≡ false) × (s ≡ t)) ⊎ ((idle ≡ true) × (u ≡ t)) ⊎ (rest ≡ some (t, error))
ended false idle s u t e f error rest h = inl (refl, same_end s t e error _ refl h)
ended true true s u t e f error rest h = inr (inl (refl, same_end u t f error _ refl h))
ended true false s u t e f error rest h = inr (inr h)

module _ (ratio : Ratio) (config : Config) (jobs : List Job) (valid : valid_jobs jobs ≡ true)
    (small : IsSmall config jobs) where
  -- When every job was counted as completed, none is active.
  completed_idle :
      (s : RunState) → IsAccounted config jobs s → length jobs ≤ s.completed → s.active ≡ 0
  completed_idle s h full = omega (arith, h.active, h.completed, full, total-le jobs s.state)

  rounds_settled :
      (script : List (Round × Event)) (s t : RunState) (error : Option Error)
      → Reaches ratio config jobs s
      → IsPlayable ratio config jobs script s
      → rounds ratio config jobs script s ≡ some (t, error)
      → (t.active ≡ 0) × IsAccounted config jobs t
  unfolding rounds
  rounds_settled [] s t error reached playable h =
      let full : ltb s.completed (length jobs) ≡ false = ground arith in
      let same : s ≡ t =
        same_end s t s.first_err error (rounds ratio config jobs [] s) (ground (arith, full)) h in
      let is = Reaches-IsAccounted ratio config jobs valid small reached in
      subst (λ k. (k.active ≡ 0) × IsAccounted config jobs k) same
        (completed_idle s is (ground (arith, full)), is)
  rounds_settled ((round, event) ∷ script) s t error reached playable h =
      let u = filled ratio config round s in
      let is = Reaches-IsAccounted ratio config jobs valid small reached in
      elim (ended (ltb s.completed (length jobs)) (u.active == 0) s u t _ _ error _ h) [
        | inl (full, same) ↦
            subst (λ k. (k.active ≡ 0) × IsAccounted config jobs k) same
              (completed_idle s is (ground (arith, full)), is)
        | inr (inl (idle, same)) ↦
            subst (λ k. (k.active ≡ 0) × IsAccounted config jobs k) same
              (
                ground (arith, idle),
                filled-IsAccounted ratio config jobs valid small round s playable.0 is,
              )
        | inr (inr rest) ↦
            rounds_settled script (receive jobs event u) t error
              (turns round event reached playable.0 playable.1) playable.2 rest
      ]

  -- Where no two of the numbers have a sum that wraps: when the rounds of `Run` end, however that is, no job
  -- runs any more.
  pub rounds-settled :
      (script : List (Round × Event)) (t : RunState) (error : Option Error)
      → IsPlayable ratio config jobs script (start jobs)
      → rounds ratio config jobs script (start jobs) ≡ some (t, error)
      → (t.active ≡ 0) × (total running one_each jobs t.state ≡ 0)
  rounds-settled script t error playable h =
      let at = rounds_settled script (start jobs) t error starts playable h in
      (at.0, omega (arith, at.0, at.1.active))
