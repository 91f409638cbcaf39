-- ===== src/Scheduler/Order.antt =====
-- The order in which `Run` of internal/scheduler/scheduler.go launches jobs.
use m3_repoworker.Prelude.{
  ℕ, zero, suc, ◌≡◌, refl, sym, subst, ap, ◌∙◌, ◌&&◌, ◌||◌, Bool, true, false, List, [], ◌∷◌, every,
  Bytes, bytes_eq, bytes_eq_iff, Option, none, some, Dict, lookup, insert, lookup-insert, ◌⊎◌,
  arith, Bool-cases, inl, inr,
}
use m3_repoworker.Scheduler.Types.{Job, Config, JobState, pending, running, done, RunState}
use m3_repoworker.Scheduler.Admission.{Ratio, is_state, is_ready}
use m3_repoworker.Scheduler.Graph.{valid_jobs}
use m3_repoworker.Scheduler.Queue.{has_id}
use m3_repoworker.Scheduler.Run.{Round, pending_all, launch, choose, fill}
use m3_repoworker.Scheduler.Choice.{IsIn, choose-admitted}
use m3_repoworker.Scheduler.Totals.{IsIn-has_id, pending_all-lookup}

-- Whether every job that the list names is done.
unfoldable pub all_done : Dict JobState → List Bytes → Bool
all_done state deps = every (λ dep. is_state done (lookup dep state)) deps

unfoldable pub is_launched : Option JobState → Bool
is_launched o = is_state running o || is_state done o

unfoldable pub IsOrdered : List Job → Dict JobState → Type 0
IsOrdered jobs state =
    (job : Job)
    → IsIn job jobs
    → is_launched (lookup job.id state) ≡ true
    → all_done state job.depends_on ≡ true

done_at :
    (id : Bytes) (v : JobState) (state : Dict JobState)
    → (is_state done (lookup id state) ≡ true → is_state done (some v) ≡ true)
    → (dep : Bytes) → is_state done (lookup dep state) ≡ true
    → is_state done (lookup dep (insert id v state)) ≡ true
done_at id v state keeps dep h = elim (Bool-cases (bytes_eq id dep)) [
  | inl same ↦
      (let now : lookup dep (insert id v state) ≡ some v =
          ground (arith, same, lookup-insert id dep v state) in
        let was =
          subst (λ k. is_state done (lookup k state) ≡ true) (sym ((bytes_eq_iff id dep).0 same))
            h in
        subst (λ o. is_state done o ≡ true) (sym now) (keeps was))
  | inr other ↦
      (let kept : lookup dep (insert id v state) ≡ lookup dep state =
          ground (arith, other, lookup-insert id dep v state) in
        subst (λ o. is_state done o ≡ true) (sym kept) h)
]

both : (a b : Bool) → a ≡ true → b ≡ true → (a && b) ≡ true
both a b h k = ground arith

all_done-insert :
    (id : Bytes) (v : JobState) (state : Dict JobState)
    → (is_state done (lookup id state) ≡ true → is_state done (some v) ≡ true)
    → (deps : List Bytes) → all_done state deps ≡ true
    → all_done (insert id v state) deps ≡ true
unfolding all_done
all_done-insert id v state keeps [] h = refl
all_done-insert id v state keeps (dep ∷ deps) h =
    both _ _ (done_at id v state keeps dep (ground arith))
      (all_done-insert id v state keeps deps (ground arith))

twice : (x k : Job) (xs : List Job) → has_id x.id xs ≡ false → x.id ≡ k.id → IsIn k xs → ⊥
twice x k xs new eq isin =
    clash (has_id k.id xs) (IsIn-has_id k xs isin) (subst (λ i. has_id i xs ≡ false) eq new)
  where
    clash : (b : Bool) → b ≡ true → b ≡ false → ⊥
    clash b h k = cc

same_job :
    (jobs : List Job) (j k : Job)
    → valid_jobs jobs ≡ true
    → IsIn j jobs
    → IsIn k jobs
    → j.id ≡ k.id
    → j ≡ k
unfolding valid_jobs
same_job [] j k valid a b eq = absurd a
same_job (x ∷ xs) j k valid (inl p) (inl q) eq = sym p ∙ q
same_job (x ∷ xs) j k valid (inl p) (inr q) eq =
    absurd (twice x k xs (ground arith) (ap (λ y. y.id) p ∙ eq) q)
same_job (x ∷ xs) j k valid (inr p) (inl q) eq =
    absurd (twice x j xs (ground arith) (ap (λ y. y.id) q ∙ sym eq) p)
same_job (x ∷ xs) j k valid (inr p) (inr q) eq = same_job xs j k (ground arith) p q eq

-- A change of one job's state keeps the order, where it undoes nothing and the job may be where it comes.
insert-IsOrdered :
    (jobs : List Job) (state : Dict JobState) (job : Job) (v : JobState)
    → valid_jobs jobs ≡ true
    → IsIn job jobs
    → (is_state done (lookup job.id state) ≡ true → is_state done (some v) ≡ true)
    → all_done state job.depends_on ≡ true
    → IsOrdered jobs state
    → IsOrdered jobs (insert job.id v state)
unfolding IsOrdered
insert-IsOrdered jobs state job v valid isin keeps free h k there launched =
    all_done-insert job.id v state keeps k.depends_on (elim (Bool-cases (bytes_eq job.id k.id)) [
      | inl same ↦
          subst (λ j. all_done state j.depends_on ≡ true)
            (same_job jobs job k valid isin there ((bytes_eq_iff job.id k.id).0 same)) free
      | inr other ↦
          (let kept : lookup k.id (insert job.id v state) ≡ lookup k.id state =
              ground (arith, other, lookup-insert job.id k.id v state) in
            h k there (subst (λ o. is_launched o ≡ true) kept launched))
    ])

unlaunched : (o : Option JobState) → (o ≡ none) ⊎ (o ≡ some pending) → is_launched o ≡ true → ⊥
unfolding is_launched is_state
unlaunched none e h = cc
unlaunched (some pending) e h = cc
unlaunched (some running) (inl e) h = cc
unlaunched (some running) (inr e) h = cc
unlaunched (some done) (inl e) h = cc
unlaunched (some done) (inr e) h = cc

pub start-IsOrdered : (all jobs : List Job) → IsOrdered jobs (pending_all all)
unfolding IsOrdered
start-IsOrdered all jobs k there launched =
    absurd (unlaunched (lookup k.id (pending_all all)) (pending_all-lookup all k.id) launched)

not_both : (o : Option JobState) → is_state pending o ≡ true → is_state done o ≡ true → ⊥
unfolding is_state
not_both none h k = cc
not_both (some pending) h k = cc
not_both (some running) h k = cc
not_both (some done) h k = cc

running_launched : (o : Option JobState) → is_state running o ≡ true → is_launched o ≡ true
unfolding is_launched
running_launched o h = ground arith

already :
    (jobs : List Job) (state : Dict JobState) (job : Job)
    → IsIn job jobs
    → is_launched (lookup job.id state) ≡ true
    → IsOrdered jobs state
    → all_done state job.depends_on ≡ true
unfolding IsOrdered
already jobs state job isin launched h = h job isin launched

launched_order :
    (jobs : List Job) (job : Job) (s : RunState)
    → IsOrdered jobs (insert job.id running s.state)
    → IsOrdered jobs (launch job s).state
unfolding launch
launched_order jobs job s h = h

module _ (jobs : List Job) (valid : valid_jobs jobs ≡ true) where
  launch-IsOrdered :
      (job : Job) (state : Dict JobState)
      → IsIn job jobs
      → is_ready state job ≡ true
      → IsOrdered jobs state
      → IsOrdered jobs (insert job.id running state)
  unfolding is_ready all_done
  launch-IsOrdered job state isin ready h =
      insert-IsOrdered jobs state job running valid isin
        (λ finished. absurd (not_both (lookup job.id state) (ground arith) finished)) (ground arith)
        h

  pub settle-IsOrdered :
      (job : Job) (state : Dict JobState)
      → IsIn job jobs
      → is_state running (lookup job.id state) ≡ true
      → IsOrdered jobs state
      → IsOrdered jobs (insert job.id done state)
  unfolding is_state
  settle-IsOrdered job state isin runs h =
      insert-IsOrdered jobs state job done valid isin (λ finished. refl)
        (already jobs state job isin (running_launched (lookup job.id state) runs) h) h

  pub fill-IsOrdered :
      (ratio : Ratio) (config : Config) (round : Round) (n : ℕ) (s : RunState)
      → ((k : ℕ) (job : Job) → IsIn job (round.walk k) → IsIn job jobs)
      → IsOrdered jobs s.state
      → IsOrdered jobs (fill ratio config round n s).state
  unfolding fill
  fill-IsOrdered ratio config round zero s walks h = h
  fill-IsOrdered ratio config round (suc n) s walks h =
      go (choose ratio config round n s) refl
        (λ job. fill-IsOrdered ratio config round n (launch job s) walks)
    where
      go :
          (o : Option Job)
          → choose ratio config round n s ≡ o
          → ((job : Job)
              → IsOrdered jobs (launch job s).state
              → IsOrdered jobs (fill ratio config round n (launch job s)).state)
          → IsOrdered jobs
              (elim o as (λ x. RunState) [
                | none ↦ s
                | some job ↦ fill ratio config round n (launch job s)
              ]).state
      go none chosen rest = h
      go (some job) chosen rest =
          let facts = choose-admitted ratio config round n s job chosen in
          rest job (
            launched_order jobs job s
              (launch-IsOrdered job s.state (walks n job facts.0) facts.1 h))
