-- ===== src/Scheduler/Choice.antt =====
-- Which jobs `chooseReady` can choose.
use m3_repoworker.Prelude.{
  ℕ, ◌≡◌, refl, subst, ◌⊎◌, inl, inr, Bool, true, false, List, [], ◌∷◌, Any, some, Dict,
  if◌then◌else◌, arith, Bool-cases,
}
use m3_repoworker.Scheduler.Types.{Job, Config, JobState, RunState}
use m3_repoworker.Scheduler.Admission.{
  Ratio, before, insert_sorted, sort_stable, admits, first_admitted, choose_ready, is_ready,
  ready_jobs,
}
use m3_repoworker.Scheduler.Run.{Round, figures, choose}

abbrev pub IsIn : Job → List Job → Type 0
IsIn job jobs = Any (λ x. x ≡ job) jobs

pub first_admitted-some :
    (test : Job → Bool) (jobs : List Job) (job : Job)
    → first_admitted test jobs ≡ some job
    → IsIn job jobs × (test job ≡ true)
unfolding first_admitted
first_admitted-some test [] job h = cc
first_admitted-some test (x ∷ xs) job h = elim (Bool-cases (test x)) [
  | inl passes ↦
      (let same : x ≡ job = ground (arith, passes, h) in
        (inl same, subst (λ k. test k ≡ true) same passes))
  | inr fails ↦
      (let rest = first_admitted-some test xs job (ground (arith, fails, h)) in
        (inr rest.0, rest.1))
]

insert_sorted-IsIn :
    (less : Job → Job → Bool) (x job : Job) (ys : List Job)
    → IsIn job (insert_sorted less x ys)
    → (x ≡ job) ⊎ IsIn job ys
unfolding insert_sorted
insert_sorted-IsIn less x job [] (inl h) = inl h
insert_sorted-IsIn less x job [] (inr h) = absurd h
insert_sorted-IsIn less x job (y ∷ ys) h = go (less y x) (insert_sorted-IsIn less x job ys) h
  where
    go :
        (b : Bool)
        → (IsIn job (insert_sorted less x ys) → (x ≡ job) ⊎ IsIn job ys)
        → IsIn job (if b then y ∷ insert_sorted less x ys else x ∷ y ∷ ys)
        → (x ≡ job) ⊎ IsIn job (y ∷ ys)
    go true back (inl same) = inr (inl same)
    go true back (inr rest) = elim (back rest) [ inl same ↦ inl same | inr there ↦ inr (inr there) ]
    go false back (inl same) = inl same
    go false back (inr there) = inr there

pub sort_stable-IsIn :
    (less : Job → Job → Bool) (job : Job) (xs : List Job)
    → IsIn job (sort_stable less xs)
    → IsIn job xs
unfolding sort_stable
sort_stable-IsIn less job [] h = h
sort_stable-IsIn less job (x ∷ xs) h =
    elim (insert_sorted-IsIn less x job (sort_stable less xs) h) [
      | inl same ↦ inl same
      | inr rest ↦ inr (sort_stable-IsIn less job xs rest)
    ]

ready_jobs-IsIn :
    (state : Dict JobState) (jobs : List Job) (job : Job)
    → IsIn job (ready_jobs state jobs)
    → IsIn job jobs × (is_ready state job ≡ true)
unfolding ready_jobs
ready_jobs-IsIn state [] job h = absurd h
ready_jobs-IsIn state (x ∷ xs) job h = go (is_ready state x) (ready_jobs-IsIn state xs job) refl h
  where
    go :
        (b : Bool)
        → (IsIn job (ready_jobs state xs) → IsIn job xs × (is_ready state job ≡ true))
        → is_ready state x ≡ b
        → IsIn job (if b then x ∷ ready_jobs state xs else ready_jobs state xs)
        → IsIn job (x ∷ xs) × (is_ready state job ≡ true)
    go true back ready (inl same) = (inl same, subst (λ k. is_ready state k ≡ true) same ready)
    go true back ready (inr rest) = (let there = back rest in (inr there.0, there.1))
    go false back ready rest = (let there = back rest in (inr there.0, there.1))

-- A job that is chosen is one of those that are walked, it is ready, and its figures admit it.
pub choose-admitted :
    (ratio : Ratio) (config : Config) (round : Round) (n : ℕ) (s : RunState) (job : Job)
    → choose ratio config round n s ≡ some job
    → IsIn job (round.walk n)
      × (is_ready s.state job ≡ true)
      × (admits config (round.pressure n) (figures s) job ≡ true)
unfolding choose choose_ready
choose-admitted ratio config round n s job h =
    let ready = ready_jobs s.state (round.walk n) in
    let less = before ratio config (figures s).served in
    let first =
      first_admitted-some (admits config (round.pressure n) (figures s)) (sort_stable less ready)
        job h in
    let found =
      ready_jobs-IsIn s.state (round.walk n) job (sort_stable-IsIn less job ready first.0) in
    (found.0, found.1, first.1)
