-- ===== src/Scheduler/Graph.antt =====
-- `validateGraph` of internal/scheduler/scheduler.go: the search for a cycle among the jobs.
use m3_repoworker.Prelude.{
  ℕ, zero, suc, ◌&&◌, not, Bool, true, false, List, [], ◌∷◌, Bytes, bytes_eq, Option, none, some,
  Dict, lookup, insert, if◌then◌else◌,
}
use m3_repoworker.Scheduler.Types.{Error, rejected, cycle, Job}
use m3_repoworker.Scheduler.Queue.{valid_job, has_id}

-- The maps `visiting` and `visited`.
pub record Marks : Type 0 where
  pub visiting : Dict Bool
  pub visited : Dict Bool

-- `unfinished` says that the fuel has run out.
pub data Verdict : Type 0 where
  accepts : Marks → Verdict
  refuses : Error → Verdict
  unfinished : Verdict

-- A map that reads `false` at a missing key.
unfoldable pub is_marked : Bytes → Dict Bool → Bool
is_marked id m = elim (lookup id m) [ none ↦ false | some b ↦ b ]

-- `byID[id]`, where the first loop has made the identities distinct.
unfoldable pub job_at : Bytes → List Job → Option Job
job_at id [] = none
job_at id (job ∷ jobs) = if bytes_eq job.id id then some job else job_at id jobs

-- The identities on which a job depends; a missing job depends on none.
unfoldable pub dependencies : Bytes → List Job → List Bytes
dependencies id jobs = elim (job_at id jobs) [ none ↦ [] | some job ↦ job.depends_on ]

-- The end of `visit`.
unfoldable pub leave : Bytes → Verdict → Verdict
leave id (accepts m) =
    accepts (record { visiting = insert id false m.visiting; visited = insert id true m.visited })
leave id (refuses error) = refuses error
leave id unfinished = unfinished

-- The loop of `visit` over the dependencies, by what the loop has found so far.
unfoldable pub visit_each : (Bytes → Marks → Verdict) → List Job → List Bytes → Verdict → Verdict
visit_each visitor jobs [] verdict = verdict
visit_each visitor jobs (dep ∷ deps) (accepts m) =
    let rest = visit_each visitor jobs deps (visitor dep m) in
    if not (has_id dep jobs) then refuses rejected else rest
visit_each visitor jobs (dep ∷ deps) (refuses error) = refuses error
visit_each visitor jobs (dep ∷ deps) unfinished = unfinished

-- `visit`.
unfoldable pub visit : ℕ → List Job → Bytes → Marks → Verdict
visit zero jobs id m = unfinished
visit (suc fuel) jobs id m =
    let inside =
      visit_each (visit fuel jobs) jobs (dependencies id jobs)
        (accepts (record m { visiting = insert id true m.visiting })) in
    if is_marked id m.visiting
    then refuses cycle
    else if is_marked id m.visited
    then accepts m
    else leave id inside

-- The last loop of `validateGraph`.
unfoldable pub visit_roots : (Bytes → Marks → Verdict) → List Bytes → Verdict → Verdict
visit_roots visitor [] verdict = verdict
visit_roots visitor (id ∷ ids) (accepts m) = visit_roots visitor ids (visitor id m)
visit_roots visitor (id ∷ ids) (refuses error) = refuses error
visit_roots visitor (id ∷ ids) unfinished = unfinished

-- The first loop of `validateGraph`.
unfoldable pub valid_jobs : List Job → Bool
valid_jobs [] = true
valid_jobs (job ∷ jobs) = valid_job job && not (has_id job.id jobs) && valid_jobs jobs

-- `validateGraph`, over the identities in the order in which the map is walked.
unfoldable pub validate_graph : ℕ → List Bytes → List Job → Verdict
validate_graph fuel ids jobs =
    if not (valid_jobs jobs)
    then refuses rejected
    else visit_roots (visit fuel jobs) ids (accepts (record { visiting = []; visited = [] }))
