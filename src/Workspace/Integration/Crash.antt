-- ===== src/Workspace/Integration/Crash.antt =====
-- What stands in the tree and in the journal when `ApplyIntegration` ends or the process stops.
use m3_repoworker.Prelude.{
  ℕ, suc, ◌≡◌, ◌≢◌, refl, subst, ◌∙◌, not, Bool, true, false, List, [], ◌∷◌, All, Bytes, bytes_eq,
  Option, none, some, lookup, if◌then◌else◌, Bool-cases, inl, inr,
}
use m3_repoworker.Workspace.Types.{
  Error, rejected, File, holds, Outcome, written, unchanged, unsynced, is_written, after_write,
}
use m3_repoworker.Workspace.Integration.Plans.{Step, Plan, Entry, Tree, Hash}
use m3_repoworker.Workspace.Integration.Apply.{
  Journal, StepReads, apply_step, Live, Ending, commits, fails, stops, noted, commit, stepped,
  apply_steps, quarantined, applying, committed,
}
use m3_repoworker.Workspace.Integration.Recovery.{skip}
use m3_repoworker.Workspace.Integration.Paths.{IsApart, IsDistinct, IsStep, apply_step-IsStep}
use m3_repoworker.Workspace.Integration.Confined.{
  IsReached, IsFresh, front, front_next, step_apart, front_apart, front_All, front_whole,
  reached_kept, IsJournal, IsJournal-after_write,
}

-- The end of a run over a script, from a tree.
pub record IsRecorded (hash : Hash) (plan : Plan) (script : List StepReads) (tree : Tree)
    (x : Ending × Live) : Type 0 where
  pub confined :
      (path : Bytes)
      → IsApart path plan.steps
      → IsFresh script path
      → lookup path x.1.tree ≡ lookup path tree
  pub journal : IsJournal hash plan x.1.tree x.1.journal
  pub committed : (j : Journal) → x.0 ≡ commits j → All (λ s. IsReached hash x.1.tree s) plan.steps

-- The run is at the journal's step.
pub record IsAt (hash : Hash) (plan : Plan) (steps : List Step) (journal : Journal) (live : Live)
    : Type 0 where
  pub rest : skip journal.cursor plan.steps ≡ steps
  pub named : journal.plan ≡ plan
  pub reached : All (λ s. IsReached hash live.tree s) (front journal.cursor plan.steps)
  pub noted : live.journal ≡ holds journal

pub stopped-IsRecorded :
    (hash : Hash) (plan : Plan) (script : List StepReads) (tree : Tree) (ending : Ending)
    (live : Live)
    → ((j : Journal) → ending ≢ commits j)
    → ((path : Bytes)
        → IsApart path plan.steps
        → IsFresh script path
        → lookup path live.tree ≡ lookup path tree)
    → IsJournal hash plan live.tree live.journal
    → IsRecorded hash plan script tree (ending, live)
stopped-IsRecorded hash plan script tree ending live other kept noted = record {
  confined = kept;
  journal = noted;
  committed = λ j e. absurd (other j e);
}

pub if-IsRecorded :
    {hash : Hash} {plan : Plan} {script : List StepReads} {tree : Tree} (test : Bool)
    (x y : Ending × Live)
    → IsRecorded hash plan script tree x
    → IsRecorded hash plan script tree y
    → IsRecorded hash plan script tree (if test then x else y)
if-IsRecorded true x y h k = h
if-IsRecorded false x y h k = k

-- The journal's file claims what has been reached.
held-IsJournal :
    (hash : Hash) (plan : Plan) (tree : Tree) (file : File Journal) (journal : Journal)
    → file ≡ holds journal
    → journal.plan ≡ plan
    → All (λ s. IsReached hash tree s) (front journal.cursor plan.steps)
    → IsJournal hash plan tree file
held-IsJournal hash plan tree file journal eq named reached j k =
    subst (λ i. (i.plan ≡ plan) × All (λ s. IsReached hash tree s) (front i.cursor plan.steps))
      (same file eq k) (named, reached)
  where
    same : {j : Journal} (file : File Journal) → file ≡ holds journal → file ≡ holds j → journal ≡ j
    same file e f = cc

commit-IsRecorded :
    (hash : Hash) (plan : Plan) (reads : StepReads) (script : List StepReads) (journal : Journal)
    (live : Live)
    → IsAt hash plan [] journal live
    → IsRecorded hash plan (reads ∷ script) live.tree (commit reads journal live)
unfolding commit noted
commit-IsRecorded hash plan reads script journal live at = record {
  confined = λ path apart fresh. refl;
  journal =
      IsJournal-after_write hash plan live.tree live.journal reads.journal
        (record journal { state = committed })
        (held-IsJournal hash plan live.tree live.journal journal at.noted at.named at.reached)
        at.named at.reached;
  committed = λ j e.
      front_whole (λ s. IsReached hash live.tree s) journal.cursor plan.steps at.rest at.reached;
}

pub written_file :
    (o : Outcome) (new : Journal) (file : File Journal)
    → is_written o ≡ true
    → after_write o new file ≡ holds new
unfolding is_written after_write
written_file written new file h = refl
written_file unchanged new file h = cc
written_file unsynced new file h = cc

-- The rest of the run, which starts from the tree that the round has left.
pub written_on :
    (o : Outcome) (hash : Hash) (plan : Plan) (reads : StepReads) (script : List StepReads)
    (tree : Tree) (now : Live) (x : Ending × Live)
    → IsRecorded hash plan (reads ∷ script) tree (fails rejected, now)
    → (is_written o ≡ true → IsRecorded hash plan script now.tree x)
    → ((path : Bytes)
        → IsApart path plan.steps
        → IsFresh (reads ∷ script) path
        → lookup path now.tree ≡ lookup path tree)
    → IsRecorded hash plan
        (reads ∷ script)
        tree
        (if not (is_written o) then (fails rejected, now) else x)
written_on o hash plan reads script tree now x failed went kept = elim (Bool-cases (is_written o)) [
  | inl wrote ↦ rw wrote (record {
    confined = λ path apart fresh. (went wrote).confined path apart fresh.1 ∙ kept path apart fresh;
    journal = (went wrote).journal;
    committed = (went wrote).committed;
  })
  | inr lost ↦ rw lost failed
]

-- What a round does to the files, before the journal is written.
record IsMoved (hash : Hash) (plan : Plan) (script : List StepReads) (tree after : Tree) (n : ℕ)
    : Type 0 where
  pub confined :
      (path : Bytes)
      → IsApart path plan.steps
      → IsFresh script path
      → lookup path after ≡ lookup path tree
  pub reached : All (λ s. IsReached hash after s) (front n plan.steps)

moved :
    (hash : Hash) (plan : Plan) (reads : StepReads) (script : List StepReads) (step : Step)
    (steps : List Step) (journal : Journal) (live : Live) (error : Option Error) (after : Tree)
    → IsAt hash plan (step ∷ steps) journal live
    → IsDistinct plan.steps
    → All (λ s. IsFresh (reads ∷ script) s.path) plan.steps
    → IsStep hash step reads.left live.tree (error, after)
    → IsMoved hash plan (reads ∷ script) live.tree after journal.cursor
moved hash plan reads script step steps journal live error after at distinct fresh did = record {
  confined = λ path apart new.
      did.confined.kept path (step_apart path journal.cursor plan.steps steps step apart at.rest)
        new.0;
  reached =
      reached_kept hash step reads.left live.tree after (front journal.cursor plan.steps)
        did.confined (front_apart journal.cursor plan.steps steps step distinct at.rest)
        (front_All
          (λ s.
            (temporary : Bytes × Entry)
            → reads.left ≡ some temporary
            → bytes_eq temporary.0 s.path ≡ false)
          journal.cursor plan.steps (heads plan.steps fresh))
        at.reached;
}
  where
    heads :
        (ss : List Step)
        → All (λ s. IsFresh (reads ∷ script) s.path) ss
        → All
            (λ s.
              (temporary : Bytes × Entry)
              → reads.left ≡ some temporary
              → bytes_eq temporary.0 s.path ≡ false)
            ss
    heads [] h = tt
    heads (s ∷ ss) h = (h.0.0, heads ss h.1)

stepped-IsRecorded :
    (hash : Hash) (plan : Plan) (reads : StepReads) (script : List StepReads) (step : Step)
    (steps : List Step) (journal : Journal) (live : Live) (error : Option Error) (after : Tree)
    (rest : Journal → Live → Ending × Live)
    → IsAt hash plan (step ∷ steps) journal live
    → IsDistinct plan.steps
    → All (λ s. IsFresh (reads ∷ script) s.path) plan.steps
    → IsStep hash step reads.left live.tree (error, after)
    → ((next : Journal) (now : Live)
        → IsAt hash plan steps next now
        → IsRecorded hash plan script now.tree (rest next now))
    → IsRecorded hash plan
        (reads ∷ script)
        live.tree
        (stepped reads journal error (record live { tree = after }) rest)
unfolding stepped noted
stepped-IsRecorded hash plan reads script step steps journal live (some error) after rest at
      distinct fresh did later =
    let is =
      moved hash plan reads script step steps journal live (some error) after at distinct fresh
        did in
    let claims = held-IsJournal hash plan after live.journal journal at.noted at.named is.reached in
    if-IsRecorded reads.dies _ _
      (stopped-IsRecorded hash plan (reads ∷ script) live.tree stops (record live { tree = after })
        (λ j e. cc) is.confined claims)
      (stopped-IsRecorded hash plan (reads ∷ script) live.tree (fails error)
        (noted reads (record journal { state = quarantined }) (record live { tree = after }))
        (λ j e. cc) is.confined
        (IsJournal-after_write hash plan after live.journal reads.journal
          (record journal { state = quarantined }) claims at.named is.reached))
stepped-IsRecorded hash plan reads script step steps journal live none after rest at distinct fresh
      did later =
    let is =
      moved hash plan reads script step steps journal live none after at distinct fresh did in
    let claims = held-IsJournal hash plan after live.journal journal at.noted at.named is.reached in
    let next : Journal = record journal { state = applying; cursor = suc journal.cursor } in
    let on =
      front_next (λ s. IsReached hash after s) journal.cursor plan.steps steps step at.rest
        is.reached (did.reached refl) in
    let now : Live = noted reads next (record live { tree = after }) in
    if-IsRecorded reads.dies _ _
      (stopped-IsRecorded hash plan (reads ∷ script) live.tree stops (record live { tree = after })
        (λ j e. cc) is.confined claims)
      (written_on reads.journal hash plan reads script live.tree now (rest next now)
        (stopped-IsRecorded hash plan (reads ∷ script) live.tree (fails rejected) now (λ j e. cc)
          is.confined
          (IsJournal-after_write hash plan after live.journal reads.journal next claims at.named
            on.0))
        (λ wrote. later next now (record {
          rest = on.1;
          named = at.named;
          reached = on.0;
          noted = written_file reads.journal next live.journal wrote;
        }))
        is.confined)

tail-IsFresh :
    (reads : StepReads) (script : List StepReads) (ss : List Step)
    → All (λ s. IsFresh (reads ∷ script) s.path) ss
    → All (λ s. IsFresh script s.path) ss
tail-IsFresh reads script [] h = tt
tail-IsFresh reads script (s ∷ ss) h = (h.0.1, tail-IsFresh reads script ss h.1)

pub apply_steps-IsRecorded :
    (hash : Hash) (plan : Plan) (script : List StepReads) (steps : List Step) (journal : Journal)
    (live : Live)
    → IsDistinct plan.steps
    → All (λ s. IsFresh script s.path) plan.steps
    → IsAt hash plan steps journal live
    → IsRecorded hash plan script live.tree (apply_steps hash script steps journal live)
unfolding apply_steps
apply_steps-IsRecorded hash plan [] steps journal live distinct fresh at =
    stopped-IsRecorded hash plan [] live.tree stops live (λ j e. cc) (λ path apart new. refl)
      (held-IsJournal hash plan live.tree live.journal journal at.noted at.named at.reached)
apply_steps-IsRecorded hash plan (reads ∷ script) [] journal live distinct fresh at =
    if-IsRecorded reads.dies _ _
      (stopped-IsRecorded hash plan (reads ∷ script) live.tree stops live (λ j e. cc)
        (λ path apart new. refl)
        (held-IsJournal hash plan live.tree live.journal journal at.noted at.named at.reached))
      (commit-IsRecorded hash plan reads script journal live at)
apply_steps-IsRecorded hash plan (reads ∷ script) (step ∷ steps) journal live distinct fresh at =
    stepped-IsRecorded hash plan reads script step steps journal live
      (apply_step hash reads step live.tree).0 (apply_step hash reads step live.tree).1
      (λ next after. apply_steps hash script steps next after) at distinct fresh
      (apply_step-IsStep hash reads step live.tree)
      (λ next now is.
        apply_steps-IsRecorded hash plan script steps next now distinct
          (tail-IsFresh reads script plan.steps fresh) is)
