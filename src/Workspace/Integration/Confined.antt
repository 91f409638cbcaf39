-- ===== src/Workspace/Integration/Confined.antt =====
-- How far the journal and the tree have come while `ApplyIntegration` runs.
use m3_repoworker.Prelude.{
  ℕ, zero, suc, ◌≡◌, sym, subst, true, false, List, [], ◌∷◌, All, Bytes, bytes_eq, Option, some,
  lookup, inl, inr, ◌⊎◌,
}
use m3_repoworker.Workspace.Types.{File, holds, Outcome, written, unchanged, unsynced, after_write}
use m3_repoworker.Workspace.Integration.Plans.{
  Step, Plan, Entry, Tree, Hash, FileState, entry_state,
}
use m3_repoworker.Workspace.Integration.Apply.{Journal, StepReads}
use m3_repoworker.Workspace.Integration.Recovery.{skip}
use m3_repoworker.Workspace.Integration.Paths.{IsApart, IsDistinct, IsConfined}

-- The file has the digest that the step leads to.
abbrev pub IsReached : Hash → Tree → Step → Type 0
IsReached hash tree step =
    (state : FileState) × (entry_state hash (lookup step.path tree) ≡ some state)
    × (bytes_eq state.digest step.after_digest ≡ true)

-- No temporary file has the path.
abbrev pub IsFresh : List StepReads → Bytes → Type 0
IsFresh script path =
    All
      (λ reads.
        (temporary : Bytes × Entry)
        → reads.left ≡ some temporary
        → bytes_eq temporary.0 path ≡ false)
      script

unfoldable pub front : ℕ → List Step → List Step
front zero steps = []
front (suc n) [] = []
front (suc n) (step ∷ steps) = step ∷ front n steps

pub front_next :
    (P : Step → Type 0) (n : ℕ) (steps rest : List Step) (step : Step)
    → skip n steps ≡ step ∷ rest
    → All P (front n steps)
    → P step
    → All P (front (suc n) steps) × (skip (suc n) steps ≡ rest)
unfolding skip front
front_next P zero [] rest step h done p = cc
front_next P zero (x ∷ xs) rest step h done p = ((subst P (sym (head h)) p, tt), tail h)
  where
    head : {y : Step} {ys : List Step} → x ∷ xs ≡ y ∷ ys → x ≡ y
    head e = cc

    tail : {y : Step} {ys : List Step} → x ∷ xs ≡ y ∷ ys → xs ≡ ys
    tail e = cc
front_next P (suc n) [] rest step h done p = cc
front_next P (suc n) (x ∷ xs) rest step h done p =
    let next = front_next P n xs rest step h done.1 p in ((done.0, next.0), next.1)

pub step_apart :
    (path : Bytes) (n : ℕ) (steps rest : List Step) (step : Step)
    → IsApart path steps
    → skip n steps ≡ step ∷ rest
    → bytes_eq step.path path ≡ false
unfolding skip
step_apart path zero [] rest step a e = cc
step_apart path zero (x ∷ xs) rest step a e = subst (λ s. bytes_eq s.path path ≡ false) (same e) a.0
  where
    same : {z : Step} {zs : List Step} → x ∷ xs ≡ z ∷ zs → x ≡ z
    same e = cc
step_apart path (suc n) [] rest step a e = cc
step_apart path (suc n) (x ∷ xs) rest step a e = step_apart path n xs rest step a.1 e

-- The step that comes next is apart from those before it.
pub front_apart :
    (n : ℕ) (steps rest : List Step) (step : Step)
    → IsDistinct steps
    → skip n steps ≡ step ∷ rest
    → All (λ s. bytes_eq step.path s.path ≡ false) (front n steps)
unfolding skip front
front_apart zero steps rest step h k = tt
front_apart (suc n) [] rest step h k = cc
front_apart (suc n) (x ∷ xs) rest step h k =
    (step_apart x.path n xs rest step h.0 k, front_apart n xs rest step h.1 k)

pub front_All :
    (P : Step → Type 0) (n : ℕ) (steps : List Step) → All P steps → All P (front n steps)
unfolding front
front_All P zero steps h = tt
front_All P (suc n) [] h = tt
front_All P (suc n) (x ∷ xs) h = (h.0, front_All P n xs h.1)

pub front_whole :
    (P : Step → Type 0) (n : ℕ) (steps : List Step)
    → skip n steps ≡ []
    → All P (front n steps)
    → All P steps
unfolding front skip
front_whole P zero [] h k = tt
front_whole P zero (x ∷ xs) h k = cc
front_whole P (suc n) [] h k = tt
front_whole P (suc n) (x ∷ xs) h k = (k.0, front_whole P n xs h k.1)

-- A step leaves the files of other steps as they are.
pub reached_kept :
    (hash : Hash) (step : Step) (left : Option (Bytes × Entry)) (tree after : Tree)
    (steps : List Step)
    → IsConfined step left tree after
    → All (λ s. bytes_eq step.path s.path ≡ false) steps
    → All
        (λ s.
          (temporary : Bytes × Entry) → left ≡ some temporary → bytes_eq temporary.0 s.path ≡ false)
        steps
    → All (λ s. IsReached hash tree s) steps
    → All (λ s. IsReached hash after s) steps
reached_kept hash step left tree after [] h a f r = tt
reached_kept hash step left tree after (s ∷ steps) h a f r = (
  (r.0.0, subst (λ o. entry_state hash o ≡ some r.0.0) (sym (h.kept s.path a.0 f.0)) r.0.1, r.0.2),
  reached_kept hash step left tree after steps h a.1 f.1 r.1,
)

-- What the journal's file claims.
abbrev pub IsJournal : Hash → Plan → Tree → File Journal → Type 0
IsJournal hash plan tree file =
    (j : Journal)
    → file ≡ holds j
    → (j.plan ≡ plan) × All (λ s. IsReached hash tree s) (front j.cursor plan.steps)

after_write-cases :
    (o : Outcome) (new j : Journal) (file : File Journal)
    → after_write o new file ≡ holds j
    → (new ≡ j) ⊎ (file ≡ holds j)
unfolding after_write
after_write-cases written new j file h = inl cc
after_write-cases unchanged new j file h = inr h
after_write-cases unsynced new j file h = inl cc

pub IsJournal-after_write :
    (hash : Hash) (plan : Plan) (tree : Tree) (file : File Journal) (o : Outcome) (new : Journal)
    → IsJournal hash plan tree file
    → new.plan ≡ plan
    → All (λ s. IsReached hash tree s) (front new.cursor plan.steps)
    → IsJournal hash plan tree (after_write o new file)
IsJournal-after_write hash plan tree file o new h named reached j eq =
    elim (after_write-cases o new j file eq) [
      | inl same ↦
          subst
            (λ k. (k.plan ≡ plan) × All (λ s. IsReached hash tree s) (front k.cursor plan.steps))
            same (named, reached)
      | inr before ↦ h j before
    ]
