-- ===== src/Workspace/Integration/Paths.antt =====
-- The paths of a valid plan are distinct, and a step touches its own path alone.
use m3_repoworker.Prelude.{
  ◌%◌, ◌≡◌, refl, not, Bool, true, false, List, [], ◌∷◌, All, Bytes, bytes_eq, Option, none, some,
  lookup, insert, delete, lookup-insert, lookup-delete, if◌then◌else◌, arith,
}
use m3_repoworker.Go.Order.{text_before, text_before-before, text_before_apart}
use m3_repoworker.Workspace.Types.{Error, rejected}
use m3_repoworker.Workspace.Integration.Plans.{
  Step, Entry, regular, Tree, Hash, FileState, file_state_at, valid_step, valid_steps, entry_state,
}
use m3_repoworker.Workspace.Integration.Apply.{
  StepReads, leave, has_digest, check_after, synced_after, remove_file, write_file, apply_step,
}

-- None of the steps is about the path.
abbrev pub IsApart : Bytes → List Step → Type 0
IsApart path steps = All (λ step. bytes_eq step.path path ≡ false) steps

abbrev pub IsDistinct : List Step → Type 0
IsDistinct [] = Unit
IsDistinct (step ∷ steps) = IsApart step.path steps × IsDistinct steps

valid_steps-later :
    (previous : Bytes) (steps : List Step)
    → valid_steps previous steps ≡ true
    → All (λ step. text_before previous step.path ≡ true) steps
unfolding valid_steps valid_step
valid_steps-later previous [] h = tt
valid_steps-later previous (step ∷ steps) h =
    (ground arith, later steps (valid_steps-later step.path steps (ground arith)))
  where
    later :
        (rest : List Step)
        → All (λ k. text_before step.path k.path ≡ true) rest
        → All (λ k. text_before previous k.path ≡ true) rest
    later [] k = tt
    later (x ∷ xs) k =
        (text_before-before previous step.path x.path (ground arith) k.0, later xs k.1)

pub valid_steps-IsDistinct :
    (previous : Bytes) (steps : List Step) → valid_steps previous steps ≡ true → IsDistinct steps
unfolding valid_steps
valid_steps-IsDistinct previous [] h = tt
valid_steps-IsDistinct previous (step ∷ steps) h = (
  apart steps (valid_steps-later step.path steps (ground arith)),
  valid_steps-IsDistinct step.path steps (ground arith),
)
  where
    apart :
        (rest : List Step)
        → All (λ k. text_before step.path k.path ≡ true) rest
        → IsApart step.path rest
    apart [] k = tt
    apart (x ∷ xs) k = (text_before_apart step.path x.path k.0, apart xs k.1)

-- What a step may change in the tree: its own path, and the temporary file that a failure leaves.
pub record IsConfined (step : Step) (left : Option (Bytes × Entry)) (tree after : Tree)
    : Type 0 where
  pub kept :
      (path : Bytes)
      → bytes_eq step.path path ≡ false
      → ((temporary : Bytes × Entry) → left ≡ some temporary → bytes_eq temporary.0 path ≡ false)
      → lookup path after ≡ lookup path tree

same-IsConfined :
    (step : Step) (left : Option (Bytes × Entry)) (tree : Tree) → IsConfined step left tree tree
same-IsConfined step left tree = record { kept = λ path other fresh. refl }

insert-IsConfined :
    (step : Step) (left : Option (Bytes × Entry)) (entry : Entry) (tree : Tree)
    → IsConfined step left tree (insert step.path entry tree)
insert-IsConfined step left entry tree = record {
  kept = λ path other fresh. ground (arith, other, lookup-insert step.path path entry tree);
}

delete-IsConfined :
    (step : Step) (left : Option (Bytes × Entry)) (tree : Tree)
    → IsConfined step left tree (delete step.path tree)
delete-IsConfined step left tree = record {
  kept = λ path other fresh. ground (arith, other, lookup-delete step.path path tree);
}

leave-IsConfined :
    (step : Step) (left : Option (Bytes × Entry)) (tree : Tree)
    → IsConfined step left tree (leave left tree)
unfolding leave
leave-IsConfined step none tree = record { kept = λ path other fresh. refl }
leave-IsConfined step (some (temporary, entry)) tree = record {
  kept = λ path other fresh.
      ground (arith, fresh (temporary, entry) refl, lookup-insert temporary path entry tree);
}

-- A step's answer and tree, where an answer without an error says that the file has its digest.
pub record IsStep (hash : Hash) (step : Step) (left : Option (Bytes × Entry)) (tree : Tree)
    (x : Option Error × Tree) : Type 0 where
  pub confined : IsConfined step left tree x.1
  pub reached :
      x.0 ≡ none
      → (state : FileState) × (entry_state hash (lookup step.path x.1) ≡ some state)
        × (bytes_eq state.digest step.after_digest ≡ true)

refused_step :
    (hash : Hash) (step : Step) (left : Option (Bytes × Entry)) (error : Error) (tree after : Tree)
    → IsConfined step left tree after
    → IsStep hash step left tree (some error, after)
refused_step hash step left error tree after h = record { confined = h; reached = λ k. cc }

if-IsStep :
    {hash : Hash} {step : Step} {left : Option (Bytes × Entry)} {tree : Tree} (test : Bool)
    (x y : Option Error × Tree)
    → (test ≡ true → IsStep hash step left tree x)
    → (test ≡ false → IsStep hash step left tree y)
    → IsStep hash step left tree (if test then x else y)
if-IsStep true x y h k = h refl
if-IsStep false x y h k = k refl

has_digest-some :
    (digest : Bytes) (o : Option FileState)
    → has_digest digest o ≡ true
    → (state : FileState) × (o ≡ some state) × (bytes_eq state.digest digest ≡ true)
unfolding has_digest
has_digest-some digest none h = cc
has_digest-some digest (some state) h = (state, refl, h)

pub state_found :
    (hash : Hash) (readable : Bool) (path : Bytes) (tree : Tree) (state : FileState)
    → file_state_at hash readable path tree ≡ some state
    → entry_state hash (lookup path tree) ≡ some state
unfolding file_state_at
state_found hash readable path tree state h = ground (arith, h)

check_after-IsStep :
    (hash : Hash) (reads : StepReads) (step : Step) (tree after : Tree)
    → IsConfined step reads.left tree after
    → IsStep hash step reads.left tree (check_after hash reads step after)
unfolding check_after
check_after-IsStep hash reads step tree after h =
    if-IsStep
      (not (has_digest step.after_digest (file_state_at hash reads.readable_after step.path after)))
      _ _ (λ bad. refused_step hash step reads.left rejected tree after h)
      (λ fine.
        let found =
          has_digest-some step.after_digest
            (file_state_at hash reads.readable_after step.path after) (ground (arith, fine)) in
        record {
          confined = h;
          reached = λ e. (
            found.0,
            state_found hash reads.readable_after step.path after found.0 found.1,
            found.2,
          );
        })

synced_after-IsStep :
    (hash : Hash) (reads : StepReads) (step : Step) (tree after : Tree)
    → IsConfined step reads.left tree after
    → IsStep hash step reads.left tree (synced_after hash reads step after)
unfolding synced_after
synced_after-IsStep hash reads step tree after h =
    if-IsStep _ _ _ (λ bad. refused_step hash step reads.left rejected tree after h)
      (λ fine. check_after-IsStep hash reads step tree after h)

remove_file-IsStep :
    (hash : Hash) (reads : StepReads) (step : Step) (tree : Tree)
    → IsStep hash step reads.left tree (remove_file hash reads step tree)
unfolding remove_file
remove_file-IsStep hash reads step tree =
    if-IsStep _ _ _
      (λ bad.
        refused_step hash step reads.left rejected tree tree (same-IsConfined step reads.left tree))
      (λ fine.
        synced_after-IsStep hash reads step tree (delete step.path tree)
          (delete-IsConfined step reads.left tree))

write_file-IsStep :
    (hash : Hash) (reads : StepReads) (step : Step) (tree : Tree)
    → IsStep hash step reads.left tree (write_file hash reads step tree)
unfolding write_file
write_file-IsStep hash reads step tree =
    let same : IsStep hash step reads.left tree (some rejected, tree) =
      refused_step hash step reads.left rejected tree tree (same-IsConfined step reads.left tree) in
    let failed : IsStep hash step reads.left tree (some rejected, leave reads.left tree) =
      refused_step hash step reads.left rejected tree (leave reads.left tree)
        (leave-IsConfined step reads.left tree) in
    let entry = regular step.staged_blob (step.mode % 512) in
    let moved : IsStep hash step reads.left tree
        (synced_after hash reads step (insert step.path entry tree)) =
      synced_after-IsStep hash reads step tree (insert step.path entry tree)
        (insert-IsConfined step reads.left entry tree) in
    search (if-IsStep, same, failed, moved)

-- A step changes its own path alone, but for a temporary file that a failure leaves, and when it answers no
-- error its file has the digest of the plan.
pub apply_step-IsStep :
    (hash : Hash) (reads : StepReads) (step : Step) (tree : Tree)
    → IsStep hash step reads.left tree (apply_step hash reads step tree)
unfolding apply_step
apply_step-IsStep hash reads step tree =
    let refused : (error : Error) → IsStep hash step reads.left tree (some error, tree) = λ error.
      refused_step hash step reads.left error tree tree (same-IsConfined step reads.left tree) in
    search (if-IsStep, refused, remove_file-IsStep, write_file-IsStep)
