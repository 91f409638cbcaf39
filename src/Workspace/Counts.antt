-- ===== src/Workspace/Counts.antt =====
-- No lease on the disk has a fence that was not counted: what the changes of the disk keep.
use m3_repoworker.Prelude.{
  ◌≡◌, ◌≤◌, ℕ, Bool, Bytes, bytes_eq, some, lookup, delete, lookup-insert, lookup-delete, arith,
  Bool-cases, inl, inr,
}
use m3_repoworker.Workspace.Types.{Lease, missing, holds, Directory, Disk, put}
use m3_repoworker.Workspace.Change.{
  fence_of, Change, stays, and_then, counts, grants, renews, releases, rewrites, discards,
  sets_aside, creates,
}
use m3_repoworker.Workspace.Fences.{lease_fence}

unfoldable pub IsCounted : Disk → Type 0
IsCounted d =
    (id : Bytes) (dir : Directory) (l : Lease)
    → lookup id d.directories ≡ some dir
    → dir.lease ≡ holds l
    → l.fencing_generation ≤ fence_of d.fence

put-IsCounted :
    (d : Disk) (id : Bytes) (dir : Directory)
    → IsCounted d
    → ((l : Lease) → dir.lease ≡ holds l → l.fencing_generation ≤ fence_of d.fence)
    → IsCounted (put id dir d)
unfolding IsCounted put
put-IsCounted d id dir h k g e l found held = elim (Bool-cases (bytes_eq id g)) [
  | inl same ↦ k l (ground (arith, lookup-insert id g dir d.directories))
  | inr other ↦ h g e l (ground (arith, lookup-insert id g dir d.directories)) held
]

delete-IsCounted :
    (d : Disk) (id g : Bytes) (dir : Directory) (l : Lease)
    → IsCounted d
    → lookup g (delete id d.directories) ≡ some dir
    → dir.lease ≡ holds l
    → l.fencing_generation ≤ fence_of d.fence
unfolding IsCounted
delete-IsCounted d id g dir l h found held =
    h g dir l (ground (arith, lookup-delete id g d.directories)) held

-- Every change of the disk keeps that each lease's fence was counted.
pub Change-IsCounted : (frees : Bool) {d e : Disk} → Change frees d e → IsCounted d → IsCounted e
unfolding IsCounted
Change-IsCounted frees stays h = h
Change-IsCounted frees (and_then a b) h = Change-IsCounted frees b (Change-IsCounted frees a h)
Change-IsCounted frees (counts {d}) h = λ id dir l found held. omega (arith, h id dir l found held)
Change-IsCounted frees (grants {d} id dir lease found free fenced named) h =
    put-IsCounted d id (record dir { lease = holds lease }) h
      (λ l held. ground (arith, lease_fence held, fenced))
Change-IsCounted frees (renews {d} id dir old new found was same owner) h =
    put-IsCounted d id (record dir { lease = holds new }) h
      (λ l held. ground (arith, lease_fence held, h id dir old found was))
Change-IsCounted frees (releases {d} id dir free found) h =
    put-IsCounted d id (record dir { lease = missing }) h (λ l held. cc)
Change-IsCounted frees (rewrites {d} id dir generation owner found live) h =
    put-IsCounted d id (record dir { generation = generation; runtime_owner = owner }) h
      (λ l held. h id dir l found held)
Change-IsCounted frees (discards {d} id free) h =
    λ g dir l found held. delete-IsCounted d id g dir l h found held
Change-IsCounted frees (sets_aside {d} id dir free found) h =
    λ g e l there held. delete-IsCounted d id g e l h there held
Change-IsCounted frees (creates {d} id dir new free) h = put-IsCounted d id dir h (λ l held. cc)

-- The count of fences only grows.
pub Change-fence_of :
    (frees : Bool) (n : ℕ) {d e : Disk}
    → Change frees d e
    → n ≤ fence_of d.fence
    → n ≤ fence_of e.fence
unfolding put
Change-fence_of frees n stays h = h
Change-fence_of frees n (and_then a b) h = Change-fence_of frees n b (Change-fence_of frees n a h)
Change-fence_of frees n counts h = omega (arith, h)
Change-fence_of frees n (grants id dir lease found free fenced named) h = h
Change-fence_of frees n (renews id dir old new found was same owner) h = h
Change-fence_of frees n (releases id dir free found) h = h
Change-fence_of frees n (rewrites id dir generation owner found live) h = h
Change-fence_of frees n (discards id free) h = h
Change-fence_of frees n (sets_aside id dir free found) h = h
Change-fence_of frees n (creates id dir new free) h = h
