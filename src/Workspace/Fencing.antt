-- ===== src/Workspace/Fencing.antt =====
-- What the fences of internal/workspace/workspace.go are worth over whole histories.
use m3_repoworker.Prelude.{
  ◌≡◌, ◌≢◌, sym, subst, ℕ, ◌≤◌, ◌<◌, false, List, [], ◌∷◌, ◌∙◌, Bytes, some, lookup, arith,
}
use m3_repoworker.Workspace.Types.{ok, Lease, missing, holds, Directory, Disk, Repository, Reads}
use m3_repoworker.Workspace.Leases.{acquire_lease, assert_lease}
use m3_repoworker.Workspace.Change.{fence_of, Change}
use m3_repoworker.Workspace.Fences.{IsFenced, Change-IsFenced, IsLeased, Change-IsLeased, some_eq}
use m3_repoworker.Workspace.Counts.{IsCounted, Change-IsCounted, Change-fence_of}
use m3_repoworker.Workspace.Granted.{
  acquire_lease-IsGranted, assert_lease-held, granted-IsFenced, granted-IsLeased,
  acquire_lease-free,
}
use m3_repoworker.Workspace.History.{Op, run, step, any_frees, step-Change, step_through}

run-IsFenced :
    (r : Repository) (g : Bytes) (f : ℕ) (ops : List (Op × Reads)) (d : Disk)
    → IsFenced g f d
    → IsFenced g f (run r ops d)
run-IsFenced r g f ops d h =
    step_through r (λ e. IsFenced g f e) (λ frees d e change. Change-IsFenced frees g f change) ops
      d h

counted_at :
    (d : Disk)
    → IsCounted d
    → (id : Bytes) (dir : Directory) (l : Lease) → lookup id d.directories ≡ some dir
    → dir.lease ≡ holds l
    → l.fencing_generation ≤ fence_of d.fence
unfolding IsCounted
counted_at d h = h

run-fence_of :
    (r : Repository) (n : ℕ) (ops : List (Op × Reads)) (d : Disk)
    → n ≤ fence_of d.fence
    → n ≤ fence_of (run r ops d).fence
run-fence_of r n ops d h =
    step_through r (λ e. n ≤ fence_of e.fence) (λ frees d e change. Change-fence_of frees n change)
      ops d h

run-IsLeased :
    (r : Repository) (g : Bytes) (ops : List (Op × Reads)) (d : Disk)
    → any_frees ops ≡ false
    → IsLeased g d
    → IsLeased g (run r ops d)
unfolding run any_frees
run-IsLeased r g [] d quiet h = h
run-IsLeased r g ((op, reads) ∷ ops) d quiet h =
    let kept : Change false d (step r reads op d) =
      subst (λ b. Change b d (step r reads op d)) (ground (arith, quiet))
        (step-Change r reads op d) in
    run-IsLeased r g ops (step r reads op d) (ground (arith, quiet)) (Change-IsLeased g kept h)

-- Along any operations, no lease on the disk gets a fence that was not counted.
pub run-IsCounted :
    (r : Repository) (ops : List (Op × Reads)) (d : Disk) → IsCounted d → IsCounted (run r ops d)
run-IsCounted r ops d h =
    step_through r (λ e. IsCounted e) (λ frees d e. Change-IsCounted frees) ops d h

-- Whatever operations come between, a lease that is granted later, of any generation, has a greater fence
-- than one that was granted before.
pub acquire_lease-increases :
    (r : Repository) (reads later : Reads) (id id2 owner owner2 : Bytes) (ttl ttl2 : ℕ)
    (ops : List (Op × Reads)) (d : Disk) (l l2 : Lease)
    → (acquire_lease r reads id owner ttl d).0 ≡ ok l
    → (acquire_lease r later id2 owner2 ttl2 (run r ops (acquire_lease r reads id owner ttl d).1)).0
      ≡ ok l2
    → l.fencing_generation < l2.fencing_generation
acquire_lease-increases r reads later id id2 owner owner2 ttl ttl2 ops d l l2 h k =
    let first = granted-IsFenced id d _ l (acquire_lease-IsGranted r reads id owner ttl l d h) in
    let between = run-IsFenced r id l.fencing_generation ops _ first in
    let second = acquire_lease-IsGranted r later id2 owner2 ttl2 l2 _ k in
    omega (arith, between.counted, second.next)

-- On a disk whose leases have fences that were counted, a lease of a generation that is accepted once is
-- never accepted again after a further lease of the generation was granted, whatever operations come
-- before and after the grant.
pub assert_lease-superseded :
    (r : Repository) (first reads last : Reads) (old new : Lease) (owner : Bytes) (ttl : ℕ)
    (before after : List (Op × Reads)) (d : Disk)
    → IsCounted d
    → assert_lease r first old d ≡ ok tt
    → (acquire_lease r reads old.generation_id owner ttl (run r before d)).0 ≡ ok new
    → assert_lease r last old
        (run r after (acquire_lease r reads old.generation_id owner ttl (run r before d)).1)
      ≢ ok tt
assert_lease-superseded r first reads last old new owner ttl before after d counted accepted granted
      again =
    let held = assert_lease-held r first old d accepted in
    let seen =
      run-fence_of r old.fencing_generation before d (
        omega
          (arith, held.4, counted_at d counted old.generation_id held.0 held.1 held.2 held.3)) in
    let grant = acquire_lease-IsGranted r reads old.generation_id owner ttl new _ granted in
    let fenced =
      run-IsFenced r old.generation_id new.fencing_generation after _
        (granted-IsFenced old.generation_id _ _ new grant) in
    let standing = assert_lease-held r last old _ again in
    omega (
      arith,
      seen,
      grant.next,
      standing.4,
      fenced.leased standing.0 standing.1 standing.2 standing.3,
    )

-- While a lease of a generation has been granted and neither a release nor a recovery has run since, no
-- further lease of the generation is granted, expired or not.
pub acquire_lease-exclusive :
    (r : Repository) (reads later : Reads) (id owner owner2 : Bytes) (ttl ttl2 : ℕ)
    (ops : List (Op × Reads)) (d : Disk) (l l2 : Lease)
    → (acquire_lease r reads id owner ttl d).0 ≡ ok l
    → any_frees ops ≡ false
    → (acquire_lease r later id owner2 ttl2 (run r ops (acquire_lease r reads id owner ttl d).1)).0
      ≢ ok l2
acquire_lease-exclusive r reads later id owner owner2 ttl ttl2 ops d l l2 h quiet again =
    let leased =
      run-IsLeased r id ops _ quiet
        (granted-IsLeased id d _ l (acquire_lease-IsGranted r reads id owner ttl l d h)) in
    let free = acquire_lease-free r later id owner2 ttl2 l2 _ again in
    leased.2 (subst (λ e. e.lease ≡ missing) (some_eq (sym free.1 ∙ leased.1)) free.2)
