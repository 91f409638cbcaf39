-- ===== src/Workspace/Granted.antt =====
-- What `AcquireLease` and `AssertLease` say when they succeed.
use m3_repoworker.Prelude.{
  ◌≡◌, ◌≢◌, refl, sym, subst, ℕ, suc, ◌+◌, Bool, true, false, Bytes, some, lookup, lookup-insert,
  bytes_eq_iff, arith, if◌then◌else◌,
}
use m3_repoworker.Workspace.Types.{
  rejected, Result, ok, err, Generation, Lease, File, missing, unreadable, holds, Directory, Disk,
  Repository, Outcome, Reads, written, unchanged, unsynced, is_written, after_write, put,
}
use m3_repoworker.Workspace.Generations.{load_generation}
use m3_repoworker.Workspace.Leases.{
  bump, bump_file, next_fence, grant, acquire_file, acquire_loaded, acquire_lease, assert_loaded,
  assert_lease,
}
use m3_repoworker.Workspace.Change.{fence_of}
use m3_repoworker.Workspace.Fences.{IsFenced, IsLeased}
use m3_repoworker.Workspace.Leads.{load_generation-IsLoaded}
use m3_repoworker.Workspace.Refines.{next_fence_ok, held_lease}

-- A lease was granted on the disk.
pub record IsGranted (id : Bytes) (d : Disk) (l : Lease) (e : Disk) : Type 0 where
  pub counted : e.fence ≡ holds l.fencing_generation
  pub next : l.fencing_generation ≡ suc (fence_of d.fence)
  pub named : l.generation_id ≡ id
  pub standing : (dir : Directory) × (lookup id e.directories ≡ some dir) × (dir.lease ≡ holds l)

next_fence-suc :
    (reads : Reads) (f : ℕ) (d : Disk) → (next_fence reads d).0 ≡ ok f → f ≡ suc (fence_of d.fence)
unfolding next_fence bump_file bump
next_fence-suc reads f d h = go d.fence h
  where
    go : (file : File ℕ) → (bump_file reads file d).0 ≡ ok f → f ≡ suc (fence_of file)
    go missing h = ground arith
    go unreadable h = cc
    go (holds n) h = ground arith

written_lease :
    (o : Outcome) (lease l : Lease) (file : File Lease)
    → (if is_written o then ok lease else err rejected) ≡ ok l
    → (l ≡ lease) × (after_write o lease file ≡ holds l)
unfolding is_written after_write
written_lease written lease l file h = (cc, cc)
written_lease unchanged lease l file h = cc
written_lease unsynced lease l file h = cc

grant-IsGranted :
    (reads : Reads) (id owner : Bytes) (ttl : ℕ) (dir : Directory) (l : Lease) (d : Disk)
    (x : Result ℕ × Disk)
    → ((f : ℕ) → x.0 ≡ ok f → (x.1.fence ≡ holds f) × (f ≡ suc (fence_of d.fence)))
    → (grant reads id owner ttl dir x).0 ≡ ok l
    → IsGranted id d l (grant reads id owner ttl dir x).1
unfolding grant put
grant-IsGranted reads id owner ttl dir l d (err e, b) facts h = cc
grant-IsGranted reads id owner ttl dir l d (ok f, b) facts h =
    let given : Lease = record {
      generation_id = id;
      owner = owner;
      fencing_generation = f;
      expires_at = reads.later + ttl;
    } in
    let left : Directory = record dir { lease = after_write reads.write_next given dir.lease } in
    let is = written_lease reads.write_next given l dir.lease h in
    record {
      counted = subst (λ k. b.fence ≡ holds k.fencing_generation) (sym is.0) (facts f refl).0;
      next = subst (λ k. k.fencing_generation ≡ suc (fence_of d.fence)) (sym is.0) (facts f refl).1;
      named = subst (λ k. k.generation_id ≡ id) (sym is.0) refl;
      standing =
          (left, ground (arith, lookup-insert id id left b.directories, bytes_eq_iff id id), is.1);
    }

acquire_file-IsGranted :
    (reads : Reads) (id owner : Bytes) (ttl : ℕ) (g : Generation) (dir : Directory)
    (file : File Lease) (l : Lease) (d : Disk)
    → (acquire_file reads id owner ttl g dir file d).0 ≡ ok l
    → IsGranted id d l (acquire_file reads id owner ttl g dir file d).1
unfolding acquire_file
acquire_file-IsGranted reads id owner ttl g dir missing l d h =
    grant-IsGranted reads id owner ttl dir l d (next_fence reads d)
      (λ f e. ((next_fence_ok reads f d e).0, next_fence-suc reads f d e)) h
acquire_file-IsGranted reads id owner ttl g dir unreadable l d h = cc
acquire_file-IsGranted reads id owner ttl g dir (holds x) l d h = absurd (ground arith)

acquire_loaded-IsGranted :
    (reads : Reads) (id owner : Bytes) (ttl : ℕ) (x : Result (Generation × Directory)) (l : Lease)
    (d : Disk)
    → (acquire_loaded reads id owner ttl x d).0 ≡ ok l
    → IsGranted id d l (acquire_loaded reads id owner ttl x d).1
unfolding acquire_loaded
acquire_loaded-IsGranted reads id owner ttl (err e) l d h = cc
acquire_loaded-IsGranted reads id owner ttl (ok (g, dir)) l d h =
    acquire_file-IsGranted reads id owner ttl g dir dir.lease l d h

if-IsGranted :
    {id : Bytes} {d : Disk} {l : Lease} (test : Bool) (x : Result Lease × Disk)
    → (if test then (err rejected, d) else x).0 ≡ ok l
    → (x.0 ≡ ok l → IsGranted id d l x.1)
    → IsGranted id d l (if test then (err rejected, d) else x).1
if-IsGranted true x h k = cc
if-IsGranted false x h k = k h

pub acquire_lease-IsGranted :
    (r : Repository) (reads : Reads) (id owner : Bytes) (ttl : ℕ) (l : Lease) (d : Disk)
    → (acquire_lease r reads id owner ttl d).0 ≡ ok l
    → IsGranted id d l (acquire_lease r reads id owner ttl d).1
unfolding acquire_lease
acquire_lease-IsGranted r reads id owner ttl l d h =
    if-IsGranted _ _ h (acquire_loaded-IsGranted reads id owner ttl (load_generation r id d) l d)

-- The lease that an assertion accepts is the one on the disk, but for what the comparison leaves out.
assert_loaded-held :
    (r : Repository) (reads : Reads) (lease : Lease) (d : Disk)
    (x : Result (Generation × Directory))
    → load_generation r lease.generation_id d ≡ x
    → assert_loaded reads lease x ≡ ok tt
    → (dir : Directory) × (l : Lease) × (lookup lease.generation_id d.directories ≡ some dir)
      × (dir.lease ≡ holds l)
      × (lease.fencing_generation ≡ l.fencing_generation)
unfolding assert_loaded
assert_loaded-held r reads lease d (err e) h k = cc
assert_loaded-held r reads lease d (ok (g, dir)) h k =
    let held = held_lease lease dir.lease (ground arith) in
    (dir, held.0, (load_generation-IsLoaded r lease.generation_id d g dir h).found, held.1, held.2)

pub assert_lease-held :
    (r : Repository) (reads : Reads) (lease : Lease) (d : Disk)
    → assert_lease r reads lease d ≡ ok tt
    → (dir : Directory) × (l : Lease) × (lookup lease.generation_id d.directories ≡ some dir)
      × (dir.lease ≡ holds l)
      × (lease.fencing_generation ≡ l.fencing_generation)
unfolding assert_lease
assert_lease-held r reads lease d h =
    assert_loaded-held r reads lease d (load_generation r lease.generation_id d) refl (ground arith)

pub granted-IsFenced :
    (id : Bytes) (d e : Disk) (l : Lease) → IsGranted id d l e → IsFenced id l.fencing_generation e
granted-IsFenced id d e l h = record {
  counted = ground (arith, h.counted);
  leased = λ dir k found held. ground (arith, h.standing.1, h.standing.2);
}

stands : (file : File Lease) (l : Lease) → file ≡ holds l → file ≢ missing
stands file l h gone = cc

pub granted-IsLeased : (id : Bytes) (d e : Disk) (l : Lease) → IsGranted id d l e → IsLeased id e
granted-IsLeased id d e l h = (h.standing.0, h.standing.1, stands h.standing.0.lease l h.standing.2)

acquire_file-free :
    (reads : Reads) (id owner : Bytes) (ttl : ℕ) (g : Generation) (dir : Directory)
    (file : File Lease) (l : Lease) (d : Disk)
    → (acquire_file reads id owner ttl g dir file d).0 ≡ ok l
    → file ≡ missing
unfolding acquire_file
acquire_file-free reads id owner ttl g dir missing l d h = refl
acquire_file-free reads id owner ttl g dir unreadable l d h = cc
acquire_file-free reads id owner ttl g dir (holds x) l d h = absurd (ground arith)

acquire_loaded-free :
    (r : Repository) (reads : Reads) (id owner : Bytes) (ttl : ℕ)
    (x : Result (Generation × Directory)) (l : Lease) (d : Disk)
    → load_generation r id d ≡ x
    → (acquire_loaded reads id owner ttl x d).0 ≡ ok l
    → (dir : Directory) × (lookup id d.directories ≡ some dir) × (dir.lease ≡ missing)
unfolding acquire_loaded
acquire_loaded-free r reads id owner ttl (err e) l d h k = cc
acquire_loaded-free r reads id owner ttl (ok (g, dir)) l d h k = (
  dir,
  (load_generation-IsLoaded r id d g dir h).found,
  acquire_file-free reads id owner ttl g dir dir.lease l d k,
)

pub acquire_lease-free :
    (r : Repository) (reads : Reads) (id owner : Bytes) (ttl : ℕ) (l : Lease) (d : Disk)
    → (acquire_lease r reads id owner ttl d).0 ≡ ok l
    → (dir : Directory) × (lookup id d.directories ≡ some dir) × (dir.lease ≡ missing)
unfolding acquire_lease
acquire_lease-free r reads id owner ttl l d h =
    acquire_loaded-free r reads id owner ttl (load_generation r id d) l d refl (ground arith)
