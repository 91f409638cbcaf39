-- ===== src/Workspace/Retired.antt =====
-- What an expired lease leaves behind in internal/workspace/workspace.go: a generation that nobody can
-- lease or use until its lease is given up.
use m3_repoworker.Prelude.{
  ◌≡◌, ◌≢◌, refl, sym, subst, ◌∙◌, ℕ, Bool, true, false, List, [], ◌∷◌, Bytes, bytes_eq,
  bytes_eq_iff, Option, none, some, lookup, lookup-insert, lookup-delete, if◌then◌else◌, arith,
  Bool-cases, inl, inr,
}
use m3_repoworker.Workspace.Types.{
  rejected, lease_busy, stale_fence, Result, ok, err, Generation, Lease, File, missing, unreadable,
  holds, Directory, Disk, Repository, Outcome, written, unchanged, unsynced, Reads, is_written,
  after_write, put,
}
use m3_repoworker.Workspace.Checks.{active_state, quarantined_state}
use m3_repoworker.Workspace.Generations.{load_generation, loaded_directory, loaded_record}
use m3_repoworker.Workspace.Leases.{
  next_fence, grant, acquire_file, acquire_loaded, acquire_lease, assert_loaded, assert_lease,
}
use m3_repoworker.Workspace.Change.{
  IsLive, Change, stays, and_then, counts, grants, renews, releases, rewrites, discards, sets_aside,
  creates,
}
use m3_repoworker.Workspace.Fences.{IsLeased, some_eq, same_directory, absent}
use m3_repoworker.Workspace.Leads.{IsLoaded, load_generation-IsLoaded}
use m3_repoworker.Workspace.Refines.{live_state}
use m3_repoworker.Workspace.Granted.{acquire_lease-free}
use m3_repoworker.Workspace.History.{Op, run, step, any_frees, step-Change}

-- The generation is leased, and it cannot be loaded.
record IsRetired (g : Bytes) (d : Disk) : Type 0 where
  pub dir : Directory
  pub found : lookup g d.directories ≡ some dir
  pub leased : dir.lease ≢ missing
  pub dead : IsLive dir.generation → ⊥

put-IsRetired :
    (g : Bytes) (d : Disk) (id : Bytes) (dir old : Directory)
    → lookup id d.directories ≡ some old
    → (old.lease ≢ missing → dir.lease ≢ missing)
    → (IsLive dir.generation → IsLive old.generation)
    → IsRetired g d
    → IsRetired g (put id dir d)
unfolding put
put-IsRetired g d id dir old found keeps live h = elim (Bool-cases (bytes_eq id g)) [
  | inl same ↦
      (let eq = same_directory g id d old h.dir same found h.found in
        record {
          dir = dir;
          found = ground (arith, lookup-insert id g dir d.directories);
          leased = keeps (λ gone. h.leased (subst (λ k. k.lease ≡ missing) eq gone));
          dead = λ alive. h.dead (subst (λ k. IsLive k.generation) eq (live alive));
        })
  | inr other ↦ record {
    dir = h.dir;
    found = ground (arith, h.found, lookup-insert id g dir d.directories);
    leased = h.leased;
    dead = h.dead;
  }
]

Change-IsRetired : (g : Bytes) {d e : Disk} → Change false d e → IsRetired g d → IsRetired g e
unfolding put
Change-IsRetired g stays h = h
Change-IsRetired g (and_then a b) h = Change-IsRetired g b (Change-IsRetired g a h)
Change-IsRetired g counts h = record {
  dir = h.dir;
  found = h.found;
  leased = h.leased;
  dead = h.dead;
}
Change-IsRetired g (grants {d} id dir lease found free fenced named) h =
    put-IsRetired g d id (record dir { lease = holds lease }) dir found (λ k e. cc) (λ live. live) h
Change-IsRetired g (renews {d} id dir old new found was same owner) h =
    put-IsRetired g d id (record dir { lease = holds new }) dir found (λ k e. cc) (λ live. live) h
Change-IsRetired g (releases id dir free found) h = absurd (ground arith)
Change-IsRetired g (rewrites {d} id dir generation owner found live) h =
    put-IsRetired g d id (record dir { generation = generation; runtime_owner = owner }) dir found
      (λ k. k) live h
Change-IsRetired g (discards {d} id free) h = elim (Bool-cases (bytes_eq id g)) [
  | inl same ↦ absurd (
      h.leased (
        free h.dir (
          subst (λ k. lookup k d.directories ≡ some h.dir) (sym ((bytes_eq_iff id g).0 same))
            h.found)))
  | inr other ↦ record {
    dir = h.dir;
    found = ground (arith, h.found, lookup-delete id g d.directories);
    leased = h.leased;
    dead = h.dead;
  }
]
Change-IsRetired g (sets_aside id dir free found) h = absurd (ground arith)
Change-IsRetired g (creates {d} id dir new free) h = elim (Bool-cases (bytes_eq id g)) [
  | inl same ↦ absurd (absent g id d h.dir same new h.found)
  | inr other ↦ record {
    dir = h.dir;
    found = ground (arith, h.found, lookup-insert id g dir d.directories);
    leased = h.leased;
    dead = h.dead;
  }
]

run-IsRetired :
    (r : Repository) (g : Bytes) (ops : List (Op × Reads)) (d : Disk)
    → any_frees ops ≡ false
    → IsRetired g d
    → IsRetired g (run r ops d)
unfolding run any_frees
run-IsRetired r g [] d quiet h = h
run-IsRetired r g ((op, reads) ∷ ops) d quiet h =
    let kept : Change false d (step r reads op d) =
      subst (λ b. Change b d (step r reads op d)) (ground (arith, quiet))
        (step-Change r reads op d) in
    run-IsRetired r g ops (step r reads op d) (ground (arith, quiet)) (Change-IsRetired g kept h)

-- A generation that is retired does not load.
retired_load :
    (r : Repository) (g : Bytes) (d : Disk) (x : Generation) (dir : Directory)
    → IsRetired g d
    → load_generation r g d ≡ ok (x, dir)
    → ⊥
retired_load r g d x dir h k =
    let is = load_generation-IsLoaded r g d x dir k in
    h.dead (
      subst (λ e. IsLive e.generation) (sym (some_eq (sym h.found ∙ is.found)))
        (x, is.recorded, is.active))

grant_stale :
    (reads : Reads) (id owner : Bytes) (ttl : ℕ) (dir : Directory) (x : Result ℕ × Disk)
    → (grant reads id owner ttl dir x).0 ≢ err stale_fence
unfolding grant
grant_stale reads id owner ttl dir (err e, d) h = cc
grant_stale reads id owner ttl dir (ok f, d) h = ground arith

retired_file :
    (g : Generation) (o : Outcome) (file : File Generation)
    → g.state ≢ active_state
    → is_written o ≡ true
    → IsLive (after_write o g file)
    → ⊥
unfolding is_written after_write
retired_file g written file other h live = other (live_state g live)
retired_file g unchanged file other h live = cc
retired_file g unsynced file other h live = cc

record_rejected :
    (r : Repository) (id : Bytes) (dir : Directory) (file : File Generation)
    → loaded_record r id dir file ≢ err stale_fence
unfolding loaded_record
record_rejected r id dir missing h = cc
record_rejected r id dir unreadable h = cc
record_rejected r id dir (holds g) h = ground arith

loaded_rejected :
    (r : Repository) (id : Bytes) (o : Option Directory) → loaded_directory r id o ≢ err stale_fence
unfolding loaded_directory
loaded_rejected r id none h = cc
loaded_rejected r id (some dir) h = record_rejected r id dir dir.generation h

load_rejected : (r : Repository) (id : Bytes) (d : Disk) → load_generation r id d ≢ err stale_fence
unfolding load_generation
load_rejected r id d h = loaded_rejected r id (lookup id d.directories) (ground arith)

is_not_active : quarantined_state ≢ active_state
unfolding quarantined_state active_state
is_not_active h = cc

holds_missing : (file : File Lease) (l : Lease) → file ≡ holds l → file ≢ missing
holds_missing file l h gone = cc

if_IsRetired :
    (id : Bytes) (test done : Bool) (d e : Disk) (x : Result Lease × Disk)
    → x
      ≡ (if test then (err lease_busy, d) else (if done then err stale_fence else err rejected, e))
    → x.0 ≡ err stale_fence
    → (done ≡ true → IsRetired id e)
    → IsRetired id x.1
if_IsRetired id true done d e x eq h k = absurd (ground arith)
if_IsRetired id false done d e x eq h k = subst (λ y. IsRetired id y.1) (sym eq) (k (ground arith))

acquire_file-IsRetired :
    (reads : Reads) (id owner : Bytes) (ttl : ℕ) (g : Generation) (dir : Directory)
    (file : File Lease) (d : Disk)
    → IsLoaded id d g dir
    → dir.lease ≡ file
    → (acquire_file reads id owner ttl g dir file d).0 ≡ err stale_fence
    → IsRetired id (acquire_file reads id owner ttl g dir file d).1
unfolding acquire_file put
acquire_file-IsRetired reads id owner ttl g dir missing d is free h =
    absurd (grant_stale reads id owner ttl dir (next_fence reads d) h)
acquire_file-IsRetired reads id owner ttl g dir unreadable d is free h = cc
acquire_file-IsRetired reads id owner ttl g dir (holds lease) d is free h =
    let retired : Generation = record g { state = quarantined_state } in
    let left : Directory = record dir {
      generation = after_write reads.write retired dir.generation;
    } in
    if_IsRetired id _ _ d _ _ refl h (λ done. record {
      dir = left;
      found = ground (arith, lookup-insert id id left d.directories, bytes_eq_iff id id);
      leased = λ gone. holds_missing dir.lease lease free gone;
      dead = retired_file retired reads.write dir.generation is_not_active done;
    })

acquire_loaded-IsRetired :
    (r : Repository) (reads : Reads) (id owner : Bytes) (ttl : ℕ)
    (x : Result (Generation × Directory)) (d : Disk)
    → load_generation r id d ≡ x
    → (acquire_loaded reads id owner ttl x d).0 ≡ err stale_fence
    → IsRetired id (acquire_loaded reads id owner ttl x d).1
unfolding acquire_loaded
acquire_loaded-IsRetired r reads id owner ttl (err e) d k h =
    absurd (load_rejected r id d (ground arith))
acquire_loaded-IsRetired r reads id owner ttl (ok (g, dir)) d k h =
    acquire_file-IsRetired reads id owner ttl g dir dir.lease d
      (load_generation-IsLoaded r id d g dir k) refl h

if_acquired :
    (id : Bytes) (test : Bool) (d : Disk) (x y : Result Lease × Disk)
    → x ≡ (if test then (err rejected, d) else y)
    → x.0 ≡ err stale_fence
    → (y.0 ≡ err stale_fence → IsRetired id y.1)
    → IsRetired id x.1
if_acquired id true d x y eq h k = absurd (ground arith)
if_acquired id false d x y eq h k = subst (λ z. IsRetired id z.1) (sym eq) (k (ground arith))

acquire_lease-IsRetired :
    (r : Repository) (reads : Reads) (id owner : Bytes) (ttl : ℕ) (d : Disk)
    → (acquire_lease r reads id owner ttl d).0 ≡ err stale_fence
    → IsRetired id (acquire_lease r reads id owner ttl d).1
unfolding acquire_lease
acquire_lease-IsRetired r reads id owner ttl d h =
    if_acquired id _ d _ _ refl h
      (acquire_loaded-IsRetired r reads id owner ttl (load_generation r id d) d refl)

retired_acquire :
    (r : Repository) (reads : Reads) (id owner : Bytes) (ttl : ℕ) (l : Lease) (d : Disk)
    → IsRetired id d
    → (acquire_lease r reads id owner ttl d).0 ≢ ok l
retired_acquire r reads id owner ttl l d h k =
    let free = acquire_lease-free r reads id owner ttl l d k in
    h.leased (subst (λ e. e.lease ≡ missing) (some_eq (sym free.1 ∙ h.found)) free.2)

retired_loaded :
    (r : Repository) (reads : Reads) (lease : Lease) (d : Disk)
    (x : Result (Generation × Directory))
    → IsRetired lease.generation_id d
    → load_generation r lease.generation_id d ≡ x
    → assert_loaded reads lease x ≢ ok tt
unfolding assert_loaded
retired_loaded r reads lease d (err e) h eq k = cc
retired_loaded r reads lease d (ok (g, dir)) h eq k =
    retired_load r lease.generation_id d g dir h eq

retired_assert :
    (r : Repository) (reads : Reads) (lease : Lease) (d : Disk)
    → IsRetired lease.generation_id d
    → assert_lease r reads lease d ≢ ok tt
unfolding assert_lease
retired_assert r reads lease d h k =
    retired_loaded r reads lease d (load_generation r lease.generation_id d) h refl (ground arith)

-- When `AcquireLease` answers that the fence is stale, a lease of the generation has expired. Until a release
-- or a recovery runs, no lease of the generation is granted or accepted any more, and its directory, with
-- the lease in it, stays.
pub acquire_lease-retires :
    (r : Repository) (reads later : Reads) (id owner owner2 : Bytes) (ttl ttl2 : ℕ)
    (ops : List (Op × Reads)) (d : Disk) (l lease : Lease)
    → (acquire_lease r reads id owner ttl d).0 ≡ err stale_fence
    → any_frees ops ≡ false
    → lease.generation_id ≡ id
    → ((acquire_lease r later id owner2 ttl2 (run r ops (acquire_lease r reads id owner ttl d).1)).0
        ≢ ok l)
      × (assert_lease r later lease (run r ops (acquire_lease r reads id owner ttl d).1) ≢ ok tt)
      × IsLeased id (run r ops (acquire_lease r reads id owner ttl d).1)
acquire_lease-retires r reads later id owner owner2 ttl ttl2 ops d l lease h quiet named =
    let after = run-IsRetired r id ops _ quiet (acquire_lease-IsRetired r reads id owner ttl d h) in
    (
      retired_acquire r later id owner2 ttl2 l _ after,
      retired_assert r later lease _ (
          subst (λ k. IsRetired k (run r ops (acquire_lease r reads id owner ttl d).1)) (sym named)
            after),
      (after.dir, after.found, after.leased),
    )
