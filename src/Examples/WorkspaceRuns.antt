-- ===== src/Examples/WorkspaceRuns.antt =====
-- Leases of one generation: granted, released, granted again, and expired.
use m3_repoworker.Prelude.{
  ◌≡◌, ap, ◌≢◌, refl, ◌<◌, true, false, [], ◌∷◌, bytes_eq, lookup, insert, has_prefix, contains_any,
  Bool-cases, inl, inr, arith,
}
use m3_repoworker.Go.Filepath.{clean, elements, is_abs, rel, relative_elements}
use m3_repoworker.Workspace.Types.{
  ok, err, stale_fence, Lease, missing, holds, is_written, after_write, put,
}
use m3_repoworker.Workspace.Checks.{
  active_state, quarantined_state, valid_generation_id, valid_owner, path_within, path_of,
  valid_ttl, lease_eq,
}
use m3_repoworker.Workspace.Generations.{matches, loaded_record, loaded_directory, load_generation}
use m3_repoworker.Workspace.Leases.{
  bump, bump_file, next_fence, grant, acquire_file, acquire_loaded, acquire_lease, is_held,
  release_loaded, release_lease, assert_loaded, assert_lease,
}
use m3_repoworker.Examples.WorkspaceData.{r, at, g, disk, lease, old, owner}
use m3_repoworker.Workspace.Change.{Change}
use m3_repoworker.Workspace.Fences.{IsLeased}
use m3_repoworker.Workspace.Counts.{IsCounted}
use m3_repoworker.Workspace.History.{releases, renews, may_free, step, run, any_frees, step-Change}
use m3_repoworker.Workspace.Fencing.{
  run-IsCounted, acquire_lease-increases, assert_lease-superseded, acquire_lease-exclusive,
}
use m3_repoworker.Workspace.Retired.{acquire_lease-retires}

abbrev new : Lease
new = lease 5 30

granted :
    acquire_lease r (at 10) g owner 20 (disk missing)
    ≡ (ok new, record (disk (holds new)) { fence = holds 5 })
unfolding acquire_lease acquire_loaded acquire_file grant next_fence bump_file bump after_write
    is_written put load_generation loaded_directory loaded_record matches valid_generation_id
    valid_owner valid_ttl path_within path_of active_state lookup insert bytes_eq has_prefix
    contains_any clean elements is_abs rel relative_elements
granted = refl

granted_first : (acquire_lease r (at 10) g owner 20 (disk missing)).0 ≡ ok new
granted_first = ap (λ x. x.0) granted

accepted : assert_lease r (at 10) old (disk (holds old)) ≡ ok tt
unfolding assert_lease assert_loaded is_held lease_eq load_generation loaded_directory loaded_record
    matches valid_generation_id valid_owner valid_ttl path_within path_of active_state lookup insert
    bytes_eq has_prefix contains_any clean elements is_abs rel relative_elements
accepted = refl

granted_later :
    (acquire_lease r
      (at 12)
      g
      owner
      20
      (run r ((releases new, at 11) ∷ []) (acquire_lease r (at 10) g owner 20 (disk missing)).1)).0
    ≡ ok (lease 6 32)
unfolding run step release_lease release_loaded is_held lease_eq acquire_lease acquire_loaded
    acquire_file grant next_fence bump_file bump after_write is_written put load_generation
    loaded_directory loaded_record matches valid_generation_id valid_owner valid_ttl path_within
    path_of active_state lookup insert bytes_eq has_prefix contains_any clean elements is_abs rel
    relative_elements
granted_later = refl

granted_again :
    (acquire_lease r (at 10) g owner 20 (run r ((releases old, at 9) ∷ []) (disk (holds old)))).0
    ≡ ok new
unfolding run step release_lease release_loaded is_held lease_eq acquire_lease acquire_loaded
    acquire_file grant next_fence bump_file bump after_write is_written put load_generation
    loaded_directory loaded_record matches valid_generation_id valid_owner valid_ttl path_within
    path_of active_state lookup insert bytes_eq has_prefix contains_any clean elements is_abs rel
    relative_elements
granted_again = refl

expired : (acquire_lease r (at 20) g owner 20 (disk (holds old))).0 ≡ err stale_fence
unfolding acquire_lease acquire_loaded acquire_file grant next_fence bump_file bump after_write
    is_written put load_generation loaded_directory loaded_record matches valid_generation_id
    valid_owner valid_ttl path_within path_of active_state lookup insert bytes_eq has_prefix
    contains_any clean elements is_abs rel relative_elements quarantined_state
expired = refl

counted : IsCounted (disk (holds old))
unfolding IsCounted lookup
counted id dir l found held = elim (Bool-cases (bytes_eq g id)) [
  | inl same ↦ ground arith
  | inr other ↦ absurd (ground arith)
]

quiet : any_frees ((renews new 5, at 11) ∷ []) ≡ false
unfolding any_frees may_free
quiet = refl

quiet_old : any_frees ((renews old 5, at 21) ∷ []) ≡ false
unfolding any_frees may_free
quiet_old = refl

step-Change_example :
    Change true (disk (holds old)) (step r (at 9) (releases old) (disk (holds old)))
unfolding may_free
step-Change_example = step-Change r (at 9) (releases old) (disk (holds old))

run-IsCounted_example : IsCounted (run r ((releases old, at 9) ∷ []) (disk (holds old)))
run-IsCounted_example = run-IsCounted r ((releases old, at 9) ∷ []) (disk (holds old)) counted

acquire_lease-increases_example : 5 < 6
acquire_lease-increases_example =
    acquire_lease-increases r (at 10) (at 12) g g owner owner 20 20 ((releases new, at 11) ∷ [])
      (disk missing) new (lease 6 32) granted_first granted_later

assert_lease-superseded_example :
    assert_lease r (at 12) old (
      run r
        ((renews new 5, at 11) ∷ [])
        (acquire_lease r
          (at 10)
          g
          owner
          20
          (run r ((releases old, at 9) ∷ []) (disk (holds old)))).1)
    ≢ ok tt
assert_lease-superseded_example =
    assert_lease-superseded r (at 10) (at 10) (at 12) old new owner 20 ((releases old, at 9) ∷ [])
      ((renews new 5, at 11) ∷ []) (disk (holds old)) counted accepted granted_again

acquire_lease-exclusive_example :
    (acquire_lease r
      (at 40)
      g
      owner
      20
      (run r ((renews new 5, at 11) ∷ []) (acquire_lease r (at 10) g owner 20 (disk missing)).1)).0
    ≢ ok (lease 6 60)
acquire_lease-exclusive_example =
    acquire_lease-exclusive r (at 10) (at 40) g owner owner 20 20 ((renews new 5, at 11) ∷ [])
      (disk missing) new (lease 6 60) granted_first quiet

acquire_lease-retires_example :
    ((acquire_lease r (at 40) g owner 20 (
        run r
          ((renews old 5, at 21) ∷ [])
          (acquire_lease r (at 20) g owner 20 (disk (holds old))).1)).0
      ≢ ok new)
    × (assert_lease r (at 40) old (
          run r
            ((renews old 5, at 21) ∷ [])
            (acquire_lease r (at 20) g owner 20 (disk (holds old))).1)
        ≢ ok tt)
    × IsLeased g (
        run r
          ((renews old 5, at 21) ∷ [])
          (acquire_lease r (at 20) g owner 20 (disk (holds old))).1)
acquire_lease-retires_example =
    acquire_lease-retires r (at 20) (at 40) g owner owner 20 20 ((renews old 5, at 21) ∷ [])
      (disk (holds old)) new old expired quiet_old refl
