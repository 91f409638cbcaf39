-- ===== src/Workspace/Fences.antt =====
-- What a change of the disk keeps: the count of fences only grows, an old fence does not come back, and a
-- lease file stays until it is given up.
use m3_repoworker.Prelude.{
  ◌≡◌, ◌≢◌, sym, subst, ◌∙◌, ℕ, ◌≤◌, Bool, true, false, Bytes, bytes_eq, bytes_eq_iff, none, some,
  lookup, delete, lookup-insert, lookup-delete, arith, Bool-cases, inl, inr,
}
use m3_repoworker.Workspace.Types.{Lease, missing, holds, Directory, Disk, put}
use m3_repoworker.Workspace.Change.{
  fence_of, Change, stays, and_then, counts, grants, renews, releases, rewrites, discards,
  sets_aside, creates,
}

-- From `f` on fences are counted, and none that is older than `f` is on the generation's lease.
pub record IsFenced (g : Bytes) (f : ℕ) (d : Disk) : Type 0 where
  pub counted : f ≤ fence_of d.fence
  pub leased :
      (dir : Directory) (l : Lease)
      → lookup g d.directories ≡ some dir
      → dir.lease ≡ holds l
      → f ≤ l.fencing_generation

put-IsFenced :
    (g : Bytes) (f : ℕ) (d : Disk) (id : Bytes) (dir : Directory)
    → IsFenced g f d
    → ((l : Lease) → bytes_eq id g ≡ true → dir.lease ≡ holds l → f ≤ l.fencing_generation)
    → IsFenced g f (put id dir d)
unfolding put
put-IsFenced g f d id dir h k = record {
  counted = h.counted;
  leased = λ e l found held. elim (Bool-cases (bytes_eq id g)) [
    | inl same ↦ k l same (ground (arith, lookup-insert id g dir d.directories))
    | inr other ↦ h.leased e l (ground (arith, lookup-insert id g dir d.directories)) held
  ];
}

delete-IsFenced :
    (g : Bytes) (f : ℕ) (d : Disk) (id : Bytes)
    → IsFenced g f d
    → (e : Directory) (l : Lease) → lookup g (delete id d.directories) ≡ some e
    → e.lease ≡ holds l
    → f ≤ l.fencing_generation
delete-IsFenced g f d id h e l found held =
    h.leased e l (ground (arith, lookup-delete id g d.directories)) held

pub lease_fence : {a b : Lease} → holds a ≡ holds b → a.fencing_generation ≡ b.fencing_generation
lease_fence h = cc

pub at_name :
    (g id : Bytes) (dir : Directory) (d : Disk)
    → bytes_eq id g ≡ true
    → lookup id d.directories ≡ some dir
    → lookup g d.directories ≡ some dir
at_name g id dir d hit found =
    subst (λ k. lookup k d.directories ≡ some dir) ((bytes_eq_iff id g).0 hit) found

pub Change-IsFenced :
    (frees : Bool) (g : Bytes) (f : ℕ) {d e : Disk}
    → Change frees d e
    → IsFenced g f d
    → IsFenced g f e
Change-IsFenced frees g f stays h = h
Change-IsFenced frees g f (and_then a b) h =
    Change-IsFenced frees g f b (Change-IsFenced frees g f a h)
Change-IsFenced frees g f (counts {d}) h = record {
  counted = omega (arith, h.counted);
  leased = h.leased;
}
Change-IsFenced frees g f (grants {d} id dir lease found free fenced named) h =
    put-IsFenced g f d id (record dir { lease = holds lease }) h
      (λ l same held. ground (arith, lease_fence held, fenced, h.counted))
Change-IsFenced frees g f (renews {d} id dir old new found was same owner) h =
    put-IsFenced g f d id (record dir { lease = holds new }) h
      (λ l hit held.
        ground (arith, lease_fence held, h.leased dir old (at_name g id dir d hit found) was))
Change-IsFenced frees g f (releases {d} id dir free found) h =
    put-IsFenced g f d id (record dir { lease = missing }) h (λ l hit held. cc)
Change-IsFenced frees g f (rewrites {d} id dir generation owner found live) h =
    put-IsFenced g f d id (record dir { generation = generation; runtime_owner = owner }) h
      (λ l hit held. h.leased dir l (at_name g id dir d hit found) held)
Change-IsFenced frees g f (discards {d} id free) h = record {
  counted = h.counted;
  leased = delete-IsFenced g f d id h;
}
Change-IsFenced frees g f (sets_aside {d} id dir free found) h = record {
  counted = h.counted;
  leased = delete-IsFenced g f d id h;
}
Change-IsFenced frees g f (creates {d} id dir new free) h =
    put-IsFenced g f d id dir h (λ l hit held. cc)

-- A lease file stands on the generation.
abbrev pub IsLeased : Bytes → Disk → Type 0
IsLeased g d = (dir : Directory) × (lookup g d.directories ≡ some dir) × (dir.lease ≢ missing)

pub some_eq : {a b : Directory} → some a ≡ some b → a ≡ b
some_eq h = cc

pub same_directory :
    (g id : Bytes) (d : Disk) (a b : Directory)
    → bytes_eq id g ≡ true
    → lookup id d.directories ≡ some a
    → lookup g d.directories ≡ some b
    → a ≡ b
same_directory g id d a b hit found there = some_eq (sym (at_name g id a d hit found) ∙ there)

put-IsLeased :
    (g : Bytes) (d : Disk) (id : Bytes) (dir old : Directory)
    → lookup id d.directories ≡ some old
    → (old.lease ≢ missing → dir.lease ≢ missing)
    → IsLeased g d
    → IsLeased g (put id dir d)
unfolding put
put-IsLeased g d id dir old found keeps h = elim (Bool-cases (bytes_eq id g)) [
  | inl same ↦ (
    dir,
    ground (arith, lookup-insert id g dir d.directories),
    keeps (λ gone.
        h.2 (subst (λ k. k.lease ≡ missing) (same_directory g id d old h.0 same found h.1) gone)),
  )
  | inr other ↦ (h.0, ground (arith, h.1, lookup-insert id g dir d.directories), h.2)
]

pub absent :
    (g id : Bytes) (d : Disk) (dir : Directory)
    → bytes_eq id g ≡ true
    → lookup id d.directories ≡ none
    → lookup g d.directories ≡ some dir
    → ⊥
absent g id d dir hit lost found = ground (arith, bytes_eq_iff id g)

pub Change-IsLeased : (g : Bytes) {d e : Disk} → Change false d e → IsLeased g d → IsLeased g e
unfolding put
Change-IsLeased g stays h = h
Change-IsLeased g (and_then a b) h = Change-IsLeased g b (Change-IsLeased g a h)
Change-IsLeased g counts h = h
Change-IsLeased g (grants {d} id dir lease found free fenced named) h =
    put-IsLeased g d id (record dir { lease = holds lease }) dir found (λ k e. cc) h
Change-IsLeased g (renews {d} id dir old new found was same owner) h =
    put-IsLeased g d id (record dir { lease = holds new }) dir found (λ k e. cc) h
Change-IsLeased g (releases id dir free found) h = absurd (ground arith)
Change-IsLeased g (rewrites {d} id dir generation owner found live) h =
    put-IsLeased g d id (record dir { generation = generation; runtime_owner = owner }) dir found
      (λ k. k) h
Change-IsLeased g (discards {d} id free) h = elim (Bool-cases (bytes_eq id g)) [
  | inl same ↦ absurd (
      h.2 (
        free h.0
          (subst (λ k. lookup k d.directories ≡ some h.0) (sym ((bytes_eq_iff id g).0 same)) h.1)))
  | inr other ↦ (h.0, ground (arith, h.1, lookup-delete id g d.directories), h.2)
]
Change-IsLeased g (sets_aside id dir free found) h = absurd (ground arith)
Change-IsLeased g (creates {d} id dir new free) h = elim (Bool-cases (bytes_eq id g)) [
  | inl same ↦ absurd (absent g id d h.0 same new h.1)
  | inr other ↦ (h.0, ground (arith, h.1, lookup-insert id g dir d.directories), h.2)
]
