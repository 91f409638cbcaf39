-- ===== src/Publication/Gate.antt =====
-- Which commands a publication may run.
use m3_repoworker.Prelude.{
  ◌≡◌, ◌≢◌, refl, Bool, true, false, ◌&&◌, ◌||◌, not, List, [], ◌∷◌, Bytes, bytes_eq, bytes_eq_iff,
  is_empty, Option, none, some, ◌⊎◌, inl, inr, arith, if◌then◌else◌, eq_by, eq_by→≡, All, Any,
  Bool-cases,
}
use m3_repoworker.Publication.Types.{
  git_push, Kind-discrete, plan, execute, Mode-discrete, Candidate, Request, Gate, Command,
  Publication, Services,
}
use m3_repoworker.Publication.Commands.{requires_external, valid_candidate, valid_request, commands}
use m3_repoworker.Publication.Adapter.{
  permitted, is_dry, read_command, read_remote, remote_ref, settled, referred_after, unless_failed,
  run_all, ran, carry_out, referred_before, commanded, snapshot_taken, publish,
}

-- The services with a record of the commands that the runner was given, the last one first.
unfoldable pub recorded : {S : Type 0} → Services S → Services (S × List Command)
recorded services = record {
  run = λ root command w.
      let answer = services.run root command w.0 in (answer.0, (answer.1, command ∷ w.1));
  snapshot = λ root w. let answer = services.snapshot root w.0 in (answer.0, (answer.1, w.1));
}

-- What has to hold before a command may run that is not the reading of the remote reference.
pub record IsSanctioned (gate : Gate) (candidate : Candidate) (request : Request) (c : Command)
    : Type 0 where
  verified : valid_candidate candidate ≡ true
  executes : request.mode ≡ execute
  wet : request.dry_run ≡ false
  enabled : gate.enabled ≡ true
  external :
      requires_external request.kind ≡ true
      → (gate.allow_external_mutation ≡ true)
        × (request.confirmation_token ≢ [])
        × (request.confirmation_token ≡ gate.confirmation_token)
  local : requires_external request.kind ≡ false → gate.allow_local_mutation ≡ true
  listed : (list : List Command) × (commands request ≡ some list) × Any (λ d. d ≡ c) list

not-false : (b : Bool) → not b ≡ false → b ≡ true
not-false b h = ground arith

-- Every member of a list satisfies what all that are equal to a member do.
All-members :
    {P : Command → Type 0} (list : List Command)
    → ((c : Command) → Any (λ d. d ≡ c) list → P c)
    → All P list
All-members [] h = tt
All-members (c ∷ list) h = (h c (inl refl), All-members list (λ d m. h d (inr m)))

module _ {S : Type 0} (services : Services S) (gate : Gate) (candidate : Candidate)
    (request : Request) (P : Command → Type 0) (reads : P (read_command request)) where
  -- All commands on the record are allowed.
  abbrev Allowed : {R : Type 0} → R × (S × List Command) → Type 0
  Allowed r = All P r.1.1

  read_remote-Allowed :
      (r : Option Bytes × (S × List Command))
      → Allowed r
      → Allowed (read_remote (recorded services) gate candidate request r)
  unfolding read_remote
  read_remote-Allowed (none, w) h = h
  read_remote-Allowed (some output, w) h = h

  remote_ref-Allowed :
      (w : S × List Command)
      → All P w.1
      → Allowed (remote_ref (recorded services) gate candidate request w)
  unfolding remote_ref recorded
  remote_ref-Allowed w h = read_remote-Allowed _ (reads, h)

  settled-Allowed :
      (result : Publication) (r : Option Bytes × (S × List Command))
      → Allowed r
      → Allowed (settled (recorded services) gate candidate request result r)
  unfolding settled
  settled-Allowed result (none, w) h = h
  settled-Allowed result (some current, w) h =
      elim (Bool-cases (bytes_eq current candidate.candidate_snapshot)) [
        | inl same ↦ rw same h
        | inr moved ↦ rw moved h
      ]

  referred_after-Allowed :
      (result : Publication) (r : Option Bytes × (S × List Command))
      → Allowed r
      → Allowed (referred_after (recorded services) gate candidate request result r)
  unfolding referred_after recorded
  referred_after-Allowed result (none, w) h = h
  referred_after-Allowed result (some remote, w) h = settled-Allowed _ _ h

  unless_failed-Allowed :
      (rest : S × List Command → Bool × (S × List Command)) (r : Option Bytes × (S × List Command))
      → ((w : S × List Command) → All P w.1 → Allowed (rest w))
      → Allowed r
      → Allowed (unless_failed rest r)
  unfolding unless_failed
  unless_failed-Allowed rest (none, w) later h = h
  unless_failed-Allowed rest (some output, w) later h = later w h

  run_all-Allowed :
      (list : List Command) (w : S × List Command)
      → All P list
      → All P w.1
      → Allowed (run_all (recorded services) gate candidate request list w)
  unfolding run_all recorded
  run_all-Allowed [] w h k = k
  run_all-Allowed (command ∷ rest) w h k =
      unless_failed-Allowed (run_all (recorded services) gate candidate request rest) _
        (λ v. run_all-Allowed rest v h.1) (h.0, k)

  ran-Allowed :
      (result : Publication) (r : Bool × (S × List Command))
      → Allowed r
      → Allowed (ran (recorded services) gate candidate request result r)
  unfolding ran recorded
  ran-Allowed result (false, w) h = h
  ran-Allowed result (true, w) h = elim (Bool-cases (eq_by Kind-discrete request.kind git_push)) [
    | inl push ↦ rw push (referred_after-Allowed result _ (remote_ref-Allowed w h))
    | inr other_kind ↦ rw other_kind (settled-Allowed result _ h)
  ]

  if_Allowed :
      {R : Type 0} (test : Bool) (x y : R × (S × List Command))
      → (test ≡ true → Allowed x)
      → (test ≡ false → Allowed y)
      → Allowed (if test then x else y)
  if_Allowed true x y h k = h refl
  if_Allowed false x y h k = k refl

  carry_out-Allowed :
      (result : Publication) (w : S × List Command)
      → (result.dry_run ≡ false
          → gate.enabled ≡ true
          → permitted gate request ≡ true
          → All P result.commands)
      → All P w.1
      → Allowed (carry_out (recorded services) gate candidate request result w)
  unfolding carry_out
  carry_out-Allowed result w all h =
      if_Allowed result.dry_run _ _ (λ dry. h)
        (λ wet.
          if_Allowed (not gate.enabled) _ _ (λ closed. h)
            (λ opened.
              if_Allowed (not (permitted gate request)) _ _ (λ barred. h)
                (λ free. ran-Allowed result _ (
                  run_all-Allowed result.commands w
                    (all wet (not-false _ opened) (not-false _ free)) h))))

  referred_before-Allowed :
      (result : Publication) (r : Option Bytes × (S × List Command))
      → (result.dry_run ≡ false
          → gate.enabled ≡ true
          → permitted gate request ≡ true
          → All P result.commands)
      → Allowed r
      → Allowed (referred_before (recorded services) gate candidate request result r)
  unfolding referred_before
  referred_before-Allowed result (none, w) all h = h
  referred_before-Allowed result (some remote, w) all h =
      elim (Bool-cases (bytes_eq remote request.expected_remote_ref)) [
        | inl same ↦ rw same (carry_out-Allowed _ w all h)
        | inr moved ↦ rw moved h
      ]

  commanded-Allowed :
      (list : Option (List Command)) (w : S × List Command)
      → ((cs : List Command)
          → list ≡ some cs
          → is_dry request ≡ false
          → gate.enabled ≡ true
          → permitted gate request ≡ true
          → All P cs)
      → All P w.1
      → Allowed (commanded (recorded services) gate candidate request list w)
  unfolding commanded
  commanded-Allowed none w all h = h
  commanded-Allowed (some cs) w all h =
      elim (Bool-cases (eq_by Kind-discrete request.kind git_push)) [
        | inl push ↦ rw push (referred_before-Allowed _ _ (all cs refl) (remote_ref-Allowed w h))
        | inr other_kind ↦ rw other_kind (carry_out-Allowed _ w (all cs refl) h)
      ]

  snapshot_taken-Allowed :
      (r : Option Bytes × (S × List Command))
      → ((cs : List Command)
          → commands request ≡ some cs
          → is_dry request ≡ false
          → gate.enabled ≡ true
          → permitted gate request ≡ true
          → All P cs)
      → Allowed r
      → Allowed (snapshot_taken (recorded services) gate candidate request r)
  unfolding snapshot_taken
  snapshot_taken-Allowed (none, w) all h = h
  snapshot_taken-Allowed (some current, w) all h =
      elim (Bool-cases (
        not (bytes_eq current candidate.candidate_snapshot)
        || not (bytes_eq candidate.verified_snapshot candidate.candidate_snapshot))) [
          | inl moved ↦ rw moved h
          | inr same ↦ rw same (commanded-Allowed (commands request) w all h)
        ]

-- What the stages' guards say together.
sanctioned :
    (gate : Gate) (candidate : Candidate) (request : Request) (cs : List Command) (c : Command)
    → valid_candidate candidate ≡ true
    → commands request ≡ some cs
    → is_dry request ≡ false
    → gate.enabled ≡ true
    → permitted gate request ≡ true
    → Any (λ d. d ≡ c) cs
    → IsSanctioned gate candidate request c
unfolding is_dry permitted
sanctioned gate candidate request cs c valid listed wet opened free member = record {
  verified = valid;
  executes = eq_by→≡ Mode-discrete request.mode execute (ground arith);
  wet = ground arith;
  enabled = opened;
  external = λ ext. (
    ground arith,
    not_empty request.confirmation_token (ground arith),
    (bytes_eq_iff request.confirmation_token gate.confirmation_token).0 (ground arith),
  );
  local = λ int. ground arith;
  listed = (cs, listed, member);
}
  where
    not_empty : (token : Bytes) → is_empty token ≡ false → token ≢ []
    not_empty [] h = cc
    not_empty (x ∷ token) h = λ e. cc

module _ {S : Type 0} (services : Services S) (gate : Gate) (candidate : Candidate)
    (request : Request) where
  -- Whatever the runner and the snapshot provider answer, every command that Publish runs is the reading of
  -- the remote reference or one of the request's own commands; and one of those runs only for a valid,
  -- verified candidate, in execute mode and not as a dry run, through an enabled gate, which must allow
  -- external mutation and hold the request's non-empty confirmation token, or allow local mutation where the kind
  -- is a local checkpoint.
  pub publish-IsSanctioned :
      (ctx : Bool) (w : S)
      → All
          (λ c. (c ≡ read_command request) ⊎ IsSanctioned gate candidate request c)
          (publish (recorded services) gate candidate request ctx (w, [])).1.1
  unfolding publish recorded
  publish-IsSanctioned ctx w =
      elim (Bool-cases (
        not ctx
        || not (valid_candidate candidate)
        || not (valid_request request)
        || (eq_by Mode-discrete request.mode plan && not (is_empty request.confirmation_token)))) [
          | inl bad ↦ rw bad tt
          | inr good ↦ rw good (
              snapshot_taken-Allowed services gate candidate request _ (inl refl) _
                (λ cs listed wet opened free. All-members cs (λ c member. inr (
                  sanctioned gate candidate request cs c (ground arith) listed wet opened free
                    member)))
                tt)
        ]
