-- ===== src/Security/Authorize/Grants.antt =====
-- What a granted request must have shown.
use m3_repoworker.Prelude.{
  ℕ, ◌<◌, ◌≡◌, ◌≢◌, refl, sym, ap, ◌∙◌, Bool, true, false, ◌⊎◌, inl, inr, Bytes, bytes_eq_iff,
  Option, none, some, lookup, arith,
}
use m3_repoworker.Security.Types.{
  ok, Session, Request, Binding, CompiledExecution, Confirmation, RepositoryEnrollment, Policy,
  ConfirmationClass, ConfirmationBinding, no_confirmation, integrate, publish, execute,
}
use m3_repoworker.Security.Values.{new_opaque, contains_capability, same_or_within}
use m3_repoworker.Security.Compile.{compile, compile_execution}
use m3_repoworker.Security.State.{Engine, Decision, Reads}
use m3_repoworker.Security.Authorize.{
  authorize, authorize_fresh, bound_to_session, bound_to_enrollment, consume_nonce, nonce_prefix,
  confirm, consume_confirmation, required_confirmation, validate_target, trusted, digest_string,
}
use m3_repoworker.Security.Authorize.Stages.{
  authorize-opens, authorize_random-draws, authorize_fresh-passes, authorize_confirmed-passes,
  authorize_confirmed-executes,
}

-- The request's session is open at the second read of the clock, and the request is bound to it.
pub record InSession (reads : Reads) (request : Request) (e : Engine) : Type 0 where
  pub session : Session
  pub found : lookup request.session_id e.sessions ≡ some session
  pub live : reads.second < session.expires_at
  pub principal : request.principal_id ≡ session.principal_id
  pub repository : request.repository_id ≡ session.repository_id
  pub nonce : request.nonce ≡ session.nonce

-- The binding names the repository as it was enrolled.
pub record Enrolled (request : Request) (binding : Binding) (e : Engine) : Type 0 where
  pub enrollment : RepositoryEnrollment
  pub found : lookup request.repository_id e.enrollments ≡ some enrollment
  pub repository : binding.repository_id ≡ request.repository_id
  pub filesystem : binding.filesystem_id ≡ enrollment.filesystem_id

-- An operator approved exactly this: the class that the capability requires, the whole binding that the
-- request shows, for this session, and the approval had not run out.
pub record Approved (reads : Reads) (request : Request) (e : Engine) : Type 0 where
  pub confirmation : Confirmation
  pub found : lookup request.confirmation_token e.confirmations ≡ some confirmation
  pub class : confirmation.class ≡ required_confirmation request.capability
  pub binding : confirmation.binding ≡ request.confirmation_binding
  pub session : request.confirmation_binding.session_id ≡ request.session_id
  pub live : reads.third < confirmation.expires_at

-- The caller knows the reference that was handed out when the repository was enrolled.
pub record Trusted (sha256 : Bytes → Bytes) (request : Request) (e : Engine) : Type 0 where
  pub enrollment : RepositoryEnrollment
  pub found : lookup request.repository_id e.enrollments ≡ some enrollment
  pub digest : digest_string sha256 request.trusted_integration_ref ≡ enrollment.trusted_ref_digest

pub record Grounds (sha256 : Bytes → Bytes) (reads : Reads) (request : Request) (binding : Binding)
    (e : Engine) (d : Decision) : Type 0 where
  pub in_session : InSession reads request e
  pub enrolled : Enrolled request binding e
  pub capable : contains_capability e.policy.capabilities request.capability ≡ true
  pub compiled : compile e.policy binding ≡ ok d.policy
  pub apart :
      (same_or_within binding.live_repository binding.task_workspace ≡ false)
      × (same_or_within binding.task_workspace binding.live_repository ≡ false)
  pub approved :
      required_confirmation request.capability ≢ no_confirmation → Approved reads request e
  pub trusted_integrate : request.capability ≡ integrate → Trusted sha256 request e
  pub trusted_publish : request.capability ≡ publish → Trusted sha256 request e
  pub executes :
      request.capability ≡ execute
      → (x : CompiledExecution) × (d.execution ≡ some x)
        × (compile_execution e.policy.execution request.execution ≡ ok x)

bound-InSession :
    (reads : Reads) (request : Request) (e : Engine) (session : Session)
    → lookup request.session_id e.sessions ≡ some session
    → reads.second < session.expires_at
    → bound_to_session request session ≡ true
    → InSession reads request e
unfolding bound_to_session
bound-InSession reads request e session found live bound = record {
  session = session;
  found = found;
  live = live;
  principal = ground (arith, bytes_eq_iff session.principal_id request.principal_id);
  repository = ground (arith, bytes_eq_iff session.repository_id request.repository_id);
  nonce = ground (arith, bytes_eq_iff request.nonce session.nonce);
}

enrollment_known :
    (request : Request) (binding : Binding) (e : Engine) (o : Option RepositoryEnrollment)
    → lookup request.repository_id e.enrollments ≡ o
    → bound_to_enrollment request binding o ≡ true
    → Enrolled request binding e
unfolding bound_to_enrollment
enrollment_known request binding e none found bound = cc
enrollment_known request binding e (some x) found bound = record {
  enrollment = x;
  found = found;
  repository = ground (arith, bytes_eq_iff binding.repository_id request.repository_id);
  filesystem = ground (arith, bytes_eq_iff x.filesystem_id binding.filesystem_id);
}

pub confirm-consults :
    (now : ℕ) (request : Request) (e : Engine)
    → required_confirmation request.capability ≢ no_confirmation
    → confirm now request e
      ≡ consume_confirmation now request.session_id request.confirmation_token
          (required_confirmation request.capability)
          request.confirmation_binding
          e
unfolding confirm
confirm-consults now request e required = ground arith

consume-fits :
    (now : ℕ) (session_id token : Bytes) (class : ConfirmationClass) (binding : ConfirmationBinding)
    (e : Engine) (o : Option Confirmation)
    → lookup token e.confirmations ≡ o
    → (consume_confirmation now session_id token class binding e).0 ≡ true
    → (c : Confirmation) × (o ≡ some c)
      × (c.binding.session_id ≡ session_id)
      × (c.class ≡ class)
      × (now < c.expires_at)
      × (c.binding ≡ binding)
unfolding consume_confirmation
consume-fits now session_id token class binding e none found h = ground arith
consume-fits now session_id token class binding e (some c) found h = (
  c,
  refl,
  ground (arith, bytes_eq_iff c.binding.session_id session_id),
  ground arith,
  ground arith,
  ground arith,
)

confirm-Approved :
    (reads : Reads) (request : Request) (e : Engine)
    → required_confirmation request.capability ≢ no_confirmation
    → (confirm reads.third request e).0 ≡ true
    → Approved reads request e
confirm-Approved reads request e required h =
    let (c, found, session, class, live, binding) =
      consume-fits reads.third request.session_id request.confirmation_token
        (required_confirmation request.capability) request.confirmation_binding e
        (lookup request.confirmation_token e.confirmations) refl
        (ap (λ (p : Bool × Engine). p.0) (sym (confirm-consults reads.third request e required))
          ∙ h) in
    record {
      confirmation = c;
      found = found;
      class = class;
      binding = binding;
      session = ap (λ (b : ConfirmationBinding). b.session_id) (sym binding) ∙ session;
      live = live;
    }

trusted-Trusted :
    (sha256 : Bytes → Bytes) (request : Request) (e : Engine) (o : Option RepositoryEnrollment)
    → lookup request.repository_id e.enrollments ≡ o
    → (request.capability ≡ integrate) ⊎ (request.capability ≡ publish)
    → trusted sha256 request e ≡ true
    → Trusted sha256 request e
unfolding trusted
trusted-Trusted sha256 request e none found asks h = ground arith
trusted-Trusted sha256 request e (some x) found asks h = record {
  enrollment = x;
  found = found;
  digest = ground (
    arith,
    bytes_eq_iff (digest_string sha256 request.trusted_integration_ref) x.trusted_ref_digest,
  );
}

enrollments-confirm :
    (now : ℕ) (request : Request) (e : Engine)
    → (confirm now request e).1.enrollments ≡ e.enrollments
unfolding confirm
enrollments-confirm now request e = ground arith

policy-confirm :
    (now : ℕ) (request : Request) (e : Engine) → (confirm now request e).1.policy ≡ e.policy
unfolding confirm
policy-confirm now request e = ground arith

apart_of_target :
    (request : Request) (binding : Binding)
    → validate_target request binding ≡ true
    → (same_or_within binding.live_repository binding.task_workspace ≡ false)
      × (same_or_within binding.task_workspace binding.live_repository ≡ false)
unfolding validate_target
apart_of_target request binding h = ground arith

module _ (sha256 : Bytes → Bytes) (reads : Reads) (request : Request) (binding : Binding)
    (e : Engine) (d : Decision) where
  Grounds-fresh :
      (next : Bytes) (session : Session)
      → InSession reads request e
      → Enrolled request binding e
      → (authorize_fresh sha256 reads request binding next (consume_nonce session next e)).0 ≡ ok d
      → Grounds sha256 reads request binding e d
  unfolding consume_nonce
  Grounds-fresh next session opened enrolled h =
      let f = consume_nonce session next e in
      let (compiled, compiles, capable, target, rest) =
        authorize_fresh-passes sha256 reads request binding next f h in
      let c = confirm reads.third request f in
      let (is_confirmed, is_trusted, _, same) =
        authorize_confirmed-passes sha256 reads request next compiled c rest in
      let known = enrollments-confirm reads.third request f in
      let asked : (request.capability ≡ integrate) ⊎ (request.capability ≡ publish)
          → Trusted sha256 request e =
        λ asks.
          let t = trusted-Trusted sha256 request c.1 _ refl asks is_trusted in
          record {
            enrollment = t.enrollment;
            found = ap (lookup request.repository_id) (sym known) ∙ t.found;
            digest = t.digest;
          } in
      record {
        in_session = opened;
        enrolled = enrolled;
        capable = capable;
        compiled = compiles ∙ ap ok (sym same);
        apart = apart_of_target request binding target;
        approved = λ required.
            let a = confirm-Approved reads request f required is_confirmed in
            record {
              confirmation = a.confirmation;
              found = a.found;
              class = a.class;
              binding = a.binding;
              session = a.session;
              live = a.live;
            };
        trusted_integrate = λ asks. asked (inl asks);
        trusted_publish = λ asks. asked (inr asks);
        executes = λ asks.
            let (x, has, is) =
              authorize_confirmed-executes sha256 reads request next compiled c rest asks in
            (
              x,
              has,
              ap (λ (p : Policy). compile_execution p.execution request.execution)
                    (sym (policy-confirm reads.third request f))
                  ∙ is,
            );
      }

  pub authorize-Grounds :
      (authorize sha256 reads request binding e).0 ≡ ok d → Grounds sha256 reads request binding e d
  authorize-Grounds h =
      let (session, found, live, bound, enrolled, drawing) =
        authorize-opens sha256 reads request binding e h in
      let (random, _, fresh) =
        authorize_random-draws sha256 reads request binding session e drawing in
      Grounds-fresh (new_opaque nonce_prefix random) session
        (bound-InSession reads request e session found live bound)
        (enrollment_known request binding e _ refl enrolled) fresh
