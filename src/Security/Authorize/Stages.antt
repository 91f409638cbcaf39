-- ===== src/Security/Authorize/Stages.antt =====
-- `Authorize` stage by stage: what a grant tells of each stage, and what each stage leaves alone.
use m3_repoworker.Prelude.{◌<◌, ◌≡◌, Bool, true, Bytes, some, lookup, arith}
use m3_repoworker.Security.Types.{
  ok, Session, Request, Binding, CompiledPolicy, CompiledExecution, execute,
}
use m3_repoworker.Security.Values.{contains_capability, new_opaque}
use m3_repoworker.Security.Compile.{compile, compile_execution}
use m3_repoworker.Security.State.{Engine, Decision, Reads}
use m3_repoworker.Security.Authorize.{
  deny, bound_to_session, bound_to_enrollment, consume_nonce, nonce_prefix, confirm,
  validate_target, trusted, authorize_confirmed, authorize_fresh, authorize_session, authorize,
  authorize_random, authorize_compiled, authorize_execution, grant,
}

module _ (sha256 : Bytes → Bytes) (reads : Reads) (request : Request) {d : Decision} where
  pub authorize-opens :
      (binding : Binding) (e : Engine)
      → (authorize sha256 reads request binding e).0 ≡ ok d
      → (session : Session) × (lookup request.session_id e.sessions ≡ some session)
        × (reads.second < session.expires_at)
        × (bound_to_session request session ≡ true)
        × (bound_to_enrollment request binding (lookup request.repository_id e.enrollments) ≡ true)
        × ((authorize_random sha256 reads request binding session reads.random e).0 ≡ ok d)
  unfolding authorize authorize_session deny
  authorize-opens binding e h = ground arith

  pub authorize_random-draws :
      (binding : Binding) (session : Session) (e : Engine)
      → (authorize_random sha256 reads request binding session reads.random e).0 ≡ ok d
      → (random : Bytes) × (reads.random ≡ some random)
        × ((authorize_fresh sha256 reads request binding
              (new_opaque nonce_prefix random)
              (consume_nonce session (new_opaque nonce_prefix random) e)).0
            ≡ ok d)
  unfolding authorize_random deny
  authorize_random-draws binding session e h = ground arith

  pub authorize_fresh-passes :
      (binding : Binding) (next : Bytes) (e : Engine)
      → (authorize_fresh sha256 reads request binding next e).0 ≡ ok d
      → (compiled : CompiledPolicy) × (compile e.policy binding ≡ ok compiled)
        × (contains_capability e.policy.capabilities request.capability ≡ true)
        × (validate_target request binding ≡ true)
        × ((authorize_confirmed sha256 reads request next compiled
              (confirm reads.third request e)).0
            ≡ ok d)
  unfolding authorize_fresh authorize_compiled deny
  authorize_fresh-passes binding next e h = ground arith

  pub authorize_confirmed-passes :
      (next : Bytes) (compiled : CompiledPolicy) (c : Bool × Engine)
      → (authorize_confirmed sha256 reads request next compiled c).0 ≡ ok d
      → (c.0 ≡ true)
        × (trusted sha256 request c.1 ≡ true)
        × (d.next_nonce ≡ next)
        × (d.policy ≡ compiled)
  unfolding authorize_confirmed authorize_execution grant deny
  authorize_confirmed-passes next compiled (confirmed, e) h = ground arith

  -- An execution is compiled for the capability that asks for one.
  pub authorize_confirmed-executes :
      (next : Bytes) (compiled : CompiledPolicy) (c : Bool × Engine)
      → (authorize_confirmed sha256 reads request next compiled c).0 ≡ ok d
      → request.capability ≡ execute
      → (x : CompiledExecution) × (d.execution ≡ some x)
        × (compile_execution c.1.policy.execution request.execution ≡ ok x)
  unfolding authorize_confirmed authorize_execution grant deny
  authorize_confirmed-executes next compiled (confirmed, e) h x = ground arith
