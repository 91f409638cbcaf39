-- ===== src/Security/Authorize/Course.antt =====
-- The ways a call of `Authorize` can go, each with the engine that it leaves behind.
use m3_repoworker.Prelude.{
  ℕ, ◌≡◌, refl, Bool, true, false, not, Bytes, if◌then◌else◌, Option, none, some, lookup, arith,
}
use m3_repoworker.Security.Types.{
  Error, Result, ok, err, denied, Session, Request, Binding, CompiledPolicy, CompiledExecution,
  was_denied, was_allowed,
}
use m3_repoworker.Security.Values.{new_opaque, redact}
use m3_repoworker.Security.State.{AuditEvent, Engine, Decision, Reads, append_audit}
use m3_repoworker.Security.Authorize.{
  deny, bound_to_session, consume_nonce, nonce_prefix, confirm, authorize_execution, grant,
  authorize_compiled, authorize_random, authorize_confirmed, authorize_fresh, authorize_session,
  authorize,
}

-- The call refused or granted the request and logged so, in one event; the rest of the engine is `e`.
pub data Logged (e : Engine) (r : Result Decision × Engine) : Type 0 where
  refused :
      (event : AuditEvent) (error : Error)
      → event.outcome ≡ was_denied
      → r ≡ (err error, append_audit event e)
      → Logged e r
  granted :
      (event : AuditEvent) (d : Decision)
      → event.outcome ≡ was_allowed
      → r ≡ (ok d, append_audit event e)
      → Logged e r

pub data Course (reads : Reads) (request : Request) (e : Engine) (r : Result Decision × Engine)
    : Type 0 where
  -- No context was given, and nothing happened.
  no_context : r ≡ (err denied, e) → Course reads request e r
  -- Refused before the nonce was consumed.
  kept :
      (event : AuditEvent) (error : Error)
      → event.outcome ≡ was_denied
      → r ≡ (err error, append_audit event e)
      → Course reads request e r
  -- The session's nonce was replaced, and no confirmation was looked up.
  fresh :
      (session : Session) (random : Bytes) (event : AuditEvent) (error : Error)
      → reads.random ≡ some random
      → lookup request.session_id e.sessions ≡ some session
      → bound_to_session request session ≡ true
      → event.outcome ≡ was_denied
      → r
        ≡ (err error, append_audit event (consume_nonce session (new_opaque nonce_prefix random) e))
      → Course reads request e r
  -- The session's nonce was replaced, and the confirmation that the request names was taken.
  confirmed :
      (session : Session) (random : Bytes) (now : ℕ)
      → reads.random ≡ some random
      → lookup request.session_id e.sessions ≡ some session
      → bound_to_session request session ≡ true
      → Logged (confirm now request (consume_nonce session (new_opaque nonce_prefix random) e)).1 r
      → Course reads request e r

pub Logged-if :
    {e : Engine} (b : Bool) (x y : Result Decision × Engine)
    → Logged e x
    → Logged e y
    → Logged e (if b then x else y)
Logged-if true x y lx ly = lx
Logged-if false x y lx ly = ly

deny-Logged :
    (event : AuditEvent) (error : Error) (detail : Bytes) (e : Engine)
    → Logged e (deny event error detail e)
unfolding deny
deny-Logged event error detail e =
    refused (record event { outcome = was_denied; detail = redact detail }) error refl refl

grant-Logged :
    (event : AuditEvent) (next : Bytes) (compiled : CompiledPolicy) (x : Option CompiledExecution)
    (e : Engine)
    → Logged e (grant event next compiled x e)
unfolding grant
grant-Logged event next compiled x e = granted _ _ refl refl

module _ (sha256 : Bytes → Bytes) (reads : Reads) (request : Request) where
  authorize_execution-Logged :
      (event : AuditEvent) (next : Bytes) (compiled : CompiledPolicy) (x : Result CompiledExecution)
      (e : Engine)
      → Logged e (authorize_execution sha256 event next compiled x e)
  unfolding authorize_execution
  authorize_execution-Logged event next compiled (err error) e = deny-Logged _ _ _ e
  authorize_execution-Logged event next compiled (ok x) e = grant-Logged _ _ _ _ e

  pub authorize_confirmed-Logged :
      (next : Bytes) (compiled : CompiledPolicy) (c : Bool × Engine)
      → Logged c.1 (authorize_confirmed sha256 reads request next compiled c)
  unfolding authorize_confirmed
  authorize_confirmed-Logged next compiled (is_confirmed, e) =
      search (Logged-if, deny-Logged, authorize_execution-Logged, grant-Logged)

module _ (sha256 : Bytes → Bytes) (reads : Reads) (request : Request) (binding : Binding)
    (e : Engine) where
  Course-if :
      (b : Bool) (x y : Result Decision × Engine)
      → (b ≡ true → Course reads request e x)
      → (b ≡ false → Course reads request e y)
      → Course reads request e (if b then x else y)
  Course-if true x y cx cy = cx refl
  Course-if false x y cx cy = cy refl

  deny-kept :
      (event : AuditEvent) (error : Error) (detail : Bytes)
      → Course reads request e (deny event error detail e)
  unfolding deny
  deny-kept event error detail = kept _ error refl refl

  module _ (session : Session) (random : Bytes) (drawn : reads.random ≡ some random)
      (found : lookup request.session_id e.sessions ≡ some session)
      (bound : bound_to_session request session ≡ true) where
    abbrev next : Bytes
    next = new_opaque nonce_prefix random

    deny-fresh :
        (event : AuditEvent) (error : Error) (detail : Bytes)
        → Course reads request e (deny event error detail (consume_nonce session next e))
    unfolding deny
    deny-fresh event error detail = fresh session random _ error drawn found bound refl refl

    authorize_compiled-Course :
        (compiled : Result CompiledPolicy)
        → Course reads request e (
            authorize_compiled sha256 reads request binding next compiled
              (consume_nonce session next e))
    unfolding authorize_compiled
    authorize_compiled-Course (err error) = deny-fresh _ _ _
    authorize_compiled-Course (ok compiled) =
        let c = confirm reads.third request (consume_nonce session next e) in
        let last : Course reads request e
            (authorize_confirmed sha256 reads request next compiled c) =
          confirmed session random reads.third drawn found bound
            (authorize_confirmed-Logged sha256 reads request next compiled c) in
        search (Course-if, deny-fresh, last)

    authorize_fresh-Course :
        Course reads request e
          (authorize_fresh sha256 reads request binding next (consume_nonce session next e))
    unfolding authorize_fresh
    authorize_fresh-Course = search (Course-if, deny-fresh, authorize_compiled-Course)

  authorize_random-Course :
      (session : Session) (random : Option Bytes)
      → reads.random ≡ random
      → lookup request.session_id e.sessions ≡ some session
      → not (bound_to_session request session) ≡ false
      → Course reads request e (authorize_random sha256 reads request binding session random e)
  unfolding authorize_random
  authorize_random-Course session none drawn found bound = deny-kept _ _ _
  authorize_random-Course session (some random) drawn found bound =
      authorize_fresh-Course session random drawn found (ground arith)

  authorize_session-Course :
      (session : Option Session)
      → lookup request.session_id e.sessions ≡ session
      → Course reads request e (authorize_session sha256 reads request binding session e)
  unfolding authorize_session
  authorize_session-Course none found = deny-kept _ _ _
  authorize_session-Course (some session) found =
      search (Course-if, deny-kept, authorize_random-Course)

  pub authorize-Course : Course reads request e (authorize sha256 reads request binding e)
  unfolding authorize
  authorize-Course = search (Course-if, no_context refl, authorize_session-Course _ refl)
