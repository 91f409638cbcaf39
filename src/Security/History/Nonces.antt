-- ===== src/Security/History/Nonces.antt =====
-- A nonce serves once, over every history of the engine.
use m3_repoworker.Prelude.{
  ◌≡◌, ◌≢◌, refl, sym, ap, ◌∙◌, true, false, List, [], ◌∷◌, Bytes, bytes_eq, bytes_eq_iff, some,
  lookup, insert, lookup-insert, All, arith, ltb,
}
use m3_repoworker.Security.Types.{
  Result, ok, err, is_ok, not-ok, Session, Request, Binding, CompiledPolicy,
}
use m3_repoworker.Security.Values.{new_opaque}
use m3_repoworker.Security.Compile.{compile}
use m3_repoworker.Security.State.{Engine, Decision, Reads, append_audit}
use m3_repoworker.Security.Authorize.{
  authorize, authorize_session, authorize_random, authorize_fresh, authorize_compiled,
  authorize_confirmed, bound_to_session, bound_to_enrollment, consume_nonce, nonce_prefix, confirm,
  deny,
}
use m3_repoworker.Security.Authorize.Stages.{authorize-opens}
use m3_repoworker.Security.Authorize.Course.{Logged, refused, granted, authorize_confirmed-Logged}
use m3_repoworker.Security.History.{Op, authorizes, nonce_drawn, opaque_of, step, run}
use m3_repoworker.Security.History.Each.{Each, Lasts, run-Each}

-- Every session stands under its own name.
abbrev pub IsKeyed : Engine → Type 0
IsKeyed = Each (λ k s. s.id ≡ k)

-- No session of that name carries the nonce any more.
abbrev pub IsSpent : Bytes → Bytes → Engine → Type 0
IsSpent id nonce = Each (λ k s. k ≡ id → s.nonce ≢ nonce)

-- The request gets past the checks in front of the nonce: the session is open, the request is bound
-- to it and to the repository's enrollment, and a new nonce is drawn.
pub record IsAdmitted (reads : Reads) (request : Request) (binding : Binding) (e : Engine)
    : Type 0 where
  pub session : Session
  pub random : Bytes
  pub given : reads.ctx ≡ true
  pub found : lookup request.session_id e.sessions ≡ some session
  pub live : ltb reads.second session.expires_at ≡ true
  pub bound : bound_to_session request session ≡ true
  pub enrolled :
      bound_to_enrollment request binding (lookup request.repository_id e.enrollments) ≡ true
  pub drawn : reads.random ≡ some random

IsKeyed-Lasts : (op : Op) → Lasts (λ k s. s.id ≡ k) op
IsKeyed-Lasts op = record { opened = λ s _. refl; renewed = λ k next s _ _. refl }

IsSpent-Lasts :
    (id nonce : Bytes) (op : Op)
    → nonce_drawn op ≢ some nonce
    → Lasts (λ k s. k ≡ id → s.nonce ≢ nonce) op
IsSpent-Lasts id nonce op other = record {
  opened = λ s drawn _ same. other (drawn ∙ ap some same);
  renewed = λ k next s _ drawn _ same. other (drawn ∙ ap some same);
}

pub run-IsKeyed :
    (sha256 : Bytes → Bytes) (ops : List Op) (e : Engine) → IsKeyed e → IsKeyed (run sha256 e ops)
run-IsKeyed sha256 ops e = run-Each _ sha256 ops e (every ops)
  where
    every : (ops : List Op) → All (Lasts (λ k s. s.id ≡ k)) ops
    every [] = tt
    every (op ∷ ops) = (IsKeyed-Lasts op, every ops)

pub run-IsSpent :
    (sha256 : Bytes → Bytes) (id nonce : Bytes) (ops : List Op) (e : Engine)
    → All (λ op. nonce_drawn op ≢ some nonce) ops
    → IsSpent id nonce e
    → IsSpent id nonce (run sha256 e ops)
run-IsSpent sha256 id nonce ops e others = run-Each _ sha256 ops e (every ops others)
  where
    every :
        (ops : List Op)
        → All (λ op. nonce_drawn op ≢ some nonce) ops
        → All (Lasts (λ k s. k ≡ id → s.nonce ≢ nonce)) ops
    every [] others = tt
    every (op ∷ ops) others = (IsSpent-Lasts id nonce op others.0, every ops others.1)

module _ (sha256 : Bytes → Bytes) (reads : Reads) (request : Request) (binding : Binding) where
  sessions-Logged :
      (e : Engine) (r : Result Decision × Engine) → Logged e r → r.1.sessions ≡ e.sessions
  unfolding append_audit
  sessions-Logged e r (refused event error _ same) =
      ap (λ (p : Result Decision × Engine). p.1.sessions) same
  sessions-Logged e r (granted event d _ same) =
      ap (λ (p : Result Decision × Engine). p.1.sessions) same

  sessions-compiled :
      (next : Bytes) (compiled : Result CompiledPolicy) (e : Engine)
      → (authorize_compiled sha256 reads request binding next compiled e).1.sessions ≡ e.sessions
  unfolding authorize_compiled deny append_audit confirm
  sessions-compiled next (err error) e = refl
  sessions-compiled next (ok compiled) e =
      let c = confirm reads.third request e in
      ground (
        arith,
        sessions-Logged c.1 (authorize_confirmed sha256 reads request next compiled c)
            (authorize_confirmed-Logged sha256 reads request next compiled c),
      )

  sessions-fresh :
      (next : Bytes) (e : Engine)
      → (authorize_fresh sha256 reads request binding next e).1.sessions ≡ e.sessions
  unfolding authorize_fresh deny append_audit
  sessions-fresh next e = ground (arith, sessions-compiled next (compile e.policy binding) e)

  authorize-admitted :
      (e : Engine) (a : IsAdmitted reads request binding e)
      → authorize sha256 reads request binding e
        ≡ authorize_fresh sha256 reads request binding
            (new_opaque nonce_prefix a.random)
            (consume_nonce a.session (new_opaque nonce_prefix a.random) e)
  unfolding authorize authorize_session authorize_random
  authorize-admitted e a = ground (arith, a.given, a.found, a.live, a.bound, a.enrolled, a.drawn)

  -- A request that gets as far as the nonce has the session's nonce replaced, granted or not.
  pub sessions-admitted :
      (e : Engine) (a : IsAdmitted reads request binding e)
      → (authorize sha256 reads request binding e).1.sessions
        ≡ insert a.session.id
            (record a.session { nonce = new_opaque nonce_prefix a.random })
            e.sessions
  unfolding consume_nonce
  sessions-admitted e a =
      ap (λ (r : Result Decision × Engine). r.1.sessions) (authorize-admitted e a)
      ∙ sessions-fresh (new_opaque nonce_prefix a.random)
          (consume_nonce a.session (new_opaque nonce_prefix a.random) e)

  consumed-IsSpent :
      (e : Engine)
      → IsKeyed e
      → IsAdmitted reads request binding e
      → nonce_drawn (authorizes reads request binding) ≢ some request.nonce
      → IsSpent request.session_id request.nonce (authorize sha256 reads request binding e).1
  unfolding nonce_drawn
  consumed-IsSpent e keyed a fresh j s found same spent =
      let next = new_opaque nonce_prefix a.random in
      let replaced : bytes_eq a.session.id j ≡ true =
        (bytes_eq_iff a.session.id j).1 (keyed request.session_id a.session a.found ∙ sym same) in
      let renewed : Session = record a.session { nonce = next } in
      let now_found = ap (lookup j) (sym (sessions-admitted e a)) ∙ found in
      let now_next : next ≡ s.nonce =
        ground (arith, lookup-insert a.session.id j renewed e.sessions, replaced, now_found) in
      fresh (ap (opaque_of nonce_prefix) a.drawn ∙ ap some (now_next ∙ spent))

-- A bound request that names a nonce which its session no longer carries is not granted.
spent-refused :
    (sha256 : Bytes → Bytes) (reads : Reads) (request : Request) (binding : Binding) (e : Engine)
    → IsSpent request.session_id request.nonce e
    → (d : Decision) → (authorize sha256 reads request binding e).0 ≢ ok d
unfolding bound_to_session
spent-refused sha256 reads request binding e spent d allowed =
    let (session, found, _, bound, _, _) = authorize-opens sha256 reads request binding e allowed in
    spent request.session_id session found refl
      (ground (arith, bytes_eq_iff request.nonce session.nonce))

-- A request that gets past the checks in front of the nonce, granted or denied after them, uses its
-- nonce up: whatever the engine does afterwards, as long as neither this call nor a later operation
-- draws the same nonce at random, no request for the same session with that nonce is granted, not
-- even one that asks for something else.
pub no_replay :
    (sha256 : Bytes → Bytes) (reads : Reads) (request : Request) (binding : Binding) (e : Engine)
    → IsKeyed e
    → IsAdmitted reads request binding e
    → (ops : List Op)
    → All (λ op. nonce_drawn op ≢ some request.nonce) (authorizes reads request binding ∷ ops)
    → (later_reads : Reads) (later : Request) (later_binding : Binding)
    → later.session_id ≡ request.session_id
    → later.nonce ≡ request.nonce
    → is_ok
        (authorize sha256 later_reads later later_binding
          (run sha256 e (authorizes reads request binding ∷ ops))).0
      ≡ false
unfolding run step
no_replay sha256 reads request binding e keyed a ops others later_reads later later_binding session
      nonce =
    not-ok _ (
      spent-refused sha256 later_reads later later_binding
        (run sha256 e (authorizes reads request binding ∷ ops))
        (rw (session, nonce)
          (run-IsSpent sha256 request.session_id request.nonce ops _ others.1
            (consumed-IsSpent sha256 reads request binding e keyed a others.0))))
