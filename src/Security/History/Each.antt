-- ===== src/Security/History/Each.antt =====
-- Properties of the single sessions that every history of the engine keeps.
use m3_repoworker.Prelude.{
  ℕ, ◌≡◌, refl, Bool, true, false, List, [], ◌∷◌, Bytes, bytes_eq, bytes_eq_iff, Option, none, some,
  lookup, insert, delete, lookup-insert, lookup-delete, All, inl, inr, Bool-cases, if◌then◌else◌,
  arith, sym, ap, ◌∙◌,
}
use mathlib.Core.Path.{subst₂}
use m3_repoworker.Security.Types.{
  RepositoryEnrollment, Result, err, denied, Session, Request, Binding, Principal,
  OperatorConfirmationRequest,
}
use m3_repoworker.Security.Values.{new_opaque}
use m3_repoworker.Security.State.{Engine, Decision, Reads, append_audit}
use m3_repoworker.Security.Authorize.{authorize, consume_nonce, nonce_prefix, confirm}
use m3_repoworker.Security.Authorize.Course.{
  Course, no_context, kept, fresh, confirmed, Logged, refused, granted, authorize-Course,
}
use m3_repoworker.Security.Sessions.{
  open_enrolled, issue_in_session, new_session, enroll_repository, open_authenticated_session,
  issue_operator_confirmation, revoke_session,
}
use m3_repoworker.Security.History.{
  Op, enrolls, opens, issues, revokes, authorizes, nonce_drawn, opaque_of, step, run,
}

-- A property of the sessions of an engine, one by one.
abbrev pub Each : (Bytes → Session → Type 0) → Engine → Type 0
Each P e = (k : Bytes) (s : Session) → lookup k e.sessions ≡ some s → P k s

-- What a new session, and one with a new nonce, have to satisfy for `P` to last.
pub record Lasts (P : Bytes → Session → Type 0) (op : Op) : Type 0 where
  pub opened : (s : Session) → nonce_drawn op ≡ some s.nonce → P s.id s
  pub renewed :
      (k next : Bytes) (s : Session)
      → P k s
      → nonce_drawn op ≡ some next
      → P s.id (record s { nonce = next })

module _ (P : Bytes → Session → Type 0) where
  Each-same : (e f : Engine) → f.sessions ≡ e.sessions → Each P e → Each P f
  Each-same e f same h k s found = h k s (ap (lookup k) (sym same) ∙ found)

  Each-insert :
      (k : Bytes) (s : Session) (e : Engine)
      → P k s
      → Each P e
      → Each P (record e { sessions = insert k s e.sessions })
  Each-insert k s e new h j t found = elim (Bool-cases (bytes_eq k j)) [
    | inl same ↦
        subst₂ P ((bytes_eq_iff k j).0 same) (ground (arith, lookup-insert k j s e.sessions)) new
    | inr other ↦ h j t (ground (arith, lookup-insert k j s e.sessions))
  ]

  Each-delete :
      (k : Bytes) (e : Engine)
      → Each P e
      → (j : Bytes) (s : Session) → lookup j (delete k e.sessions) ≡ some s
      → P j s
  Each-delete k e h j s found = ground (arith, lookup-delete k j e.sessions, h j s)

  -- `Each P` behind a result, for `search`.
  data After {R : Type 0} (r : R × Engine) : Type 0 where
    after : Each P r.1 → After r

  Each-After : {R : Type 0} {r : R × Engine} → After r → Each P r.1
  Each-After (after h) = h

  After-if :
      {R : Type 0} (b : Bool) (x y : R × Engine) → After x → After y → After (if b then x else y)
  After-if true x y hx hy = hx
  After-if false x y hx hy = hy

  After-same : {R : Type 0} (x : R) (e : Engine) → Each P e → After (x, e)
  After-same x e h = after h

  open_enrolled-After :
      (session : Bytes → Bytes → Session) (o : Option RepositoryEnrollment) (r n : Option Bytes)
      (e : Engine)
      → ((a b : Bytes) → n ≡ some b → P (session a b).id (session a b))
      → Each P e
      → After (open_enrolled session o r n e)
  unfolding open_enrolled
  open_enrolled-After session none r n e new h = After-same _ e h
  open_enrolled-After session (some o) none n e new h = After-same _ e h
  open_enrolled-After session (some o) (some a) none e new h = After-same _ e h
  open_enrolled-After session (some o) (some a) (some b) e new h =
      after (Each-insert (session a b).id (session a b) e (new a b refl) h)

  opens-After :
      (reads : Reads) (principal : Principal) (repository_id : Bytes) (ttl : ℕ) (e : Engine)
      → Lasts P (opens reads principal repository_id ttl)
      → Each P e
      → After (open_authenticated_session reads principal repository_id ttl e)
  unfolding open_authenticated_session nonce_drawn new_session
  opens-After reads principal repository_id ttl e l h =
      let session = new_session reads principal repository_id ttl in
      search (
        After-if,
        After-same (err denied) e h,
        open_enrolled-After session (lookup repository_id e.enrollments) reads.random
            reads.random_next e
            (λ a b drawn. l.opened (session a b) (ap (opaque_of nonce_prefix) drawn)) h,
      )

  Each-Logged : (e : Engine) (r : Result Decision × Engine) → Logged e r → Each P e → Each P r.1
  unfolding append_audit
  Each-Logged e r (refused event error _ same) h =
      Each-same e r.1 (ap (λ (p : Result Decision × Engine). p.1.sessions) same) h
  Each-Logged e r (granted event d _ same) h =
      Each-same e r.1 (ap (λ (p : Result Decision × Engine). p.1.sessions) same) h

  Each-confirm :
      (now : ℕ) (request : Request) (e : Engine) → Each P e → Each P (confirm now request e).1
  unfolding confirm
  Each-confirm now request e = Each-same e (confirm now request e).1 (ground arith)

  Each-renew :
      (op : Op) (k random : Bytes) (session : Session) (e : Engine)
      → Lasts P op
      → nonce_drawn op ≡ some (new_opaque nonce_prefix random)
      → lookup k e.sessions ≡ some session
      → Each P e
      → Each P (consume_nonce session (new_opaque nonce_prefix random) e)
  unfolding consume_nonce
  Each-renew op k random session e l drawn found h =
      Each-insert session.id _ e (l.renewed k _ session (h k session found) drawn) h

  authorizes-Each :
      (sha256 : Bytes → Bytes) (reads : Reads) (request : Request) (binding : Binding) (e : Engine)
      → Lasts P (authorizes reads request binding)
      → Each P e
      → Each P (authorize sha256 reads request binding e).1
  unfolding nonce_drawn append_audit
  authorizes-Each sha256 reads request binding e l h =
      course (authorize-Course sha256 reads request binding e)
    where
      renewed :
          (session : Session) (random : Bytes)
          → reads.random ≡ some random
          → lookup request.session_id e.sessions ≡ some session
          → Each P (consume_nonce session (new_opaque nonce_prefix random) e)
      renewed session random drawn found =
          Each-renew (authorizes reads request binding) request.session_id random session e l
            (ap (opaque_of nonce_prefix) drawn) found h

      course : {r : Result Decision × Engine} → Course reads request e r → Each P r.1
      course {r} (no_context same) =
          Each-same e r.1 (ap (λ (p : Result Decision × Engine). p.1.sessions) same) h
      course {r} (kept event error _ same) =
          Each-same e r.1 (ap (λ (p : Result Decision × Engine). p.1.sessions) same) h
      course {r} (fresh session random event error drawn found _ _ same) =
          Each-same (consume_nonce session (new_opaque nonce_prefix random) e) r.1
            (ap (λ (p : Result Decision × Engine). p.1.sessions) same)
            (renewed session random drawn found)
      course {r} (confirmed session random now drawn found _ logged) =
          Each-Logged _ r logged (Each-confirm now request _ (renewed session random drawn found))

  enrolls-Each :
      (sha256 : Bytes → Bytes) (reads : Reads) (p r f : Bytes) (e : Engine)
      → Each P e
      → Each P (enroll_repository sha256 reads p r f e).1
  unfolding enroll_repository append_audit
  enrolls-Each sha256 reads p r f e =
      Each-same e (enroll_repository sha256 reads p r f e).1 (ground arith)

  issues-Each :
      (reads : Reads) (authority : Option (OperatorConfirmationRequest → Bool))
      (request : OperatorConfirmationRequest) (e : Engine)
      → Each P e
      → Each P (issue_operator_confirmation reads authority request e).1
  unfolding issue_operator_confirmation issue_in_session
  issues-Each reads authority request e =
      Each-same e (issue_operator_confirmation reads authority request e).1 (ground arith)

  revokes-Each :
      (ctx : Bool) (session_id : Bytes) (e : Engine)
      → Each P e
      → Each P (revoke_session ctx session_id e).1
  unfolding revoke_session
  revokes-Each ctx session_id e h j s found =
      ground (arith, lookup-delete session_id j e.sessions, h j s)

  -- One step, and with it every history, keeps what new sessions and new nonces satisfy.
  pub step-Each :
      (sha256 : Bytes → Bytes) (op : Op) (e : Engine)
      → Lasts P op
      → Each P e
      → Each P (step sha256 e op)
  unfolding step
  step-Each sha256 (enrolls reads p r f) e l h = enrolls-Each sha256 reads p r f e h
  step-Each sha256 (opens reads principal r ttl) e l h =
      Each-After (opens-After reads principal r ttl e l h)
  step-Each sha256 (issues reads authority request) e l h = issues-Each reads authority request e h
  step-Each sha256 (revokes ctx id) e l h = revokes-Each ctx id e h
  step-Each sha256 (authorizes reads request binding) e l h =
      authorizes-Each sha256 reads request binding e l h

  pub run-Each :
      (sha256 : Bytes → Bytes) (ops : List Op) (e : Engine)
      → All (Lasts P) ops
      → Each P e
      → Each P (run sha256 e ops)
  unfolding run
  run-Each sha256 [] e l h = h
  run-Each sha256 (op ∷ ops) e l h =
      run-Each sha256 ops (step sha256 e op) l.1 (step-Each sha256 op e l.0 h)
