-- ===== src/Security/History/Confirmations.antt =====
-- A confirmation token serves once, over every history of the engine, and goes with its session.
use m3_repoworker.Prelude.{
  ℕ, ◌+◌, ◌≡◌, ◌≢◌, ap, ◌∙◌, Bool, true, false, List, [], ◌∷◌, Bytes, bytes_eq, bytes_eq_iff,
  Option, none, some, lookup, lookup-insert, lookup-delete, lookup-delete_if, lookup-delete_if_kept,
  bytes_eq_refl, arith, All,
}
use m3_repoworker.Security.Types.{
  Result, ok, is_ok, is_ok→ok, not-ok, Session, Request, Binding, Confirmation,
  OperatorConfirmationRequest, no_confirmation,
}
use m3_repoworker.Security.Values.{new_opaque}
use m3_repoworker.Security.State.{Engine, Decision, Reads, append_audit}
use m3_repoworker.Security.Authorize.{
  authorize, consume_nonce, nonce_prefix, confirm, consume_confirmation, required_confirmation,
}
use m3_repoworker.Security.Authorize.Course.{
  Course, no_context, kept, fresh, confirmed, Logged, refused, granted, authorize-Course,
}
use m3_repoworker.Security.Authorize.Grants.{authorize-Grounds, confirm-consults}
use m3_repoworker.Security.Sessions.{
  enroll_repository, open_authenticated_session, open_enrolled, issue_operator_confirmation,
  issue_in_session, revoke_session, confirm_prefix,
}
use m3_repoworker.Security.History.{
  Op, enrolls, opens, issues, revokes, authorizes, token_drawn, opaque_of, step, run,
}

abbrev pub IsGone : Bytes → Engine → Type 0
IsGone token e = lookup token e.confirmations ≡ none

module _ (token : Bytes) where
  IsGone-confirm :
      (now : ℕ) (request : Request) (e : Engine)
      → IsGone token e
      → IsGone token (confirm now request e).1
  unfolding confirm
  IsGone-confirm now request e gone =
      ground (arith, lookup-delete request.confirmation_token token e.confirmations)

  IsGone-Logged :
      (e : Engine) (r : Result Decision × Engine) → Logged e r → IsGone token e → IsGone token r.1
  unfolding append_audit
  IsGone-Logged e r (refused event error _ same) gone =
      ap (λ (p : Result Decision × Engine). lookup token p.1.confirmations) same ∙ gone
  IsGone-Logged e r (granted event d _ same) gone =
      ap (λ (p : Result Decision × Engine). lookup token p.1.confirmations) same ∙ gone

  IsGone-Course :
      (reads : Reads) (request : Request) (e : Engine) (r : Result Decision × Engine)
      → Course reads request e r
      → IsGone token e
      → IsGone token r.1
  unfolding append_audit consume_nonce
  IsGone-Course reads request e r (no_context same) gone =
      ap (λ (p : Result Decision × Engine). lookup token p.1.confirmations) same ∙ gone
  IsGone-Course reads request e r (kept event error _ same) gone =
      ap (λ (p : Result Decision × Engine). lookup token p.1.confirmations) same ∙ gone
  IsGone-Course reads request e r (fresh session random event error _ _ _ _ same) gone =
      ap (λ (p : Result Decision × Engine). lookup token p.1.confirmations) same ∙ gone
  IsGone-Course reads request e r (confirmed session random now _ _ _ logged) gone =
      IsGone-Logged
        (confirm now request (consume_nonce session (new_opaque nonce_prefix random) e)).1 r logged
        (IsGone-confirm now request (consume_nonce session (new_opaque nonce_prefix random) e) gone)

  IsGone-issue_in_session :
      (reads : Reads) (request : OperatorConfirmationRequest) (o : Option Session)
      (random : Option Bytes) (e : Engine)
      → opaque_of confirm_prefix random ≢ some token
      → IsGone token e
      → IsGone token (issue_in_session reads request o random e).1
  unfolding issue_in_session
  IsGone-issue_in_session reads request none random e other gone = gone
  IsGone-issue_in_session reads request (some session) none e other gone = ground arith
  IsGone-issue_in_session reads request (some session) (some random) e other gone =
      let made = new_opaque confirm_prefix random in
      ground (
        arith,
        bytes_eq_iff made token,
        lookup-insert made token
            (record {
              token = made;
              class = request.class;
              binding = request.binding;
              expires_at = reads.second + request.ttl;
            })
            e.confirmations,
      )

  IsGone-issues :
      (reads : Reads) (authority : Option (OperatorConfirmationRequest → Bool))
      (request : OperatorConfirmationRequest) (e : Engine)
      → token_drawn (issues reads authority request) ≢ some token
      → IsGone token e
      → IsGone token (issue_operator_confirmation reads authority request e).1
  unfolding issue_operator_confirmation token_drawn
  IsGone-issues reads authority request e other gone = ground (
    arith,
    IsGone-issue_in_session reads request (lookup request.binding.session_id e.sessions)
        reads.random e other gone,
  )

  IsGone-step :
      (sha256 : Bytes → Bytes) (op : Op) (e : Engine)
      → token_drawn op ≢ some token
      → IsGone token e
      → IsGone token (step sha256 e op)
  unfolding step enroll_repository append_audit open_authenticated_session open_enrolled
      revoke_session
  IsGone-step sha256 (enrolls reads p r f) e other gone = ground arith
  IsGone-step sha256 (opens reads principal r ttl) e other gone = ground arith
  IsGone-step sha256 (issues reads authority request) e other gone =
      IsGone-issues reads authority request e other gone
  IsGone-step sha256 (revokes ctx id) e other gone = ground (
    arith,
    lookup-delete_if (λ (c : Confirmation). bytes_eq c.binding.session_id id) token e.confirmations
        gone,
  )
  IsGone-step sha256 (authorizes reads request binding) e other gone =
      IsGone-Course reads request e _ (authorize-Course sha256 reads request binding e) gone

  IsGone-run :
      (sha256 : Bytes → Bytes) (ops : List Op) (e : Engine)
      → All (λ op. token_drawn op ≢ some token) ops
      → IsGone token e
      → IsGone token (run sha256 e ops)
  unfolding run
  IsGone-run sha256 [] e others gone = gone
  IsGone-run sha256 (op ∷ ops) e others gone =
      IsGone-run sha256 ops (step sha256 e op) others.1 (IsGone-step sha256 op e others.0 gone)

module _ (sha256 : Bytes → Bytes) (reads : Reads) (request : Request) where
  confirm-IsGone :
      (now : ℕ) (e : Engine)
      → required_confirmation request.capability ≢ no_confirmation
      → IsGone request.confirmation_token (confirm now request e).1
  unfolding consume_confirmation
  confirm-IsGone now e required =
      let token = request.confirmation_token in
      let (answer, f) = confirm now request e in
      ground (
        arith,
        confirm-consults now request e required,
        lookup-delete token token e.confirmations,
        bytes_eq_refl token,
      )

  granted-IsGone :
      (e : Engine) (r : Result Decision × Engine) (d : Decision)
      → Course reads request e r
      → required_confirmation request.capability ≢ no_confirmation
      → r.0 ≡ ok d
      → IsGone request.confirmation_token r.1
  granted-IsGone e r d (no_context same) required h =
      cc (ap (λ (p : Result Decision × Engine). p.0) same)
  granted-IsGone e r d (kept event error _ same) required h =
      cc (ap (λ (p : Result Decision × Engine). p.0) same)
  granted-IsGone e r d (fresh session random event error _ _ _ _ same) required h =
      cc (ap (λ (p : Result Decision × Engine). p.0) same)
  granted-IsGone e r d (confirmed session random now _ _ _ logged) required h =
      let f = consume_nonce session (new_opaque nonce_prefix random) e in
      IsGone-Logged request.confirmation_token (confirm now request f).1 r logged
        (confirm-IsGone now f required)

-- A confirmation approves one grant: once a request that requires one is granted, no request that
-- requires one and shows the same token is granted later, whatever the engine does in between, as
-- long as no operation in between draws the same token at random.
pub confirmation_once :
    (sha256 : Bytes → Bytes) (reads : Reads) (request : Request) (binding : Binding) (e : Engine)
    → required_confirmation request.capability ≢ no_confirmation
    → is_ok (authorize sha256 reads request binding e).0 ≡ true
    → (ops : List Op) → All (λ op. token_drawn op ≢ some request.confirmation_token) ops
    → (later_reads : Reads) (later : Request) (later_binding : Binding)
    → required_confirmation later.capability ≢ no_confirmation
    → later.confirmation_token ≡ request.confirmation_token
    → is_ok
        (authorize sha256 later_reads later later_binding
          (run sha256 (authorize sha256 reads request binding e).1 ops)).0
      ≡ false
confirmation_once sha256 reads request binding e required h ops others later_reads later
      later_binding later_required token =
    let f = run sha256 (authorize sha256 reads request binding e).1 ops in
    let (d, allowed) = is_ok→ok (authorize sha256 reads request binding e).0 h in
    let gone =
      IsGone-run request.confirmation_token sha256 ops (authorize sha256 reads request binding e).1
        others
        (granted-IsGone sha256 reads request e (authorize sha256 reads request binding e) d
          (authorize-Course sha256 reads request binding e) required allowed) in
    not-ok (authorize sha256 later_reads later later_binding f).0 λ later_d later_h.
      let a =
        (authorize-Grounds sha256 later_reads later later_binding f later_d later_h).approved
          later_required in
      cc (a.found, gone, token)

-- Revoking a session that is open removes it, and every confirmation bound to it; the other sessions stay as they were.
pub revoke_session-clears :
    (session_id : Bytes) (e : Engine)
    → (revoke_session true session_id e).0 ≡ ok tt
    → (lookup session_id (revoke_session true session_id e).1.sessions ≡ none)
      × ((token : Bytes) (c : Confirmation)
          → lookup token (revoke_session true session_id e).1.confirmations ≡ some c
          → c.binding.session_id ≢ session_id)
      × ((other : Bytes)
          → session_id ≢ other
          → lookup other (revoke_session true session_id e).1.sessions ≡ lookup other e.sessions)
unfolding revoke_session
revoke_session-clears session_id e h = (
  ground (arith, lookup-delete session_id session_id e.sessions, bytes_eq_refl session_id),
  λ token c found.
      let theirs : Confirmation → Bool =
        λ (c : Confirmation). bytes_eq c.binding.session_id session_id in
      ground (
        arith,
        lookup-delete_if_kept theirs token e.confirmations c,
        bytes_eq_iff c.binding.session_id session_id,
      ),
  λ other ne.
      ground (arith, lookup-delete session_id other e.sessions, bytes_eq_iff session_id other),
)
