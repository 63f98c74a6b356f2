-- ===== src/Server/Requests/Answers.antt =====
-- What the daemon answers.
use Prim.Native.String.{String}
use falkn.Base.{
  ◌≡◌, ◌≢◌, ◌↔◌, refl, ap, ◌∙◌, false, not, List, [], ◌∷◌, Option, some, Bool-cases, inl, inr, sym,
  same, same_iff,
}
use falkn.Base.Int.{pos, int_eq}
use falkn.Base.Text.{string_eq}
use falkn.Session.Live.{SessionRecord}
use falkn.Session.Manager.{Manager, World, Result, ok, err}
use falkn.Session.Manager.Listing.{running_sessions}
use falkn.Session.Manager.Effects.Listed.{NoneRunning, running_sessions-NoneRunning}
use falkn.Server.Requests.{
  Request, Response, Outcome, success, failure, accepted, Host, Decoders, dispatch, respond,
  responded, method_of, perform_method, perform_known, shutdown, shutdown_answer, shutdown_outcome,
}
use falkn.Server.Requests

module _ {J : Type 0} (decode : Decoders J) (host : Host) (w : World) where
  shutdown_outcome_iff :
      (rs : List SessionRecord) → (shutdown_outcome host rs ≡ success accepted) ↔ (rs ≡ [])
  unfolding shutdown_outcome
  shutdown_outcome_iff [] = (λ h. refl, λ h. refl)
  shutdown_outcome_iff (r ∷ rs) = (λ h. cc, λ h. cc)

  shutdown_answer_ok :
      (r : Result (List SessionRecord) × Manager) (rs : List SessionRecord)
      → r.0 ≡ ok rs
      → (shutdown_answer host r).0 ≡ shutdown_outcome host rs
  shutdown_answer_ok (ok qs, m) rs e = cc
  shutdown_answer_ok (err x, m) rs e = cc

  responded-outcome :
      (id : String) (r : Outcome × Manager) → (responded decode host w id r).0 ≡ respond id r.0
  responded-outcome id (o, m) = refl

  -- A request of the daemon's version that has an identifier.
  pub record IsValid (request : Request J) : Type 0 where
    pub version : request.version ≡ pos 1
    pub identified : request.request_id ≢ ""

  pub dispatch-perform :
      (request : Request J) (m : Manager)
      → IsValid request
      → dispatch decode host w request m
        ≡ responded decode host w request.request_id
            (perform_known decode host w request.method (method_of request.method) request.params m)
  unfolding dispatch
  dispatch-perform request m v =
      let same_version : not (same request.version (pos 1)) ≡ false =
        ap not ((same_iff request.version (pos 1)).1 v.version) in
      elim (Bool-cases (same request.request_id "")) [
        | inl e ↦ absurd (v.identified ((same_iff request.request_id "").0 e))
        | inr e ↦ rw (same_version, e) refl
      ]

  shutdown_method : method_of "daemon.shutdown" ≡ some Requests.daemon_shutdown
  unfolding method_of
  shutdown_method = refl

  perform_shutdown :
      (name : String) (params : Option J) (m : Manager)
      → (perform_known decode host w name (some Requests.daemon_shutdown) params m).0
        ≡ (shutdown_answer host (running_sessions w host.tables m)).0
  unfolding perform_method
  perform_shutdown name params m = refl

  -- The daemon accepts a valid request to shut down exactly when none of its sessions is running.
  pub dispatch_shutdown :
      (request : Request J) (m : Manager)
      → IsValid request
      → request.method ≡ "daemon.shutdown"
      → ((dispatch decode host w request m).0 ≡ respond request.request_id (success accepted))
        ↔ NoneRunning m.sessions
  dispatch_shutdown request m v named =
      let name = request.method in
      let (rs, answers, none_running) = running_sessions-NoneRunning w host.tables m in
      let steps : (dispatch decode host w request m).0
          ≡ respond request.request_id (shutdown_outcome host rs) =
        ap (λ (r : Response × Manager). r.0) (dispatch-perform request m v)
        ∙ responded-outcome request.request_id
            (perform_known decode host w name (method_of name) request.params m)
        ∙ ap (respond request.request_id) (
            ap
              (λ (k : Option Requests.Method).
                (perform_known decode host w name k request.params m).0)
              (ap method_of named ∙ shutdown_method)
            ∙ perform_shutdown name request.params m
            ∙ shutdown_answer_ok _ rs answers) in
      let one = shutdown_outcome_iff rs in
      (
        λ h. none_running.0 (one.0 (ap (λ (r : Response). r.outcome) (sym steps ∙ h))),
        λ h. steps ∙ ap (respond request.request_id) (one.1 (none_running.1 h)),
      )
