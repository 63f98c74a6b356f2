-- ===== src/Server/Requests/Effects.antt =====
-- What a request does to the sessions: what a call of the manager does, or nothing.
use Prim.Native.String.{String}
use falkn.Base.{
  ◌≡◌, ◌⊎◌, refl, ap, ◌∙◌, inl, inr, not, List, [], ◌∷◌, Option, none, some, if_cases, same, sym,
  subst,
}
use falkn.Base.Int.{pos, int_eq}
use falkn.Base.Text.{string_eq}
use falkn.Session.Live.{SessionRecord}
use falkn.Session.Manager.{Manager, World, Result, ok, err, M}
use falkn.Session.Manager.Listing.{running_sessions}
use falkn.Session.Manager.Invariant.{Inv}
use falkn.Session.Manager.Invariant.Every
use falkn.Session.Manager.Invariant.Every.{
  Call, perform, perform_all, unanswered, unanswered-manager,
}
use falkn.Server.Requests
use falkn.Server.Requests.{
  Request, Response, Outcome, Reply, Host, Decoders, Method, Handler, answered, decoded,
  with_params, perform_method, perform_known, dispatch, respond, responded, method_of,
  shutdown_answer, shutdown,
}

-- The manager that a handler leaves is the one that it got, or the one after one call.
record Moves (w : World) (h : Handler) : Type 0 where
  moves : (m : Manager) → ((h m).1 ≡ m) ⊎ ((c : Call) × ((h m).1 ≡ (perform w c m).1))

answered-manager :
    {A : Type 0} (host : Host) (f : A → Reply) (r : Result A × Manager)
    → (answered host f r).1 ≡ r.1
answered-manager host f (ok a, m) = refl
answered-manager host f (err e, m) = refl

-- A call of the manager whose answer is dropped by `perform`, and one that has none.
call-Moves :
    {A : Type 0} (w : World) (host : Host) (f : A → Reply) (x : M A) (c : Call)
    → perform w c ≡ unanswered x
    → Moves w (λ m. answered host f (x m))
call-Moves w host f x c e = record {
  moves = λ m. inr (
    c,
    answered-manager host f (x m)
        ∙ sym (unanswered-manager x m)
        ∙ ap (λ (g : M (Unit {0})). (g m).1) (sym e),
  );
}

unit_call-Moves :
    (w : World) (host : Host) (f : Unit {0} → Reply) (x : M (Unit {0})) (c : Call)
    → perform w c ≡ x
    → Moves w (λ m. answered host f (x m))
unit_call-Moves w host f x c e = record {
  moves = λ m. inr (c, answered-manager host f (x m) ∙ ap (λ (g : M (Unit {0})). (g m).1) (sym e));
}

replies-Moves : (w : World) (o : Outcome) → Moves w (λ m. (o, m))
replies-Moves w o = record { moves = λ m. inl refl }

decoded-Moves :
    {P : Type 0} (w : World) (o : Option P) (k : P → Handler)
    → ((p : P) → Moves w (k p))
    → Moves w (decoded o k)
decoded-Moves w none k h = replies-Moves w _
decoded-Moves w (some p) k h = h p

with_params-Moves :
    {J P : Type 0} (w : World) (decode : J → Option P) (params : Option J) (k : P → Handler)
    → ((p : P) → Moves w (k p))
    → Moves w (with_params decode params k)
with_params-Moves w decode none k h = replies-Moves w _
with_params-Moves w decode (some j) k h = decoded-Moves w (decode j) k h

shutdown_answer-manager :
    (host : Host) (r : Result (List SessionRecord) × Manager) → (shutdown_answer host r).1 ≡ r.1
shutdown_answer-manager host (ok rs, m) = refl
shutdown_answer-manager host (err e, m) = refl

shutdown-Moves :
    (w : World) (host : Host) (x : M (List SessionRecord)) (c : Call)
    → perform w c ≡ unanswered x
    → Moves w (shutdown host x)
shutdown-Moves w host x c e = record {
  moves = λ m. inr (
    c,
    shutdown_answer-manager host (x m)
        ∙ sym (unanswered-manager x m)
        ∙ ap (λ (g : M (Unit {0})). (g m).1) (sym e),
  );
}

module _ {J : Type 0} (decode : Decoders J) (host : Host) (w : World) where
  perform_method-Moves :
      (k : Method) (params : Option J) → Moves w (perform_method decode host w k params)
  unfolding perform_method perform
  perform_method-Moves Requests.preflight params = replies-Moves w _
  perform_method-Moves Requests.daemon_shutdown params =
      shutdown-Moves w host (running_sessions w host.tables) (Every.list_running host.tables) refl
  perform_method-Moves Requests.list_sessions params =
      call-Moves w host _ _ (Every.list_all host.tables) refl
  perform_method-Moves Requests.directories_list params =
      with_params-Moves w _ params _ (λ p. replies-Moves w _)
  perform_method-Moves Requests.create_agent params =
      with_params-Moves w _ params _
        (λ p. call-Moves w host _ _ (Every.create_agent host.machine host.agents p) refl)
  perform_method-Moves Requests.shell_create params =
      with_params-Moves w _ params _
        (λ p. call-Moves w host _ _ (Every.create_terminal host.machine p) refl)
  perform_method-Moves Requests.transcript_of params =
      with_params-Moves w _ params _
        (λ p. call-Moves w host _ _ (Every.read_transcript p.session_id p.history_lines) refl)
  perform_method-Moves Requests.resize_to params =
      with_params-Moves w _ params _
        (λ p. unit_call-Moves w host _ _ (Every.resize_terminal p.session_id p.columns p.rows) refl)
  perform_method-Moves Requests.send_text params =
      with_params-Moves w _ params _
        (λ p. unit_call-Moves w host _ _ (Every.send_text p.session_id p.text) refl)
  perform_method-Moves Requests.press params =
      with_params-Moves w _ params _
        (λ p. unit_call-Moves w host _ _ (Every.press_key p.session_id p.key) refl)
  perform_method-Moves Requests.stop_session params =
      with_params-Moves w _ params _
        (λ p. unit_call-Moves w host _ _ (Every.stop_session p.session_id) refl)
  perform_method-Moves Requests.delete_session params =
      with_params-Moves w _ params _
        (λ p. unit_call-Moves w host _ _ (Every.delete_session p.session_id) refl)
  perform_method-Moves Requests.archive_session params =
      with_params-Moves w _ params _
        (λ p. unit_call-Moves w host _ _ (Every.archive_session p.session_id) refl)
  perform_method-Moves Requests.restore_session params =
      with_params-Moves w _ params _
        (λ p. unit_call-Moves w host _ _ (Every.restore_session p.session_id) refl)
  perform_method-Moves Requests.rename_session params =
      with_params-Moves w _ params _
        (λ p. unit_call-Moves w host _ _ (Every.rename_session p.session_id p.title) refl)

  perform_known-Moves :
      (name : String) (k : Option Method) (params : Option J)
      → Moves w (perform_known decode host w name k params)
  perform_known-Moves name none params = replies-Moves w _
  perform_known-Moves name (some k) params = perform_method-Moves k params

  Known : Manager → Manager → Type 0
  Known m n = (n ≡ m) ⊎ ((c : Call) × (n ≡ (perform w c m).1))

  responded-Known :
      (id : String) (m : Manager) (r : Outcome × Manager)
      → Known m r.1
      → Known m (responded decode host w id r).1
  responded-Known id m (o, n) h = h

  -- One request is one call of the manager or none.
  dispatch-Known :
      (request : Request J) (m : Manager) → Known m (dispatch decode host w request m).1
  unfolding dispatch Known
  dispatch-Known request m =
      let P = λ (r : Response × Manager). Known m r.1 in
      let known =
        perform_known decode host w request.method (method_of request.method) request.params in
      let one = perform_known-Moves request.method (method_of request.method) request.params in
      if_cases P (not (same request.version (pos 1))) _ _ (λ _. inl refl)
        (λ _.
          if_cases P (same request.request_id "") _ _ (λ _. inl refl)
            (λ _. responded-Known request.request_id m (known m) (one.moves m)))

module _ {J : Type 0} (decode : Decoders J) where
  -- The requests in turn, each in the host and the world that it meets.
  unfoldable pub dispatch_all : List (Host × World × Request J) → Manager → Manager
  dispatch_all [] m = m
  dispatch_all ((host, w, request) ∷ rest) m =
      dispatch_all rest (dispatch decode host w request m).1

  -- Whatever requests reach the daemon, whatever their versions, methods and parameters: what becomes
  -- of the sessions and of the state file is what some sequence of the manager's calls does, so that
  -- every session stands under its own identifier with a record that counts its clients.
  pub dispatch_all-Calls :
      (requests : List (Host × World × Request J)) (m : Manager)
      → Inv m
      → ((calls : List (World × Call)) × (dispatch_all requests m ≡ perform_all calls m))
        × Inv (dispatch_all requests m)
  unfolding dispatch_all perform_all Known
  dispatch_all-Calls [] m v = (([], refl), v)
  dispatch_all-Calls ((host, w, request) ∷ rest) m v =
      elim (dispatch-Known decode host w request m) [
        | inl e ↦
            let v' = subst Inv (sym e) v in
            let ((calls, q), u) = dispatch_all-Calls rest _ v' in
            ((calls, q ∙ ap (perform_all calls) e), u)
        | inr (c, e) ↦
            let v' = subst Inv (sym e) ((Every.perform-Keeps w c).kept m v) in
            let ((calls, q), u) = dispatch_all-Calls rest _ v' in
            (((w, c) ∷ calls, q ∙ ap (perform_all calls) e), u)
      ]
