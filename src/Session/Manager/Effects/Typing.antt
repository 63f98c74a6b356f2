-- ===== src/Session/Manager/Effects/Typing.antt =====
-- What Send writes, and when it writes only a part.
use Prim.Native.String.{String}
use falkn.Base.{
  ℕ, ◌≡◌, refl, sym, ap, subst, ◌∙◌, false, List, [], ◌∷◌, ◌++◌, Option, none, some, append-nil,
  append_assoc, Bool-cases, Option-cases, inl, inr, length, ltb,
}
use falkn.Base.Assoc.{lookup, adjust, map_some, lookup-adjust_self}
use falkn.Base.Text.{string_eq, is_empty}
use falkn.Session.Live.{LiveSession, is_running}
use falkn.Session.Manager.{
  Manager, World, Error, empty_input, input_too_long, session_not_found, session_not_running,
  write_failed, Result, ok, err, update, find, running,
}
use falkn.Session.Manager.Calls.{send, pasted, write_pty, max_input_bytes}
use falkn.Session.Manager.Effects.{typed_of, typed_in}

-- What Send may answer with what it has written: both writes and success; the text alone, when the
-- terminal does not take the return; or nothing and an error.
pub data Sends (w : World) (text : List ℕ) : Result (Unit {0}) → List (List ℕ) → Type 0 where
  both : Sends w text (ok tt) (pasted text ∷ (b'\r' ∷ []) ∷ [])
  text_only : w.accepts_return ≡ false → Sends w text (err write_failed) (pasted text ∷ [])
  nothing : (e : Error) → Sends w text (err e) []

abbrev put : List ℕ → LiveSession → LiveSession
put bytes s = record s { typed = s.typed ++ bytes ∷ [] }

abbrev left : List (List ℕ) → String → Manager → Manager
left [] id m = m
left (t ∷ ts) id m = left ts id (record m { sessions = adjust id (put t) m.sessions })

send-outcome :
    (w : World) (id : String) (text : List ℕ) (m : Manager)
    → (r : Result (Unit {0})) × (sent : List (List ℕ)) × Sends w text r sent
      × (send w id text m ≡ (r, left sent id m))
unfolding send running find write_pty update
send-outcome w id text m = elim (Bool-cases (is_empty text)) [
  | inl e ↦ (_, _, nothing empty_input, rw e refl)
  | inr e ↦ elim (Bool-cases (ltb max_input_bytes (length text))) [
    | inl l ↦ (_, _, nothing input_too_long, rw (e, l) refl)
    | inr l ↦ elim (Option-cases (lookup id m.sessions)) [
      | inl q ↦ (_, _, nothing session_not_found, rw (e, l, q) refl)
      | inr (s, q) ↦ elim (Bool-cases (is_running s)) [
        | inr r ↦ (_, _, nothing session_not_running, rw (e, l, q, r) refl)
        | inl r ↦ elim (Bool-cases w.accepts_input) [
          | inr a ↦ (_, _, nothing write_failed, rw (e, l, q, r, a) refl)
          | inl a ↦ elim (Bool-cases w.accepts_return) [
            | inr b ↦ (_, _, text_only b, rw (e, l, q, r, a, b) refl)
            | inl b ↦ (_, _, both, rw (e, l, q, r, a, b) refl)
          ]
        ]
      ]
    ]
  ]
]

typed_append :
    (a : List (List ℕ)) (t : List ℕ) (o : Option LiveSession)
    → map_some (λ x. x ++ a) (typed_in (map_some (put t) o))
      ≡ map_some (λ x. x ++ (t ∷ a)) (typed_in o)
typed_append a t none = refl
typed_append a t (some s) = rw (append_assoc s.typed (t ∷ []) a) refl

typed_same : (o : Option (List (List ℕ))) → o ≡ map_some (λ t. t ++ []) o
typed_same none = refl
typed_same (some t) = rw (append-nil t) refl

left-typed_of :
    (sent : List (List ℕ)) (id : String) (m : Manager)
    → typed_of id (left sent id m) ≡ map_some (λ t. t ++ sent) (typed_of id m)
unfolding typed_of
left-typed_of [] id m = typed_same (typed_in (lookup id m.sessions))
left-typed_of (t ∷ ts) id m =
    left-typed_of ts id (record m { sessions = adjust id (put t) m.sessions })
    ∙ ap (λ o. map_some (λ x. x ++ ts) (typed_in o)) (lookup-adjust_self id (put t) m.sessions)
    ∙ typed_append ts t (lookup id m.sessions)

-- Send writes the pasted text and then a return to the session's terminal when it succeeds. When it
-- fails it has written nothing, save that it has written the text alone when the terminal does not
-- take the return.
pub send-typed_of :
    (w : World) (id : String) (text : List ℕ) (m : Manager)
    → (sent : List (List ℕ)) × Sends w text (send w id text m).0 sent
      × (typed_of id (send w id text m).1 ≡ map_some (λ t. t ++ sent) (typed_of id m))
send-typed_of w id text m =
    let (r, sent, h, q) = send-outcome w id text m in
    (
      sent,
      subst (λ (x : Result (Unit {0}) × Manager). Sends w text x.0 sent) (sym q) h,
      ap (λ (x : Result (Unit {0}) × Manager). typed_of id x.1) q ∙ left-typed_of sent id m,
    )
