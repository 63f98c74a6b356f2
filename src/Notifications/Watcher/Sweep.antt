-- ===== src/Notifications/Watcher/Sweep.antt =====
-- The states that a poll leaves.
use Prim.Native.String.{String}
use falkn.Base.{
  ◌≡◌, refl, List, [], ◌∷◌, none, if◌then◌else◌, same, same_iff, Bool-cases, inl, inr, ap,
}
use falkn.Base.Assoc.{lookup}
use falkn.Base.Text.{string_eq}
use falkn.Notifications.Watcher.{
  SessionState, Sight, Setting, Polled, listed, prune_states, poll_sessions, poll,
}

pruned_lookup :
    (sights : List Sight) (id : String) (states : List (String × SessionState))
    → lookup id (prune_states sights states) ≡ (if listed sights id then lookup id states else none)
unfolding prune_states lookup
pruned_lookup sights id [] = elim (Bool-cases (listed sights id)) [
  | inl l ↦ rw l refl
  | inr l ↦ rw l refl
]
pruned_lookup sights id ((j, s) ∷ rest) = elim (Bool-cases (same j id)) [
  | inr d ↦ elim (Bool-cases (listed sights j)) [
    | inl l ↦ rw (l, d) (pruned_lookup sights id rest)
    | inr l ↦ rw (l, d) (pruned_lookup sights id rest)
  ]
  | inl e ↦
      let same_listed : listed sights j ≡ listed sights id =
        ap (listed sights) ((same_iff j id).0 e) in
      elim (Bool-cases (listed sights id)) [
        | inl l ↦ rw (same_listed, l, e) refl
        | inr l ↦ rw (same_listed, l, pruned_lookup sights id rest, l) refl
      ]
]

-- After a poll, a session that the daemon lists has the state that the loop gave it, and any other
-- has none.
pub lookup-poll :
    (set : Setting) (sights : List Sight) (p : Polled) (id : String)
    → lookup id (poll set sights p).states
      ≡ (if listed sights id then lookup id (poll_sessions set sights p).states else none)
unfolding poll
lookup-poll set sights p id = pruned_lookup sights id (poll_sessions set sights p).states
