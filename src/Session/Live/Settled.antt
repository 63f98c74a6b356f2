-- ===== src/Session/Live/Settled.antt =====
-- The invariant of one session in the map, and the steps that keep it.
use Prim.Native.String.{String}
use falkn.Base.{
  ℕ, ◌≡◌, refl, sym, ◌∙◌, Bool, true, false, List, Option, none, some, Bool-cases, inl, inr,
}
use falkn.Base.Int.{ℤ, pos}
use falkn.Base.Text.{Text, string_eq}
use falkn.Session.History.Journal.{Terminal}
use falkn.Session.Live.{
  LiveSession, is_running, update_notification_suppression, set_muted, add_subscriber, detach,
  close_subscribers, keep_enqueued, read_chunk, rendered_transcript, set_archived, set_title,
  set_stopped_transcript, exited, noted, end_session,
}
use falkn.Session.Live.Clients.{Counts, same_clients, update-Counts, read_chunk-Counts}

pub record Settled (id : String) (s : LiveSession) : Type 0 where
  pub named : s.session_record.id ≡ id
  pub clients : Counts s
  pub at_rest : s.session_record.archived ≡ true → is_running s ≡ false

-- A step that keeps the identifier, the archive flag and the status.
pub same_status :
    {id : String} {s u : LiveSession}
    → Settled id s
    → Counts u
    → u.session_record.id ≡ s.session_record.id
    → u.session_record.archived ≡ s.session_record.archived
    → u.session_record.status ≡ s.session_record.status
    → Settled id u
same_status v c i a t = record {
  named = i ∙ v.named;
  clients = c;
  at_rest = λ h. rw t (v.at_rest (sym a ∙ h));
}

module _ (id : String) (s : LiveSession) (v : Settled id s) where
  pub rendered-Settled :
      (valid : Text → Text) (t : Option Terminal) (n : ℤ)
      → Settled id (rendered_transcript valid s t n).1
  unfolding rendered_transcript
  rendered-Settled valid none n = v
  rendered-Settled valid (some t) n =
      same_status v (same_clients v.clients refl refl refl refl) refl refl refl

  pub stopped-Settled : (text : Text) → Settled id (set_stopped_transcript "stopped" text s)
  unfolding set_stopped_transcript
  stopped-Settled text = record {
    named = v.named;
    clients = same_clients v.clients refl refl refl refl;
    at_rest = λ h. refl;
  }

  pub archived-Settled : is_running s ≡ false → Settled id (set_archived true s)
  unfolding set_archived
  archived-Settled r = record {
    named = v.named;
    clients = same_clients v.clients refl refl refl refl;
    at_rest = λ h. r;
  }

  pub unarchived-Settled : Settled id (set_archived false s)
  unfolding set_archived
  unarchived-Settled = record {
    named = v.named;
    clients = same_clients v.clients refl refl refl refl;
    at_rest = λ h. cc;
  }

  pub set_title-Settled : (title : Text) → Settled id (set_title title s)
  unfolding set_title
  set_title-Settled title =
      same_status v (same_clients v.clients refl refl refl refl) refl refl refl

  pub set_muted-Settled : (muted : Bool) → Settled id (set_muted muted s)
  unfolding set_muted
  set_muted-Settled muted =
      same_status v (update-Counts _) (unfold update_notification_suppression in refl)
        (unfold update_notification_suppression in refl)
        (unfold update_notification_suppression in refl)

  pub add_subscriber-Settled : Settled id (add_subscriber s).2
  unfolding add_subscriber
  add_subscriber-Settled =
      same_status v (update-Counts _) (unfold update_notification_suppression in refl)
        (unfold update_notification_suppression in refl)
        (unfold update_notification_suppression in refl)

  pub detach-Settled : (number : ℕ) → Settled id (detach number s)
  unfolding detach
  detach-Settled number =
      same_status v (update-Counts _) (unfold update_notification_suppression in refl)
        (unfold update_notification_suppression in refl)
        (unfold update_notification_suppression in refl)

  pub close_subscribers-Settled : Settled id (close_subscribers s)
  unfolding close_subscribers
  close_subscribers-Settled =
      same_status v (update-Counts _) (unfold update_notification_suppression in refl)
        (unfold update_notification_suppression in refl)
        (unfold update_notification_suppression in refl)

  pub read_chunk-Settled :
      (chunk : List ℕ) (t : Option Terminal) → Settled id (read_chunk chunk t s)
  read_chunk-Settled chunk t =
      let c = read_chunk-Counts chunk t s v.clients in
      elim (Bool-cases (keep_enqueued chunk s.subscribers).1) [
        | inl changed ↦
            same_status v c (unfold read_chunk update_notification_suppression in rw changed refl)
              (unfold read_chunk update_notification_suppression in rw changed refl)
              (unfold read_chunk update_notification_suppression in rw changed refl)
        | inr kept ↦
            same_status v c (unfold read_chunk in rw kept refl) (unfold read_chunk in rw kept refl)
              (unfold read_chunk in rw kept refl)
      ]

  pub noted-Settled : (exit_note : Option (List ℕ)) → Settled id (noted exit_note s)
  unfolding noted
  noted-Settled none = v
  noted-Settled (some bytes) =
      same_status v (same_clients v.clients refl refl refl refl) refl refl refl

  ended-Settled : (text : Text) → Settled id (set_stopped_transcript "ended" text s)
  unfolding set_stopped_transcript
  ended-Settled text = record {
    named = v.named;
    clients = same_clients v.clients refl refl refl refl;
    at_rest = λ h. refl;
  }

end_session-Settled :
    (id : String) (s : LiveSession) (v : Settled id s) (valid : Text → Text) (t : Option Terminal)
    → Settled id (end_session valid t s)
unfolding end_session
end_session-Settled id s v valid t = elim (Bool-cases (is_running s)) [
  | inl r ↦ rw r (ended-Settled id _ (rendered-Settled id s v valid t (pos 2000)) _)
  | inr r ↦ rw r v
]

pub exited-Settled :
    (id : String) (s : LiveSession) (v : Settled id s) (valid : Text → Text)
    (exit_note : Option (List ℕ)) (t : Option Terminal)
    → Settled id (exited valid exit_note t s)
unfolding exited
exited-Settled id s v valid exit_note t =
    end_session-Settled id (noted exit_note s) (noted-Settled id s v exit_note) valid t
