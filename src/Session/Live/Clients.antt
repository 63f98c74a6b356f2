-- ===== src/Session/Live/Clients.antt =====
-- The client counts of a session's record.
use Prim.Native.String.{String}
use falkn.Base.{
  ℕ, ◌≡◌, refl, false, List, [], ◌∷◌, Option, none, some, length, arith, if◌then◌else◌, ◌&&◌, ◌==◌,
  Bool-cases, inl, inr,
}
use falkn.Base.Int.{ℤ, pos}
use falkn.Base.Text.{Text}
use falkn.Agent.State.{Tables}
use falkn.Session.Subscriber.{OutputSubscriber}
use falkn.Session.History.Journal.{Terminal}
use falkn.Session.Live.{
  LiveSession, update_notification_suppression, keep_enqueued, read_chunk, rendered_transcript,
  set_stopped_transcript, refresh_attention, exited, noted, end_session, is_running,
}

-- The clients that the record counts are those that are attached; the suppression marker of older
-- watchers counts at least one client for a muted session.
pub record Counts (s : LiveSession) : Type 0 where
  pub attached : s.session_record.attached_clients ≡ length s.subscribers
  pub focused : s.session_record.focused_clients ≡ (
      if s.session_record.notifications_muted && length s.subscribers == 0
      then 1
      else length s.subscribers)

pub update-Counts : (s : LiveSession) → Counts (update_notification_suppression s)
unfolding update_notification_suppression
update-Counts s = record { attached = refl; focused = refl }

keep_enqueued-length :
    (chunk : List ℕ) (qs : List (ℕ × OutputSubscriber))
    → (keep_enqueued chunk qs).1 ≡ false
    → length (keep_enqueued chunk qs).0 ≡ length qs
unfolding keep_enqueued
keep_enqueued-length chunk [] e = refl
keep_enqueued-length chunk ((id, q) ∷ rest) e = ground (arith, keep_enqueued-length chunk rest)

pub read_chunk-Counts :
    (chunk : List ℕ) (t : Option Terminal) (s : LiveSession)
    → Counts s
    → Counts (read_chunk chunk t s)
unfolding read_chunk
read_chunk-Counts chunk t s c = elim (Bool-cases (keep_enqueued chunk s.subscribers).1) [
  | inl changed ↦ rw changed (update-Counts _)
  | inr kept ↦
      let e = keep_enqueued-length chunk s.subscribers kept in
      rw kept (record { attached = rw e c.attached; focused = rw e c.focused })
]

-- A step that leaves the clients and the mute alone.
pub same_clients :
    {s u : LiveSession}
    → Counts s
    → u.subscribers ≡ s.subscribers
    → u.session_record.attached_clients ≡ s.session_record.attached_clients
    → u.session_record.focused_clients ≡ s.session_record.focused_clients
    → u.session_record.notifications_muted ≡ s.session_record.notifications_muted
    → Counts u
same_clients c q a f n = record {
  attached = rw (q, a) c.attached;
  focused = rw (q, f, n) c.focused;
}

pub rendered-Counts :
    (valid : Text → Text) (t : Option Terminal) (n : ℤ) (s : LiveSession)
    → Counts s
    → Counts (rendered_transcript valid s t n).1
unfolding rendered_transcript
rendered-Counts valid none n s c = c
rendered-Counts valid (some t) n s c = same_clients c refl refl refl refl

pub refresh_attention-Counts :
    (tables : Tables) (valid : Text → Text) (t : Option Terminal) (s : LiveSession)
    → Counts s
    → Counts (refresh_attention tables valid t s)
unfolding refresh_attention rendered_transcript
refresh_attention-Counts tables valid none s c =
    elim (Bool-cases (s.attention_valid && s.attention_sequence == s.output_sequence)) [
      | inl f ↦ rw f (same_clients c refl refl refl refl)
      | inr f ↦ rw f (same_clients c refl refl refl refl)
    ]
refresh_attention-Counts tables valid (some t) s c =
    elim (Bool-cases (s.attention_valid && s.attention_sequence == s.output_sequence)) [
      | inl f ↦ rw f (same_clients c refl refl refl refl)
      | inr f ↦ rw f (same_clients c refl refl refl refl)
    ]

noted-Counts :
    (exit_note : Option (List ℕ)) (s : LiveSession) → Counts s → Counts (noted exit_note s)
unfolding noted
noted-Counts none s c = c
noted-Counts (some bytes) s c = same_clients c refl refl refl refl

pub set_stopped_transcript-Counts :
    (status : String) (text : Text) (s : LiveSession)
    → Counts s
    → Counts (set_stopped_transcript status text s)
unfolding set_stopped_transcript
set_stopped_transcript-Counts status text s c = same_clients c refl refl refl refl

end_session-Counts :
    (valid : Text → Text) (t : Option Terminal) (s : LiveSession)
    → Counts s
    → Counts (end_session valid t s)
unfolding end_session
end_session-Counts valid t s c = elim (Bool-cases (is_running s)) [
  | inl r ↦
      rw r (set_stopped_transcript-Counts "ended" _ _ (rendered-Counts valid t (pos 2000) s c))
  | inr r ↦ rw r c
]

pub exited-Counts :
    (valid : Text → Text) (exit_note : Option (List ℕ)) (t : Option Terminal) (s : LiveSession)
    → Counts s
    → Counts (exited valid exit_note t s)
unfolding exited
exited-Counts valid exit_note t s c =
    end_session-Counts valid t (noted exit_note s) (noted-Counts exit_note s c)
