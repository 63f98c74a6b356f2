-- ===== src/Session/Manager/Invariant/Steps.antt =====
-- Each call of the manager keeps the invariant.
use Prim.Native.String.{String}
use falkn.Base.{
  ℕ, ◌≡◌, refl, Bool, true, false, not, List, [], ◌∷◌, Option, none, some, if◌then◌else◌, length,
  ltb, same, nat_eq, list_eq, Bool-cases, Option-cases, inl, inr,
}
use falkn.Base.Assoc.{lookup, Entries-remove, Entries-adjust_found}
use falkn.Base.Int.{ℤ, pos}
use falkn.Base.Text.{Text, string_eq, is_empty, trim_space}
use falkn.Session.Live.{LiveSession, is_running, set_archived}
use falkn.Session.Live.Foreground.{foreground-Settled}
use falkn.Session.Live.Clients.{same_clients}
use falkn.Session.Live.Settled.{
  Settled, same_status, rendered-Settled, stopped-Settled, archived-Settled, unarchived-Settled,
  set_title-Settled, set_muted-Settled, add_subscriber-Settled, detach-Settled,
  close_subscribers-Settled, read_chunk-Settled, exited-Settled, noted-Settled,
}
use falkn.Session.Manager.{
  Manager, World, stop_first, title_required, title_too_long, empty_input, input_too_long, Result,
  ok, err, ◌>>◌, pure, ensure, find, update,
}
use falkn.Session.Manager.Disk.{persist}
use falkn.Session.Manager.Calls.{
  output_ends, terminal_reply, stop_running, stop, forget, delete, archive, restore, checked_title,
  undo_title, rename, set_notifications_muted, write_pty, pasted, send, stopped_in, send_sequence,
  send_key, write_raw, write_raw_bytes, resize, attach, detach_client, output, ignored,
  wait_for_exit, transcript, key_table, max_input_bytes,
}
use falkn.Session.Manager.Invariant.{
  Inv, Keeps, bind-Keeps, pure-Keeps, fail-Keeps, ensure-Keeps, find-Keeps, running-Keeps,
  update-Keeps, if-Keeps,
}
use falkn.Session.Manager.Invariant.Storage.{persist-Keeps}

module _ (w : World) (id : String) where
  stop_running-Keeps : (s : LiveSession) → Keeps (stop_running w id s)
  unfolding stop_running
  stop_running-Keeps s =
      bind-Keeps
        (update-Keeps id _ (λ j x v. rendered-Settled j x v w.valid (w.screen id) (pos 2000)))
        (λ a. bind-Keeps (ensure-Keeps _ _) (λ b.
          bind-Keeps (update-Keeps id _ (λ j x v. stopped-Settled j x v _)) (λ c. persist-Keeps w)))

  pub stop-Keeps : Keeps (stop w id)
  unfolding stop
  stop-Keeps = bind-Keeps (find-Keeps id) (λ s. if-Keeps _ (stop_running-Keeps s) (pure-Keeps tt))

  forget-Keeps : Keeps (forget id)
  unfolding forget Inv
  forget-Keeps = record { kept = λ m v. Entries-remove Settled id m.sessions v }

  pub delete-Keeps : Keeps (delete w id)
  unfolding delete
  delete-Keeps = bind-Keeps (find-Keeps id) (λ s.
      bind-Keeps (if-Keeps _ stop-Keeps (pure-Keeps tt))
        (λ a. bind-Keeps forget-Keeps (λ b. persist-Keeps (stopped_in w (is_running s)))))

  archive_found :
      (s : LiveSession) (m : Manager)
      → lookup id m.sessions ≡ some s
      → Inv m
      → Inv
          ((ensure (not (is_running s)) stop_first >> (update id (set_archived true) >> persist w))
            m).1
  unfolding update Inv
  archive_found s m q v = elim (Bool-cases (is_running s)) [
    | inl r ↦ rw r v
    | inr r ↦ rw r (
        (persist-Keeps w).kept _
          (Entries-adjust_found Settled id _ m.sessions (λ x p h. archived-Settled id x h cc) v))
  ]

  pub archive-Keeps : Keeps (archive w id)
  unfolding archive find
  archive-Keeps = record {
    kept = λ m v. elim (Option-cases (lookup id m.sessions)) [
      | inl q ↦ rw q v
      | inr (s, q) ↦ rw q (archive_found s m q v)
    ];
  }

  pub restore-Keeps : Keeps (restore w id)
  unfolding restore
  restore-Keeps = bind-Keeps (find-Keeps id) (λ s.
      bind-Keeps (update-Keeps id _ (λ j x v. unarchived-Settled j x v)) (λ a. persist-Keeps w))

pub checked_title-Keeps : (title : Text) → Keeps (checked_title title)
unfolding checked_title
checked_title-Keeps title =
    bind-Keeps (ensure-Keeps (not (is_empty (trim_space title))) title_required) (λ a.
      bind-Keeps (ensure-Keeps (not (ltb 200 (length (trim_space title)))) title_too_long)
        (λ b. pure-Keeps (trim_space title)))

module _ (w : World) (id : String) where
  undo_title-Inv :
      (title : Text) (r : Result (Unit {0}) × Manager) → Inv r.1 → Inv (undo_title id title r).1
  unfolding undo_title
  undo_title-Inv title (ok u, m) v = v
  undo_title-Inv title (err e, m) v =
      (update-Keeps id _ (λ j x h. set_title-Settled j x h title)).kept m v

  persist_title-Keeps :
      (title : Text) (b : Bool)
      → Keeps (if b then pure tt else (λ m. undo_title id title (persist w m)))
  persist_title-Keeps title true = pure-Keeps tt
  persist_title-Keeps title false = record {
    kept = λ m v. undo_title-Inv title (persist w m) ((persist-Keeps w).kept m v);
  }

  pub rename-Keeps : (title : Text) → Keeps (rename w id title)
  unfolding rename
  rename-Keeps title = bind-Keeps (checked_title-Keeps title) (λ t. bind-Keeps (find-Keeps id) (λ s.
      bind-Keeps (update-Keeps id _ (λ j x v. set_title-Settled j x v t))
        (λ a. persist_title-Keeps s.session_record.title (same s.session_record.title t))))

  pub set_notifications_muted-Keeps : (muted : Bool) → Keeps (set_notifications_muted w id muted)
  unfolding set_notifications_muted
  set_notifications_muted-Keeps muted = bind-Keeps (find-Keeps id) (λ s.
      bind-Keeps (update-Keeps id _ (λ j x v. set_muted-Settled j x v muted))
        (λ a. if-Keeps _ (pure-Keeps tt) (persist-Keeps w)))

  write_pty-Keeps : (b : Bool) (bytes : List ℕ) → Keeps (write_pty b id bytes)
  unfolding write_pty
  write_pty-Keeps b bytes = bind-Keeps (ensure-Keeps _ _) (λ a.
      update-Keeps id _
        (λ j x v. same_status v (same_clients v.clients refl refl refl refl) refl refl refl))

  pub send-Keeps : (text : List ℕ) → Keeps (send w id text)
  unfolding send
  send-Keeps text = bind-Keeps (ensure-Keeps (not (is_empty text)) empty_input) (λ a.
      bind-Keeps (ensure-Keeps (not (ltb max_input_bytes (length text))) input_too_long) (λ b.
        bind-Keeps (running-Keeps id) (λ s.
          bind-Keeps (write_pty-Keeps w.accepts_input (pasted text))
            (λ c. write_pty-Keeps w.accepts_return (b'\r' ∷ [])))))

  send_sequence-Keeps : (sequence : Option (List ℕ)) → Keeps (send_sequence w id sequence)
  unfolding send_sequence
  send_sequence-Keeps none = fail-Keeps _
  send_sequence-Keeps (some sequence) =
      bind-Keeps (running-Keeps id) (λ s. write_pty-Keeps w.accepts_input sequence)

  pub send_key-Keeps : (key : String) → Keeps (send_key w id key)
  unfolding send_key
  send_key-Keeps key = send_sequence-Keeps (lookup key key_table)

  write_raw-Keeps : (bytes : List ℕ) → Keeps (write_raw w id bytes)
  unfolding write_raw
  write_raw-Keeps bytes =
      bind-Keeps (ensure-Keeps _ _)
        (λ a. bind-Keeps (running-Keeps id) (λ s. write_pty-Keeps w.accepts_input bytes))

  pub write_raw_bytes-Keeps : (bytes : List ℕ) → Keeps (write_raw_bytes w id bytes)
  unfolding write_raw_bytes
  write_raw_bytes-Keeps [] = pure-Keeps tt
  write_raw_bytes-Keeps (b ∷ bs) = write_raw-Keeps (b ∷ bs)

  pub resize-Keeps : (columns rows : ℤ) → Keeps (resize w id columns rows)
  unfolding resize
  resize-Keeps columns rows = bind-Keeps (running-Keeps id) (λ s.
      bind-Keeps (ensure-Keeps _ _) (λ a.
        update-Keeps id _
          (λ j x v. same_status v (same_clients v.clients refl refl refl refl) refl refl refl)))

  pub attach-Keeps : (columns rows : ℤ) → Keeps (attach w id columns rows)
  unfolding attach
  attach-Keeps columns rows = bind-Keeps (running-Keeps id) (λ s.
      bind-Keeps (if-Keeps _ (resize-Keeps columns rows) (pure-Keeps tt)) (λ a.
        bind-Keeps (find-Keeps id) (λ x.
          bind-Keeps (update-Keeps id _ (λ j y v. add_subscriber-Settled j y v))
            (λ b. pure-Keeps _))))

  pub detach_client-Keeps : (number : ℕ) → Keeps (detach_client id number)
  unfolding detach_client
  detach_client-Keeps number = update-Keeps id _ (λ j x v. detach-Settled j x v number)

  pub output-Keeps : (chunk : List ℕ) → Keeps (output w id chunk)
  unfolding output
  output-Keeps chunk = update-Keeps id _ (λ j x v. read_chunk-Settled j x v chunk (w.screen id))

  ignored-Inv : (r : Result (Unit {0}) × Manager) → Inv r.1 → Inv (ignored r).1
  unfolding ignored
  ignored-Inv (r, m) v = v

  persist_if-Keeps : (b : Bool) → Keeps (if b then (λ m. ignored (persist w m)) else pure tt)
  persist_if-Keeps true = record {
    kept = λ m v. ignored-Inv (persist w m) ((persist-Keeps w).kept m v);
  }
  persist_if-Keeps false = pure-Keeps tt

  pub wait_for_exit-Keeps : (exit_note : Option (List ℕ)) → Keeps (wait_for_exit w id exit_note)
  unfolding wait_for_exit
  wait_for_exit-Keeps exit_note = bind-Keeps (find-Keeps id) (λ s.
      bind-Keeps (update-Keeps id _ (λ j x v. exited-Settled j x v w.valid exit_note (w.screen id)))
        (λ a.
          bind-Keeps (persist_if-Keeps (is_running s))
            (λ b. update-Keeps id _ (λ j x v. close_subscribers-Settled j x v))))

  pub output_ends-Keeps : (line : Option (List ℕ)) → Keeps (output_ends id line)
  unfolding output_ends
  output_ends-Keeps line = update-Keeps id _ (λ j x v. noted-Settled j x v line)

  pub terminal_reply-Keeps : (bytes : List ℕ) → Keeps (terminal_reply w id bytes)
  unfolding terminal_reply
  terminal_reply-Keeps bytes = record {
    kept = λ m v.
        ignored-Inv (write_pty w.accepts_input id bytes m)
          ((write_pty-Keeps w.accepts_input bytes).kept m v);
  }

  pub transcript-Keeps : (n : ℤ) → Keeps (transcript w id n)
  unfolding transcript
  transcript-Keeps n = bind-Keeps (find-Keeps id) (λ _s.
      bind-Keeps
        (update-Keeps id _ (λ j x v. foreground-Settled j x v (w.foreground id) (w.shell_name id)))
        (λ a. bind-Keeps (find-Keeps id) (λ s.
          bind-Keeps (update-Keeps id _ (λ j x v. rendered-Settled j x v w.valid (w.screen id) n))
            (λ b. pure-Keeps _))))
