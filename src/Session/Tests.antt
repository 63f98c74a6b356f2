-- ===== src/Session/Tests.antt =====
-- Tests of the session components, and each of their theorems at a concrete input.
use falkn.Base.{
  ℕ, ◌≡◌, ◌↔◌, ◌≢◌, refl, true, false, List, [], ◌∷◌, length, arith, nat_eq, list_eq, list_beq,
  ◌++◌, inl, min,
}
use falkn.Base.Int.{pos}
use falkn.Session.Ring.{new_byte_ring, write, write_all}
use falkn.Session.Ring.Suffix.{write_all-suffix}
use falkn.Session.Subscriber.{
  System, initial, enqueues, enqueue, new_output_subscriber, Reach, here, next, enqueued,
}
use falkn.Session.Subscriber.Order.{Inv, Reach-Inv}
use falkn.Session.Subscriber.Wake.{CanRun, Reach-CanRun}
use falkn.Session.History.Sequence.{contains_line_sequence, longest_suffix_prefix, matched}
use falkn.Session.History.Sequence.Laws.{IsRun, contains_line_sequence_iff}
use falkn.Session.History.Journal.{Journal, Line, Terminal, capture_lines, trim_empty_terminal_rows}
use falkn.Session.History.Journal.Capture.{known, departed, capture_lines_scrolled}
use falkn.Session.Transcript.{
  strip_terminal_controls, apply_backspaces, clean_transcript, split_lines, clean_text,
}
use falkn.Session.Transcript.Controls.{
  IsSequence, control_sequence, ShowsText, ended, kept, skipped, strip_terminal_controls-ShowsText,
}
use falkn.Session.Transcript.Lines.{split_lines-clean_transcript, stated}

-- The ring.

abbrev chunks : List (List ℕ)
chunks = (1 ∷ 2 ∷ 3 ∷ []) ∷ (4 ∷ 5 ∷ []) ∷ []

write_all-suffix_example : (write_all (new_byte_ring 4) chunks).bytes ≡ 2 ∷ 3 ∷ 4 ∷ 5 ∷ []
write_all-suffix_example = write_all-suffix 4 chunks

write_all_overflow : (write_all (new_byte_ring 4) chunks).bytes ≡ 2 ∷ 3 ∷ 4 ∷ 5 ∷ []
unfolding write_all new_byte_ring write
write_all_overflow = refl

-- The output queue.

abbrev one_queued : System
one_queued = enqueues initial (7 ∷ 8 ∷ [])

one_queued-Reach : Reach initial one_queued
one_queued-Reach = next here (enqueued (7 ∷ 8 ∷ []) refl)

Reach-Inv_example : Inv one_queued
Reach-Inv_example = Reach-Inv one_queued-Reach

one_queued_open : one_queued.subscriber.closed ≡ false
unfolding enqueues enqueue initial new_output_subscriber
one_queued_open = refl

one_queued_pending : one_queued.subscriber.queue ≢ []
unfolding enqueues enqueue initial new_output_subscriber
one_queued_pending e = cc

Reach-CanRun_example : CanRun one_queued
Reach-CanRun_example = Reach-CanRun one_queued-Reach one_queued_open one_queued_pending

-- The journal.

abbrev rows : List ℕ
rows = 1 ∷ 2 ∷ 3 ∷ 4 ∷ []

contains_line_sequence_iff_example :
    (contains_line_sequence rows (2 ∷ 3 ∷ []) ≡ true) ↔ IsRun (2 ∷ 3 ∷ []) rows
contains_line_sequence_iff_example = contains_line_sequence_iff rows (2 ∷ 3 ∷ [])

overlap_of_two : longest_suffix_prefix rows (3 ∷ 4 ∷ 5 ∷ []) ≡ 2
unfolding longest_suffix_prefix matched
overlap_of_two = refl

abbrev line : ℕ → Line
line n = n ∷ []

abbrev shown : Journal
shown = record { terminal_history = []; last_terminal_screen = line 1 ∷ line 2 ∷ line 3 ∷ [] }

abbrev scrolled : List Line
scrolled = line 2 ∷ line 3 ∷ line 4 ∷ []

abbrev alt_screen : Terminal
alt_screen = record { is_alt_buffer_active = true; alt_lines = scrolled; normal_lines = [] }

scrolled_not_known : contains_line_sequence (known shown) scrolled ≡ false
unfolding contains_line_sequence matched list_beq
scrolled_not_known = refl

scrolled_new : ¬ IsRun scrolled (known shown)
scrolled_new r = cc (scrolled_not_known, (contains_line_sequence_iff (known shown) scrolled).1 r)

scrolled_overlap : longest_suffix_prefix shown.last_terminal_screen scrolled ≡ 2
unfolding longest_suffix_prefix matched list_beq
scrolled_overlap = refl

-- Row 1 has left the screen, and stands in the journal.
capture_lines_scrolled_example :
    IsRun
      (departed shown (longest_suffix_prefix shown.last_terminal_screen scrolled))
      (capture_lines shown scrolled).terminal_history
    × ((capture_lines shown scrolled).last_terminal_screen ≡ scrolled)
capture_lines_scrolled_example =
    capture_lines_scrolled shown scrolled (omega arith) (omega arith) (λ e. cc) scrolled_new
      (omega (arith, scrolled_overlap))

trim_blank_rows :
    trim_empty_terminal_rows ([] ∷ line 1 ∷ [] ∷ line 2 ∷ [] ∷ [] ∷ []) ≡ line 1 ∷ [] ∷ line 2 ∷ []
unfolding trim_empty_terminal_rows
trim_blank_rows = refl

-- The transcript.

abbrev coloured : List ℕ
coloured = b'a' ∷ 0x1b ∷ b'[' ∷ b'3' ∷ b'1' ∷ b'm' ∷ b'b' ∷ []

strip_coloured : strip_terminal_controls coloured ≡ b'a' ∷ b'b' ∷ []
unfolding strip_terminal_controls
strip_coloured = refl

abbrev coloured_text : List ℕ
coloured_text = b'a' ∷ b'b' ∷ []

red : IsSequence (0x1b ∷ b'[' ∷ (b'3' ∷ b'1' ∷ []) ++ b'm' ∷ [])
red =
    control_sequence (b'3' ∷ b'1' ∷ []) b'm' (inl (omega arith), (inl (omega arith), tt))
      (omega arith) (omega arith)

coloured_shown : ShowsText coloured coloured_text
coloured_shown = kept b'a' (inl (omega arith)) (
    skipped (0x1b ∷ b'[' ∷ (b'3' ∷ b'1' ∷ []) ++ b'm' ∷ []) red
      (kept b'b' (inl (omega arith)) ended))

strip_terminal_controls-ShowsText_example : strip_terminal_controls coloured ≡ coloured_text
strip_terminal_controls-ShowsText_example =
    strip_terminal_controls-ShowsText coloured coloured_text coloured_shown

abbrev typed : List ℕ
typed = b'a' ∷ b'b' ∷ 8 ∷ b'\n' ∷ 8 ∷ b'c' ∷ []

erase_typed : apply_backspaces typed ≡ b'a' ∷ b'\n' ∷ b'c' ∷ []
unfolding apply_backspaces
erase_typed = refl

split_lines-clean_transcript_example :
    ((earlier : List (List ℕ)) × (split_lines (clean_text (λ b. b) typed)
        ≡ earlier ++ split_lines (clean_transcript (λ b. b) typed (pos 1))))
    × (length (split_lines (clean_transcript (λ b. b) typed (pos 1)))
        ≡ min 1 (length (split_lines (clean_text (λ b. b) typed))))
split_lines-clean_transcript_example =
    split_lines-clean_transcript (λ b. b) typed (pos 1) 1 (stated 1 (omega arith) (omega arith))

abbrev gaps : List (List ℕ)
gaps = line 1 ∷ [] ∷ [] ∷ [] ∷ line 2 ∷ []
