-- ===== src/Server/StatusBar/Content.antt =====
-- What the footer can say (internal/server/status_bar_content.go): footerContent and its segments.
pub mod Numbered
use falkn.Base.{
  ℕ, zero, suc, ◌+◌, ◌-◌, Bool, true, false, not, ◌&&◌, ◌||◌, List, [], ◌∷◌, ◌++◌, Option, none,
  some, length, leb, ltb, ◌==◌, if◌then◌else◌, same, list_eq, nat_eq,
}
use Prim.Native.String.{String}
use falkn.Base.Int.{ℤ}
use falkn.Base.Text.{Text, codes, string_eq, is_empty, trim_space}
use falkn.Base.Strings.{fields, join_with, decimal}
use falkn.Agent.State.{AttentionState, no_attention, needs_input, completed, failed}
use falkn.Session.Live.{SessionRecord}
use falkn.Server.Switch.{switchable_sessions, position}
use falkn.Server.StatusBar.{StatusBar, set_content}

abbrev escape : Text → Text
escape t = 0x1b ∷ t

abbrev pub attention_needs_input_style : Text
attention_needs_input_style = escape (codes "[0;1;38;5;214m")

abbrev pub attention_failed_style : Text
attention_failed_style = escape (codes "[0;38;5;203m")

pub record FooterContent : Type 0 where
  pub title : Text
  pub agent : Text
  pub permission_mode : Text
  pub attached_clients : ℕ
  pub notifications_muted : Bool
  pub supports_notifications : Bool
  pub other_sessions : ℕ
  pub others_needing_input : ℕ
  pub others_failed : ℕ
  pub prefix_name : Text
  pub prefix_armed : Bool
  pub session_number : ℕ
  pub session_count : ℕ

abbrev pub empty_content : FooterContent
empty_content = record {
  title = [];
  agent = [];
  permission_mode = [];
  attached_clients = 0;
  notifications_muted = false;
  supports_notifications = false;
  other_sessions = 0;
  others_needing_input = 0;
  others_failed = 0;
  prefix_name = [];
  prefix_armed = false;
  session_number = 0;
  session_count = 0;
}

abbrev pub same_bool : Bool → Bool → Bool
same_bool true b = b
same_bool false b = not b

-- `==` of two contents
abbrev pub same_content : FooterContent → FooterContent → Bool
same_content a b =
    same a.title b.title
    && same a.agent b.agent
    && same a.permission_mode b.permission_mode
    && a.attached_clients == b.attached_clients
    && same_bool a.notifications_muted b.notifications_muted
    && same_bool a.supports_notifications b.supports_notifications
    && a.other_sessions == b.other_sessions
    && a.others_needing_input == b.others_needing_input
    && a.others_failed == b.others_failed
    && same a.prefix_name b.prefix_name
    && same_bool a.prefix_armed b.prefix_armed
    && a.session_number == b.session_number
    && a.session_count == b.session_count

-- The position of the session among those that the switcher shows, counted from 1.
abbrev pub number_at : Option ℕ → ℕ
number_at none = 0
number_at (some i) = suc i

abbrev pub count_attention : AttentionState → FooterContent → FooterContent
count_attention needs_input c = record c { others_needing_input = suc c.others_needing_input }
count_attention failed c = record c { others_failed = suc c.others_failed }
count_attention _ c = c

-- One round of the second loop of footerContentFor.
unfoldable pub tell_record : String → FooterContent → SessionRecord → FooterContent
tell_record session_id c r =
    if same r.id session_id
    then record c {
      title = r.title;
      agent = codes r.agent_id;
      permission_mode = codes r.permission_mode;
      attached_clients = r.attached_clients;
      notifications_muted = r.notifications_muted;
    }
    else if not (same r.status "running")
    then c
    else count_attention r.attention (record c { other_sessions = suc c.other_sessions })

unfoldable pub tell_records : String → FooterContent → List SessionRecord → FooterContent
unfolding tell_record
tell_records session_id c [] = c
tell_records session_id c (r ∷ rs) = tell_records session_id (tell_record session_id c r) rs

unfoldable pub footer_content_for : String → List SessionRecord → FooterContent
unfolding tell_records
footer_content_for session_id records =
    let switchable = switchable_sessions records in
    tell_records session_id
      (record empty_content {
        session_count = length switchable;
        session_number = number_at (position session_id switchable);
      })
      records

-- unicode.IsControl
abbrev pub is_control : ℕ → Bool
is_control c = ltb c 0x20 || (leb 0x7f c && leb c 0x9f)

unfoldable pub without_controls : Text → Text
without_controls [] = []
without_controls (c ∷ cs) =
    let rest = without_controls cs in if is_control c then rest else c ∷ rest

unfoldable pub clean_status_label : Text → Text
unfolding without_controls
clean_status_label value =
    let joined = join_with (codes " ") (fields (without_controls value)) in
    if is_empty joined then codes "session" else joined

unfoldable pub clean_permission_mode : Text → Text
unfolding trim_space
clean_permission_mode mode =
    if same (trim_space mode) (codes "full_access") then codes "full access" else []

pub record FooterSegment : Type 0 where
  pub text : Text
  pub style : Text

abbrev pub segment : Text → Text → FooterSegment
segment text style = record { text = text; style = style }

abbrev pub segment_if : Bool → FooterSegment → List FooterSegment
segment_if b s = if b then s ∷ [] else []

-- attentionSummary: the text and its style
unfoldable pub attention_summary : FooterContent → FooterSegment
unfolding decimal
attention_summary c =
    if ltb 0 c.others_needing_input
    then segment (decimal c.others_needing_input ++ codes " needs input")
        attention_needs_input_style
    else if ltb 0 c.others_failed
    then segment (decimal c.others_failed ++ codes " failed") attention_failed_style
    else if ltb 0 c.other_sessions
    then segment (decimal c.other_sessions ++ codes " others") []
    else segment [] []

unfoldable pub droppable_segments : FooterContent → List FooterSegment
unfolding clean_status_label clean_permission_mode decimal
droppable_segments c =
    let mode = clean_permission_mode c.permission_mode in
    segment_if (ltb 1 c.attached_clients)
      (segment (b'+' ∷ (decimal (c.attached_clients - 1) ++ codes " watching")) [])
    ++ (segment_if (not (is_empty c.title)) (segment (clean_status_label c.title) [])
        ++ (segment_if (not (is_empty c.agent) && not (same c.agent (codes "shell")))
              (segment (clean_status_label c.agent) [])
            ++ segment_if (not (is_empty mode)) (segment mode attention_needs_input_style)))

unfoldable pub kept_segments : FooterContent → List FooterSegment
unfolding attention_summary
kept_segments c =
    segment_if (c.supports_notifications && c.notifications_muted) (segment (codes "muted") [])
    ++ segment_if (not (is_empty (attention_summary c).text)) (attention_summary c)

abbrev pub hint_prefix : FooterContent → Text
hint_prefix c =
    if ltb 1 c.session_count && ltb 0 c.session_number
    then c.prefix_name ++ (codes " [" ++ (decimal c.session_number ++ codes "]"))
    else c.prefix_name

unfoldable pub hint_forms : FooterContent → List Text
unfolding decimal
hint_forms c =
    if is_empty c.prefix_name
    then []
    else (hint_prefix c ++ codes " ↑ sessions") ∷ (hint_prefix c ++ codes " ↑") ∷ hint_prefix c ∷ []

-- The calls of the bar that change its content.
module _ (line : ℤ → FooterContent → Bool → Text) (accepts : Text → Bool) where
  unfoldable pub set_footer_muted : Bool → StatusBar FooterContent → Bool × StatusBar FooterContent
  unfolding set_content
  set_footer_muted muted bar =
      set_content line accepts (record bar.content { notifications_muted = muted })
        (not (same_bool bar.content.notifications_muted muted)) bar

  unfoldable pub set_prefix_armed : Bool → StatusBar FooterContent → Bool × StatusBar FooterContent
  unfolding set_content
  set_prefix_armed armed bar =
      set_content line accepts (record bar.content { prefix_armed = armed })
        (not (same_bool bar.content.prefix_armed armed)) bar

  -- `supports` is the field of the bar that says whether the daemon supports notifications.
  unfoldable pub update_sessions :
      Bool → String → List SessionRecord → StatusBar FooterContent → Bool × StatusBar FooterContent
  unfolding set_content footer_content_for
  update_sessions supports session_id records bar =
      let content : FooterContent = record (footer_content_for session_id records) {
        supports_notifications = supports;
        prefix_name = bar.content.prefix_name;
        prefix_armed = bar.content.prefix_armed;
      } in
      set_content line accepts content (not (same_content content bar.content)) bar
