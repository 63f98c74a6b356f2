-- ===== src/Server/InputTests.antt =====
-- Tests of the keyboard reader, and its theorem at a concrete input.
use falkn.Base.{◌≡◌, refl, true, false, [], ◌∷◌, ◌++◌, All}
use falkn.Base.Int.{negsuc}
use falkn.Base.Text.{codes}
use falkn.Server.Input.{
  Handlers, typed, switched, detached, consume, focus_report, push, consume_armed, consume_sequence,
}
use falkn.Server.Input.Typing.{resting, IsPlain, consume-typed}

abbrev handlers : Handlers
handlers = record {
  prefix = 0x1c;
  supports_notifications = true;
  on_new_session = true;
  on_switch = true;
  on_prefix_armed = false;
  menu = true;
  menu_open = λ history. false;
  writes = λ history. true;
}

-- The prefix twice is one prefix, and a key that is not Falkn's is handed back with the prefix.
hands_back :
    (consume handlers (0x1c ∷ 0x1c ∷ b'a' ∷ 0x1c ∷ b'x' ∷ []) (resting 0 false [] [])).1.history
    ≡ typed (0x1c ∷ b'a' ∷ 0x1c ∷ b'x' ∷ []) ∷ []
unfolding consume focus_report push consume_armed consume_sequence
hands_back = refl

-- The prefix and a left arrow step to the previous session, after what was typed before.
steps_back :
    (consume handlers (codes "ls" ++ 0x1c ∷ 0x1b ∷ codes "[D") (resting 0 false [] [])).1.history
    ≡ typed (codes "ls") ∷ switched (negsuc 0) 0 ∷ []
unfolding consume focus_report push consume_armed consume_sequence
steps_back = refl

ls-IsPlain : All (IsPlain handlers) (codes "ls")
ls-IsPlain = (
  record { unprefixed = refl; unescaped = refl },
  (record { unprefixed = refl; unescaped = refl }, tt),
)

consume-typed_example :
    consume handlers (codes "ls") (resting 0 false (detached ∷ []) [])
    ≡ (true, resting 0 false (detached ∷ typed (codes "ls") ∷ []) [])
consume-typed_example =
    consume-typed handlers (λ history. refl) 0 false (detached ∷ []) b'l' (codes "s") [] ls-IsPlain
      refl
