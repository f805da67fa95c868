-- ===== src/Ui/Messages/Forwarding.antt =====
-- `_forward_msg` of client/src/ui/message_frame.py: what is not forwarded.
use cs4455_epic.Base.{◌≡◌, ap, arith, Bool, ◌∷◌, if◌then◌else◌}
use cs4455_epic.Base.Dict.{lookup-insert_self}
use cs4455_epic.Base.Text.{Str, lit}
use cs4455_epic.Errors.{ok}
use cs4455_epic.Json.{str}
use cs4455_epic.Env.{Env}
use cs4455_epic.Py.{State}
use cs4455_epic.Ui.Conversations.{with_plaintext}
use cs4455_epic.Ui.Conversations.Grouping.{Message, field_of}
use cs4455_epic.Ui.Conversations.Showing.{IsPlaceholder}
use cs4455_epic.Ui.Messages.{not_decrypted, keys_locked, text_to_forward, forward_text, forward_run}
use cs4455_epic.Ui.Window.{Window}

placed_text :
    (m : Message) (text rest : Str)
    → text ≡ 91 ∷ rest
    → field_of (lit "plaintext") (with_plaintext text m) ≡ str (91 ∷ rest)
placed_text m text rest is =
    let there = lookup-insert_self (lit "plaintext") (str text) m in rw there (ap str is)

module _ (E : Env) (unlocked : Bool) (m : Message) (recipient : Str) (window : Window) (s : State)
    (text : Str) (placeholder : IsPlaceholder text) where
  -- A message that is shown with one of the texts that stand for a message which could not be
  -- decrypted is not forwarded: no request is sent, no number is used up, nothing is changed.
  pub forward_placeholder :
      forward_run E unlocked (with_plaintext text m) recipient window s
      ≡ (ok (window, if unlocked then not_decrypted else keys_locked), s)
  unfolding forward_run text_to_forward forward_text
  forward_placeholder = ground (arith, placed_text m text placeholder.0 placeholder.1)
