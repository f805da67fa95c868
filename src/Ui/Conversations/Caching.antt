-- ===== src/Ui/Conversations/Caching.antt =====
-- `_decrypt_inbox` of client/src/ui/main_frame.py: what is read from the plaintext cache.
use cs4455_epic.Base.{◌≡◌, arith, Bool, some}
use cs4455_epic.Base.Dict.{Dict, lookup}
use cs4455_epic.Base.Text.{Str, lit}
use cs4455_epic.Errors.{ok}
use cs4455_epic.Json.{str}
use cs4455_epic.Env.{Env}
use cs4455_epic.Py.{State}
use cs4455_epic.Services.MessageService.{as_text}
use cs4455_epic.Ui.Conversations.Grouping.{Message, field_of}
use cs4455_epic.Ui.Conversations.{with_plaintext, show_received}

module _ (E : Env) (unlocked : Bool) (sender_id message_id pt : Str) (m : Message)
    (cache : Dict Str) (added : Bool) (s : State) where
  -- A message whose plaintext is cached is shown with that plaintext and nothing else: no request
  -- is sent and no state changes, whatever the keystore and the sender's keys are.
  pub show_cached :
      field_of (lit "messageId") m ≡ str message_id
      → lookup message_id cache ≡ some pt
      → show_received E unlocked sender_id m (cache, added) s
        ≡ (ok (with_plaintext pt m, (cache, added)), s)
  unfolding show_received as_text
  show_cached named cached = ground arith
