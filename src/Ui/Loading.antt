-- ===== src/Ui/Loading.antt =====
-- The worker of `_load` in client/src/ui/main_frame.py, and parts of that of `_send` in
-- compose_frame.py.
use cs4455_epic.Base.{Bool, true, false, Option, none, some, List, [], ◌∷◌, if◌then◌else◌}
use cs4455_epic.Base.Dict.{Dict, insert}
use cs4455_epic.Base.Text.{Str, lit}
use cs4455_epic.Errors.{Result, ok, err, attribute_error}
use cs4455_epic.Json.{Json, null, arr, nil, obj, end, fields, truthy}
use cs4455_epic.Env.{Env}
use cs4455_epic.Py.{Py, pure, lift, catch, ◌>>=◌, ◌>>◌}
use cs4455_epic.Keystore.{save_message_cache}
use cs4455_epic.Api.Client.{get_field, each}
use cs4455_epic.Services.MessageService as MessageService
use cs4455_epic.Services.MessageService.{as_text}
use cs4455_epic.Ui.Conversations.Grouping.{Message}
use cs4455_epic.Ui.Conversations.{decrypt_inbox, decrypt_sent}

-- `(v or {})`
abbrev pub or_empty : Option Json → Json
or_empty none = obj end
or_empty (some v) = if truthy v then v else obj end

-- A message that is no dict is an `AttributeError`.
unfoldable pub as_messages : List Json → Result (List Message)
as_messages [] = ok []
as_messages (obj fs ∷ rest) =
    let later = as_messages rest in elim later [ err e ↦ err e | ok ms ↦ ok (fields fs ∷ ms) ]
as_messages (_ ∷ rest) = err attribute_error

-- `(resp or {}).get("data", [])`, a list of dicts
unfoldable pub rows_of : Option Json → Result (List Json)
rows_of resp = elim (get_field (lit "data") (arr nil) (or_empty resp)) [
  | err e ↦ err e
  | ok v ↦ each v
]

module _ (E : Env) where
  -- `_decrypt_sent` returns at once without a keystore, and leaves the messages as they are.
  sent_of : Bool → List Message → Dict Str → Py (Dict (List Message) × Dict Str)
  sent_of true sent cache = decrypt_sent E sent cache
  sent_of false sent cache = pure ((lit "", sent) ∷ [], cache)

  -- `run` of `_load`: what `_populate` is given, and the cache.
  unfoldable pub load_messages :
      Bool → Dict Str → Py (Dict (List Message) × (Dict (List Message) × Dict Str))
  unfolding sent_of rows_of as_messages
  load_messages unlocked cache = do
    inbox ← MessageService.inbox E
    inbox ← lift (rows_of inbox)
    sent ← MessageService.sent E
    sent ← lift (rows_of sent)
    inbox ← lift (as_messages inbox)
    received ← decrypt_inbox E unlocked inbox cache
    sent ← lift (as_messages sent)
    own ← sent_of unlocked sent received.1
    pure (received.0, own)

  -- `(resp_data or {}).get("data", {}).get("messageId")`
  unfoldable pub sent_id : Option Json → Result Json
  sent_id resp = elim (get_field (lit "data") (obj end) (or_empty resp)) [
    | err e ↦ err e
    | ok v ↦ get_field (lit "messageId") null v
  ]

  -- `if msg_id:` in `_send`
  unfoldable pub remember : Json → Str → Dict Str → Py (Dict Str)
  remember msg_id text cache =
      if truthy msg_id
      then (do
        key ← as_text msg_id
        let cache' = insert key text cache
        catch (save_message_cache E cache') (λ e. pure tt)
        pure cache')
      else pure cache
