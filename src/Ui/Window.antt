-- ===== src/Ui/Window.antt =====
-- What the main window keeps, and the handlers of client/src/ui/inbox_frame.py and compose_frame.py
-- that change it. The handlers are modelled with `self._dev` off; of a worker thread and what it
-- schedules, the model runs one after the other. An id that is no text is a `TypeError` here.
use cs4455_epic.Base.{
  Bool, true, false, not, ◌&&◌, ◌||◌, ltb, Option, none, some, [], ◌∷◌, ◌++◌, take, length,
  if◌then◌else◌,
}
use cs4455_epic.Base.Dict.{Dict, lookup, insert, get_or, is_some}
use cs4455_epic.Base.Text.{Str, lit, strip, str_eq}
use cs4455_epic.Errors.{
  Exc, Result, ok, err, client, not_found_error, rate_limit_error, key_error, type_error,
  attribute_error,
}
use cs4455_epic.Json.{Json, str, truthy}
use cs4455_epic.Env.{Env}
use cs4455_epic.Py.{Py, pure, lift, ◌>>=◌}
use cs4455_epic.Api.Client.{subscript, data_of}
use cs4455_epic.Api.Endpoints as Api
use cs4455_epic.Services.MessageService.{as_text}
use cs4455_epic.Ui.Conversations.{attempt}
use cs4455_epic.Ui.Conversations.Grouping.{Message, field_of}
use cs4455_epic.Ui.Populate.{Conversation}

-- `self._active_peer`, `self._conversations` and `self._plaintext_cache`.
pub record Window : Type 0 where
  pub active_peer : Option Str
  pub conversations : Dict Conversation
  pub cache : Dict Str

-- `_open_chat`, less what it draws; a peer without a conversation is a `KeyError`. The window that
-- the exception leaves, with `_active_peer` set to this peer, is not modelled.
unfoldable pub open_chat : Str → Window → Result Window
open_chat peer_id window =
    let opened = record window { active_peer = some peer_id } in
    if is_some (lookup peer_id window.conversations) then ok opened else err key_error

-- Opens an empty conversation, where there is none.
unfoldable pub ensure_conversation : Str → Json → Dict Conversation → Dict Conversation
ensure_conversation peer_id name conversations =
    if is_some (lookup peer_id conversations)
    then conversations
    else insert peer_id (record { name = name; messages = []; key_warning = false }) conversations

-- `self._conversations.get(peer_id, {}).update({"key_warning": True})`
unfoldable pub mark_warning : Bool → Str → Dict Conversation → Dict Conversation
mark_warning changed peer_id conversations =
    if not changed then conversations else (elim (lookup peer_id conversations) [
      | none ↦ conversations
      | some conversation ↦
          insert peer_id (record conversation { key_warning = true }) conversations
    ])

-- `preview_text` of `_make_conv_row`, with `PREVIEW_MAX_CHARS` 34; a text that is none is a
-- `TypeError`.
unfoldable pub preview_text : Message → Result Str
preview_text last =
    let text = field_of (lit "plaintext") last in
    elim (if truthy text then text else str (lit "(encrypted)")) [
      | str t ↦ ok (if ltb 34 (length t) then take 34 t ++ lit "..." else t)
      | _ ↦ err type_error
    ]

-- `preview`
unfoldable pub preview : Message → Result Str
unfolding preview_text
preview last = elim (preview_text last) [
  | err e ↦ err e
  | ok t ↦ ok (if truthy (field_of (lit "_mine") last) then lit "You: " ++ t else t)
]

starts_with : Str → Str → Bool
starts_with [] text = true
starts_with (c ∷ p) [] = false
starts_with (c ∷ p) (d ∷ text) = str_eq (c ∷ []) (d ∷ []) && starts_with p text

-- `query in text`
unfoldable pub occurs_in : Str → Str → Bool
unfolding starts_with
occurs_in query [] = starts_with query []
occurs_in query (c ∷ text) = starts_with query (c ∷ text) || occurs_in query text

pub data NewChatEnd : Type 0 where
  no_name user_not_found rate_limited : NewChatEnd
  chat_opened : NewChatEnd
  failed : Exc → NewChatEnd

unfoldable pub new_chat_failure : Exc → NewChatEnd
new_chat_failure (client not_found_error message) = user_not_found
new_chat_failure (client rate_limit_error message) = rate_limited
new_chat_failure e = failed e

module _ (E : Env) where
  -- `not (query and query not in data["name"].lower())`
  unfoldable pub is_wanted : Str → Json → Result Bool
  unfolding occurs_in
  is_wanted [] name = ok true
  is_wanted (c ∷ query) (str name) = ok (occurs_in (c ∷ query) (E.lower name))
  is_wanted (c ∷ query) _ = err attribute_error

  -- The conversations that `_filter_chats` lists.
  unfoldable pub filter_chats : Str → Dict Conversation → Result (Dict Conversation)
  unfolding is_wanted
  filter_chats query [] = ok []
  filter_chats query ((peer_id, conversation) ∷ rest) =
      let later = filter_chats query rest in
      elim (is_wanted (E.lower (strip query)) conversation.name) [
        | err e ↦ err e
        | ok wanted ↦ elim later [
          | err e ↦ err e
          | ok shown ↦ ok (if wanted then (peer_id, conversation) ∷ shown else shown)
        ]
      ]

  -- The `try` of `run` in `_new_chat`.
  unfoldable pub find_user : Str → Py (Str × Json)
  find_user username = do
    resp ← Api.get_user E username
    user ← lift (data_of resp)
    peer_id ← lift (subscript (lit "userId") user)
    name ← lift (subscript (lit "username") user)
    peer_id ← as_text peer_id
    pure (peer_id, name)

  unfoldable pub new_chat_run : Str → Window → Py (Window × NewChatEnd)
  unfolding find_user new_chat_failure ensure_conversation open_chat
  new_chat_run username window = do
    outcome ← attempt (find_user username)
    elim outcome [
      | err e ↦ pure (window, new_chat_failure e)
      | ok user ↦ (do
        let conversations = ensure_conversation user.0 user.1 window.conversations
        opened ← lift (open_chat user.0 (record window { conversations = conversations }))
        pure (opened, chat_opened))
    ]

  -- `_new_chat`; `none` is a dialog that was closed.
  unfoldable pub new_chat : Option Str → Window → Py (Window × NewChatEnd)
  unfolding new_chat_run
  new_chat none window = pure (window, no_name)
  new_chat (some []) window = pure (window, no_name)
  new_chat (some (c ∷ username)) window = new_chat_run (strip (c ∷ username)) window

-- `_on_send_success`, with the message's `recipient_id` and `recipient_username`.
unfoldable pub on_send_success : Str → Json → Message → Window → Result Window
unfolding ensure_conversation open_chat
on_send_success peer_id name msg window =
    let conversations = ensure_conversation peer_id name window.conversations in
    let conversation =
      get_or (lookup peer_id conversations)
        (record { name = name; messages = []; key_warning = false }) in
    let longer = record conversation { messages = conversation.messages ++ (msg ∷ []) } in
    open_chat peer_id (record window { conversations = insert peer_id longer conversations })
