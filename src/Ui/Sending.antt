-- ===== src/Ui/Sending.antt =====
-- `_send` of client/src/ui/compose_frame.py, with `self._dev` off and its worker run at once, and
-- the plaintext cache that `__init__` of main_frame.py starts with.
use cs4455_epic.Base.{Bool, true, not, Option, none, some, [], ◌∷◌, if◌then◌else◌}
use cs4455_epic.Base.Dict.{Dict, lookup}
use cs4455_epic.Base.Text.{Str, lit, strip}
use cs4455_epic.Errors.{Exc, Result, ok, err, client, key_error}
use cs4455_epic.Json.{Json, bool, str}
use cs4455_epic.Env.{Env}
use cs4455_epic.Py.{Py, pure, lift, catch, ◌>>=◌}
use cs4455_epic.Keystore.{load_message_cache}
use cs4455_epic.Services.MessageService as MessageService
use cs4455_epic.Ui.Account.{App}
use cs4455_epic.Ui.Conversations.{attempt}
use cs4455_epic.Ui.Conversations.Grouping.{Message}
use cs4455_epic.Ui.Populate.{open_peer}
use cs4455_epic.Ui.Loading.{sent_id, remember}
use cs4455_epic.Ui.Window.{Window, mark_warning, on_send_success}

pub data SendEnd : Type 0 where
  no_chat no_text keys_locked message_sent : SendEnd
  send_failed : Exc → SendEnd
  send_error : Exc → SendEnd

-- The two handlers; they differ in the title of the message box.
unfoldable pub send_failure : Exc → SendEnd
send_failure (client c message) = send_failed (client c message)
send_failure e = send_error e

-- `msg`; `now` is the local time.
unfoldable pub sent_message : (now : Str) → App → Str → Json → Json → Str → Message
sent_message now app peer_id peer_name msg_id text =
    (lit "messageId", msg_id)
    ∷ (lit "sender_id", app.user_id)
    ∷ (lit "sender_username", app.username)
    ∷ (lit "recipient_id", str peer_id)
    ∷ (lit "recipient_username", peer_name)
    ∷ (lit "_mine", bool true)
    ∷ (lit "plaintext", str text)
    ∷ (lit "created_at", str now)
    ∷ (lit "chain_status", str (lit "pending"))
    ∷ []

module _ (E : Env) (now : Str) (app : App) where
  -- From the answer's id on.
  unfoldable pub send_rest : Str → Json → Str → Result Json → Window → Py (Window × SendEnd)
  unfolding sent_message send_failure
  send_rest peer_id peer_name text (err e) window = pure (window, send_failure e)
  send_rest peer_id peer_name text (ok msg_id) window = do
    kept ← attempt (remember E msg_id text window.cache)
    elim kept [
      | err e ↦ pure (window, send_failure e)
      | ok cache ↦ (do
        let msg = sent_message now app peer_id peer_name msg_id text
        shown ← lift (on_send_success peer_id peer_name msg (record window { cache = cache }))
        pure (shown, message_sent))
    ]

  -- `run`; the flag tells whether there is a keystore.
  unfoldable pub send_run : Bool → Str → Json → Str → Window → Py (Window × SendEnd)
  unfolding send_rest
  send_run unlocked peer_id peer_name text window =
      if not unlocked then pure (window, keys_locked) else (do
        outcome ← attempt (MessageService.send E peer_id text)
        elim outcome [
          | err e ↦ pure (window, send_failure e)
          | ok sent ↦
              let conversations = mark_warning sent.1 peer_id window.conversations in
              send_rest peer_id peer_name text (sent_id E sent.0)
                (record window { conversations = conversations })
        ])

  unfoldable pub send_to : Bool → Option Str → Str → Window → Py (Window × SendEnd)
  unfolding send_run
  send_to unlocked none text window = pure (window, no_chat)
  send_to unlocked (some peer_id) [] window = pure (window, no_text)
  send_to unlocked (some peer_id) (c ∷ text) window = elim (lookup peer_id window.conversations) [
    | none ↦ lift (err key_error)
    | some conversation ↦ send_run unlocked peer_id conversation.name (c ∷ text) window
  ]

  -- `_send`, with the text of the input field
  unfoldable pub send_input : Bool → Str → Window → Py (Window × SendEnd)
  unfolding send_to open_peer
  send_input unlocked input window =
      send_to unlocked (open_peer window.active_peer) (strip input) window

  -- `self._plaintext_cache` at the start
  unfoldable pub seed_cache : Bool → Py (Dict Str)
  seed_cache unlocked = if unlocked then catch (load_message_cache E) (λ e. pure []) else pure []
