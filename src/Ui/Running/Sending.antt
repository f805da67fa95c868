-- ===== src/Ui/Running/Sending.antt =====
-- `_send` of client/src/ui/compose_frame.py returns where the open conversation is there.
use cs4455_epic.Base.{
  ◌≡◌, refl, arith, inl, inr, Bool, true, false, Option, none, some, [], ◌∷◌, ◌++◌, Option-cases,
}
use cs4455_epic.Base.Dict.{lookup, insert, get_or, lookup-insert_self}
use cs4455_epic.Base.Text.{Str, strip}
use cs4455_epic.Errors.{Result, Result-cases, ok, err}
use cs4455_epic.Json.{Json}
use cs4455_epic.Env.{Env}
use cs4455_epic.Py.{State}
use cs4455_epic.Ui.Conversations.Grouping.{Message}
use cs4455_epic.Ui.Account.{App}
use cs4455_epic.Ui.Populate.{open_peer}
use cs4455_epic.Ui.Window.{Window, mark_warning, ensure_conversation, open_chat, on_send_success}
use cs4455_epic.Services.MessageService as MessageService
use cs4455_epic.Ui.Loading.{remember, sent_id}
use cs4455_epic.Ui.Sending.{
  SendEnd, no_chat, no_text, message_sent, send_failure, sent_message, send_rest, send_run, send_to,
  send_input,
}
use cs4455_epic.Ui.Running.{is_open}

-- The message that was sent is shown without a `KeyError`.
on_send_success-returns :
    (u : Str) (name : Json) (m : Message) (w : Window)
    → (w' : Window) × (on_send_success u name m w ≡ ok w')
unfolding on_send_success open_chat
on_send_success-returns u name m w =
    let conversations = ensure_conversation u name w.conversations in
    let old =
      get_or (lookup u conversations)
        (record { name = name; messages = []; key_warning = false }) in
    let longer = record old { messages = old.messages ++ (m ∷ []) } in
    (
      record w { active_peer = some u; conversations = insert u longer conversations },
      ground (arith, lookup-insert_self u longer conversations),
    )

module _ (E : Env) (now : Str) (app : App) where
  send_rest-returns :
      (u : Str) (name : Json) (text : Str) (id : Result Json) (w : Window) (s : State)
      → (out : Window × SendEnd) × ((send_rest E now app u name text id w s).0 ≡ ok out)
  unfolding send_rest
  send_rest-returns u name text (err e) w s = (_, refl)
  send_rest-returns u name text (ok id) w s = elim (Result-cases (remember E id text w.cache s).0) [
    | inr (e, x) ↦ ((w, send_failure e), ground arith)
    | inl (cache, x) ↦
        let msg = sent_message now app u name id text in
        let (shown, y) = on_send_success-returns u name msg (record w { cache = cache }) in
        ((shown, message_sent), ground arith)
  ]

  send_run-returns :
      (unlocked : Bool) (u : Str) (name : Json) (text : Str) (w : Window) (s : State)
      → (out : Window × SendEnd) × ((send_run E now app unlocked u name text w s).0 ≡ ok out)
  unfolding send_run
  send_run-returns false u name text w s = (_, refl)
  send_run-returns true u name text w s = elim (Result-cases (MessageService.send E u text s).0) [
    | inr (e, x) ↦ ((w, send_failure e), ground arith)
    | inl ((resp, changed), x) ↦
        let marked = record w { conversations = mark_warning changed u w.conversations } in
        let (out, y) =
          send_rest-returns u name text (sent_id E resp) marked
            (MessageService.send E u text s).1 in
        (out, ground arith)
  ]

  pub send_input-returns :
      (unlocked : Bool) (input : Str) (w : Window) (s : State)
      → is_open w ≡ true
      → (out : Window × SendEnd) × ((send_input E now app unlocked input w s).0 ≡ ok out)
  unfolding send_input is_open send_to
  send_input-returns unlocked input w s there =
      by_parts (open_peer w.active_peer) (strip input) refl refl
    where
      by_parts :
          (peer : Option Str) (text : Str)
          → open_peer w.active_peer ≡ peer
          → strip input ≡ text
          → (out : Window × SendEnd) × ((send_input E now app unlocked input w s).0 ≡ ok out)
      by_parts none text x y = ((w, no_chat), ground arith)
      by_parts (some u) [] x y = ((w, no_text), ground arith)
      by_parts (some u) (c ∷ text) x y = elim (Option-cases (lookup u w.conversations)) [
        | inl z ↦ absurd (ground arith)
        | inr (conversation, z) ↦
            let (out, t) = send_run-returns unlocked u conversation.name (c ∷ text) w s in
            (out, ground arith)
      ]
