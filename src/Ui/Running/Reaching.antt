-- ===== src/Ui/Running/Reaching.antt =====
-- Sending and polling keep the open conversation, and so does any sequence of handlers.
use cs4455_epic.Base.{
  ◌≡◌, refl, ap, sym, ◌∙◌, arith, inl, inr, Bool, true, false, Option, none, some, List, [], ◌∷◌,
  ◌++◌, Option-cases,
}
use cs4455_epic.Base.Dict.{Dict, lookup, insert, get_or}
use cs4455_epic.Base.Text.{Str, str_eq_refl, strip}
use cs4455_epic.Errors.{Result, Result-cases, ok, err}
use cs4455_epic.Json.{Json}
use cs4455_epic.Env.{Env}
use cs4455_epic.Py.{State}
use cs4455_epic.Ui.Conversations.Grouping.{Message}
use cs4455_epic.Ui.Account.{App}
use cs4455_epic.Ui.Populate.{
  Conversation, open_peer, restore_shell, previous, populate, add_entries, received_entry,
  sent_entry, finish_all,
}
use cs4455_epic.Ui.Window.{Window, mark_warning, ensure_conversation, on_send_success}
use cs4455_epic.Services.MessageService as MessageService
use cs4455_epic.Ui.Loading.{remember, sent_id}
use cs4455_epic.Ui.Sending.{SendEnd, sent_message, send_rest, send_run, send_to, send_input}
use cs4455_epic.Ui.Running.{
  Step, Steps, opens, chats, sends, forwards, deletes, accepts, polls, done, step, is_open, start,
}
use cs4455_epic.Ui.Running.Sending.{send_input-returns}
use cs4455_epic.Ui.Running.Opening.{
  has, has-insert, open_chat-opens, new_chat-opens, marked-opens, forward_msg-opens,
  delete_msg-opens, accept_key-opens,
}

on_send_success-opens :
    (u : Str) (name : Json) (m : Message) (w w' : Window)
    → on_send_success u name m w ≡ ok w'
    → is_open w' ≡ true
unfolding on_send_success
on_send_success-opens u name m w w' h =
    let conversations = ensure_conversation u name w.conversations in
    let old =
      get_or (lookup u conversations)
        (record { name = name; messages = []; key_warning = false }) in
    let longer = record old { messages = old.messages ++ (m ∷ []) } in
    open_chat-opens u (record w { conversations = insert u longer conversations }) w' h

module _ (E : Env) (now : Str) (app : App) where
  send_rest-opens :
      (u : Str) (name : Json) (text : Str) (id : Result Json) (w w' : Window) (s : State)
      (end' : SendEnd)
      → is_open w ≡ true
      → (send_rest E now app u name text id w s).0 ≡ ok (w', end')
      → is_open w' ≡ true
  unfolding send_rest
  send_rest-opens u name text (err e) w w' s end' before h = ground arith
  send_rest-opens u name text (ok id) w w' s end' before h =
      elim (Result-cases (remember E id text w.cache s).0) [
        | inr (e, x) ↦ ground arith
        | inl (cache, x) ↦
            let msg = sent_message now app u name id text in
            let w1 = record w { cache = cache } in
            elim (Result-cases (on_send_success u name msg w1)) [
              | inr (e, y) ↦ absurd (ground arith)
              | inl (o, y) ↦ ground (arith, on_send_success-opens u name msg w1 o y)
            ]
      ]

  send_run-opens :
      (unlocked : Bool) (u : Str) (name : Json) (text : Str) (w w' : Window) (s : State)
      (end' : SendEnd)
      → is_open w ≡ true
      → (send_run E now app unlocked u name text w s).0 ≡ ok (w', end')
      → is_open w' ≡ true
  unfolding send_run
  send_run-opens false u name text w w' s end' before h = ground arith
  send_run-opens true u name text w w' s end' before h =
      let t = (MessageService.send E u text s).1 in
      elim (Result-cases (MessageService.send E u text s).0) [
        | inr (e, x) ↦ ground arith
        | inl ((resp, changed), x) ↦
            send_rest-opens u name text (sent_id E resp)
              (record w { conversations = mark_warning changed u w.conversations }) w' t end'
              (marked-opens E w w before changed u) (ground arith)
      ]

  send_to-opens :
      (unlocked : Bool) (peer : Option Str) (text : Str) (w w' : Window) (s : State)
      (end' : SendEnd)
      → is_open w ≡ true
      → (send_to E now app unlocked peer text w s).0 ≡ ok (w', end')
      → is_open w' ≡ true
  unfolding send_to
  send_to-opens unlocked none text w w' s end' before h = ground arith
  send_to-opens unlocked (some u) [] w w' s end' before h = ground arith
  send_to-opens unlocked (some u) (c ∷ text) w w' s end' before h =
      elim (Option-cases (lookup u w.conversations)) [
        | inl x ↦ absurd (ground arith)
        | inr (conversation, x) ↦
            send_run-opens unlocked u conversation.name (c ∷ text) w w' s end' before (ground arith)
      ]

send_input-opens :
    (E : Env) (now : Str) (app : App) (unlocked : Bool) (input : Str) (w w' : Window) (s : State)
    (end' : SendEnd)
    → is_open w ≡ true
    → (send_input E now app unlocked input w s).0 ≡ ok (w', end')
    → is_open w' ≡ true
unfolding send_input
send_input-opens E now app unlocked input w w' s end' before h =
    send_to-opens E now app unlocked (open_peer w.active_peer) (strip input) w w' s end' before h

has-restore_shell :
    (u : Str) (old sorted : Dict Conversation)
    → has u old ≡ true
    → has u (restore_shell (some u) (previous (some u) old) sorted) ≡ true
unfolding restore_shell previous
has-restore_shell u old sorted there = elim (Option-cases (lookup u old)) [
  | inl h ↦ absurd (ground arith)
  | inr (c, h) ↦ ground (arith, has-insert u u (record c { messages = [] }) sorted, str_eq_refl u)
]

restored :
    (w : Window) (cache : Dict Str) (sorted : Dict Conversation)
    → is_open w ≡ true
    → is_open (record w {
      conversations =
          restore_shell
            (open_peer w.active_peer)
            (previous (open_peer w.active_peer) w.conversations)
            sorted;
      cache = cache;
    })
      ≡ true
unfolding is_open
restored w cache sorted before = elim (Option-cases (open_peer w.active_peer)) [
  | inl h ↦ ground arith
  | inr (u, h) ↦ ground (arith, has-restore_shell u w.conversations sorted)
]

populate-opens :
    (w : Window) (cache : Dict Str) (inbox sent : List Message) (out : Dict Conversation)
    (redrawn : Bool)
    → is_open w ≡ true
    → populate w.active_peer w.conversations cache inbox sent ≡ ok (out, redrawn)
    → is_open (record w { conversations = out; cache = cache }) ≡ true
unfolding populate
populate-opens w cache inbox sent out redrawn before h =
    let peer = open_peer w.active_peer in
    elim (Result-cases (add_entries received_entry inbox [])) [
      | inr (e, x) ↦ absurd (ground arith)
      | inl (received, x) ↦ elim (Result-cases (add_entries (sent_entry cache) sent received)) [
        | inr (e, y) ↦ absurd (ground arith)
        | inl (both, y) ↦ elim (Result-cases (finish_all both)) [
          | inr (e, z) ↦ absurd (ground arith)
          | inl (sorted, z) ↦
              let same : restore_shell peer (previous peer w.conversations) sorted ≡ out =
                ground arith in
              ap (λ c. is_open (record w { conversations = c; cache = cache })) (sym same)
              ∙ restored w cache sorted before
        ]
      ]
    ]

Step-opens : (E : Env) (w w' : Window) → Step E w w' → is_open w ≡ true → is_open w' ≡ true
Step-opens E _ _ (opens u w w' h) before = open_chat-opens u w w' h
Step-opens E _ _ (chats name s w w' e h) before = new_chat-opens E w w' before name s e h
Step-opens E _ _ (sends now app unlocked input s w w' e h) before =
    send_input-opens E now app unlocked input w w' s e before h
Step-opens E _ _ (forwards unlocked m to s w w' e h) before =
    forward_msg-opens E w w' before unlocked m to s e h
Step-opens E _ _ (deletes m s w w' r h) before = delete_msg-opens E w w' before m s r h
Step-opens E _ _ (accepts unlocked u s w w' e h) before =
    accept_key-opens E w w' before unlocked u s e h
Step-opens E _ _ (polls cache inbox sent w out r h) before =
    populate-opens w cache inbox sent out r before h

Steps-opens : (E : Env) (w w' : Window) → Steps E w w' → is_open w ≡ true → is_open w' ≡ true
Steps-opens E _ _ (done w) before = before
Steps-opens E _ _ (step w w' w'' one more) before =
    Steps-opens E w' w'' more (Step-opens E w w' one before)

-- Along any sequence of opening a chat, starting one, sending, forwarding, deleting, accepting a
-- key and polling, each of which returns, from a window without an open chat and each at any state
-- of the client: the conversation that is open is there, also when the server returns nothing for
-- it. So sending raises nothing, whatever the input and the server's answer are. (A poll or an
-- opening that raises may leave a window without the open conversation, and is no step.)
pub reached_is_open :
    (E : Env) (cache : Dict Str) (w : Window)
    → Steps E (start cache) w
    → (is_open w ≡ true)
      × ((now : Str) (app : App) (unlocked : Bool) (input : Str) (s : State)
          → (out : Window × SendEnd) × ((send_input E now app unlocked input w s).0 ≡ ok out))
unfolding is_open open_peer
reached_is_open E cache w steps =
    let there = Steps-opens E (start cache) w steps refl in
    (there, λ now app unlocked input s. send_input-returns E now app unlocked input w s there)
