-- ===== src/Ui/Running/Opening.antt =====
-- The handlers of the main window keep the open conversation.
use cs4455_epic.Base.{
  ◌≡◌, refl, ◌∙◌, arith, inl, inr, Bool, true, false, ◌||◌, Option, none, some, [], ◌∷◌,
  Option-cases, Bool-cases,
}
use cs4455_epic.Base.Dict.{Dict, lookup, insert, erase, lookup-insert, is_some}
use cs4455_epic.Base.Text.{Str, lit, str_eq, str_eq_iff, strip}
use cs4455_epic.Errors.{Exc, Result, Result-cases, ok}
use cs4455_epic.Json.{Json}
use cs4455_epic.Env.{Env}
use cs4455_epic.Py.{State}
use cs4455_epic.Ui.Conversations.Grouping.{Message, field_of}
use cs4455_epic.Ui.Conversations.Showing.{as_text_str}
use cs4455_epic.Services.MessageService.Replay.{as_text-cases}
use cs4455_epic.Ui.Populate.{Conversation, open_peer}
use cs4455_epic.Ui.Window.{
  Window, NewChatEnd, open_chat, mark_warning, ensure_conversation, new_chat, new_chat_run,
  find_user,
}
use cs4455_epic.Ui.Messages.{
  ForwardEnd, text_to_forward, drop_message, forward_body, forward_text, forward_run, forward_msg,
  delete_msg,
}
use cs4455_epic.Ui.KeyWarning.{cleared, clear_warning, repin, accept_key}
use cs4455_epic.Ui.Running.{is_open}

abbrev pub has : Str → Dict Conversation → Bool
has u conversations = is_some (lookup u conversations)

pub has-insert :
    (u v : Str) (c : Conversation) (conversations : Dict Conversation)
    → has v (insert u c conversations) ≡ (str_eq u v || has v conversations)
has-insert u v c conversations = ground (arith, lookup-insert u v c conversations)

pub has-mark_warning :
    (changed : Bool) (u v : Str) (conversations : Dict Conversation)
    → has v (mark_warning changed u conversations) ≡ has v conversations
unfolding mark_warning
has-mark_warning false u v conversations = refl
has-mark_warning true u v conversations = elim (Option-cases (lookup u conversations)) [
  | inl h ↦ ground arith
  | inr (c, h) ↦
      ground (arith, has-insert u v (record c { key_warning = true }) conversations, str_eq_iff u v)
]

-- A window with the same open peer, in which the same conversations are there.
pub same_open :
    (w : Window) (conversations : Dict Conversation) (cache : Dict Str)
    → ((v : Str) → has v conversations ≡ has v w.conversations)
    → is_open (record w { conversations = conversations; cache = cache }) ≡ is_open w
unfolding is_open
same_open w conversations cache same = by (open_peer w.active_peer)
  where
    by :
        (peer : Option Str)
        → (elim peer as (λ _. Bool) [ none ↦ true | some u ↦ has u conversations ])
          ≡ (elim peer as (λ _. Bool) [ none ↦ true | some u ↦ has u w.conversations ])
    by none = refl
    by (some u) = same u

pub open_chat-opens : (u : Str) (w w' : Window) → open_chat u w ≡ ok w' → is_open w' ≡ true
unfolding open_chat is_open open_peer
open_chat-opens [] w w' h = ground arith
open_chat-opens (c ∷ u) w w' h = ground arith

module _ (E : Env) (w w' : Window) (before : is_open w ≡ true) where
  new_chat_run-opens :
      (name : Str) (s : State) (end' : NewChatEnd)
      → (new_chat_run E name w s).0 ≡ ok (w', end')
      → is_open w' ≡ true
  unfolding new_chat_run
  new_chat_run-opens name s end' h = elim (Result-cases (find_user E name s).0) [
    | inr (e, x) ↦ ground arith
    | inl (user, x) ↦
        let w1 = record w { conversations = ensure_conversation user.0 user.1 w.conversations } in
        elim (Result-cases (open_chat user.0 w1)) [
          | inr (e, y) ↦ absurd (ground arith)
          | inl (o, y) ↦ ground (arith, open_chat-opens user.0 w1 o y)
        ]
  ]

  pub new_chat-opens :
      (name : Option Str) (s : State) (end' : NewChatEnd)
      → (new_chat E name w s).0 ≡ ok (w', end')
      → is_open w' ≡ true
  unfolding new_chat
  new_chat-opens none s end' h = ground arith
  new_chat-opens (some []) s end' h = ground arith
  new_chat-opens (some (c ∷ name)) s end' h = new_chat_run-opens (strip (c ∷ name)) s end' h

  pub marked-opens :
      (changed : Bool) (u : Str)
      → is_open (record w { conversations = mark_warning changed u w.conversations }) ≡ true
  marked-opens changed u =
      same_open w (mark_warning changed u w.conversations) w.cache
        (λ v. has-mark_warning changed u v w.conversations)
      ∙ before

  forward_text-opens :
      (m : Message) (to : Str) (text : Option Str) (s : State) (end' : ForwardEnd)
      → (forward_text E m to text w s).0 ≡ ok (w', end')
      → is_open w' ≡ true
  unfolding forward_text
  forward_text-opens m to none s end' h = ground arith
  forward_text-opens m to (some text) s end' h =
      elim (Result-cases (forward_body E m to text s).0) [
        | inr (e, x) ↦ ground arith
        | inl ((u, changed), x) ↦ ground (arith, marked-opens changed u)
      ]

  forward_run-opens :
      (unlocked : Bool) (m : Message) (to : Str) (s : State) (end' : ForwardEnd)
      → (forward_run E unlocked m to w s).0 ≡ ok (w', end')
      → is_open w' ≡ true
  unfolding forward_run
  forward_run-opens false m to s end' h = ground arith
  forward_run-opens true m to s end' h =
      elim (Result-cases (text_to_forward (field_of (lit "plaintext") m))) [
        | inr (e, x) ↦ absurd (ground arith)
        | inl (text, x) ↦ forward_text-opens m to text s end' (ground arith)
      ]

  pub forward_msg-opens :
      (unlocked : Bool) (m : Message) (to : Option Str) (s : State) (end' : ForwardEnd)
      → (forward_msg E unlocked m to w s).0 ≡ ok (w', end')
      → is_open w' ≡ true
  unfolding forward_msg
  forward_msg-opens unlocked m none s end' h = ground arith
  forward_msg-opens unlocked m (some to) s end' h = elim (Bool-cases (str_eq (strip to) [])) [
    | inl b ↦ ground arith
    | inr b ↦ forward_run-opens unlocked m (strip to) s end' (ground arith)
  ]

  pub delete_msg-opens :
      (m : Message) (s : State) (answer : Result (Option Json))
      → (delete_msg E m w s).0 ≡ ok (w', answer)
      → is_open w' ≡ true
  unfolding delete_msg
  delete_msg-opens m s answer h = elim (as_text-cases (field_of (lit "messageId") m)) [
    | inr (e, other) ↦ absurd (ground (arith, other s))
    | inl (id, named) ↦ elim (Option-cases w.active_peer) [
      | inl x ↦ absurd (ground (arith, as_text_str id s))
      | inr (u, x) ↦
          let smaller = record w {
            conversations = drop_message w.active_peer id w.conversations;
            cache = erase id w.cache;
          } in
          elim (Result-cases (open_chat u smaller)) [
            | inr (e, y) ↦ absurd (ground (arith, as_text_str id s))
            | inl (o, y) ↦ ground (arith, as_text_str id s, open_chat-opens u smaller o y)
          ]
    ]
  ]

  cleared-opens : (u : Str) → is_open (clear_warning u w) ≡ true
  unfolding clear_warning
  cleared-opens u = elim (Option-cases (lookup u w.conversations)) [
    | inl h ↦ ground arith
    | inr (c, h) ↦
        let kept : (v : Str)
            → has v (insert u (cleared c) w.conversations) ≡ has v w.conversations =
          λ v. ground (arith, has-insert u v (cleared c) w.conversations, str_eq_iff u v) in
        ground (arith, same_open w (insert u (cleared c) w.conversations) w.cache kept)
  ]

  pub accept_key-opens :
      (unlocked : Bool) (u : Str) (s : State) (failure : Option Exc)
      → (accept_key E unlocked u w s).0 ≡ ok (w', failure)
      → is_open w' ≡ true
  unfolding accept_key
  accept_key-opens unlocked [] s failure h = ground arith
  accept_key-opens false (c ∷ u) s failure h = ground (arith, cleared-opens (c ∷ u))
  accept_key-opens true (c ∷ u) s failure h = elim (Result-cases (repin E (c ∷ u) s).0) [
    | inr (e, x) ↦ ground arith
    | inl (r, x) ↦ ground (arith, cleared-opens (c ∷ u))
  ]
