-- ===== src/Ui/Drawing/Sides.antt =====
-- On which side the chat of client/src/ui/message_frame.py draws a message, and for which messages
-- it offers a deletion.
use mathlib.Core.Path.{subst}
use mathlib.Core.List.{Perm, filter_map, append-nil}
use mathlib.Core.List.Perm
use cs4455_epic.Base.{
  ◌≡◌, refl, ap, sym, ◌∙◌, arith, Bool, true, false, Option, none, some, List, [], ◌∷◌, ◌++◌,
  if◌then◌else◌, inl, inr, All, Option-cases, Bool-cases,
}
use cs4455_epic.Base.Dict.{
  Dict, lookup, insert, erase, lookup-insert, lookup-insert_self, lookup-erase,
}
use cs4455_epic.Base.Text.{Str, lit, str_eq}
use cs4455_epic.Errors.{Result-cases, ok}
use cs4455_epic.Json.{bool, str, truthy}
use cs4455_epic.Ui.Conversations.Grouping.{Message, field_of}
use cs4455_epic.Ui.Populate.{
  Conversation, Entry, rename, norm, text_at, entry_at, received_entry, cached_for, sent_text,
  with_sent_text, sent_entry, populate,
}
use cs4455_epic.Ui.Populate.Threads.{thread_of, shown_for, shown_for-All, populate-IsByTime}
use cs4455_epic.Ui.Times.{Calendar}
use cs4455_epic.Ui.Drawing.{Button, delete_button, action_buttons, msg_bubble}

-- A button deletes the message.
unfoldable pub has_delete : List Button → Bool
has_delete [] = false
has_delete (delete_button ∷ buttons) = true
has_delete (_ ∷ buttons) = has_delete buttons

-- The message's own side, as the dict says.
abbrev Side : Bool → Message → Type 0
Side mine m = lookup (lit "_mine") m ≡ some (bool mine)

rename_keeps :
    (camel snake key : Str) (m : Message)
    → str_eq camel key ≡ false
    → str_eq snake key ≡ false
    → lookup key (rename camel snake m) ≡ lookup key m
unfolding rename
rename_keeps camel snake key m c d = elim (Option-cases (lookup camel m)) [
  | inl x ↦ ground arith
  | inr (v, x) ↦ ground (arith, lookup-insert snake key v (erase camel m), lookup-erase camel key m)
]

norm_keeps : (m : Message) → lookup (lit "_mine") (norm m) ≡ lookup (lit "_mine") m
unfolding norm str_eq
norm_keeps m =
    rename_keeps (lit "chainStatus") (lit "chain_status") (lit "_mine") _ refl refl
    ∙ rename_keeps (lit "createdAt") (lit "created_at") (lit "_mine") _ refl refl
    ∙ rename_keeps (lit "recipientUsername") (lit "recipient_username") (lit "_mine") _ refl refl
    ∙ rename_keeps (lit "senderUsername") (lit "sender_username") (lit "_mine") _ refl refl
    ∙ rename_keeps (lit "recipientId") (lit "recipient_id") (lit "_mine") _ refl refl
    ∙ rename_keeps (lit "senderId") (lit "sender_id") (lit "_mine") m refl refl

norm-Side : (mine : Bool) (m : Message) → Side mine (norm (insert (lit "_mine") (bool mine) m))
norm-Side mine m =
    norm_keeps (insert (lit "_mine") (bool mine) m) ∙ lookup-insert_self (lit "_mine") (bool mine) m

-- The message of an entry is the one that was given.
entry_at_message :
    (id_key name_key : Str) (m : Message) (x : Entry)
    → entry_at id_key name_key m ≡ ok x
    → x.1.1 ≡ m
entry_at_message id_key name_key m x h = elim (Result-cases (text_at id_key m)) [
  | inl (u, e) ↦ ground arith
  | inr (e, y) ↦ absurd (ground arith)
]

received-Side : (m : Message) (x : Entry) → received_entry m ≡ ok x → Side false x.1.1
unfolding received_entry
received-Side m x h =
    let there = norm (insert (lit "_mine") (bool false) m) in
    subst (λ y. Side false y)
      (sym (entry_at_message (lit "sender_id") (lit "sender_username") there x h))
      (norm-Side false m)

with_sent_text-Side :
    (cache : Dict Str) (m m' : Message)
    → with_sent_text cache m ≡ ok m'
    → Side true m
    → Side true m'
unfolding with_sent_text str_eq
with_sent_text-Side cache m m' h side = elim (Bool-cases (truthy (field_of (lit "plaintext") m))) [
  | inl b ↦ ground arith
  | inr b ↦ elim (Result-cases (cached_for cache (field_of (lit "messageId") m))) [
    | inr (e, y) ↦ absurd (ground arith)
    | inl (o, y) ↦
        ground (arith, lookup-insert (lit "plaintext") (lit "_mine") (str (sent_text o)) m)
  ]
]

sent-Side :
    (cache : Dict Str) (m : Message) (x : Entry) → sent_entry cache m ≡ ok x → Side true x.1.1
unfolding sent_entry
sent-Side cache m x h =
    let there = norm (insert (lit "_mine") (bool true) m) in
    elim (Result-cases (with_sent_text cache there)) [
      | inr (e, y) ↦ absurd (ground arith)
      | inl (m', y) ↦
          let same : x.1.1 ≡ m' =
            entry_at_message (lit "recipient_id") (lit "recipient_username") m' x (ground arith) in
          subst (λ l. Side true l) (sym same)
            (with_sent_text-Side cache there m' y (norm-Side true m))
    ]

module _ (K : Calendar) where
  -- The bubble of the message has a button that deletes it.
  pub offers_delete : Message → Bool
  offers_delete m = has_delete (msg_bubble K m).buttons

  -- The messages that can be deleted, and the others, in order.
  abbrev pub deletable : List Message → List Message
  deletable = filter_map (λ m. if offers_delete m then some m else none)

  abbrev pub not_deletable : List Message → List Message
  not_deletable = filter_map (λ m. if offers_delete m then none else some m)

  offers_delete-Side : (mine : Bool) (m : Message) → Side mine m → offers_delete m ≡ mine
  unfolding offers_delete has_delete msg_bubble action_buttons
  offers_delete-Side true m side = ground arith
  offers_delete-Side false m side = ground arith

  deletable-received :
      (ms more : List Message) → All (Side false) ms → deletable (ms ++ more) ≡ deletable more
  unfolding filter_map
  deletable-received [] more h = refl
  deletable-received (m ∷ ms) more h =
      ground (arith, offers_delete-Side false m h.0, deletable-received ms more h.1)

  deletable-sent : (ms : List Message) → All (Side true) ms → deletable ms ≡ ms
  unfolding filter_map
  deletable-sent [] h = refl
  deletable-sent (m ∷ ms) h = ground (arith, offers_delete-Side true m h.0, deletable-sent ms h.1)

  not_deletable-received :
      (ms more : List Message)
      → All (Side false) ms
      → not_deletable (ms ++ more) ≡ ms ++ not_deletable more
  unfolding filter_map
  not_deletable-received [] more h = refl
  not_deletable-received (m ∷ ms) more h =
      ground (arith, offers_delete-Side false m h.0, not_deletable-received ms more h.1)

  not_deletable-sent : (ms : List Message) → All (Side true) ms → not_deletable ms ≡ []
  unfolding filter_map
  not_deletable-sent [] h = refl
  not_deletable-sent (m ∷ ms) h =
      ground (arith, offers_delete-Side true m h.0, not_deletable-sent ms h.1)

  -- Where `_populate` does not raise: in the conversation with a peer, the messages whose bubble
  -- offers a deletion are the sent messages to this peer, and the others are the received ones from
  -- it, each as often as the server returned it; whatever fields the server put into a message.
  pub populate_sides :
      (active_peer : Option Str) (old : Dict Conversation) (cache : Dict Str)
      (inbox sent : List Message) (u : Str) (out : Dict Conversation) (redrawn : Bool)
      → populate active_peer old cache inbox sent ≡ ok (out, redrawn)
      → Perm (shown_for (sent_entry cache) u sent) (deletable (thread_of u out))
        × Perm (shown_for received_entry u inbox) (not_deletable (thread_of u out))
  populate_sides active_peer old cache inbox sent u out redrawn h =
      let thread = (populate-IsByTime active_peer old cache inbox sent u out redrawn h).perm in
      let a = shown_for received_entry u inbox in
      let b = shown_for (sent_entry cache) u sent in
      let on_left = shown_for-All (Side false) received_entry u received-Side inbox in
      let on_right = shown_for-All (Side true) (sent_entry cache) u (sent-Side cache) sent in
      (
        subst (λ l. Perm l (deletable (thread_of u out)))
            (deletable-received a b on_left ∙ deletable-sent b on_right) (Perm.filter_map _ thread),
        subst (λ l. Perm l (not_deletable (thread_of u out)))
            (not_deletable-received a b on_left
              ∙ ap (λ l. a ++ l) (not_deletable-sent b on_right)
              ∙ append-nil a)
            (Perm.filter_map _ thread),
      )
