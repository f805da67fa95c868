-- ===== src/Ui/Conversations.antt =====
-- The worker of client/src/ui/main_frame.py that decrypts the messages for display: `_decrypt_inbox`
-- and `_decrypt_sent`. A message is the dict of the server, which the worker changes in place; the
-- model returns the changed dicts, by group, in the order in which they are worked through. An id
-- of a message or of a peer that is no text is a `TypeError` here.
pub mod Grouping
pub mod Sorting
pub mod Caching
pub mod Showing
pub mod Letters
pub mod Delivering
use cs4455_epic.Base.{
  Bool, true, false, not, ◌&&◌, Option, none, some, List, [], ◌∷◌, if◌then◌else◌,
}
use cs4455_epic.Base.Dict.{Dict, lookup, insert, is_some}
use cs4455_epic.Base.Text.{Str, lit}
use cs4455_epic.Errors.{Result, ok, err, signature_error, replay_error}
use cs4455_epic.Json.{Json, null, bool, str, truthy}
use cs4455_epic.Env.{Env}
use cs4455_epic.Py.{Py, pure, lift, catch, ◌>>=◌, ◌>>◌}
use cs4455_epic.Keystore.{save_message_cache}
use cs4455_epic.Ui.Conversations.Grouping.{Message, field_of, peer_of, group_from, sort_messages}
use cs4455_epic.Services.KeyService.{fetch_and_pin, Found}
use cs4455_epic.Services.MessageService.{receive, decrypt_own, as_text}

-- `self._plaintext_cache`, and `added`.
abbrev pub View : Type 0
View = Dict Str × Bool

-- `m["plaintext"] = text`
abbrev pub with_plaintext : Str → Message → Message
with_plaintext text m = insert (lit "plaintext") (str text) m

-- `try: m` where the handler looks at what came out.
abbrev pub attempt : {A : Type 0} → Py A → Py (Result A)
attempt m s = let (r, t) = m s in (ok r, t)

module _ (E : Env) where
  -- The display of a message whose replay check failed: decrypted again, for the view alone.
  unfoldable pub show_again : Message → Str → View → Result (Str × Bool) → Py (Message × View)
  show_again m message_id (cache, added) (ok (pt, changed)) =
      pure (with_plaintext pt m, (insert message_id pt cache, true))
  show_again m message_id view (err e) =
      pure (with_plaintext (lit "[encrypted — cannot decrypt]") m, view)

  -- The outcome of the first `receive`.
  unfoldable pub show_outcome :
      Message → Str → Found → View → Result (Str × Bool) → Py (Message × View)
  unfolding show_again
  show_outcome m message_id found (cache, added) (ok (pt, changed)) =
      let warned = if found.1 then insert (lit "_key_warning") (bool true) m else m in
      pure (with_plaintext pt warned, (insert message_id pt cache, true))
  show_outcome m message_id found view (err signature_error) =
      pure (with_plaintext (lit "[unverified — signature check failed]") m, view)
  show_outcome m message_id found view (err replay_error) = do
    again ← attempt (receive E m (some found) false)
    show_again m message_id view again
  show_outcome m message_id found view (err _) =
      pure (with_plaintext (lit "[encrypted — cannot decrypt]") m, view)

  unfoldable pub show_with_keys : Message → Str → View → Result Found → Py (Message × View)
  unfolding show_outcome
  show_with_keys m message_id view (err e) =
      pure (with_plaintext (lit "[encrypted — cannot fetch sender key]") m, view)
  show_with_keys m message_id view (ok found) =
      if is_some (lookup (lit "x25519") found.0) && is_some (lookup (lit "ed25519") found.0)
      then (do
        outcome ← attempt (receive E m (some found) true)
        show_outcome m message_id found view outcome)
      else pure (with_plaintext (lit "[encrypted — sender key missing]") m, view)

  -- The loop's body after the look into the cache; the flag tells whether there is a keystore.
  unfoldable pub show_uncached : Bool → Str → Message → Str → View → Py (Message × View)
  unfolding show_with_keys
  show_uncached unlocked sender_id m message_id view =
      if not (truthy (field_of (lit "ciphertext") m))
      then pure (m, view)
      else if not unlocked
      then pure (with_plaintext (lit "[encrypted — keys locked]") m, view)
      else (do found ← attempt (fetch_and_pin E sender_id); show_with_keys m message_id view found)

  -- The loop's body.
  unfoldable pub show_received : Bool → Str → Message → View → Py (Message × View)
  unfolding show_uncached
  show_received unlocked sender_id m view = do
    message_id ← as_text (field_of (lit "messageId") m)
    elim (lookup message_id view.0) [
      | some pt ↦ pure (with_plaintext pt m, view)
      | none ↦ show_uncached unlocked sender_id m message_id view
    ]

  unfoldable pub show_all : Bool → Str → List Message → View → Py (List Message × View)
  unfolding show_received
  show_all unlocked sender_id [] view = pure ([], view)
  show_all unlocked sender_id (m ∷ ms) view = do
    shown ← show_received unlocked sender_id m view
    rest ← show_all unlocked sender_id ms shown.1
    pure (shown.0 ∷ rest.0, rest.1)

  unfoldable pub show_groups : Bool → Dict (List Message) → View → Py (Dict (List Message) × View)
  unfolding show_all sort_messages
  show_groups unlocked [] view = pure ([], view)
  show_groups unlocked ((sender_id, ms) ∷ groups) view = do
    sorted ← lift (sort_messages ms)
    shown ← show_all unlocked sender_id sorted view
    rest ← show_groups unlocked groups shown.1
    pure ((sender_id, shown.0) ∷ rest.0, rest.1)

  -- `if added: try: ks.save_message_cache(cache)`
  unfoldable pub keep_cache : Bool → Dict Str → Py (Unit {0})
  keep_cache added cache =
      if added then catch (save_message_cache E cache) (λ e. pure tt) else pure tt

  -- `_decrypt_inbox`: the groups by sender, and the cache.
  unfoldable pub decrypt_inbox :
      Bool → List Message → Dict Str → Py (Dict (List Message) × Dict Str)
  unfolding show_groups keep_cache
  decrypt_inbox unlocked inbox cache = do
    groups ← lift (group_from (peer_of (lit "senderId") (lit "sender_id")) inbox [])
    shown ← show_groups unlocked groups (cache, false)
    keep_cache (shown.1.1 && unlocked) shown.1.0
    pure (shown.0, shown.1.0)

  -- What the loop of `_decrypt_sent` does with a message that is not cached, once the recipient's
  -- keys are there.
  unfoldable pub show_own : Message → Json → Dict Str → View → Py (Message × View)
  show_own m message_id pinned (cache, added) = do
    outcome ← attempt (decrypt_own E m (some (pinned, false)))
    elim outcome [
      | err e ↦ pure (m, (cache, added))
      | ok pt ↦
          if truthy message_id
          then (do
            key ← as_text message_id
            pure (with_plaintext pt m, (insert key pt cache, true)))
          else pure (with_plaintext pt m, (cache, added))
    ]

  -- `pinned`, fetched once per recipient; `none` is the `break`.
  unfoldable pub recipient_keys : Str → Option (Dict Str) → Py (Option (Dict Str))
  recipient_keys recipient_id (some pinned) = pure (some pinned)
  recipient_keys recipient_id none = do
    found ← attempt (fetch_and_pin E recipient_id)
    elim found [
      | err e ↦ pure none
      | ok got ↦ if is_some (lookup (lit "x25519") got.0) then pure (some got.0) else pure none
    ]

  -- `self._plaintext_cache.get(message_id)`; a missing id is not in the cache.
  unfoldable pub cached_text : Json → Dict Str → Py (Option Str)
  cached_text null cache = pure none
  cached_text message_id cache = do key ← as_text message_id; pure (lookup key cache)

  unfoldable pub show_sent :
      Str → List Message → Option (Dict Str) → View → Py (List Message × View)
  unfolding cached_text recipient_keys show_own
  show_sent recipient_id [] pinned view = pure ([], view)
  show_sent recipient_id (m ∷ ms) pinned view = do
    let message_id = field_of (lit "messageId") m
    cached ← cached_text message_id view.0
    elim cached [
      | some pt ↦ (do
        rest ← show_sent recipient_id ms pinned view
        pure (with_plaintext pt m ∷ rest.0, rest.1))
      | none ↦
          if not (truthy (field_of (lit "ciphertext") m))
          then (do rest ← show_sent recipient_id ms pinned view; pure (m ∷ rest.0, rest.1))
          else (do
            keys ← recipient_keys recipient_id pinned
            elim keys [
              | none ↦ pure (m ∷ ms, view)
              | some pinned ↦ (do
                shown ← show_own m message_id pinned view
                rest ← show_sent recipient_id ms (some pinned) shown.1
                pure (shown.0 ∷ rest.0, rest.1))
            ])
    ]

  unfoldable pub show_sent_groups : Dict (List Message) → View → Py (Dict (List Message) × View)
  unfolding show_sent
  show_sent_groups [] view = pure ([], view)
  show_sent_groups ((recipient_id, ms) ∷ groups) view = do
    shown ← show_sent recipient_id ms none view
    rest ← show_sent_groups groups shown.1
    pure ((recipient_id, shown.0) ∷ rest.0, rest.1)

  -- `_decrypt_sent` with a keystore: the groups by recipient, and the cache.
  unfoldable pub decrypt_sent : List Message → Dict Str → Py (Dict (List Message) × Dict Str)
  unfolding show_sent_groups keep_cache
  decrypt_sent sent cache = do
    groups ← lift (group_from (peer_of (lit "recipientId") (lit "recipient_id")) sent [])
    shown ← show_sent_groups groups (cache, false)
    keep_cache shown.1.1 shown.1.0
    pure (shown.0, shown.1.0)
