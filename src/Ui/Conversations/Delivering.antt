-- ===== src/Ui/Conversations/Delivering.antt =====
-- The loop of `_decrypt_inbox` of client/src/ui/main_frame.py over the new messages of one sender.
use mathlib.Core.Path.{subst}
use cs4455_epic.Base.{
  ◌≡◌, refl, sym, ap, ◌∙◌, arith, true, false, Option, some, none, List, [], ◌∷◌, ◌&&◌, map, All,
}
use cs4455_epic.Base.Dict.{Dict, lookup, insert, get_or, lookup-insert_self}
use cs4455_epic.Base.Text.{Str, Bytes, lit}
use cs4455_epic.Codec.Base64.{b64encode}
use cs4455_epic.Errors.{ok}
use cs4455_epic.Json.{Json}
use cs4455_epic.Env.{Env, IsLawful}
use cs4455_epic.Py.{FileData, State, PrivateKeys}
use cs4455_epic.Crypto.Messaging.{seal, is_replay}
use cs4455_epic.Keystore.{last_recv_seq, set_recv_seq}
use cs4455_epic.Keystore.Counters.{with_recv}
use cs4455_epic.Api.Endpoints.{get_keys}
use cs4455_epic.Services.KeyService.{Found}
use cs4455_epic.Services.KeyService.Fetching.{Names, known, known-x, known-ed, fetch_and_pin-known}
use cs4455_epic.Services.MessageService.{as_text, peer_keys, receive}
use cs4455_epic.Services.MessageService.Accepting.{received, last_recv_seq-eq}
use cs4455_epic.Services.MessageService.Delivery.{accept-seal}
use cs4455_epic.Ui.Conversations.Grouping.{Message, peer_of, sort_messages}
use cs4455_epic.Ui.Conversations.{
  View, show_outcome, show_with_keys, show_uncached, show_received, show_all, show_groups,
  decrypt_inbox,
}
use cs4455_epic.Ui.Conversations.Letters.{
  Letter, as_shown, view_after, last_number, seq_after, IsSealed, ArePending, IsReady,
  id_of-peer_of, group_from-single, keep_cache-ok, asked-IsReady, set_recv_seq-IsReady,
}

module _ (E : Env) (sender owner : Str) (their_x their_ed : Bytes) (priv : PrivateKeys) where
  module _ (L : IsLawful E) {shared : Bytes}
      (agree : E.x25519_exchange their_x (E.x25519_public priv.x25519) ≡ ok shared)
      (x_now ed_now : Str) where
    abbrev keys : Found
    keys =
        known (b64encode (E.x25519_public their_x)) (b64encode (E.ed25519_public their_ed)) x_now
          ed_now

    receive-letter :
        (l : Letter) (s : State) (d : FileData)
        → IsReady E sender owner their_x their_ed priv s d
        → IsSealed E sender owner their_x their_ed priv l
        → is_replay true (received sender d) l.number ≡ false
        → receive E l.message (some keys) true s
          ≡ (ok (l.text, keys.1), (set_recv_seq E sender l.number s).1)
    unfolding receive peer_keys as_text
    receive-letter l s d r i fresh =
        let sealed =
          ap
            (λ o.
              (seal E l.text sender o l.number their_x their_ed (E.x25519_public priv.x25519)
                i.state).0)
            r.is_owner
          ∙ i.sealed in
        let accepted =
          accept-seal E L l.text sender l.number their_x their_ed priv i.state s d l.message
            i.fields keys r.holds agree i.scalars fresh sealed i.carries r.unlocked
            (known-x _ _ x_now ed_now) (known-ed _ _ x_now ed_now) in
        ground (arith, id_of-peer_of l.message sender i.from, accepted)

    module _ (resp : Option Json) (names : Names x_now ed_now resp)
        (answers : (t : State) → (get_keys E sender t).0 ≡ ok resp) where
      show_letter :
          (l : Letter) (view : View) (s : State) (d : FileData)
          → IsReady E sender owner their_x their_ed priv s d
          → IsSealed E sender owner their_x their_ed priv l
          → lookup l.id view.0 ≡ none
          → is_replay true (received sender d) l.number ≡ false
          → show_received E true sender l.message view s ≡ (
            ok (as_shown keys.1 l, (insert l.id l.text view.0, true)),
            seq_after E sender l.number s,
          )
      unfolding show_received show_uncached show_with_keys show_outcome as_text
      show_letter l (cache, added) s d r i new fresh =
          let fetched =
            fetch_and_pin-known E sender _ _ x_now ed_now s d r.holds r.pinned_x r.pinned_ed resp
              (answers s) names in
          let t = (get_keys E sender s).1 in
          ground (
            arith,
            i.named,
            i.full,
            fetched,
            known-x (b64encode (E.x25519_public their_x)) (b64encode (E.ed25519_public their_ed))
                x_now ed_now,
            known-ed (b64encode (E.x25519_public their_x)) (b64encode (E.ed25519_public their_ed))
                x_now ed_now,
            receive-letter l t d (asked-IsReady E sender owner their_x their_ed priv s d r) i fresh,
          )

      show_all-delivers :
          (ls : List Letter) (view : View) (s : State) (d : FileData)
          → IsReady E sender owner their_x their_ed priv s d
          → ArePending E sender owner their_x their_ed priv (received sender d) view.0 ls
          → ((show_all E true sender (map (λ l. l.message) ls) view s).0
              ≡ ok (map (as_shown keys.1) ls, view_after ls view))
            × ((last_recv_seq sender (show_all E true sender (map (λ l. l.message) ls) view s).1).0
                ≡ ok (last_number ls (received sender d)))
      unfolding show_all
      show_all-delivers [] view s d r p =
          (refl, ap (λ q. q.0) (last_recv_seq-eq sender s d r.holds))
      show_all-delivers (l ∷ ls) view s d r (i, new, fresh, later) =
          let shown = show_letter l view s d r i new fresh in
          let n = l.number in
          let d' = with_recv sender n d in
          let s' = seq_after E sender n s in
          let stored : received sender d' ≡ some n =
            lookup-insert_self sender n (get_or d.seq_recv []) in
          let next =
            set_recv_seq-IsReady E sender owner their_x their_ed priv n (get_keys E sender s).1 d
              (asked-IsReady E sender owner their_x their_ed priv s d r) in
          let (rest, last) =
            show_all-delivers ls (insert l.id l.text view.0, true) s' d' next
              (subst
                (λ q.
                  ArePending E sender owner their_x their_ed priv q (insert l.id l.text view.0) ls)
                (sym stored) later) in
          (ground (arith, shown, rest), ground (arith, shown, rest, last, stored))

      -- With packages that behave as documented: where the client is unlocked, has the sender's
      -- keys pinned and can agree with the sender on a secret, the server goes on answering
      -- requests for the sender's keys and names some keys, every message of the inbox is from
      -- this sender, and the inbox sorted by number is a list of messages with ciphertexts which
      -- the sender sealed for this user from Unicode texts, with ids that are neither in the cache
      -- nor among the earlier ones and with numbers each above the one before and above the last
      -- one accepted, `_decrypt_inbox` shows every message with the text that was sealed, and puts
      -- these texts into the cache. It marks each of them with a warning where the server names
      -- keys other than the pinned ones, and none where it names the pinned ones.
      pub decrypt_inbox_delivers :
          (ls : List Letter) (m : Message) (ms : List Message) (cache : Dict Str) (s : State)
          (d : FileData)
          → IsReady E sender owner their_x their_ed priv s d
          → All (λ m. peer_of (lit "senderId") (lit "sender_id") m ≡ ok sender) (m ∷ ms)
          → sort_messages (m ∷ ms) ≡ ok (map (λ l. l.message) ls)
          → ArePending E sender owner their_x their_ed priv (received sender d) cache ls
          → (decrypt_inbox E true (m ∷ ms) cache s).0
            ≡ ok ((sender, map (as_shown keys.1) ls) ∷ [], (view_after ls (cache, false)).0)
      unfolding decrypt_inbox show_groups
      decrypt_inbox_delivers ls m ms cache s d r same sorted pending =
          let shown = (show_all-delivers ls (cache, false) s d r pending).0 in
          let after = view_after ls (cache, false) in
          let t = (show_all E true sender (map (λ l. l.message) ls) (cache, false) s).1 in
          ground (
            arith,
            group_from-single (peer_of (lit "senderId") (lit "sender_id")) sender m ms same,
            sorted,
            shown,
            keep_cache-ok E (after.1 && true) after.0 t,
          )
