-- ===== src/Ui/Conversations/Letters.antt =====
-- The new messages of one sender, before and after the loop of `_decrypt_inbox` of
-- client/src/ui/main_frame.py.
use mathlib.Core.List.{append-nil, append_assoc}
use cs4455_epic.Base.{
  ◌≡◌, refl, sym, ap, ◌∙◌, arith, inl, inr, Bool, Bool-cases, Option-cases, true, false, Option,
  some, none, List, [], ◌∷◌, ◌++◌, All, if◌then◌else◌,
}
use cs4455_epic.Base.Int.{ℤ}
use cs4455_epic.Base.Dict.{Dict, lookup, insert}
use cs4455_epic.Base.Text.{Str, Bytes, lit, str_eq_refl}
use cs4455_epic.Codec.Base64.{b64encode}
use cs4455_epic.Codec.Utf8.{IsScalar}
use cs4455_epic.Errors.{Result, Result-cases, ok, err, type_error}
use cs4455_epic.Json.{Json, null, bool, int, str, arr, obj, truthy}
use cs4455_epic.Env.{Env}
use cs4455_epic.Py.{FileData, State, PrivateKeys}
use cs4455_epic.Crypto.Messaging.{Sealed, seal, is_replay}
use cs4455_epic.Crypto.Messaging.Roundtrip.{Carries}
use cs4455_epic.Keystore.{pin_of, set_recv_seq, save_message_cache}
use cs4455_epic.Keystore.Atomic.{save_frame}
use cs4455_epic.Keystore.Loading.{Holds}
use cs4455_epic.Keystore.Counters.{with_recv, set_recv_seq-ok}
use cs4455_epic.Api.Endpoints.{get_keys}
use cs4455_epic.Services.KeyService.Pinning.{Holds-get_keys}
use cs4455_epic.Services.KeyService.Fetching.{get_keys_frame}
use cs4455_epic.Services.MessageService.{id_of, id_text}
use cs4455_epic.Ui.Conversations.Grouping.{Message, field_of, peer_of, append_to, group_from}
use cs4455_epic.Ui.Conversations.{View, with_plaintext, keep_cache}

-- A message of the server, with its id, and the text and the number that were sealed.
pub record Letter : Type 0 where
  pub message : Message
  pub id : Str
  pub text : Str
  pub number : ℤ

text_of_ok : (v : Json) (t : Str) → elim v [ str s ↦ ok s | _ ↦ err type_error ] ≡ ok t → v ≡ str t
text_of_ok (str s) t h = ground arith
text_of_ok null t h = absurd (ground arith)
text_of_ok (bool b) t h = absurd (ground arith)
text_of_ok (int i) t h = absurd (ground arith)
text_of_ok (arr xs) t h = absurd (ground arith)
text_of_ok (obj fs) t h = absurd (ground arith)

-- The sender by whom a message is grouped is the one by whom it is received.
pub id_of-peer_of :
    (m : Message) (sender : Str)
    → peer_of (lit "senderId") (lit "sender_id") m ≡ ok sender
    → id_of (lit "senderId") (lit "sender_id") m ≡ str sender
unfolding peer_of id_of
id_of-peer_of m sender h = elim (Bool-cases (truthy (field_of (lit "senderId") m))) [
  | inl b ↦
      let same : field_of (lit "senderId") m ≡ str sender =
        text_of_ok (field_of (lit "senderId") m) sender (ground arith) in
      ground arith
  | inr b ↦
      let same : field_of (lit "sender_id") m ≡ str sender =
        text_of_ok (field_of (lit "sender_id") m) sender (ground arith) in
      elim (Option-cases (lookup (lit "sender_id") m)) [
        | inl none_there ↦ absurd (ground arith)
        | inr (v, there) ↦ ground arith
      ]
]

-- The messages as the loop shows them; `changed` says that the server names other keys now.
abbrev pub as_shown : Bool → Letter → Message
as_shown changed l =
    with_plaintext l.text
      (if changed then insert (lit "_key_warning") (bool true) l.message else l.message)

-- What the loop leaves in the cache.
abbrev pub view_after : List Letter → View → View
view_after [] view = view
view_after (l ∷ ls) view = view_after ls (insert l.id l.text view.0, true)

-- The number of the last one.
abbrev pub last_number : List Letter → Option ℤ → Option ℤ
last_number [] last = last
last_number (l ∷ ls) last = last_number ls (some l.number)

abbrev pub seq_after : Env → Str → ℤ → State → State
seq_after E sender n s = (set_recv_seq E sender n (get_keys E sender s).1).1

module _ (peer : Message → Result Str) (u : Str) where
  group_from-more :
      (acc ms : List Message)
      → All (λ m. peer m ≡ ok u) ms
      → group_from peer ms ((u, acc) ∷ []) ≡ ok ((u, acc ++ ms) ∷ [])
  unfolding group_from append_to lookup insert
  group_from-more acc [] h = ap (λ l. ok ((u, l) ∷ [])) (sym (append-nil acc))
  group_from-more acc (m ∷ ms) h = ground (
    arith,
    h.0,
    str_eq_refl u,
    group_from-more (acc ++ (m ∷ [])) ms h.1,
    append_assoc acc (m ∷ []) ms,
  )

  -- Messages that all name one peer are one group, in the order of the server.
  pub group_from-single :
      (m : Message) (ms : List Message)
      → All (λ m. peer m ≡ ok u) (m ∷ ms)
      → group_from peer (m ∷ ms) [] ≡ ok ((u, m ∷ ms) ∷ [])
  unfolding group_from append_to lookup insert
  group_from-single m ms h = ground (arith, h.0, group_from-more (m ∷ []) ms h.1)

pub keep_cache-ok :
    (E : Env) (added : Bool) (cache : Dict Str) (s : State) → (keep_cache E added cache s).0 ≡ ok tt
unfolding keep_cache
keep_cache-ok E false cache s = refl
keep_cache-ok E true cache s = elim (Result-cases (save_message_cache E cache s).0) [
  | inl (u, x) ↦ ground arith
  | inr (e, x) ↦ ground arith
]

module _ (E : Env) (sender owner : Str) (their_x their_ed : Bytes) (priv : PrivateKeys) where
  -- The sender sealed the letter for the owner, and the message carries the fields.
  pub record IsSealed (l : Letter) : Type 0 where
    pub named : field_of (lit "messageId") l.message ≡ str l.id
    pub from : peer_of (lit "senderId") (lit "sender_id") l.message ≡ ok sender
    pub full : truthy (field_of (lit "ciphertext") l.message) ≡ true
    pub scalars : All IsScalar l.text
    pub state : State
    pub fields : Sealed
    pub sealed :
        (seal E l.text sender owner l.number their_x their_ed (E.x25519_public priv.x25519) state).0
        ≡ ok fields
    pub carries : Carries l.message fields

  -- The letters are sealed, none is in the cache, and each number is above the ones before it.
  abbrev pub ArePending : Option ℤ → Dict Str → List Letter → Type 0
  ArePending last cache [] = Unit
  ArePending last cache (l ∷ ls) =
      IsSealed l
      × (lookup l.id cache ≡ none)
      × (is_replay true last l.number ≡ false)
      × ArePending (some l.number) (insert l.id l.text cache) ls

  -- An unlocked client of the owner, whose pins are the sender's keys.
  pub record IsReady (s : State) (d : FileData) : Type 0 where
    pub holds : Holds s d
    pub unlocked : s.keystore.keys ≡ some priv
    pub is_owner : id_text s.session.user_id ≡ owner
    pub pinned_x : pin_of sender (lit "x25519") d ≡ some (b64encode (E.x25519_public their_x))
    pub pinned_ed : pin_of sender (lit "ed25519") d ≡ some (b64encode (E.ed25519_public their_ed))

  pub asked-IsReady : (s : State) (d : FileData) → IsReady s d → IsReady (get_keys E sender s).1 d
  asked-IsReady s d r =
      let (same_keystore, same_session) = get_keys_frame E sender s in
      record {
        holds = Holds-get_keys E sender s d r.holds;
        unlocked = ap (λ k. k.keys) same_keystore ∙ r.unlocked;
        is_owner = ap (λ k. id_text k.user_id) same_session ∙ r.is_owner;
        pinned_x = r.pinned_x;
        pinned_ed = r.pinned_ed;
      }

  pub set_recv_seq-IsReady :
      (n : ℤ) (s : State) (d : FileData)
      → IsReady s d
      → IsReady (set_recv_seq E sender n s).1 (with_recv sender n d)
  unfolding set_recv_seq
  set_recv_seq-IsReady n s d r =
      let frame = save_frame E (with_recv sender n d) s in
      record {
        holds = (set_recv_seq-ok E sender s d r.holds n).1;
        unlocked = ground (arith, r.holds, frame, r.unlocked);
        is_owner = ground (arith, r.holds, frame, r.is_owner);
        pinned_x = r.pinned_x;
        pinned_ed = r.pinned_ed;
      }
