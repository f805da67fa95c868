-- ===== src/Services/MessageService/Delivery.antt =====
-- `receive` of client/src/services/message_service.py on what `seal` made.
use cs4455_epic.Base.{◌≡◌, ap, ◌∙◌, true, false, some, arith, All}
use cs4455_epic.Base.Int.{ℤ}
use cs4455_epic.Base.Dict.{Dict, lookup}
use cs4455_epic.Base.Text.{Str, Bytes, lit, str_eq_refl}
use cs4455_epic.Codec.Base64.{b64encode, b64decode-b64encode}
use cs4455_epic.Codec.Utf8.{IsScalar}
use cs4455_epic.Errors.{ok}
use cs4455_epic.Json.{Json}
use cs4455_epic.Env.{Env, IsLawful, AreBytes}
use cs4455_epic.Py.{FileData, State, PrivateKeys}
use cs4455_epic.Crypto.Wire.{decode_text}
use cs4455_epic.Crypto.Messaging.{Sealed, seal, is_replay}
use cs4455_epic.Crypto.Messaging.Roundtrip.{Carries, open-seal}
use cs4455_epic.Keystore.{last_recv_seq, set_recv_seq}
use cs4455_epic.Keystore.Loading.{Holds}
use cs4455_epic.Keystore.Counters.{set_recv_seq-ok, last_recv_seq-set}
use cs4455_epic.Services.KeyService.{Found}
use cs4455_epic.Services.MessageService.{id_text, accept}
use cs4455_epic.Services.MessageService.Accepting.{received, accept_opens}

decode_text-b64encode : (bs : Bytes) → AreBytes bs → decode_text (b64encode bs) ≡ ok bs
unfolding decode_text
decode_text-b64encode bs h = ground (arith, b64decode-b64encode bs h)

module _ (E : Env) (L : IsLawful E) (text sender : Str) (seq_no : ℤ) (their_x their_ed : Bytes)
    (priv : PrivateKeys) {shared : Bytes} (s0 s : State) (d : FileData) (m : Dict Json) (f : Sealed)
    (found : Found) (holds : Holds s d)
    (agree : E.x25519_exchange their_x (E.x25519_public priv.x25519) ≡ ok shared)
    (scalars : All IsScalar text) (fresh : is_replay true (received sender d) seq_no ≡ false)
    (sealed : (seal E text sender
        (id_text s.session.user_id)
        seq_no
        their_x
        their_ed
        (E.x25519_public priv.x25519)
        s0).0
      ≡ ok f)
    (carries : Carries m f) (unlocked : s.keystore.keys ≡ some priv)
    (has_x : lookup (lit "x25519") found.0 ≡ some (b64encode (E.x25519_public their_x)))
    (has_ed : lookup (lit "ed25519") found.0 ≡ some (b64encode (E.ed25519_public their_ed))) where
  pub accept-seal :
      accept E m sender found true s ≡ (ok (text, found.1), (set_recv_seq E sender seq_no s).1)
  accept-seal =
      let opened =
        open-seal E L text sender (id_text s.session.user_id) seq_no their_x their_ed priv.x25519 s0
          agree m (received sender d) true s scalars fresh f sealed carries in
      let ran =
        accept_opens E m sender found true s d holds _ _ priv (E.x25519_public their_x)
          (E.ed25519_public their_ed) (text, seq_no) has_x has_ed unlocked
          (decode_text-b64encode _ (L.x25519_public_bytes their_x))
          (decode_text-b64encode _ (L.ed25519_public_bytes their_ed)) opened in
      ground (arith, ran, (set_recv_seq-ok E sender s d holds seq_no).0)

  -- A message that the sender sealed for this user, with a number above the last one accepted from
  -- that sender, is accepted with the sender's public keys: the text comes back, and the number is
  -- the sender's last one from then on.
  pub accept_delivers :
      ((accept E m sender found true s).0 ≡ ok (text, found.1))
      × ((last_recv_seq sender (accept E m sender found true s).1).0 ≡ ok (some seq_no))
  accept_delivers = (
    ap (λ r. r.0) accept-seal,
    ap (λ r. (last_recv_seq sender r.1).0) accept-seal
        ∙ last_recv_seq-set E sender s d holds seq_no sender
        ∙ rw (str_eq_refl sender),
  )
