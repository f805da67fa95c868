-- ===== src/Services/MessageService/Replay.antt =====
-- `receive` of client/src/services/message_service.py: the counters of received messages.
use cs4455_epic.Base.{
  ◌≡◌, refl, ap, ◌∙◌, sym, ◌⊎◌, Bool, true, false, Option, some, none, arith, inl, inr,
  if◌then◌else◌,
}
use cs4455_epic.Base.Int.{ℤ, ◌<ℤ◌}
use cs4455_epic.Base.Dict.{Dict}
use cs4455_epic.Base.Text.{Str, lit, str_eq}
use cs4455_epic.Errors.{Exc, type_error, Result-cases, ok, err}
use cs4455_epic.Json.{Json, null, bool, int, str, arr, obj}
use cs4455_epic.Env.{Env}
use cs4455_epic.Py.{FileData, State, pure, ◌>>◌}
use cs4455_epic.Crypto.Messaging.{is_replay}
use cs4455_epic.Crypto.Wire.{Wire, read_fields}
use cs4455_epic.Crypto.Messaging.Checks.{open_message-Accepted, fresh_of_not_replay}
use cs4455_epic.Keystore.{last_recv_seq, set_recv_seq}
use cs4455_epic.Keystore.Loading.{Holds}
use cs4455_epic.Keystore.Counters.{last_recv_seq-set}
use cs4455_epic.Services.Growth.{Grows, Grows-pure}
use cs4455_epic.Services.KeyService.{Found}
use cs4455_epic.Services.KeyService.Pinning.{fetch_and_pin-Grows}
use cs4455_epic.Services.MessageService.{id_text, id_of, as_text, peer_keys, accept, receive}
use cs4455_epic.Services.MessageService.Accepting.{received, last_recv_seq-eq, accept-Passed}

-- The counters of received messages after a message from a sender was accepted: its number is
-- above the one recorded before, and is recorded; no other counter changes.
abbrev pub Advances : Dict Json → Str → State → State → Type 0
Advances m sender s t =
    (w : Wire) × (read_fields m ≡ ok w)
    × ((v : Str)
        → (last_recv_seq v t).0
          ≡ (if str_eq sender v then ok (some w.seq_no) else (last_recv_seq v s).0))
    × ((last : ℤ) → (last_recv_seq sender s).0 ≡ ok (some last) → last <ℤ w.seq_no)

pub recorded :
    (E : Env) (sender : Str) (o : Str × ℤ) (changed : Bool) (s : State)
    → ((set_recv_seq E sender o.1 >> pure {A = Str × Bool} (o.0, changed)) s).1
      ≡ (set_recv_seq E sender o.1 s).1
recorded E sender o changed s = ground arith

above_last :
    (sender : Str) (s : State) (d : FileData)
    → Holds s d
    → (last n w : ℤ) → (last_recv_seq sender s).0 ≡ ok (some last)
    → is_replay true (received sender d) w ≡ false
    → w ≡ n
    → last <ℤ n
above_last sender s d h last n w old fresh number =
    let e : received sender d ≡ some last = cc (last_recv_seq-eq sender s d h, old) in
    fresh_of_not_replay last n (cc (e, fresh, number))

Advances-from :
    (m : Dict Json) (sender : Str) (s t u : State) (d d' : FileData)
    → Holds s d
    → Holds t d'
    → d'.seq_recv ≡ d.seq_recv
    → Advances m sender t u
    → Advances m sender s u
Advances-from m sender s t u d d' h h' same (w, read, after, above) =
    let earlier : (v : Str) → (last_recv_seq v t).0 ≡ (last_recv_seq v s).0 =
      λ v. cc (last_recv_seq-eq v s d h, last_recv_seq-eq v t d' h', same) in
    (w, read, λ v. rw (sym (earlier v)) (after v), λ last old. above last (earlier sender ∙ old))

accept-Advances :
    (E : Env) (m : Dict Json) (sender : Str) (found : Found) (s : State) (d : FileData)
    → Holds s d
    → (r : Str × Bool) → (accept E m sender found true s).0 ≡ ok r
    → Advances m sender s (accept E m sender found true s).1
accept-Advances E m sender found s d h r accepted =
    let (priv, bx, bed, o, opened, rest) = accept-Passed E m sender found true s d h r accepted in
    let (w, a, number, fresh) =
      open_message-Accepted E m sender (id_text s.session.user_id) priv.x25519 bx bed
        (received sender d) true s o.0 o.1 (ap (λ q. q.0) opened) in
    (
      w,
      a.read,
      λ v.
          ap (λ q. (last_recv_seq v q.1).0) rest
          ∙ ap (λ t. (last_recv_seq v t).0) (recorded E sender o found.1 s)
          ∙ last_recv_seq-set E sender s d h o.1 v
          ∙ ap (λ n. if str_eq sender v then ok (some n) else (last_recv_seq v s).0) (sym number),
      λ last old. above_last sender s d h last w.seq_no w.seq_no old fresh refl,
    )

pub as_text-cases :
    (j : Json) → ((t : Str) × (j ≡ str t)) ⊎ ((e : Exc) × ((s : State) → as_text j s ≡ (err e, s)))
unfolding as_text
as_text-cases (str t) = inl (t, refl)
as_text-cases null = inr (type_error, λ s. refl)
as_text-cases (bool b) = inr (type_error, λ s. refl)
as_text-cases (int i) = inr (type_error, λ s. refl)
as_text-cases (arr xs) = inr (type_error, λ s. refl)
as_text-cases (obj fs) = inr (type_error, λ s. refl)

pub peer_keys-Grows : (E : Env) (u : Str) (found : Option Found) → Grows (peer_keys E u found)
unfolding peer_keys
peer_keys-Grows E u none = fetch_and_pin-Grows E u
peer_keys-Grows E u (some found) = Grows-pure found

module _ (E : Env) (m : Dict Json) (found : Option Found) (s : State) (d : FileData)
    (holds : Holds s d) where
  abbrev sender_field : Json
  sender_field = id_of (lit "senderId") (lit "sender_id") m

  pub receive-eq :
      (sender : Str) (keys : Found)
      → sender_field ≡ str sender
      → (peer_keys E sender found s).0 ≡ ok keys
      → receive E m found true s ≡ accept E m sender keys true (peer_keys E sender found s).1
  unfolding receive as_text
  receive-eq sender keys named h = ground arith

  module _ (r : Str × Bool) (accepted : (receive E m found true s).0 ≡ ok r) where
    pub receive_keyless :
        (sender : Str) {e : Exc} {A : Type 0}
        → sender_field ≡ str sender
        → (peer_keys E sender found s).0 ≡ err e
        → A
    unfolding receive as_text
    receive_keyless sender named h = absurd (ground arith)

    receive-from :
        (sender : Str)
        → sender_field ≡ str sender
        → Advances m sender s (receive E m found true s).1
    receive-from sender named =
        let (d', held, x) = (peer_keys-Grows E sender found).at s d holds in
        elim (Result-cases (peer_keys E sender found s).0) [
          | inr (e, h) ↦ receive_keyless sender named h
          | inl (keys, h) ↦
              let t = (peer_keys E sender found s).1 in
              let same = receive-eq sender keys named h in
              let ok_there : (accept E m sender keys true t).0 ≡ ok r =
                ap (λ q. q.0) (sym same) ∙ accepted in
              let advanced = accept-Advances E m sender keys t d' held r ok_there in
              Advances-from m sender s t (receive E m found true s).1 d d' holds held x.receives
                (rw same advanced)
        ]

    -- Where the keystore's file can be loaded, a message that is accepted with the replay check on
    -- names its sender; the number it carries is above the last one recorded for that sender, and
    -- is recorded; no other sender's number changes. This holds with the caller's keys and with
    -- fetched ones.
    pub receive-Advances :
        (sender : Str) × (sender_field ≡ str sender)
        × Advances m sender s (receive E m found true s).1
    unfolding receive
    receive-Advances = elim (as_text-cases sender_field) [
      | inl (sender, named) ↦ (sender, named, receive-from sender named)
      | inr (e, other) ↦ absurd (ground (arith, other s))
    ]
