-- ===== src/Services/MessageService/Accepting.antt =====
-- The last part of `receive` of client/src/services/message_service.py: what an accepted message
-- went through, and what happens when the message opens.
use cs4455_epic.Base.{
  ◌≡◌, ◌⊎◌, Bool, Option, some, none, [], arith, inl, inr, Option-cases, if◌then◌else◌,
}
use cs4455_epic.Base.Int.{ℤ}
use cs4455_epic.Base.Dict.{Dict, lookup, get_or}
use cs4455_epic.Base.Text.{Str, Bytes, lit}
use cs4455_epic.Errors.{Exc, Result, Result-cases, ok, err}
use cs4455_epic.Json.{Json}
use cs4455_epic.Env.{Env}
use cs4455_epic.Py.{FileData, State, pure, PrivateKeys, ◌>>◌}
use cs4455_epic.Crypto.Messaging.{open_message}
use cs4455_epic.Crypto.Messaging.Checks.{open_message_state}
use cs4455_epic.Crypto.Wire.{item, decode_text}
use cs4455_epic.Keystore.{private_keys, last_recv_seq, set_recv_seq}
use cs4455_epic.Keystore.Loading.{Holds}
use cs4455_epic.Services.KeyService.{Found}
use cs4455_epic.Services.MessageService.{id_text, accept}

-- The number that a file records as received from a sender.
abbrev pub received : Str → FileData → Option ℤ
received sender d = lookup sender (get_or d.seq_recv [])

pub last_recv_seq-eq :
    (v : Str) (s : State) (d : FileData) → Holds s d → last_recv_seq v s ≡ (ok (received v d), s)
unfolding last_recv_seq
last_recv_seq-eq v s d h = ground arith

module _ (E : Env) (m : Dict Json) (sender : Str) (found : Found) (enforce : Bool) (s : State)
    (d : FileData) (holds : Holds s d) where
  -- The call of `open_message`.
  abbrev pub opening_with : PrivateKeys → Bytes → Bytes → Result (Str × ℤ) × State
  opening_with priv x ed =
      open_message E m sender (id_text s.session.user_id) priv.x25519 x ed (received sender d)
        enforce s

  -- What follows it.
  abbrev pub record_number : Str × ℤ → Result (Str × Bool) × State
  record_number opened =
      ((if enforce then set_recv_seq E sender opened.1 else pure tt) >> pure (opened.0, found.1)) s

  -- What `accept` went through, if it succeeds.
  abbrev pub Passed : Type 0
  Passed =
      (priv : PrivateKeys) × (bx : Bytes) × (bed : Bytes) × (o : Str × ℤ) × (opening_with priv bx
          bed
        ≡ (ok o, s))
      × (accept E m sender found enforce s ≡ record_number o)

  -- With keys that can be read, what `accept` does follows from what `open_message` returns.
  pub accept_opens :
      (x ed : Str) (priv : PrivateKeys) (bx bed : Bytes) (o : Str × ℤ)
      → lookup (lit "x25519") found.0 ≡ some x
      → lookup (lit "ed25519") found.0 ≡ some ed
      → s.keystore.keys ≡ some priv
      → decode_text x ≡ ok bx
      → decode_text ed ≡ ok bed
      → opening_with priv bx bed ≡ (ok o, s)
      → accept E m sender found enforce s ≡ record_number o
  unfolding accept private_keys item
  accept_opens x ed priv bx bed o hx hed hk h1 h2 ran =
      ground (arith, last_recv_seq-eq sender s d holds)

  module _ (r : Str × Bool) (accepted : (accept E m sender found enforce s).0 ≡ ok r) where
    refused_by_keys :
        (lookup (lit "x25519") found.0 ≡ none)
          ⊎ (lookup (lit "ed25519") found.0 ≡ none)
          ⊎ (s.keystore.keys ≡ none)
        → Passed
    unfolding accept private_keys
    refused_by_keys (inl h) = absurd (ground arith)
    refused_by_keys (inr (inl h)) = absurd (ground arith)
    refused_by_keys (inr (inr h)) = absurd (ground arith)

    module _ (x ed : Str) (hx : lookup (lit "x25519") found.0 ≡ some x)
        (hed : lookup (lit "ed25519") found.0 ≡ some ed) (priv : PrivateKeys)
        (hk : s.keystore.keys ≡ some priv) where
      refused_x : {e : Exc} → decode_text x ≡ err e → Passed
      unfolding accept private_keys item
      refused_x h = absurd (ground (arith, last_recv_seq-eq sender s d holds))

      refused_ed : (bx : Bytes) {e : Exc} → decode_text x ≡ ok bx → decode_text ed ≡ err e → Passed
      unfolding accept private_keys item
      refused_ed bx hx h = absurd (ground (arith, last_recv_seq-eq sender s d holds))

      passed_keys : (bx bed : Bytes) → decode_text x ≡ ok bx → decode_text ed ≡ ok bed → Passed
      unfolding accept private_keys item
      passed_keys bx bed h1 h2 =
          let kept =
            open_message_state E m sender (id_text s.session.user_id) priv.x25519 bx bed
              (received sender d) enforce s in
          elim (Result-cases (opening_with priv bx bed).0) [
            | inr (e, h) ↦ absurd (ground (arith, last_recv_seq-eq sender s d holds))
            | inl (o, h) ↦
                let ran : opening_with priv bx bed ≡ (ok o, s) = ground arith in
                (priv, bx, bed, o, ran, accept_opens x ed priv bx bed o hx hed hk h1 h2 ran)
          ]

      decoded_keys : Passed
      decoded_keys = elim (Result-cases (decode_text x)) [
        | inr (e, h) ↦ refused_x h
        | inl (bx, h1) ↦ elim (Result-cases (decode_text ed)) [
          | inr (e, h) ↦ refused_ed bx h1 h
          | inl (bed, h2) ↦ passed_keys bx bed h1 h2
        ]
      ]

    pub accept-Passed : Passed
    accept-Passed = elim (Option-cases (lookup (lit "x25519") found.0)) [
      | inl h ↦ refused_by_keys (inl h)
      | inr (x, hx) ↦ elim (Option-cases (lookup (lit "ed25519") found.0)) [
        | inl h ↦ refused_by_keys (inr (inl h))
        | inr (ed, hed) ↦ elim (Option-cases s.keystore.keys) [
          | inl h ↦ refused_by_keys (inr (inr h))
          | inr (priv, hk) ↦ decoded_keys x ed hx hed priv hk
        ]
      ]
    ]
