-- ===== src/Services/MessageService/Preview.antt =====
-- `receive` of client/src/services/message_service.py with the replay check off, as the views of the
-- interface call it.
use cs4455_epic.Base.{◌≡◌, refl, ap, inl, inr, false, Option}
use cs4455_epic.Base.Dict.{Dict}
use cs4455_epic.Base.Text.{Str}
use cs4455_epic.Json.{Json, str}
use cs4455_epic.Env.{Env}
use cs4455_epic.Py.{State, Py, FileData}
use cs4455_epic.Keystore.{last_recv_seq}
use cs4455_epic.Keystore.Loading.{Holds}
use cs4455_epic.Services.Growth.{Grows, Grows-frame, grows_rules}
use cs4455_epic.Services.Growth.Parts.{part_rules}
use cs4455_epic.Services.KeyService.{Found}
use cs4455_epic.Services.MessageService.Accepting.{last_recv_seq-eq}
use cs4455_epic.Services.MessageService.Replay.{as_text-cases, peer_keys-Grows}
use cs4455_epic.Services.MessageService.{as_text, accept, receive, decrypt_own}

text_state : (t : Str) (s : State) → (as_text (str t) s).1 ≡ s
unfolding as_text
text_state t s = refl

as_text_state : (j : Json) (s : State) → (as_text j s).1 ≡ s
as_text_state j s = elim (as_text-cases j) [
  | inl (t, e) ↦ rw e (text_state t s)
  | inr (e, h) ↦ ap (λ r. r.1) (h s)
]

pub Grows-as_text : (j : Json) → Grows (as_text j)
Grows-as_text j = Grows-frame (as_text j) (as_text_state j)

counters_kept :
    {A : Type 0} {m : Py A} (v : Str) (s : State) (d : FileData)
    → Holds s d
    → Grows m
    → (last_recv_seq v (m s).1).0 ≡ (last_recv_seq v s).0
counters_kept v s d h g =
    let (d', h', x) = g.at s d h in
    cc (last_recv_seq-eq v s d h, last_recv_seq-eq v _ d' h', x.receives)

module _ (E : Env) (m : Dict Json) where
  ruleset preview_rules = (grows_rules, part_rules, Grows-as_text, peer_keys-Grows)

  accept-Grows : (sender : Str) (found : Found) → Grows (accept E m sender found false)
  unfolding accept
  accept-Grows sender found = search (preview_rules) depth 30

  pub receive-Grows : (found : Option Found) → Grows (receive E m found false)
  unfolding receive
  receive-Grows found = search (preview_rules, accept-Grows) depth 12

  pub decrypt_own-Grows : (found : Option Found) → Grows (decrypt_own E m found)
  unfolding decrypt_own
  decrypt_own-Grows found = search (preview_rules) depth 30

  module _ (found : Option Found) (s : State) (d : FileData) (holds : Holds s d) where
    -- Reading a message without the replay check, or an own message, changes no counter of received
    -- messages, whether it succeeds or not.
    pub preview_keeps_counters :
        (v : Str)
        → ((last_recv_seq v (receive E m found false s).1).0 ≡ (last_recv_seq v s).0)
          × ((last_recv_seq v (decrypt_own E m found s).1).0 ≡ (last_recv_seq v s).0)
    preview_keeps_counters v = (
      counters_kept v s d holds (receive-Grows found),
      counters_kept v s d holds (decrypt_own-Grows found),
    )
