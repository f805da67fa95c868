-- ===== src/Services/Actions.antt =====
-- A client at work: any sequence of calls of client/src/services/message_service.py and
-- key_service.py, each of which may succeed or raise, whatever the server answers.
pub mod Growing
pub mod Failing
pub mod Receiving
pub mod Ordering
pub mod Keeping
use cs4455_epic.Base.{true, false, Option, none, some, List, [], ◌∷◌, if◌then◌else◌}
use cs4455_epic.Base.Int.{ℤ}
use cs4455_epic.Base.Dict.{Dict}
use cs4455_epic.Base.Text.{Str, lit, str_eq}
use cs4455_epic.Errors.{ok, err}
use cs4455_epic.Json.{Json, str}
use cs4455_epic.Env.{Env}
use cs4455_epic.Py.{State}
use cs4455_epic.Crypto.Wire.{read_fields}
use cs4455_epic.Services.KeyService.{Found, fetch_and_pin, publish_own_keys, reconcile}
use cs4455_epic.Services.MessageService.{id_of, receive, decrypt_own}
use cs4455_epic.Services.MessageService as MessageService

pub data Action : Type 0 where
  fetch_keys : Str → Action
  publish_keys : Action
  check_key : Str → Str → Action
  list_inbox : Action
  list_sent : Action
  send_new : Str → Str → Action
  forward_on : Str → Str → Str → Action
  receive_new : Dict Json → Option Found → Action
  show_once_more : Dict Json → Option Found → Action
  show_own_sent : Dict Json → Option Found → Action
  revoke_share : Str → Str → Action
  delete_own : Str → Action
  delete_forward : Str → Action
  prove_recorded : Str → Action

module _ (E : Env) where
  -- What a call leaves; its result is dropped.
  unfoldable pub perform : Action → State → State
  perform (fetch_keys u) s = (fetch_and_pin E u s).1
  perform publish_keys s = (publish_own_keys E s).1
  perform (check_key u kt) s = (reconcile E u kt s).1
  perform list_inbox s = (MessageService.inbox E s).1
  perform list_sent s = (MessageService.sent E s).1
  perform (send_new r text) s = (MessageService.send E r text s).1
  perform (forward_on i r text) s = (MessageService.forward E i r text s).1
  perform (receive_new m found) s = (receive E m found true s).1
  perform (show_once_more m found) s = (receive E m found false s).1
  perform (show_own_sent m found) s = (decrypt_own E m found s).1
  perform (revoke_share i u) s = (MessageService.revoke E i u s).1
  perform (delete_own i) s = (MessageService.delete E i s).1
  perform (delete_forward i) s = (MessageService.delete_share E i s).1
  perform (prove_recorded i) s = (MessageService.proof E i s).1

  unfoldable pub perform_all : List Action → State → State
  unfolding perform
  perform_all [] s = s
  perform_all (a ∷ actions) s = perform_all actions (perform a s)

-- The number that a message of `v` carries.
unfoldable pub number_of : Str → Dict Json → Option ℤ
number_of v m = elim (id_of (lit "senderId") (lit "sender_id") m) [
  | str u ↦
      if str_eq u v then (elim (read_fields m) [ ok w ↦ some w.seq_no | err e ↦ none ]) else none
  | _ ↦ none
]

module _ (E : Env) where
  -- The number of a message of `v` that a call accepts.
  unfoldable pub accepted : Str → Action → State → Option ℤ
  unfolding number_of
  accepted v (receive_new m found) s = elim (receive E m found true s).0 [
    | ok r ↦ number_of v m
    | err e ↦ none
  ]
  accepted v _ s = none

  -- The numbers of the messages of `v` that are accepted along the way.
  unfoldable pub accepted_numbers : Str → List Action → State → List ℤ
  unfolding accepted perform
  accepted_numbers v [] s = []
  accepted_numbers v (a ∷ actions) s =
      let later = accepted_numbers v actions (perform E a s) in
      elim (accepted v a s) [ none ↦ later | some n ↦ n ∷ later ]
