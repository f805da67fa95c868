-- ===== src/Services/Actions/Growing.antt =====
-- What every call of the services preserves.
use cs4455_epic.Base.{Option, some, none, true, false, Bool, if◌then◌else◌}
use cs4455_epic.Base.Text.{Str}
use cs4455_epic.Json.{Json}
use cs4455_epic.Env.{Env}
use cs4455_epic.Py.{Py}
use cs4455_epic.Crypto.Messaging.{Sealed}
use cs4455_epic.Api.Endpoints as Api
use cs4455_epic.Services.Growth.{Grown, Grows, Extends-trans, grows_rules}
use cs4455_epic.Services.Growth.Parts.{part_rules}
use cs4455_epic.Services.KeyService.{is_text, publish_own_keys, pinned_in_history, judge, reconcile}
use cs4455_epic.Services.KeyService.Pinning.{fetch_and_pin-Grows}
use cs4455_epic.Services.MessageService as MessageService
use cs4455_epic.Services.MessageService.{seal_for, send, forward, accept, receive}
use cs4455_epic.Services.MessageService.Replay.{peer_keys-Grows}
use cs4455_epic.Services.MessageService.Preview.{Grows-as_text}

pub ruleset call_rules =
    (grows_rules, part_rules, fetch_and_pin-Grows, peer_keys-Grows, Grows-as_text)

module _ (E : Env) where
  seal_for-Grows : (r text : Str) → Grows (seal_for E r text)
  unfolding seal_for
  seal_for-Grows r text = search (call_rules) depth 30

  send_message-Grows : (r : Str) (f : Sealed) → Grows (Api.send_message E r f)
  unfolding Api.send_message
  send_message-Grows r f = search (part_rules)

  forward_message-Grows : (i r : Str) (f : Sealed) → Grows (Api.forward_message E i r f)
  unfolding Api.forward_message
  forward_message-Grows i r f = search (part_rules)

  pub send-Grows : (r text : Str) → Grows (send E r text)
  unfolding send
  send-Grows r text = search (call_rules, seal_for-Grows, send_message-Grows) depth 30

  pub forward-Grows : (i r text : Str) → Grows (forward E i r text)
  unfolding forward
  forward-Grows i r text = search (call_rules, seal_for-Grows, forward_message-Grows) depth 30

  publish-Grows : (k kt : Str) (b : Bool) → Grows (Api.publish E k kt b)
  unfolding Api.publish
  publish-Grows k kt b = search (part_rules)

  pub publish_own_keys-Grows : Grows (publish_own_keys E)
  unfolding publish_own_keys
  publish_own_keys-Grows = search (call_rules, publish-Grows) depth 30

  history-Grows : (u kt : Str) → Grows (Api.history E u kt)
  unfolding Api.history
  history-Grows u kt = search (part_rules)

  get_keys-Grows : (u : Str) → Grows (Api.get_keys E u)
  unfolding Api.get_keys
  get_keys-Grows u = search (part_rules)

  pinned_in_history-Grows : (u kt p : Str) → Grows (pinned_in_history E u kt p)
  unfolding pinned_in_history
  pinned_in_history-Grows u kt p = search (call_rules, history-Grows) depth 12

  if-Grows : (b : Bool) (m n : Py Bool) → Grows m → Grows n → Grows (if b then m else n)
  if-Grows true m n gm gn = gm
  if-Grows false m n gm gn = gn

  judge-Grows : (u kt : Str) (j : Json) (pin : Option Str) → Grows (judge E u kt j pin)
  unfolding judge
  judge-Grows u kt j none = search (grows_rules)
  judge-Grows u kt j (some p) =
      if-Grows (is_text p j) _ _ (search (grows_rules))
        (search (call_rules, pinned_in_history-Grows) depth 12)

  pub reconcile-Grows : (u kt : Str) → Grows (reconcile E u kt)
  unfolding reconcile
  reconcile-Grows u kt = search (call_rules, get_keys-Grows, judge-Grows) depth 30

  pub inbox-Grows : Grows (MessageService.inbox E)
  unfolding MessageService.inbox Api.inbox
  inbox-Grows = search (part_rules)

  pub sent-Grows : Grows (MessageService.sent E)
  unfolding MessageService.sent Api.sent
  sent-Grows = search (part_rules)

  pub revoke-Grows : (i u : Str) → Grows (MessageService.revoke E i u)
  unfolding MessageService.revoke Api.revoke
  revoke-Grows i u = search (part_rules)

  pub delete-Grows : (i : Str) → Grows (MessageService.delete E i)
  unfolding MessageService.delete Api.delete_message
  delete-Grows i = search (part_rules)

  pub delete_share-Grows : (i : Str) → Grows (MessageService.delete_share E i)
  unfolding MessageService.delete_share Api.delete_share
  delete_share-Grows i = search (part_rules)

  pub proof-Grows : (i : Str) → Grows (MessageService.proof E i)
  unfolding MessageService.proof Api.chain
  proof-Grows i = search (part_rules)
