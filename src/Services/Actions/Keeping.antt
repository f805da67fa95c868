-- ===== src/Services/Actions/Keeping.antt =====
-- The pins and the counters of the keystore's file along any sequence of calls.
use cs4455_epic.Base.{◌≡◌, true, Option, some, List, [], ◌∷◌, ap, ◌∙◌, inl, inr, arith}
use cs4455_epic.Base.Int.{ℤ, suc_ℤ, ◌<ℤ◌, lt-suc_ℤ}
use cs4455_epic.Base.Dict.{Dict}
use cs4455_epic.Base.Text.{Str, str_eq_iff}
use cs4455_epic.Errors.{Result-cases, ok}
use cs4455_epic.Json.{Json}
use cs4455_epic.Env.{Env}
use cs4455_epic.Py.{State, Py, FileData}
use cs4455_epic.Keystore.{pinned_peer_key, next_send_seq}
use cs4455_epic.Keystore.Files.{load}
use cs4455_epic.Keystore.Loading.{Holds, Holds-of_ok}
use cs4455_epic.Keystore.Counters.{sent_count, with_sent, next_send_seq-ok, sent_count-with_sent}
use cs4455_epic.Services.Growth.{Grown, Grows}
use cs4455_epic.Services.KeyService.{Found}
use cs4455_epic.Services.KeyService.Pinning.{
  fetch_and_pin-Grows, pinned_peer_key-eq, unreadable, pin_of_ok,
}
use cs4455_epic.Services.MessageService.{receive}
use cs4455_epic.Services.MessageService.Preview.{receive-Grows, decrypt_own-Grows}
use cs4455_epic.Services.Actions.{
  Action, fetch_keys, publish_keys, check_key, list_inbox, list_sent, send_new, forward_on,
  receive_new, show_once_more, show_own_sent, revoke_share, delete_own, delete_forward,
  prove_recorded, perform, perform_all,
}
use cs4455_epic.Services.Actions.Growing.{
  publish_own_keys-Grows, reconcile-Grows, inbox-Grows, sent-Grows, send-Grows, forward-Grows,
  revoke-Grows, delete-Grows, delete_share-Grows, proof-Grows,
}
use cs4455_epic.Services.Actions.Failing.{receive-FailsClean}
use cs4455_epic.Services.Actions.Receiving.{
  Kept, Keeps-Extends, Keeps-refl, Keeps-trans, receive-Kept,
}

pub Kept-Grown : {d : FileData} {t : State} → Grown d t → Kept d t
Kept-Grown (d', h, x) = (d', h, Keeps-Extends x)

module _ (E : Env) (s : State) (d : FileData) (holds : Holds s d) where
  Kept-by : {A : Type 0} {m : Py A} → Grows m → Kept d (m s).1
  Kept-by g = Kept-Grown (g.at s d holds)

  receive_new-Kept : (m : Dict Json) (found : Option Found) → Kept d (receive E m found true s).1
  receive_new-Kept m found = elim (Result-cases (receive E m found true s).0) [
    | inl (r, accepted) ↦ receive-Kept E m found s d holds r accepted
    | inr (e, failed) ↦ Kept-Grown ((receive-FailsClean E m found).failing s d holds failed)
  ]

  perform-Kept : (a : Action) → Kept d (perform E a s)
  unfolding perform
  perform-Kept (fetch_keys u) = Kept-by (fetch_and_pin-Grows E u)
  perform-Kept publish_keys = Kept-by (publish_own_keys-Grows E)
  perform-Kept (check_key u kt) = Kept-by (reconcile-Grows E u kt)
  perform-Kept list_inbox = Kept-by (inbox-Grows E)
  perform-Kept list_sent = Kept-by (sent-Grows E)
  perform-Kept (send_new r text) = Kept-by (send-Grows E r text)
  perform-Kept (forward_on i r text) = Kept-by (forward-Grows E i r text)
  perform-Kept (receive_new m found) = receive_new-Kept m found
  perform-Kept (show_once_more m found) = Kept-by (receive-Grows E m found)
  perform-Kept (show_own_sent m found) = Kept-by (decrypt_own-Grows E m found)
  perform-Kept (revoke_share i u) = Kept-by (revoke-Grows E i u)
  perform-Kept (delete_own i) = Kept-by (delete-Grows E i)
  perform-Kept (delete_forward i) = Kept-by (delete_share-Grows E i)
  perform-Kept (prove_recorded i) = Kept-by (proof-Grows E i)

perform_all-Kept :
    (E : Env) (actions : List Action) (s : State) (d : FileData)
    → Holds s d
    → Kept d (perform_all E actions s)
unfolding perform_all
perform_all-Kept E [] s d h = (d, h, Keeps-refl d)
perform_all-Kept E (a ∷ actions) s d h =
    let (d1, h1, k1) = perform-Kept E s d h a in
    let (d2, h2, k2) = perform_all-Kept E actions (perform E a s) d1 h1 in
    (d2, h2, Keeps-trans k1 k2)

module _ (E : Env) (actions : List Action) (s : State) where
  -- A key that is pinned stays pinned, as it is, along any sequence of calls of the message and
  -- key services, whatever the server and the callers pass in and whichever calls fail.
  pub actions_keep_pin :
      (v kt p : Str)
      → (pinned_peer_key v kt s).0 ≡ ok (some p)
      → (pinned_peer_key v kt (perform_all E actions s)).0 ≡ ok (some p)
  actions_keep_pin v kt p old = elim (Result-cases (load s).0) [
    | inr (e, h) ↦ absurd (unreadable E v v kt p s h old)
    | inl (d, h) ↦
        let holds = Holds-of_ok s d h in
        let (d', held, x) = perform_all-Kept E actions s d holds in
        ap (λ r. r.0) (pinned_peer_key-eq E v kt (perform_all E actions s) d' held)
        ∙ ap ok (x.pins v kt p (pin_of_ok E v v kt p s d holds old))
  ]

  -- Where the keystore's file can be loaded: a recipient is given a number, and after any sequence
  -- of calls of the message and key services the next number given to that recipient is above it, so
  -- no number is used twice.
  pub actions_raise_number :
      (r : Str) (d : FileData)
      → Holds s d
      → (n n' : ℤ) × ((next_send_seq E r s).0 ≡ ok n)
        × ((next_send_seq E r (perform_all E actions (next_send_seq E r s).1)).0 ≡ ok n')
        × (n <ℤ n')
  actions_raise_number r d holds =
      let (given, held) = next_send_seq-ok E r s d holds in
      let t = (next_send_seq E r s).1 in
      let (d', later, x) = perform_all-Kept E actions t (with_sent r d) held in
      (
        suc_ℤ (sent_count r d),
        suc_ℤ (sent_count r d'),
        given,
        (next_send_seq-ok E r (perform_all E actions t) d' later).0,
        ground (
          arith,
          x.sends r,
          sent_count-with_sent r r d,
          lt-suc_ℤ (sent_count r d'),
          str_eq_iff r r,
        ),
      )
