-- ===== src/Services/Actions/Ordering.antt =====
-- The numbers of the messages that a client accepts from one sender, along any sequence of calls.
use cs4455_epic.Base.{
  ◌≡◌, refl, ◌∙◌, sym, Bool, true, false, Option, none, some, List, [], ◌∷◌, inl, inr, arith,
  if◌then◌else◌,
}
use cs4455_epic.Base.Int.{ℤ, ◌<ℤ◌}
use cs4455_epic.Base.Dict.{Dict}
use cs4455_epic.Base.Text.{Str, str_eq, str_eq_iff, lit}
use cs4455_epic.Errors.{Exc, Result-cases, ok, err}
use cs4455_epic.Json.{Json, str}
use cs4455_epic.Env.{Env}
use cs4455_epic.Py.{State, Py, FileData}
use cs4455_epic.Crypto.Wire.{Wire, read_fields}
use cs4455_epic.Keystore.{last_recv_seq}
use cs4455_epic.Keystore.Loading.{Holds}
use cs4455_epic.Services.Growth.{Grown, Grows}
use cs4455_epic.Services.KeyService.{Found}
use cs4455_epic.Services.KeyService.Pinning.{fetch_and_pin-Grows}
use cs4455_epic.Services.MessageService.{id_of, receive}
use cs4455_epic.Services.MessageService.Accepting.{received, last_recv_seq-eq}
use cs4455_epic.Services.MessageService.Replay.{receive-Advances}
use cs4455_epic.Services.MessageService.Preview.{receive-Grows, decrypt_own-Grows}
use cs4455_epic.Services.Actions.{
  Action, fetch_keys, publish_keys, check_key, list_inbox, list_sent, send_new, forward_on,
  receive_new, show_once_more, show_own_sent, revoke_share, delete_own, delete_forward,
  prove_recorded, perform, number_of, accepted, accepted_numbers,
}
use cs4455_epic.Services.Actions.Growing.{
  publish_own_keys-Grows, reconcile-Grows, inbox-Grows, sent-Grows, send-Grows, forward-Grows,
  revoke-Grows, delete-Grows, delete_share-Grows, proof-Grows,
}
use cs4455_epic.Services.Actions.Failing.{receive-FailsClean}
use cs4455_epic.Services.Actions.Receiving.{receive-Kept}

-- Above the number before it, if there is one.
abbrev IsAbove : Option ℤ → ℤ → Type 0
IsAbove before n = (last : ℤ) → before ≡ some last → last <ℤ n

-- Each number is above the one before it, and the first above a last one, if there is one.
pub IsIncreasing : Option ℤ → List ℤ → Type 0
IsIncreasing before [] = Unit
IsIncreasing before (n ∷ ns) = IsAbove before n × IsIncreasing (some n) ns

-- The counter before and after a call that accepts a number, or none.
Moves : Option ℤ → Option ℤ → Option ℤ → Type 0
Moves none before after = after ≡ before
Moves (some n) before after = (after ≡ some n) × IsAbove before n

module _ (v : Str) where
  -- The state holds a dict in which the counter of `v` has moved.
  abbrev Moved : Option ℤ → FileData → State → Type 0
  Moved number d t = (d' : FileData) × Holds t d' × Moves number (received v d) (received v d')

  Moved-Grown : {d : FileData} {t : State} → Grown d t → Moved none d t
  unfolding Moves
  Moved-Grown (d', h, x) = (d', h, ground (arith, x.receives))

  module _ (m : Dict Json) (sender : Str) (w : Wire)
      (named : id_of (lit "senderId") (lit "sender_id") m ≡ str sender)
      (read : read_fields m ≡ ok w) where
    number_of-sender : number_of v m ≡ (if str_eq sender v then some w.seq_no else none)
    unfolding number_of
    number_of-sender = ground arith

  Moves-by :
      (n : ℤ) (same : Bool) (before after : Option ℤ)
      → (same ≡ true → IsAbove before n)
      → after ≡ (if same then some n else before)
      → Moves (if same then some n else none) before after
  unfolding Moves
  Moves-by n true before after above e = (e, above refl)
  Moves-by n false before after above e = e

module _ (E : Env) (v : Str) (s : State) (d : FileData) (holds : Holds s d) where
  unmoved : {A : Type 0} {m : Py A} → Grows m → Moved v none d (m s).1
  unmoved g = Moved-Grown v (g.at s d holds)

  after_of :
      (t : State) (d' : FileData) (same : Bool) (n : ℤ)
      → Holds t d'
      → (last_recv_seq v t).0 ≡ (if same then ok (some n) else (last_recv_seq v s).0)
      → received v d' ≡ (if same then some n else received v d)
  after_of t d' true n h e = ground (arith, last_recv_seq-eq v t d' h)
  after_of t d' false n h e =
      ground (arith, last_recv_seq-eq v t d' h, last_recv_seq-eq v s d holds)

  IsAbove-of :
      (sender : Str) (n : ℤ)
      → ((last : ℤ) → (last_recv_seq sender s).0 ≡ ok (some last) → last <ℤ n)
      → str_eq sender v ≡ true
      → IsAbove (received v d) n
  IsAbove-of sender n above is_v last old =
      ground (arith, str_eq_iff sender v, last_recv_seq-eq sender s d holds, above last)

  receive_number :
      (m : Dict Json) (found : Option Found) (r : Str × Bool)
      → (receive E m found true s).0 ≡ ok r
      → accepted E v (receive_new m found) s ≡ number_of v m
  unfolding accepted
  receive_number m found r h = ground arith

  receive_no_number :
      (m : Dict Json) (found : Option Found) {e : Exc}
      → (receive E m found true s).0 ≡ err e
      → accepted E v (receive_new m found) s ≡ none
  unfolding accepted
  receive_no_number m found h = ground arith

  receive_new-Moved :
      (m : Dict Json) (found : Option Found)
      → Moved v (accepted E v (receive_new m found) s) d (receive E m found true s).1
  receive_new-Moved m found = elim (Result-cases (receive E m found true s).0) [
    | inr (e, failed) ↦
        rw (receive_no_number m found failed)
          (Moved-Grown v ((receive-FailsClean E m found).failing s d holds failed))
    | inl (r, done) ↦
        let (d', held, _) = receive-Kept E m found s d holds r done in
        let (sender, named, advances) = receive-Advances E m found s d holds r done in
        let (w, read, after, above) = advances in
        let t = (receive E m found true s).1 in
        let number = receive_number m found r done ∙ number_of-sender v m sender w named read in
        (
          d',
          held,
          rw number (
              Moves-by v w.seq_no (str_eq sender v) (received v d) (received v d')
                (IsAbove-of sender w.seq_no above)
                (after_of t d' (str_eq sender v) w.seq_no held (after v))),
        )
  ]

  perform-Moved : (a : Action) → Moved v (accepted E v a s) d (perform E a s)
  unfolding perform accepted
  perform-Moved (fetch_keys u) = unmoved (fetch_and_pin-Grows E u)
  perform-Moved publish_keys = unmoved (publish_own_keys-Grows E)
  perform-Moved (check_key u kt) = unmoved (reconcile-Grows E u kt)
  perform-Moved list_inbox = unmoved (inbox-Grows E)
  perform-Moved list_sent = unmoved (sent-Grows E)
  perform-Moved (send_new r text) = unmoved (send-Grows E r text)
  perform-Moved (forward_on i r text) = unmoved (forward-Grows E i r text)
  perform-Moved (receive_new m found) = receive_new-Moved m found
  perform-Moved (show_once_more m found) = unmoved (receive-Grows E m found)
  perform-Moved (show_own_sent m found) = unmoved (decrypt_own-Grows E m found)
  perform-Moved (revoke_share i u) = unmoved (revoke-Grows E i u)
  perform-Moved (delete_own i) = unmoved (delete-Grows E i)
  perform-Moved (delete_forward i) = unmoved (delete_share-Grows E i)
  perform-Moved (prove_recorded i) = unmoved (proof-Grows E i)

add_number : Option ℤ → List ℤ → List ℤ
add_number none ns = ns
add_number (some n) ns = n ∷ ns

IsIncreasing-add :
    (number before after : Option ℤ) (ns : List ℤ)
    → Moves number before after
    → IsIncreasing after ns
    → IsIncreasing before (elim number [ none ↦ ns | some n ↦ n ∷ ns ])
unfolding Moves IsIncreasing
IsIncreasing-add none before after ns same later = rw (sym same) later
IsIncreasing-add (some n) before after ns (stored, above) later = (above, rw (sym stored) later)

-- Where the keystore's file can be loaded: along any sequence of calls of the message and key
-- services, in any order and whatever the server and the callers pass in, the numbers of the
-- messages that are accepted from one sender with the replay check on strictly increase, and the
-- first is above the number that the file records at the start. So no message is accepted twice,
-- and none that is older than one accepted before.
pub accepted_numbers-IsIncreasing :
    (E : Env) (v : Str) (actions : List Action) (s : State) (d : FileData)
    → Holds s d
    → IsIncreasing (received v d) (accepted_numbers E v actions s)
unfolding accepted_numbers IsIncreasing
accepted_numbers-IsIncreasing E v [] s d h = tt
accepted_numbers-IsIncreasing E v (a ∷ actions) s d h =
    let (d', held, moves) = perform-Moved E v s d h a in
    IsIncreasing-add (accepted E v a s) (received v d) (received v d')
      (accepted_numbers E v actions (perform E a s)) moves
      (accepted_numbers-IsIncreasing E v actions (perform E a s) d' held)
