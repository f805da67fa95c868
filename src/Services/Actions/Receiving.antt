-- ===== src/Services/Actions/Receiving.antt =====
-- What a `receive` that accepts a message leaves in the keystore's file.
use mathlib.Core.Path.{subst}
use cs4455_epic.Base.{◌≡◌, Bool, true, Option, some, ap, ◌∙◌, sym, inl, inr, arith}
use cs4455_epic.Base.Int.{ℤ, ◌≤ℤ◌}
use cs4455_epic.Base.Dict.{Dict}
use cs4455_epic.Base.Text.{Str}
use cs4455_epic.Errors.{Result-cases, ok}
use cs4455_epic.Json.{Json}
use cs4455_epic.Env.{Env}
use cs4455_epic.Py.{State, FileData}
use cs4455_epic.Keystore.{pin_of}
use cs4455_epic.Keystore.Loading.{Holds}
use cs4455_epic.Keystore.Counters.{sent_count, with_recv, set_recv_seq-ok}
use cs4455_epic.Services.Growth.{Extends}
use cs4455_epic.Services.KeyService.{Found}
use cs4455_epic.Services.MessageService.{peer_keys, accept, receive}
use cs4455_epic.Services.MessageService.Accepting.{accept-Passed}
use cs4455_epic.Services.MessageService.Replay.{
  recorded, peer_keys-Grows, receive-eq, receive_keyless, receive-Advances,
}

-- `d'` has all pins of `d`, and no smaller counter of sent messages.
pub record Keeps (d d' : FileData) : Type 0 where
  pub pins : (v kt p : Str) → pin_of v kt d ≡ some p → pin_of v kt d' ≡ some p
  pub sends : (r : Str) → sent_count r d ≤ℤ sent_count r d'

-- The state holds a dict that keeps the pins and counters of another.
abbrev pub Kept : FileData → State → Type 0
Kept d t = (d' : FileData) × Holds t d' × Keeps d d'

pub Keeps-Extends : {d d' : FileData} → Extends d d' → Keeps d d'
Keeps-Extends x = record { pins = x.pins; sends = x.sends }

pub Keeps-refl : (d : FileData) → Keeps d d
Keeps-refl d = record { pins = λ v kt p h. h; sends = λ r. omega arith }

pub Keeps-trans : {a b c : FileData} → Keeps a b → Keeps b c → Keeps a c
Keeps-trans x y = record {
  pins = λ v kt p h. y.pins v kt p (x.pins v kt p h);
  sends = λ r. omega (arith, x.sends r, y.sends r);
}

module _ (E : Env) (m : Dict Json) where
  accept-Held :
      (sender : Str) (keys : Found) (t : State) (d : FileData)
      → Holds t d
      → (r : Str × Bool) → (accept E m sender keys true t).0 ≡ ok r
      → (n : ℤ) × Holds (accept E m sender keys true t).1 (with_recv sender n d)
  accept-Held sender keys t d h r accepted =
      let (_, _, _, o, _, rest) = accept-Passed E m sender keys true t d h r accepted in
      let same = ap (λ q. q.1) rest ∙ recorded E sender o keys.1 t in
      (o.1, rw same ((set_recv_seq-ok E sender t d h o.1).1))

  pub receive-Kept :
      (found : Option Found) (s : State) (d : FileData)
      → Holds s d
      → (r : Str × Bool) → (receive E m found true s).0 ≡ ok r
      → Kept d (receive E m found true s).1
  receive-Kept found s d h r accepted =
      let (sender, named, _) = receive-Advances E m found s d h r accepted in
      let (d1, h1, x) = (peer_keys-Grows E sender found).at s d h in
      elim (Result-cases (peer_keys E sender found s).0) [
        | inr (e, failed) ↦ receive_keyless E m found s d h r accepted sender named failed
        | inl (keys, fetched) ↦
            let same = receive-eq E m found s d h sender keys named fetched in
            let t = (peer_keys E sender found s).1 in
            let (n, held) =
              accept-Held sender keys t d1 h1 r (ap (λ q. q.0) (sym same) ∙ accepted) in
            (
              with_recv sender n d1,
              subst (λ q. Holds q.1 (with_recv sender n d1)) (sym same) held,
              record { pins = x.pins; sends = x.sends },
            )
      ]
