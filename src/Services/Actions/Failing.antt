-- ===== src/Services/Actions/Failing.antt =====
-- A `receive` that fails has touched no counter of received messages.
use cs4455_epic.Base.{◌≡◌, Option, arith, true}
use cs4455_epic.Base.Int.{ℤ}
use cs4455_epic.Base.Dict.{Dict}
use cs4455_epic.Base.Text.{Str}
use cs4455_epic.Errors.{Exc, Result, ok, err}
use cs4455_epic.Json.{Json}
use cs4455_epic.Env.{Env}
use cs4455_epic.Py.{State, Py, FileData, pure, lift, ◌>>◌, ◌>>=◌}
use cs4455_epic.Keystore.{set_recv_seq}
use cs4455_epic.Keystore.Loading.{Holds}
use cs4455_epic.Keystore.Counters.{set_recv_seq-ok}
use cs4455_epic.Services.Growth.{Grown, Grows, Extends-refl, Extends-trans}
use cs4455_epic.Services.KeyService.{Found}
use cs4455_epic.Services.MessageService.{accept, receive}
use cs4455_epic.Services.Actions.Growing.{call_rules}

pub record FailsClean {A : Type 0} (m : Py A) : Type 0 where
  pub failing : (s : State) (d : FileData) {e : Exc} → Holds s d → (m s).0 ≡ err e → Grown d (m s).1

module _ {A B : Type 0} (f : A → Py B) (later : (a : A) → FailsClean (f a)) where
  stopped :
      (r : Result A) (t : State) (d : FileData) {e : Exc}
      → Holds t d
      → ((lift r >>= f) t).0 ≡ err e
      → Grown d ((lift r >>= f) t).1
  stopped (ok a) t d h failed = (later a).failing t d h failed
  stopped (err e) t d h failed = (d, h, Extends-refl d)

  FailsClean-bind : (m : Py A) → Grows m → FailsClean (m >>= f)
  FailsClean-bind m g = record {
    failing = λ s d {e} h failed.
        let (d1, h1, x1) = g.at s d h in
        let (d2, h2, x2) = stopped (m s).0 (m s).1 d1 h1 failed in (d2, h2, Extends-trans x1 x2);
  }

module _ (E : Env) where
  FailsClean-set :
      {B : Type 0} (u : Str) (n : ℤ) (b : B) → FailsClean (set_recv_seq E u n >> pure b)
  FailsClean-set u n b = record {
    failing = λ s d {e} h failed. absurd (ground (arith, (set_recv_seq-ok E u s d h n).0));
  }

  accept-FailsClean :
      (m : Dict Json) (sender : Str) (found : Found) → FailsClean (accept E m sender found true)
  unfolding accept
  accept-FailsClean m sender found = search (call_rules, FailsClean-bind, FailsClean-set) depth 40

  pub receive-FailsClean :
      (m : Dict Json) (found : Option Found) → FailsClean (receive E m found true)
  unfolding receive
  receive-FailsClean m found = search (call_rules, FailsClean-bind, accept-FailsClean) depth 20
