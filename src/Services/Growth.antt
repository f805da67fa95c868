-- ===== src/Services/Growth.antt =====
-- Actions that lose no pin, lower no counter of sent messages and touch no counter of received ones
-- in the keystore's file, with a rule for each way to build an action.
pub mod Parts
use cs4455_epic.Base.{◌≡◌, refl, some, arith}
use cs4455_epic.Base.Int.{◌≤ℤ◌}
use cs4455_epic.Base.Text.{Str}
use cs4455_epic.Errors.{Exc, Result, ok, err}
use cs4455_epic.Py.{FileData, State, Py, pure, raise, lift, ◌>>=◌}
use cs4455_epic.Keystore.{pin_of}
use cs4455_epic.Keystore.Loading.{Holds}
use cs4455_epic.Keystore.Counters.{sent_count}

-- `d'` has all pins of `d`, no smaller counter of sent messages, and the same counters of received
-- ones.
pub record Extends (d d' : FileData) : Type 0 where
  pub pins : (v kt p : Str) → pin_of v kt d ≡ some p → pin_of v kt d' ≡ some p
  pub sends : (r : Str) → sent_count r d ≤ℤ sent_count r d'
  pub receives : d'.seq_recv ≡ d.seq_recv

pub Extends-refl : (d : FileData) → Extends d d
Extends-refl d = record { pins = λ v kt p h. h; sends = λ r. omega arith; receives = refl }

pub Extends-trans : {a b c : FileData} → Extends a b → Extends b c → Extends a c
Extends-trans x y = record {
  pins = λ v kt p h. y.pins v kt p (x.pins v kt p h);
  sends = λ r. omega (arith, x.sends r, y.sends r);
  receives = cc (x.receives, y.receives);
}

-- The state holds an extension of a dict.
abbrev pub Grown : FileData → State → Type 0
Grown d t = (d' : FileData) × Holds t d' × Extends d d'

pub record Grows {A : Type 0} (m : Py A) : Type 0 where
  pub at : (s : State) (d : FileData) → Holds s d → Grown d (m s).1

module _ {A : Type 0} where
  pub Grows-pure : (a : A) → Grows (pure a)
  Grows-pure a = record { at = λ s d h. (d, h, Extends-refl d) }

  pub Grows-raise : (e : Exc) → Grows (raise {A = A} e)
  Grows-raise e = record { at = λ s d h. (d, h, Extends-refl d) }

  pub Grows-lift : (r : Result A) → Grows (lift r)
  Grows-lift r = record { at = λ s d h. (d, h, Extends-refl d) }

-- What never changes the state.
pub Grows-frame : {A : Type 0} (m : Py A) → ((s : State) → (m s).1 ≡ s) → Grows m
Grows-frame m h = record { at = λ s d holds. (d, rw (h s) holds, Extends-refl d) }

module _ {A B : Type 0} where
  then-Grown :
      (r : Result A) (f : A → Py B) (s : State) (d : FileData)
      → ((a : A) → Grows (f a))
      → Holds s d
      → Grown d ((lift r >>= f) s).1
  then-Grown (ok a) f s d g h = (g a).at s d h
  then-Grown (err e) f s d g h = (d, h, Extends-refl d)

  pub Grows-bind : (m : Py A) (f : A → Py B) → Grows m → ((a : A) → Grows (f a)) → Grows (m >>= f)
  Grows-bind m f gm gf = record {
    at = λ s d h.
        let (d1, h1, x1) = gm.at s d h in
        let (d2, h2, x2) = then-Grown (m s).0 f (m s).1 d1 gf h1 in (d2, h2, Extends-trans x1 x2);
  }

pub ruleset grows_rules = (Grows-pure, Grows-raise, Grows-lift, Grows-bind)
