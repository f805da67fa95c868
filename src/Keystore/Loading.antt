-- ===== src/Keystore/Loading.antt =====
-- `_load` of client/src/crypto/keystore.py, and loading what was saved.
use cs4455_epic.Base.{◌≡◌, some, arith}
use cs4455_epic.Errors.{ok}
use cs4455_epic.Env.{Env}
use cs4455_epic.Py.{FileData, State}
use cs4455_epic.Keystore.Files.{load, save}
use cs4455_epic.Keystore.Atomic.{lookup-save, save_frame}

-- The keystore's file can be loaded, and holds this dict.
abbrev pub Holds : State → FileData → Type 0
Holds s d = load s ≡ (ok d, s)

-- Loading changes nothing.
pub load_state : (s : State) → (load s).1 ≡ s
unfolding load
load_state s = ground arith

pub Holds-of_ok : (s : State) (d : FileData) → (load s).0 ≡ ok d → Holds s d
Holds-of_ok s d h = ground (arith, load_state s)

pub Holds-version : (s : State) (d : FileData) → Holds s d → d.version ≡ some 1
unfolding load
Holds-version s d h = ground arith

-- What was saved is what is loaded next.
pub Holds-save : (E : Env) (d : FileData) (s : State) → d.version ≡ some 1 → Holds (save E d s).1 d
unfolding load
Holds-save E d s v = ground (arith, lookup-save E d s, save_frame E d s)
