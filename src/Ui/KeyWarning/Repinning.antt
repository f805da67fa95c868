-- ===== src/Ui/KeyWarning/Repinning.antt =====
-- `accept` in the dialog of client/src/ui/widgets.py: which keys are pinned.
use cs4455_epic.Base.{◌≡◌, ◌&&◌, Option, some, if◌then◌else◌}
use cs4455_epic.Base.Text.{Str, str_eq}
use cs4455_epic.Json.{Json, str}
use cs4455_epic.Env.{Env}
use cs4455_epic.Py.{FileData, State}
use cs4455_epic.Keystore.{pin_of}
use cs4455_epic.Keystore.Loading.{Holds}

-- The pin of `v` and `k` after a key of the server was accepted for `u` and `kt`; `null` is no key.
pub repinned : Str → Str → Json → Str → Str → Option Str → Option Str
repinned u kt (str p) v k old = if str_eq u v && str_eq kt k then some p else old
repinned u kt _ v k old = old

-- A state that holds a file whose pins are those of `d`, but for one key.
abbrev IsRepinned : Str → Str → Json → FileData → State → Type 0
IsRepinned u kt j d t =
    (d' : FileData) × Holds t d'
    × ((v k : Str) → pin_of v k d' ≡ repinned u kt j v k (pin_of v k d))
