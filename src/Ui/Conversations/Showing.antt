-- ===== src/Ui/Conversations/Showing.antt =====
-- `_decrypt_inbox` of client/src/ui/main_frame.py: where the text that is shown for a received
-- message comes from.
use cs4455_epic.Base.{◌≡◌, refl, Bool, false, some, ◌∷◌}
use cs4455_epic.Base.Dict.{Dict, lookup}
use cs4455_epic.Base.Text.{Str, lit}
use cs4455_epic.Errors.{ok}
use cs4455_epic.Json.{str, truthy}
use cs4455_epic.Env.{Env}
use cs4455_epic.Py.{State, Py}
use cs4455_epic.Services.KeyService.{Found}
use cs4455_epic.Services.MessageService.{as_text, receive}
use cs4455_epic.Ui.Conversations.Grouping.{Message, field_of}
use cs4455_epic.Ui.Conversations.{View, with_plaintext}

-- A text that the client shows in place of one that it could not decrypt.
abbrev pub IsPlaceholder : Str → Type 0
IsPlaceholder text = (rest : Str) × (text ≡ 91 ∷ rest)

-- How a message comes to be shown as `m'`.
pub data Shown (E : Env) (m : Message) (cache : Dict Str) (m' : Message) : Type 0 where
  from_cache :
      (message_id pt : Str)
      → lookup message_id cache ≡ some pt
      → m' ≡ with_plaintext pt m
      → Shown E m cache m'
  unsealed : truthy (field_of (lit "ciphertext") m) ≡ false → m' ≡ m → Shown E m cache m'
  placeholder : (text : Str) → IsPlaceholder text → m' ≡ with_plaintext text m → Shown E m cache m'
  opened :
      (found : Found) (enforce : Bool) (t : State) (pt : Str) (changed : Bool)
      → (receive E m (some found) enforce t).0 ≡ ok (pt, changed)
      → lookup (lit "plaintext") m' ≡ some (str pt)
      → Shown E m cache m'

pub as_text_str : (t : Str) (s : State) → as_text (str t) s ≡ (ok t, s)
unfolding as_text
as_text_str t s = refl

module _ (E : Env) (m : Message) (cache : Dict Str) (added : Bool) (m' : Message)
    (view' : View) where
  -- The step ends with `m'`.
  abbrev Ends : Py (Message × View) → State → Type 0
  Ends p s = (p s).0 ≡ ok (m', view')

  abbrev S : Type 0
  S = Shown E m cache m'
