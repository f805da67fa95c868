-- ===== src/Config.antt =====
-- client/src/config.py: where the keystore of an account lies; the settings are in the child
-- `Settings`.
pub mod Paths
pub mod Settings
use cs4455_epic.Base.{ℕ, Bool, ◌||◌, ◌&&◌, [], ◌∷◌, ◌++◌, map, leb, ◌==◌, if◌then◌else◌}
use cs4455_epic.Base.Text.{Str, lit, strip}
use cs4455_epic.Env.{Env}

-- `[a-z0-9_-]`
abbrev pub is_safe : ℕ → Bool
is_safe c = (leb 97 c && leb c 122) || (leb 48 c && leb c 57) || c == 95 || c == 45

abbrev pub safe_char : ℕ → ℕ
safe_char c = if is_safe c then c else 95

unfoldable or_default : Str → Str
or_default [] = lit "default"
or_default (c ∷ cs) = c ∷ cs

-- What `os.path.join` puts before a relative name.
unfoldable pub folder : Str → Str
folder [] = []
folder (c ∷ []) = if c == 47 then c ∷ [] else c ∷ lit "/"
folder (c ∷ d ∷ ds) = c ∷ folder (d ∷ ds)

module _ (E : Env) where
  unfoldable pub safe_name : Str → Str
  unfolding or_default
  safe_name username = or_default (map safe_char (E.lower (strip username)))

  -- `keystore_path_for`, where `dir` and `file` are the two parts of `KEYSTORE_PATH`.
  unfoldable pub keystore_path_for : (dir file username : Str) → Str
  unfolding safe_name folder
  keystore_path_for dir file username = folder dir ++ (safe_name username ++ (lit "/" ++ file))
