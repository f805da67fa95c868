-- ===== src/Config/Settings.antt =====
-- The settings of client/src/config.py, which it reads from the environment.
use cs4455_epic.Base.{Bool, true, Option, none, some, [], ◌∷◌, ◌++◌, ◌==◌, if◌then◌else◌}
use cs4455_epic.Base.Int.{ℤ}
use cs4455_epic.Base.Dict.{get_or}
use cs4455_epic.Base.Text.{Str, lit, str_eq}
use cs4455_epic.Codec.Decimal.{read_ℤ}
use cs4455_epic.Errors.{Result, ok, err, value_error}
use cs4455_epic.Env.{Env}
use cs4455_epic.Config.{folder, keystore_path_for}
use cs4455_epic.Api.Client.{rstrip_slash}

-- `os.environ.get`, after the `.env` file was read, `os.path.expanduser` and `Path.home()`.
pub record Surroundings : Type 0 where
  pub environ : Str → Option Str
  pub expanduser : Str → Str
  pub home : Str

-- `os.path.split`: a path up to its last `/`, and what follows.
unfoldable pub split_path : Str → Str × Str
split_path [] = ([], [])
split_path (c ∷ path) =
    let (head, tail) = split_path path in
    elim head [
      | [] ↦ if c == b'/' then (c ∷ [], tail) else ([], c ∷ tail)
      | d ∷ head ↦ (c ∷ d ∷ head, tail)
    ]

-- `os.path.dirname`: the slashes at the end are taken off, where something else is there.
unfoldable pub dirname : Str → Str
unfolding split_path
dirname path =
    let head = (split_path path).0 in
    let bare = rstrip_slash head in if str_eq bare [] then head else bare

unfoldable pub basename : Str → Str
unfolding split_path
basename path = (split_path path).1

module _ (S : Surroundings) where
  unfoldable pub server_url : Str
  server_url = get_or (S.environ (lit "SERVER_URL")) (lit "http://localhost:3000")

  unfoldable pub base_url : Str
  unfolding server_url
  base_url = server_url

  unfoldable pub keystore_path : Str
  keystore_path =
      let default = folder S.home ++ lit ".secure_messenger/keystore.json" in
      S.expanduser (get_or (S.environ (lit "KEYSTORE_PATH")) default)

  -- A text that is no number is a `ValueError` when the module is imported.
  unfoldable pub request_timeout : Result ℤ
  request_timeout = elim (read_ℤ (get_or (S.environ (lit "REQUEST_TIMEOUT")) (lit "10"))) [
    | none ↦ err value_error
    | some seconds ↦ ok seconds
  ]

  unfoldable pub log_level : Str
  log_level = get_or (S.environ (lit "LOG_LEVEL")) (lit "INFO")

  -- `keystore_path_for` under these settings
  unfoldable pub account_path : Env → (username : Str) → Str
  unfolding dirname basename keystore_path
  account_path E username =
      keystore_path_for E (dirname keystore_path) (basename keystore_path) username

unfoldable pub verify_ssl : Bool
verify_ssl = true
