-- ===== src/Keystore/Files.antt =====
-- The persistence part of client/src/crypto/keystore.py: `_load`, `_save`, `_write_json_secure`
-- and `exists`. Directories and file modes are not modelled; a write on a disk that fails is in
-- `Failing`.
use cs4455_epic.Base.{
  ℕ, ◌+◌, Bool, not, Option, none, some, List, [], ◌∷◌, ◌++◌, map, ◌==◌, if◌then◌else◌,
}
use cs4455_epic.Base.Dict.{Dict, lookup, insert, erase, is_some}
use cs4455_epic.Base.Text.{Str, lit}
use cs4455_epic.Codec.Base64.{b64encode}
use cs4455_epic.Codec.Decimal.{show_ℕ}
use cs4455_epic.Errors.{Exc, Result, ok, err, runtime, file_not_found, value_error}
use cs4455_epic.Env.{Env}
use cs4455_epic.Py.{FileData, Content, json, other, State, Py, pure, gets, raise_if, ◌>>=◌, ◌>>◌}

abbrev pub blank : FileData
blank = record {
  version = none;
  salt = none;
  nonce = none;
  ciphertext = none;
  pub_x25519 = none;
  pub_ed25519 = none;
  peers = none;
  seq_send = none;
  seq_recv = none;
}

unfoldable pub locked : Exc
locked = runtime (lit "Keystore is locked — call unlock() first")

-- The system calls of one write.
pub data FileOp : Type 0 where
  create : Str → FileOp
  write : Str → Content → FileOp
  replace : Str → Str → FileOp
  unlink : Str → FileOp

unfoldable pub apply_op : FileOp → Dict Content → Dict Content
apply_op (create p) files = insert p other files
apply_op (write p c) files = insert p c files
apply_op (replace source target) files = elim (lookup source files) [
  | none ↦ files
  | some c ↦ insert target c (erase source files)
]
apply_op (unlink p) files = erase p files

unfoldable pub run_ops : List FileOp → Dict Content → Dict Content
unfolding apply_op
run_ops [] files = files
run_ops (op ∷ ops) files = run_ops ops (apply_op op files)

-- `_write_json_secure` where `json.dump` succeeds, and where it raises half way.
abbrev pub write_ops : Str → Str → Content → List FileOp
write_ops tmp path content = create tmp ∷ write tmp content ∷ replace tmp path ∷ []

abbrev pub failed_ops : Str → List FileOp
failed_ops tmp = create tmp ∷ write tmp other ∷ unlink tmp ∷ []

-- `urlsafe_b64encode` writes `-` and `_` for `+` and `/`.
abbrev urlsafe_char : ℕ → ℕ
urlsafe_char c = if c == 43 then 45 else if c == 47 then 95 else c

unfoldable pub tmp_path : ℕ → Str → List ℕ → Str
tmp_path pid path random =
    path
    ++ (lit "." ++ (show_ℕ pid ++ (lit "." ++ (map urlsafe_char (b64encode random) ++ lit ".tmp"))))

unfoldable pub exists : State → Bool
exists s = is_some (lookup s.keystore.path s.files)

-- `open` and `json.load`
unfoldable pub parsed : Option Content → Result FileData
parsed none = err file_not_found
parsed (some other) = err value_error
parsed (some (json data')) = ok data'

unfoldable pub read_json : (State → Str) → Py FileData
read_json path s = (parsed (lookup (path s) s.files), s)

has_version_1 : Option ℕ → Bool
has_version_1 none = Bool.false
has_version_1 (some v) = v == 1

unfoldable pub load : Py FileData
unfolding read_json parsed has_version_1
load = do
  data' ← read_json (λ s. s.keystore.path)
  raise_if (not (has_version_1 data'.version)) value_error
  pure data'

module _ (E : Env) where
  unfoldable pub write_json_secure : Str → FileData → Py (Unit {0})
  unfolding run_ops
  write_json_secure path data' s = (
    ok tt,
    record s {
      files =
          run_ops (write_ops (tmp_path E.pid path (E.urandom s.drawn 6)) path (json data')) s.files;
      drawn = s.drawn + 1;
    },
  )

  unfoldable pub save : FileData → Py (Unit {0})
  save data' = do path ← gets (λ s. s.keystore.path); write_json_secure path data'
