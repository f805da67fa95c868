-- ===== src/Ui/Archive.antt =====
-- client/src/ui/utils.py and message_frame.py: finding the message store's binary, and running it
-- to put the local archive under a new key.
pub mod Rekeying
use cs4455_epic.Base.{zero, Bool, not, ◌&&◌, ◌||◌, Option, none, some, [], ◌∷◌, ◌++◌, if◌then◌else◌}
use cs4455_epic.Base.Int.{ℤ, pos}
use cs4455_epic.Base.Text.{Str, lit, str_eq, strip}
use cs4455_epic.Codec.Decimal.{show_ℤ}
use cs4455_epic.Errors.{Result, ok, err, runtime}

-- The system: `MESSAGE_STORE_BIN`, `os.path.exists`, the path of a local build, what `shutil.which`
-- finds, and the exit code and error text of `<binary> rekey --archive <archive>` with two keys.
pub record System : Type 0 where
  pub override : Option Str
  pub exists : Str → Bool
  pub built : Str
  pub which : Option Str
  pub rekey : (binary archive old_key new_key : Str) → ℤ × Str

module _ (T : System) where
  built_or_found : Option Str
  built_or_found = if T.exists T.built then some T.built else T.which

  unfoldable pub resolve_store_binary : Option Str
  unfolding built_or_found
  resolve_store_binary = elim T.override [
    | none ↦ built_or_found
    | some p ↦ if not (str_eq p []) && T.exists p then some p else built_or_found
  ]

  or_code : Str → ℤ → Str
  or_code [] code = lit "message-store rekey exited with code " ++ show_ℤ code
  or_code (c ∷ text) code = c ∷ text

  unfoldable outcome_of : ℤ × Str → Result (Unit {0})
  unfolding or_code
  outcome_of (pos zero, stderr) = ok tt
  outcome_of (code, stderr) = err (runtime (or_code (strip stderr) code))

  -- The two early returns of `rekey_archive`.
  unfoldable pub needs_rekey : (archive old_key new_key : Str) → Bool
  needs_rekey archive old_key new_key =
      not (str_eq archive [])
      && T.exists archive
      && not (str_eq old_key [] || str_eq new_key [] || str_eq old_key new_key)

  unfoldable pub rekey_archive : (archive old_key new_key : Str) → Result (Unit {0})
  unfolding needs_rekey outcome_of
  rekey_archive archive old_key new_key =
      if needs_rekey archive old_key new_key
      then (elim resolve_store_binary [
        | none ↦
            err (runtime (lit "message-store binary not found — local archive was not re-keyed"))
        | some binary ↦ outcome_of (T.rekey binary archive old_key new_key)
      ])
      else ok tt
