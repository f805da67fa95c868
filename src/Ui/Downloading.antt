-- ===== src/Ui/Downloading.antt =====
-- `_download_msg` of client/src/ui/message_frame.py: a message is handed to the message store's
-- binary, which keeps it in the local archive. The worker runs at once. An id, a name or a time
-- that is no text is a `TypeError` here.
use cs4455_epic.Base.{zero, Bool, not, none, some, [], ◌∷◌, ◌++◌, if◌then◌else◌}
use cs4455_epic.Base.Int.{ℤ, pos}
use cs4455_epic.Base.Text.{Str, Bytes, lit, strip}
use cs4455_epic.Codec.Decimal.{show_ℤ}
use cs4455_epic.Codec.Utf8.{encode}
use cs4455_epic.Errors.{Exc, Result, ok, err, attribute_error}
use cs4455_epic.Json.{Json, str, truthy}
use cs4455_epic.Env.{Env}
use cs4455_epic.Py.{Py, pure, gets, lift, ◌>>=◌}
use cs4455_epic.Keystore.{archive_key_hex, archive_path}
use cs4455_epic.Services.MessageService.{as_text}
use cs4455_epic.Ui.Archive.{System, resolve_store_binary}
use cs4455_epic.Ui.Conversations.{attempt}
use cs4455_epic.Ui.Conversations.Grouping.{Message, field_of}
use cs4455_epic.Ui.Messages.{field_or_mark}

-- What `subprocess.run` of `<binary> add` returns: exit code and error text.
pub record Archiver : Type 0 where
  pub add : (binary archive message_id sender created : Str) → Bytes → (key : Str) → ℤ × Str

pub data DownloadEnd : Type 0 where
  nothing_to_save no_keystore no_binary saved : DownloadEnd
  locked : Exc → DownloadEnd
  failed_with : Str → DownloadEnd
  raised : Exc → DownloadEnd

text_or_code : Str → ℤ → Str
text_or_code [] code = lit "message-store exited with code " ++ show_ℤ code
text_or_code (c ∷ text) code = c ∷ text

unfoldable pub download_outcome : ℤ × Str → DownloadEnd
unfolding text_or_code
download_outcome (pos zero, stderr) = saved
download_outcome (code, stderr) = failed_with (text_or_code (strip stderr) code)

-- `plaintext.encode("utf-8")`
unfoldable pub encoded : Json → Result Bytes
encoded (str text) = ok (encode text)
encoded _ = err attribute_error

module _ (E : Env) (T : System) (C : Archiver) where
  -- `run` in `_download_msg`
  unfoldable pub download_run : Message → Json → Str → Str → Str → Py DownloadEnd
  unfolding download_outcome encoded
  download_run m plaintext key_hex binary archive = do
    message_id ← as_text (field_or_mark (lit "messageId") m)
    sender ← as_text (field_or_mark (lit "sender_username") m)
    created ← as_text (field_or_mark (lit "created_at") m)
    input ← lift (encoded plaintext)
    pure (download_outcome (C.add binary archive message_id sender created input key_hex))

  download_keys : Message → Json → Result Str → Py DownloadEnd
  download_keys m plaintext (err e) = pure (locked e)
  download_keys m plaintext (ok key_hex) = elim (resolve_store_binary T) [
    | none ↦ pure no_binary
    | some binary ↦ (do
      archive ← gets archive_path
      outcome ← attempt (download_run m plaintext key_hex binary archive)
      elim outcome [ err e ↦ pure (raised e) | ok end' ↦ pure end' ])
  ]

  -- `_download_msg`; the flag tells whether there is a keystore.
  unfoldable pub download_msg : Bool → Message → Py DownloadEnd
  unfolding download_keys download_run
  download_msg unlocked m =
      if not (truthy (field_of (lit "plaintext") m))
      then pure nothing_to_save
      else if not unlocked
      then pure no_keystore
      else (do
        key_hex ← attempt (archive_key_hex E)
        download_keys m (field_of (lit "plaintext") m) key_hex)
