-- ===== src/ArchiveDemo.antt =====
-- demo_archive.py: the script that lists a user's local archive and prints its messages. The result
-- is what each `print` was given; what was printed before something raises is not modelled.
pub mod Lines
pub mod Listing
use cs4455_epic.Base.{
  ℕ, Bool, ◌&&◌, true, false, ◌||◌, Option, none, List, [], ◌∷◌, ◌++◌, take, leb, ◌==◌,
}
use cs4455_epic.Base.Text.{Str, Bytes, lit, strip}
use cs4455_epic.Codec.Hex.{hex}
use cs4455_epic.Errors.{Result, ok, err, file_not_found, value_error}
use cs4455_epic.Env.{Env}
use cs4455_epic.Py.{Py, pure, gets, lift, modify, or_raise, ◌>>=◌, ◌>>◌}
use cs4455_epic.Config.{keystore_path_for}
use cs4455_epic.Keystore.{unlock, archive_path, archive_key_hex}

-- The bytes of a file, and the output of `message-store list` and `message-store get` on an archive
-- with a key; `none` is a `FileNotFoundError`.
pub record Archive : Type 0 where
  pub raw : Str → Option Bytes
  pub list : (archive key : Str) → Option Str
  pub get : (archive key msg_id : Str) → Option Str

-- The characters at which `str.splitlines` ends a line.
unfoldable pub is_break : ℕ → Bool
is_break c =
    (leb 10 c && leb c 13) || (leb 28 c && leb c 30) || c == 0x85 || c == 0x2028 || c == 0x2029

-- The last line ends without a line break.
unfoldable pub last_line : Str → List Str
last_line [] = []
last_line (c ∷ line) = (c ∷ line) ∷ []

-- `text.splitlines()`, from the line that was read; `after_cr` tells whether a carriage return was
-- read last, which a line feed belongs to.
unfoldable pub splitlines : (after_cr : Bool) (line text : Str) → List Str
unfolding is_break last_line
splitlines after_cr line [] = last_line line
splitlines after_cr line (c ∷ text) = elim (after_cr && c == 10) [
  | true ↦ splitlines false line text
  | false ↦ elim (is_break c) [
    | true ↦ line ∷ splitlines (c == 13) [] text
    | false ↦ splitlines false (line ++ (c ∷ [])) text
  ]
]

-- `line.split("\t")`, from the part that was read
unfoldable pub split_tab : (part line : Str) → List Str
split_tab part [] = part ∷ []
split_tab part (c ∷ line) = elim (c == 9) [
  | true ↦ part ∷ split_tab [] line
  | false ↦ split_tab (part ++ (c ∷ [])) line
]

-- A line of the listing: id, sender and time.
pub record Row : Type 0 where
  pub msg_id : Str
  pub sender : Str
  pub created : Str

unfoldable pub row_of : List Str → Result Row
row_of (msg_id ∷ sender ∷ created ∷ []) =
    ok (record { msg_id = msg_id; sender = sender; created = created })
row_of _ = err value_error

-- `f"[{created}] {sender}: {body}"`
unfoldable pub message_line : Row → (body : Str) → Str
message_line row body = lit "[" ++ (row.created ++ (lit "] " ++ (row.sender ++ (lit ": " ++ body))))

module _ (A : Archive) (archive key_hex : Str) where
  -- The loop over the lines
  unfoldable pub print_messages : List Str → Py (List Str)
  unfolding split_tab row_of message_line
  print_messages [] = pure []
  print_messages (line ∷ lines) = do
    row ← lift (row_of (split_tab [] line))
    body ← or_raise file_not_found (A.get archive key_hex row.msg_id)
    printed ← print_messages lines
    pure (message_line row body ∷ printed)

-- The script, for the user and the password that it asked for.
unfoldable pub demo_archive : Env → Archive → (dir file username password : Str) → Py (List Str)
unfolding splitlines print_messages
demo_archive E A dir file username password = do
  modify (λ s. record s {
    keystore = record { path = keystore_path_for E dir file username; kek = none; keys = none };
  })
  unlock E password
  archive ← gets archive_path
  key_hex ← archive_key_hex E
  raw ← or_raise file_not_found (A.raw archive)
  listing ← or_raise file_not_found (A.list archive key_hex)
  printed ← print_messages A archive key_hex (splitlines false [] (strip listing))
  pure (
      lit "\n--- Archive file location ---"
      ∷ archive
      ∷ lit "\n--- Raw bytes (first 40) — proves it is encrypted ---"
      ∷ hex (take 40 raw)
      ∷ lit "\n--- Decrypted contents (via C++ binary) ---"
      ∷ listing
      ∷ lit "--- Plaintext of each message ---"
      ∷ printed)
