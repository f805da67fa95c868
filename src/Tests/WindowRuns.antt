-- ===== src/Tests/WindowRuns.antt =====
-- The theorems on the interface at concrete inputs.
use cs4455_epic.Base.{◌≡◌, refl, ◌⊎◌, ◌++◌, Bool, true, false, none, some, List, [], ◌∷◌}
use cs4455_epic.Base.Dict.{Dict, lookup, insert, erase}
use cs4455_epic.Base.Text.{Str, lit, str_eq, strip}
use cs4455_epic.Errors.{Result, ok, err}
use cs4455_epic.Json.{Json, null, str}
use cs4455_epic.Ui.Sort.{keyed, insert_by, sort_by_key, sort_by}
use cs4455_epic.Ui.Conversations.{with_plaintext}
use cs4455_epic.Ui.Conversations.Grouping.{Message}
use cs4455_epic.Ui.Populate.{
  Conversation, populate, add_entries, add_entry, received_entry, sent_entry, norm, rename, text_at,
  with_sent_text, cached_for, sent_text, finish_all, finish, any_warning, str_leb, open_peer,
  previous, restore_shell, has_new,
}
use cs4455_epic.Ui.Populate.Threads.{IsByTime, shown_for, thread_of, populate-IsByTime}
use cs4455_epic.Ui.Account.{App, Problem, rejected, submit, register_run}
use cs4455_epic.Ui.Account.Registering.{IsComplete, submit_checked}
use cs4455_epic.Ui.Account.Entering.{Fails, Enters, login_run_enters}
use cs4455_epic.Ui.Window.{Window, open_chat}
use cs4455_epic.Ui.Running.{step, done, polls, opens, start, is_open}
use cs4455_epic.Py.{State}
use cs4455_epic.Ui.Sending.{SendEnd, send_input}
use cs4455_epic.Ui.Running.Reaching.{reached_is_open}
use cs4455_epic.Ui.Messages.{forward_run, not_decrypted}
use cs4455_epic.Ui.Messages.Forwarding.{forward_placeholder}
use mathlib.Core.List.{Perm}
use cs4455_epic.Ui.Times.{Calendar}
use cs4455_epic.Ui.Drawing.Sides.{deletable, not_deletable, populate_sides}
use cs4455_epic.Tests.Data.{env, new_client, with_file}

abbrev bob : Str
bob = lit "bob"

abbrev app : App
app = record { token = null; user_id = null; username = null; keystore = none }

abbrev received : Message
received =
    (lit "messageId", str (lit "m2"))
    ∷ (lit "senderId", str bob)
    ∷ (lit "ciphertext", str (lit "QQ=="))
    ∷ (lit "createdAt", str (lit "2025-02-01"))
    ∷ []

abbrev own : Message
own =
    (lit "messageId", str (lit "m1"))
    ∷ (lit "recipientId", str bob)
    ∷ (lit "createdAt", str (lit "2025-01-01"))
    ∷ []

abbrev value : Result (Dict Conversation × Bool) → Dict Conversation × Bool
value (ok v) = v
value (err e) = ([], false)

abbrev cache : Dict Str
cache = (lit "m1", lit "hi") ∷ []

abbrev populated : Result (Dict Conversation × Bool)
populated = populate (some bob) [] cache (received ∷ []) (own ∷ [])

populated-ok : populated ≡ ok (value populated)
unfolding populate add_entries add_entry received_entry sent_entry norm rename text_at
    with_sent_text cached_for sent_text finish_all finish any_warning str_leb open_peer previous
    restore_shell has_new sort_by keyed sort_by_key insert_by lookup insert erase str_eq
populated-ok = refl

populate-IsByTime_example :
    IsByTime
      (shown_for received_entry bob (received ∷ []) ++ shown_for (sent_entry cache) bob (own ∷ []))
      (thread_of bob (value populated).0)
populate-IsByTime_example =
    populate-IsByTime (some bob) [] cache (received ∷ []) (own ∷ []) bob (value populated).0
      (value populated).1 populated-ok

-- A clock that parses nothing.
abbrev calendar : Calendar
calendar = record {
  strptime = λ raw format. none;
  today_year = 2026;
  today_month = 6;
  today_day = 1;
  shown = λ v. [];
}

populate_sides_example :
    Perm
      (shown_for (sent_entry cache) bob (own ∷ []))
      (deletable calendar (thread_of bob (value populated).0))
    × Perm
        (shown_for received_entry bob (received ∷ []))
        (not_deletable calendar (thread_of bob (value populated).0))
populate_sides_example =
    populate_sides calendar (some bob) [] cache (received ∷ []) (own ∷ []) bob (value populated).0
      (value populated).1 populated-ok

abbrev word : Str
word = lit " correct horse "

submit_checked_example :
    (¬ (IsComplete (strip bob) (strip word) (strip word))
      × (p : Problem) × (submit env (lit "d") (lit "k") bob word word app new_client
          ≡ (ok (app, rejected p), new_client)))
    ⊎ (IsComplete (strip bob) (strip word) (strip word)
        × (submit env (lit "d") (lit "k") bob word word app new_client
            ≡ register_run env (lit "d") (lit "k") (strip bob) (strip word) app new_client))
submit_checked_example = submit_checked env (lit "d") (lit "k") bob word word app new_client

login_run_enters_example :
    Fails env (lit "d") (lit "k") bob word app new_client
    ⊎ Enters env (lit "d") (lit "k") bob word app new_client
login_run_enters_example = login_run_enters env (lit "d") (lit "k") bob word app new_client

abbrev locked_text : Str
locked_text = lit "[encrypted — keys locked]"

abbrev window : Window
window = record { active_peer = none; conversations = []; cache = [] }

forward_placeholder_example :
    forward_run env true (with_plaintext locked_text received) bob window with_file
    ≡ (ok (window, not_decrypted), with_file)
forward_placeholder_example =
    forward_placeholder env true received bob window with_file locked_text (_, refl)

abbrev polled : Result (Dict Conversation × Bool)
polled = populate none [] cache (received ∷ []) (own ∷ [])

polled-ok : polled ≡ ok (value polled)
unfolding populate add_entries add_entry received_entry sent_entry norm rename text_at
    with_sent_text cached_for sent_text finish_all finish any_warning str_leb open_peer previous
    restore_shell has_new sort_by keyed sort_by_key insert_by lookup insert erase str_eq
polled-ok = refl

abbrev listed : Window
listed = record { active_peer = none; conversations = (value polled).0; cache = cache }

abbrev opened : Window
opened = record listed { active_peer = some bob }

opened-ok : open_chat bob listed ≡ ok opened
unfolding open_chat populate add_entries add_entry received_entry sent_entry norm rename text_at
    with_sent_text cached_for sent_text finish_all finish any_warning str_leb open_peer previous
    restore_shell has_new sort_by keyed sort_by_key insert_by lookup insert erase str_eq
opened-ok = refl

reached_is_open_example :
    (is_open opened ≡ true)
    × ((now : Str) (app : App) (unlocked : Bool) (input : Str) (s : State)
        → (out : Window × SendEnd) × ((send_input env now app unlocked input opened s).0 ≡ ok out))
reached_is_open_example = reached_is_open env [] opened (
    step (start []) listed opened
      (polls cache (received ∷ []) (own ∷ []) (start []) (value polled).0 (value polled).1
        polled-ok)
      (step listed opened opened (opens bob listed opened opened-ok) (done opened)))

abbrev first_note : Message
first_note = (lit "messageId", str (lit "m1")) ∷ (lit "plaintext", str (lit "one")) ∷ []

abbrev second_note : Message
second_note = (lit "messageId", str (lit "m2")) ∷ (lit "plaintext", str (lit "two")) ∷ []

abbrev noted : Window
noted = record {
  active_peer = some bob;
  conversations =
      (
        bob,
        record { name = str bob; messages = first_note ∷ second_note ∷ []; key_warning = false },
      )
      ∷ [];
  cache = (lit "m1", lit "one") ∷ (lit "m2", lit "two") ∷ [];
}
