-- ===== src/Tests/LoopRuns.antt =====
-- The theorems on the loading loop, the services' requests and the development mode at concrete
-- inputs.
use cs4455_epic.Base.{◌≡◌, ◌≤◌, refl, true, false, some, [], ◌∷◌, ◌++◌}
use cs4455_epic.Base.Text.{Str, lit, strip}
use cs4455_epic.Errors.{ok, err, client, network_error}
use cs4455_epic.Json.{str}
use cs4455_epic.Py.{State}
use cs4455_epic.Services.AuthService.{register, login, change_password}
use cs4455_epic.Services.AuthService.Sending.{
  registration, sign_in, password_change, credentials_hashed,
}
use cs4455_epic.Services.AuthService.Refusing.{Refuses, IsRefused, auth_service-IsRefused}
use cs4455_epic.Services.KeyService.Publishing.{Published}
use cs4455_epic.Services.MessageService as MessageService
use cs4455_epic.Api.Client.{handle_outcome, request, get_path}
use cs4455_epic.Api.Endpoints as Api
use cs4455_epic.Ui.Loading.{load_messages}
use cs4455_epic.Ui.Polling.{
  Frame, load_raised, schedule_poll, load, stop, open_frame, fires, raises, rest, tick,
}
use cs4455_epic.Ui.Polling.Stopping.{work, StaysStopped, logout_settles}
use cs4455_epic.Ui.Polling.Timing.{IsPolling, reached-IsPolling}
use cs4455_epic.ArchiveDemo.{Archive, Row, is_break, splitlines, message_line, print_messages}
use cs4455_epic.ArchiveDemo.Listing.{IsPlain, line_of, listing, print_messages-listing}
use cs4455_epic.Tests.Data.{env, new_client, with_file}

abbrev ann : Str
ann = lit "ann"

abbrev old_password : Str
old_password = lit "correct horse"

abbrev new_password : Str
new_password = lit "battery staple"

-- A client with a session.
abbrev signed_in : State
signed_in = record with_file {
  session = record { token = some (lit "t"); user_id = some (lit "ann-id"); username = some ann };
}

credentials_hashed_example :
    ((register env ann old_password signed_in).1.requests
      ≡ signed_in.requests ++ (registration env ann old_password signed_in ∷ []))
    × Published
        (record signed_in {
          requests = signed_in.requests ++ (sign_in env ann old_password signed_in ∷ []);
        })
        (login env ann old_password signed_in).1
    × ((change_password env old_password new_password true signed_in).1.requests
        ≡ signed_in.requests
          ++ password_change env old_password new_password signed_in.session.username signed_in)
credentials_hashed_example =
    credentials_hashed env ann old_password old_password new_password true signed_in

no_route : Refuses env with_file (λ r. client network_error (str (lit "no route to host")))
unfolding handle_outcome
no_route r = refl

auth_service-IsRefused_example :
    IsRefused (register env ann old_password) with_file
    × IsRefused (login env ann old_password) with_file
    × IsRefused (change_password env old_password new_password true) with_file
auth_service-IsRefused_example =
    auth_service-IsRefused env with_file (λ r. client network_error (str (lit "no route to host")))
      no_route ann old_password old_password new_password true

-- The timer fires once more, and a worker fails.
abbrev opened : Frame
opened = open_frame false []

abbrev fired : Frame
fired = schedule_poll false (record (stop opened) { timers = 0 })

timer_set : (stop opened).timers ≡ 1
unfolding stop open_frame load schedule_poll
timer_set = refl

worker_left : fired.workers ≡ 2
unfolding stop open_frame load schedule_poll
worker_left = refl

load_refused :
    (load_messages env true fired.window.cache new_client).0
    ≡ err (client network_error (str (lit "no route to host")))
unfolding load_messages MessageService.inbox Api.inbox get_path request handle_outcome
load_refused = refl

abbrev settled : Frame
settled =
    load_raised [] (client network_error (str (lit "no route to host")))
      (record fired { workers = 1 })

logout_settles_example : (2 ≤ work opened) × StaysStopped opened settled
logout_settles_example = logout_settles env true 2 opened settled (
    tick 1 (stop opened) fired settled (fires (stop opened) 0 timer_set) (
      tick 0 fired settled settled (raises fired 1 new_client [] _ worker_left load_refused)
        (rest settled)))

abbrev polling : Frame
polling = schedule_poll false (record opened { timers = 0 })

timer_there : opened.timers ≡ 1
unfolding open_frame load schedule_poll
timer_there = refl

reached-IsPolling_example : IsPolling polling
reached-IsPolling_example =
    reached-IsPolling env true 1 [] polling
      (tick 0 opened polling polling (fires opened 0 timer_there) (rest polling))

abbrev kept : Row
kept = record { msg_id = lit "m1"; sender = lit "bob b"; created = lit "10:00" }

abbrev archive : Archive
archive = record {
  raw = λ path. some [];
  list = λ path key. some (lit "m1\tbob b\t10:00\n");
  get = λ path key msg_id. some (lit "hello");
}

kept-IsPlain : IsPlain kept
unfolding is_break
kept-IsPlain = record {
  first = b'm';
  behind = lit "1";
  before = lit "10:0";
  last = b'0';
  begins = refl;
  ends = refl;
  first_there = refl;
  last_there = refl;
  id_inner = ((refl, refl), ((refl, refl), tt));
  sender_inner = ((refl, refl), ((refl, refl), ((refl, refl), ((refl, refl), ((refl, refl), tt)))));
  created_inner =
      ((refl, refl), ((refl, refl), ((refl, refl), ((refl, refl), ((refl, refl), tt)))));
}

print_messages-listing_example :
    print_messages archive
      (lit "a")
      (lit "k")
      (splitlines false [] (strip (listing (kept ∷ []))))
      with_file
    ≡ (ok (message_line kept (lit "hello") ∷ []), with_file)
print_messages-listing_example =
    print_messages-listing archive (lit "a") (lit "k") (λ r. lit "hello") (kept ∷ []) with_file
      (kept-IsPlain, tt) (refl, tt)

-- What the binary lists is the listing of the row, and the script prints the row.
listed : listing (kept ∷ []) ≡ lit "m1\tbob b\t10:00\n"
unfolding listing line_of
listed = refl

printed : message_line kept (lit "hello") ≡ lit "[10:00] bob b: hello"
unfolding message_line
printed = refl
