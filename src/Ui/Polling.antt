-- ===== src/Ui/Polling.antt =====
-- The loop of client/src/ui/main_frame.py that loads the messages: `_load` and its worker threads,
-- the timer of `_schedule_poll`, what is scheduled with `app.after`, and `_logout`. A step is what
-- one thread does without another between: a worker ends, the timer fires, a scheduled call runs.
pub mod Stopping
pub mod Timing
use mathlib.Core.List.{Perm, flat_map}
use cs4455_epic.Base.{
  ℕ, zero, suc, ◌+◌, ◌≡◌, Bool, true, false, none, List, [], ◌∷◌, ◌++◌, if◌then◌else◌,
}
use cs4455_epic.Base.Dict.{Dict}
use cs4455_epic.Base.Text.{Str}
use cs4455_epic.Errors.{Exc, Result, ok, err, client, network_error}
use cs4455_epic.Env.{Env}
use cs4455_epic.Py.{State}
use cs4455_epic.Ui.Conversations.Grouping.{Message}
use cs4455_epic.Ui.Populate.{Conversation, populate}
use cs4455_epic.Ui.Window.{Window, open_chat, ensure_conversation, mark_warning, on_send_success}
use cs4455_epic.Ui.Loading.{load_messages}
use cs4455_epic.Json.{Json}
use cs4455_epic.Ui.KeyWarning.{clear_warning}
use cs4455_epic.Ui.Running.{Step}
use cs4455_epic.Ui.Demo.Acting.{populate_dev}

-- The text of `_show_load_error`.
pub data LoadProblem : Type 0 where
  unreachable : LoadProblem
  load_failed : Exc → LoadProblem

-- The handlers of `run` in `_load`.
unfoldable pub load_failure : Exc → LoadProblem
load_failure (client network_error message) = unreachable
load_failure e = load_failed e

-- What the list of chats shows: its rows, or why it could not be loaded.
pub data Sidebar : Type 0 where
  no_chats : Sidebar
  rows : Dict Conversation → Sidebar
  load_error : LoadProblem → Sidebar

-- `_rebuild_conv_list`
unfoldable pub rebuild_conv_list : Dict Conversation → Sidebar
rebuild_conv_list [] = no_chats
rebuild_conv_list (c ∷ conversations) = rows (c ∷ conversations)

-- What `app.after(0, …)` schedules, less the message boxes: the two of `run` in `_load`;
-- `self._load` at the end of a deletion, a forward or a revocation; the warning and
-- `_on_send_success` of a send or forward; `open_chat` of `_new_chat`; `_clear_warning` after a key
-- was accepted.
pub data Callback : Type 0 where
  populates : (inbox sent : List Message) → Callback
  reports : LoadProblem → Callback
  reloads : Callback
  warns : (peer_id : Str) → Callback
  shows_sent : (peer_id : Str) (name : Json) (msg : Message) → Callback
  shows_chat : (peer_id : Str) (name : Json) → Callback
  clears : (peer_id : Str) → Callback

-- What the worker of an action schedules until it ends: of a send, a forward, a deletion or a
-- revocation, a new chat, an accepted key. Nothing but a message box comes of a failure.
pub data Schedules : List Callback → Type 0 where
  left_nothing : Schedules []
  asked_reload : Schedules (reloads ∷ [])
  forwarded_with_change : (p : Str) → Schedules (warns p ∷ reloads ∷ [])
  sent_one : (p : Str) (name : Json) (m : Message) → Schedules (shows_sent p name m ∷ [])
  sent_with_change :
      (p : Str) (name : Json) (m : Message) → Schedules (warns p ∷ shows_sent p name m ∷ [])
  failed_with_change : (p : Str) → Schedules (warns p ∷ [])
  found_user : (p : Str) (name : Json) → Schedules (shows_chat p name ∷ [])
  accepted_key : (p : Str) → Schedules (clears p ∷ [])

-- `_alive` and what is shown; the workers of `_load` that run, those of actions, the calls that are
-- scheduled, and the timers that are set.
pub record Frame : Type 0 where
  pub alive : Bool
  pub window : Window
  pub sidebar : Sidebar
  pub workers : ℕ
  pub actions : ℕ
  pub queue : List Callback
  pub timers : ℕ

-- `_load`; `dev` is `self._dev`.
unfoldable pub load : (dev : Bool) → Frame → Frame
unfolding populate_dev rebuild_conv_list
load true frame =
    let window = (populate_dev frame.window).0 in
    record frame { window = window; sidebar = rebuild_conv_list window.conversations }
load false frame = record frame { workers = suc frame.workers }

-- `_schedule_poll`
unfoldable pub schedule_poll : (dev : Bool) → Frame → Frame
unfolding load
schedule_poll dev frame =
    if frame.alive
    then (let loaded = (if dev then frame else load dev frame) in
        record loaded { timers = suc loaded.timers })
    else frame

-- The end of `run` in `_load`, where nothing was raised: the cache that it left, and the messages.
unfoldable pub load_done : Dict Str → (inbox sent : List Message) → Frame → Frame
load_done cache inbox sent frame = record frame {
  window = record frame.window { cache = cache };
  queue = if frame.alive then frame.queue ++ (populates inbox sent ∷ []) else frame.queue;
}

-- The handlers of `run` in `_load`.
unfoldable pub load_raised : Dict Str → Exc → Frame → Frame
unfolding load_failure
load_raised cache e frame = record frame {
  window = record frame.window { cache = cache };
  queue = frame.queue ++ (reports (load_failure e) ∷ []);
}

-- `_populate`, with the list of chats
unfoldable pub show_messages : (inbox sent : List Message) → Frame → Result Frame
unfolding rebuild_conv_list
show_messages inbox sent frame =
    let window = frame.window in
    elim (populate window.active_peer window.conversations window.cache inbox sent) [
      | err e ↦ err e
      | ok (conversations, redrawn) ↦ ok (record frame {
        window = record window { conversations = conversations };
        sidebar = rebuild_conv_list conversations;
      })
    ]

-- `_show_load_error`
unfoldable pub show_load_error : LoadProblem → Frame → Frame
show_load_error problem frame = record frame { sidebar = load_error problem }

-- `_open_chat` and `_clear_warning` end with `_rebuild_conv_list`.
unfoldable pub redraw : Frame → Window → Frame
unfolding rebuild_conv_list
redraw frame window = record frame {
  window = window;
  sidebar = rebuild_conv_list window.conversations;
}

unfoldable pub redraw_opened : Frame → Result Window → Result Frame
unfolding redraw
redraw_opened frame (ok window) = ok (redraw frame window)
redraw_opened frame (err e) = err e

-- A scheduled call. Only the two of `_load` look at `self._alive`.
unfoldable pub run_callback : (dev : Bool) → Callback → Frame → Result Frame
unfolding show_messages show_load_error load redraw redraw_opened
run_callback dev (populates inbox sent) frame =
    if frame.alive then show_messages inbox sent frame else ok frame
run_callback dev (reports problem) frame =
    ok (if frame.alive then show_load_error problem frame else frame)
run_callback dev reloads frame = ok (load dev frame)
run_callback dev (warns peer_id) frame =
    let window = frame.window in
    ok (record frame {
      window = record window { conversations = mark_warning true peer_id window.conversations };
    })
run_callback dev (shows_sent peer_id name msg) frame =
    redraw_opened frame (on_send_success peer_id name msg frame.window)
run_callback dev (shows_chat peer_id name) frame =
    let window = frame.window in
    let conversations = ensure_conversation peer_id name window.conversations in
    redraw_opened frame (open_chat peer_id (record window { conversations = conversations }))
run_callback dev (clears peer_id) frame = ok (redraw frame (clear_warning peer_id frame.window))

-- `_logout`, for the frame
unfoldable pub stop : Frame → Frame
stop frame = record frame { alive = false }

-- The end of `__init__`
unfoldable pub open_frame : (dev : Bool) → Dict Str → Frame
unfolding load schedule_poll
open_frame dev cache = schedule_poll dev (
    load dev (record {
      alive = true;
      window = record { active_peer = none; conversations = []; cache = cache };
      sidebar = no_chats;
      workers = 0;
      actions = 0;
      queue = [];
      timers = 0;
    }))

abbrev pub messages_of : Dict (List Message) → List Message
messages_of groups = flat_map (λ g. g.1) groups

-- One step. A worker of `_load` runs from any state of the client; the lists that it loaded hold the
-- messages of its groups in the order of the server. Where it raised, or where a scheduled call
-- does, the cache or the window is any. A handler of the window runs only before the logout; it
-- starts a worker, or, as a step of the window, also does at once what its worker does. A worker of
-- an action may end, and change the cache, at any time. The development mode is off.
pub data Tick (E : Env) (unlocked : Bool) : Frame → Frame → Type 0 where
  fires :
      (f : Frame) (n : ℕ)
      → f.timers ≡ suc n
      → Tick E unlocked f (schedule_poll false (record f { timers = n }))
  loads :
      (f : Frame) (n : ℕ) (s : State) (received own : Dict (List Message)) (cache : Dict Str)
      (inbox sent : List Message)
      → f.workers ≡ suc n
      → (load_messages E unlocked f.window.cache s).0 ≡ ok (received, (own, cache))
      → Perm inbox (messages_of received)
      → Perm sent (messages_of own)
      → Tick E unlocked f (load_done cache inbox sent (record f { workers = n }))
  raises :
      (f : Frame) (n : ℕ) (s : State) (cache : Dict Str) (e : Exc)
      → f.workers ≡ suc n
      → (load_messages E unlocked f.window.cache s).0 ≡ err e
      → Tick E unlocked f (load_raised cache e (record f { workers = n }))
  ends :
      (f : Frame) (n : ℕ) (cache : Dict Str) (scheduled : List Callback)
      → f.actions ≡ suc n
      → Schedules scheduled
      → Tick E unlocked f (record f {
        actions = n;
        window = record f.window { cache = cache };
        queue = f.queue ++ scheduled;
      })
  runs :
      (f f' : Frame) (c : Callback) (rest : List Callback)
      → f.queue ≡ c ∷ rest
      → run_callback false c (record f { queue = rest }) ≡ ok f'
      → Tick E unlocked f f'
  breaks :
      (f : Frame) (c : Callback) (rest : List Callback) (e : Exc) (w : Window) (shown : Sidebar)
      → f.queue ≡ c ∷ rest
      → run_callback false c (record f { queue = rest }) ≡ err e
      → Tick E unlocked f (record f { queue = rest; window = w; sidebar = shown })
  starts : (f : Frame) → f.alive ≡ true → Tick E unlocked f (record f { actions = suc f.actions })
  refreshes : (f : Frame) → f.alive ≡ true → Tick E unlocked f (load false f)
  acts :
      (f : Frame) (w : Window) (shown : Sidebar) (more : ℕ)
      → f.alive ≡ true
      → Step E f.window w
      → Tick E unlocked f (record f { window = w; sidebar = shown; actions = more + f.actions })
  logs_out : (f : Frame) → f.alive ≡ true → Tick E unlocked f (stop f)

-- Any number of steps.
pub data Ticks (E : Env) (unlocked : Bool) : ℕ → Frame → Frame → Type 0 where
  rest : (f : Frame) → Ticks E unlocked zero f f
  tick :
      (n : ℕ) (f g h : Frame)
      → Tick E unlocked f g
      → Ticks E unlocked n g h
      → Ticks E unlocked (suc n) f h
