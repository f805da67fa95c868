-- ===== src/Ui/Polling/Stopping.antt =====
-- The loop of client/src/ui/main_frame.py that loads the messages ends with the logout.
use cs4455_epic.Base.{
  ℕ, ◌+◌, ◌*◌, ◌≤◌, ◌<◌, ◌≡◌, refl, ◌∙◌, arith, Bool, false, List, [], ◌∷◌, ◌++◌,
}
use cs4455_epic.Errors.{Result, ok, err}
use cs4455_epic.Env.{Env}
use cs4455_epic.Ui.Window.{Window, on_send_success}
use cs4455_epic.Ui.Polling.{
  Frame, Callback, populates, reports, reloads, warns, shows_sent, shows_chat, clears, Schedules,
  left_nothing, asked_reload, forwarded_with_change, sent_one, sent_with_change, failed_with_change,
  found_user, accepted_key, load, schedule_poll, load_done, load_raised, run_callback, redraw,
  redraw_opened, load_failure, stop, Tick, fires, loads, raises, ends, runs, breaks, refreshes,
  acts, starts, logs_out, Ticks, rest, tick,
}

-- How many steps may still follow a scheduled call, with it.
pub cost : Callback → ℕ
cost reloads = 3
cost _ = 1

pub queue_work : List Callback → ℕ
unfolding cost
queue_work [] = 0
queue_work (c ∷ queue) = cost c + queue_work queue

queue_work-append : (p q : List Callback) → queue_work (p ++ q) ≡ queue_work p + queue_work q
unfolding queue_work
queue_work-append [] q = omega arith
queue_work-append (c ∷ p) q = omega (arith, queue_work-append p q)

-- What is still to be done: a worker of `_load` schedules one call, another worker at most a warning
-- and a load.
pub work : Frame → ℕ
work f = f.timers + 2 * f.workers + 5 * f.actions + queue_work f.queue

-- The call changes what is shown after the logout, too.
pub late : Callback → ℕ
late (populates inbox sent) = 0
late (reports problem) = 0
late reloads = 0
late _ = 1

pub queue_late : List Callback → ℕ
unfolding late
queue_late [] = 0
queue_late (c ∷ queue) = late c + queue_late queue

queue_late-append : (p q : List Callback) → queue_late (p ++ q) ≡ queue_late p + queue_late q
unfolding queue_late
queue_late-append [] q = omega arith
queue_late-append (c ∷ p) q = omega (arith, queue_late-append p q)

-- Nothing that an action left is still to come: neither its worker nor its calls.
pub IsIdle : Frame → Type 0
IsIdle f = (f.actions ≡ 0) × (queue_late f.queue ≡ 0)

-- What is shown is the same.
pub record ShowsSame (f g : Frame) : Type 0 where
  pub idle : IsIdle g
  pub sidebar : g.sidebar ≡ f.sidebar
  pub conversations : g.window.conversations ≡ f.window.conversations
  pub active_peer : g.window.active_peer ≡ f.window.active_peer

-- `g` is logged out, no timer was set, and only what an action left changes what is shown.
pub record StaysStopped (f g : Frame) : Type 0 where
  pub alive : g.alive ≡ false
  pub timers : g.timers ≤ f.timers
  pub shows_same : IsIdle f → ShowsSame f g

StaysStopped-trans : {f g h : Frame} → StaysStopped f g → StaysStopped g h → StaysStopped f h
StaysStopped-trans a b = record {
  alive = b.alive;
  timers = omega (arith, a.timers, b.timers);
  shows_same = λ idle.
      let one = a.shows_same idle in
      let two = b.shows_same one.idle in
      record {
        idle = two.idle;
        sidebar = two.sidebar ∙ one.sidebar;
        conversations = two.conversations ∙ one.conversations;
        active_peer = two.active_peer ∙ one.active_peer;
      };
}

-- Less is left to be done.
abbrev Settles : Frame → Frame → Type 0
Settles f g = StaysStopped f g × (work g < work f)

-- A step that changes nothing that is shown.
calm :
    (f g : Frame)
    → g.alive ≡ false
    → g.timers ≤ f.timers
    → g.sidebar ≡ f.sidebar
    → g.window.conversations ≡ f.window.conversations
    → g.window.active_peer ≡ f.window.active_peer
    → (IsIdle f → IsIdle g)
    → StaysStopped f g
calm f g alive timers sidebar conversations active_peer idles = record {
  alive = alive;
  timers = timers;
  shows_same = λ idle. record {
    idle = idles idle;
    sidebar = sidebar;
    conversations = conversations;
    active_peer = active_peer;
  };
}

-- At most a warning and a load.
Schedules-work : (cs : List Callback) → Schedules cs → queue_work cs ≤ 4
unfolding queue_work cost
Schedules-work _ left_nothing = omega arith
Schedules-work _ asked_reload = omega arith
Schedules-work _ (forwarded_with_change p) = omega arith
Schedules-work _ (sent_one p name m) = omega arith
Schedules-work _ (sent_with_change p name m) = omega arith
Schedules-work _ (failed_with_change p) = omega arith
Schedules-work _ (found_user p name) = omega arith
Schedules-work _ (accepted_key p) = omega arith

module _ (f g : Frame) (c : Callback) (q : List Callback) (out : f.alive ≡ false)
    (is : f.queue ≡ c ∷ q) where
  -- A call of an action, which may change what is shown.
  late-Settles :
      g.alive ≡ false
      → g.timers ≡ f.timers
      → g.workers ≡ f.workers
      → g.actions ≡ f.actions
      → g.queue ≡ q
      → late c ≡ 1
      → cost c ≡ 1
      → Settles f g
  unfolding work queue_work queue_late IsIdle
  late-Settles a t w n k l o = (
    record {
      alive = a;
      timers = omega (arith, t);
      shows_same = λ idle. absurd (ground (arith, idle));
    },
    ground arith,
  )

  redrawn-Settles :
      (opened : Result Window)
      → late c ≡ 1
      → cost c ≡ 1
      → redraw_opened (record f { queue = q }) opened ≡ ok g
      → Settles f g
  unfolding redraw_opened redraw
  redrawn-Settles (ok w) l o h =
      late-Settles (ground arith) (ground arith) (ground arith) (ground arith) (ground arith) l o
  redrawn-Settles (err e) l o h = absurd (ground arith)

module _ (E : Env) (unlocked : Bool) where
  callback-Settles :
      (f g : Frame) (c : Callback) (q : List Callback)
      → f.alive ≡ false
      → f.queue ≡ c ∷ q
      → run_callback false c (record f { queue = q }) ≡ ok g
      → Settles f g
  unfolding run_callback load redraw work queue_work cost late queue_late IsIdle
  callback-Settles f g (populates inbox sent) q out is h = (
    calm f g (ground arith) (ground arith) (ground arith) (ground arith) (ground arith)
        (λ idle. ground arith),
    ground arith,
  )
  callback-Settles f g (reports problem) q out is h = (
    calm f g (ground arith) (ground arith) (ground arith) (ground arith) (ground arith)
        (λ idle. ground arith),
    ground arith,
  )
  callback-Settles f g reloads q out is h = (
    calm f g (ground arith) (ground arith) (ground arith) (ground arith) (ground arith)
        (λ idle. ground arith),
    ground arith,
  )
  callback-Settles f g (warns p) q out is h =
      late-Settles f g (warns p) q out is (ground arith) (ground arith) (ground arith)
        (ground arith) (ground arith) refl refl
  callback-Settles f g (shows_sent p name m) q out is h =
      redrawn-Settles f g (shows_sent p name m) q out is (on_send_success p name m f.window) refl
        refl h
  callback-Settles f g (shows_chat p name) q out is h =
      redrawn-Settles f g (shows_chat p name) q out is _ refl refl h
  callback-Settles f g (clears p) q out is h =
      late-Settles f g (clears p) q out is (ground arith) (ground arith) (ground arith)
        (ground arith) (ground arith) refl refl

  Tick-Settles : (f g : Frame) → Tick E unlocked f g → f.alive ≡ false → Settles f g
  unfolding schedule_poll load_done load_raised work queue_work cost run_callback late queue_late
      IsIdle redraw_opened
  Tick-Settles _ _ (fires f n is) out = (
    calm f _ (ground arith) (ground arith) (ground arith) (ground arith) (ground arith)
        (λ idle. ground arith),
    ground arith,
  )
  Tick-Settles _ _ (loads f n s received own cache inbox sent is h p q) out = (
    calm f _ (ground arith) (ground arith) (ground arith) (ground arith) (ground arith)
        (λ idle. ground arith),
    ground arith,
  )
  Tick-Settles _ _ (raises f n s cache e is h) out =
      let call = reports (load_failure e) ∷ [] in
      (
        calm f _ (ground arith) (ground arith) (ground arith) (ground arith) (ground arith)
            (λ idle. ground (arith, queue_late-append f.queue call)),
        ground (arith, queue_work-append f.queue call),
      )
  Tick-Settles _ _ (ends f n cache cs is left) out = (
    calm f _ (ground arith) (ground arith) (ground arith) (ground arith) (ground arith)
        (λ idle. absurd (ground arith)),
    ground (arith, queue_work-append f.queue cs, Schedules-work cs left),
  )
  Tick-Settles _ _ (runs f f' c q is h) out = callback-Settles f f' c q out is h
  Tick-Settles _ _ (breaks f (populates inbox sent) q e w shown is h) out = absurd (ground arith)
  Tick-Settles _ _ (breaks f (reports problem) q e w shown is h) out = absurd (ground arith)
  Tick-Settles _ _ (breaks f reloads q e w shown is h) out = absurd (ground arith)
  Tick-Settles _ _ (breaks f (warns p) q e w shown is h) out = absurd (ground arith)
  Tick-Settles _ _ (breaks f (shows_sent p name m) q e w shown is h) out =
      late-Settles f _ (shows_sent p name m) q out is out refl refl refl refl refl refl
  Tick-Settles _ _ (breaks f (shows_chat p name) q e w shown is h) out =
      late-Settles f _ (shows_chat p name) q out is out refl refl refl refl refl refl
  Tick-Settles _ _ (breaks f (clears p) q e w shown is h) out = absurd (ground arith)
  Tick-Settles _ _ (refreshes f is) out = absurd (ground arith)
  Tick-Settles _ _ (starts f is) out = absurd (ground arith)
  Tick-Settles _ _ (acts f w shown more is h) out = absurd (ground arith)
  Tick-Settles _ _ (logs_out f is) out = absurd (ground arith)

  settles :
      (n : ℕ) (f g : Frame)
      → Ticks E unlocked n f g
      → f.alive ≡ false
      → (n + work g ≤ work f) × StaysStopped f g
  settles _ _ _ (rest f) out =
      (omega arith, calm f f out (omega arith) refl refl refl (λ idle. idle))
  settles _ _ _ (tick n f g h one more) out =
      let (first, less) = Tick-Settles f g one out in
      let (bound, later) = settles n g h more first.alive in
      (omega (arith, less, bound), StaysStopped-trans first later)

  -- After the logout at most as many steps follow as work was left: one for each timer, two for
  -- each worker of `_load`, five for each worker of an action, three for each scheduled `_load` and
  -- one for each other scheduled call. No timer is set again, and the frame stays stopped. Where no
  -- worker of an action runs at the logout, and no call of one is scheduled but of `_load`, the
  -- list of chats, the conversations and the open chat stay as they were: what a worker of `_load`
  -- has loaded is never shown. (The calls of a send, a new chat, a forward or an accepted key still
  -- change them.)
  pub logout_settles :
      (n : ℕ) (f g : Frame) → Ticks E unlocked n (stop f) g → (n ≤ work f) × StaysStopped f g
  unfolding stop work IsIdle
  logout_settles n f g ticks =
      let (bound, stays) = settles n (stop f) g ticks refl in
      (
        omega (arith, bound),
        record {
          alive = stays.alive;
          timers = stays.timers;
          shows_same = λ idle.
              let same = stays.shows_same idle in
              record {
                idle = same.idle;
                sidebar = same.sidebar;
                conversations = same.conversations;
                active_peer = same.active_peer;
              };
        },
      )
