-- ===== src/Ui/Polling/Timing.antt =====
-- The timer of `_schedule_poll` in client/src/ui/main_frame.py.
use cs4455_epic.Base.{ℕ, ◌≤◌, ◌≡◌, refl, ◌⊎◌, inl, inr, arith, Bool, false, List}
use cs4455_epic.Base.Dict.{Dict}
use cs4455_epic.Base.Text.{Str}
use cs4455_epic.Errors.{Result, Result-cases, ok, err}
use cs4455_epic.Ui.Window.{Window, open_chat, ensure_conversation, on_send_success}
use cs4455_epic.Env.{Env}
use cs4455_epic.Ui.Conversations.Grouping.{Message}
use cs4455_epic.Ui.Populate.{populate}
use cs4455_epic.Ui.Polling.{
  Frame, Callback, populates, reports, reloads, load, schedule_poll, load_done, load_raised,
  run_callback, show_messages, show_load_error, stop, open_frame, Tick, fires, loads, raises, ends,
  runs, breaks, refreshes, acts, starts, warns, shows_sent, shows_chat, clears, redraw,
  redraw_opened, logs_out, Ticks, rest, tick,
}

-- One timer is set while the frame is alive, and at most one after the logout.
pub IsPolling : Frame → Type 0
IsPolling f = (f.timers ≤ 1) × ((f.alive ≡ false) ⊎ (f.timers ≡ 1))

show_messages_timers :
    (inbox sent : List Message) (f g : Frame)
    → show_messages inbox sent f ≡ ok g
    → (g.timers ≡ f.timers) × (g.alive ≡ f.alive)
unfolding show_messages
show_messages_timers inbox sent f g h =
    let w = f.window in
    elim (Result-cases (populate w.active_peer w.conversations w.cache inbox sent)) [
      | inl (p, x) ↦ ground arith
      | inr (e, x) ↦ absurd (ground arith)
    ]

redrawn_timers :
    (f g : Frame) (opened : Result Window)
    → redraw_opened f opened ≡ ok g
    → (g.timers ≡ f.timers) × (g.alive ≡ f.alive)
unfolding redraw_opened redraw
redrawn_timers f g (ok w) h = ground arith
redrawn_timers f g (err e) h = absurd (ground arith)

module _ (E : Env) (unlocked : Bool) where
  callback-IsPolling :
      (f g : Frame) (c : Callback) (q : List Callback)
      → run_callback false c (record f { queue = q }) ≡ ok g
      → IsPolling f
      → IsPolling g
  unfolding run_callback load show_load_error redraw IsPolling
  callback-IsPolling f g (populates inbox sent) q h polling =
      ground (arith, show_messages_timers inbox sent (record f { queue = q }) g)
  callback-IsPolling f g (reports problem) q h polling = ground arith
  callback-IsPolling f g reloads q h polling = ground arith
  callback-IsPolling f g (warns p) q h polling = ground arith
  callback-IsPolling f g (shows_sent p name m) q h polling =
      ground (arith, redrawn_timers (record f { queue = q }) g (on_send_success p name m f.window))
  callback-IsPolling f g (shows_chat p name) q h polling =
      let opened =
        open_chat p
          (record f.window { conversations = ensure_conversation p name f.window.conversations }) in
      ground (arith, redrawn_timers (record f { queue = q }) g opened)
  callback-IsPolling f g (clears p) q h polling = ground arith

  Tick-IsPolling : (f g : Frame) → Tick E unlocked f g → IsPolling f → IsPolling g
  unfolding schedule_poll load_done load_raised load stop IsPolling
  Tick-IsPolling _ _ (fires f n is) polling = ground arith
  Tick-IsPolling _ _ (loads f n s received own cache inbox sent is h p q) polling = polling
  Tick-IsPolling _ _ (raises f n s cache e is h) polling = polling
  Tick-IsPolling _ _ (ends f n cache cs is s) polling = polling
  Tick-IsPolling _ _ (starts f is) polling = polling
  Tick-IsPolling _ _ (runs f f' c q is h) polling = callback-IsPolling f f' c q h polling
  Tick-IsPolling _ _ (breaks f c q e w shown is h) polling = polling
  Tick-IsPolling _ _ (refreshes f is) polling = polling
  Tick-IsPolling _ _ (acts f w shown more is h) polling = polling
  Tick-IsPolling _ _ (logs_out f is) polling = (polling.0, inl refl)

  Ticks-IsPolling : (n : ℕ) (f g : Frame) → Ticks E unlocked n f g → IsPolling f → IsPolling g
  Ticks-IsPolling _ _ _ (rest f) polling = polling
  Ticks-IsPolling _ _ _ (tick n f g h one more) polling =
      Ticks-IsPolling n g h more (Tick-IsPolling f g one polling)

  -- Along any steps from the start, whatever the server answers and whichever worker ends first: one
  -- timer is set as long as nobody has logged out, so the polling neither stops nor doubles, and
  -- there is at most one after the logout.
  pub reached-IsPolling :
      (n : ℕ) (cache : Dict Str) (f : Frame)
      → Ticks E unlocked n (open_frame false cache) f
      → IsPolling f
  unfolding open_frame load schedule_poll IsPolling
  reached-IsPolling n cache f ticks =
      Ticks-IsPolling n (open_frame false cache) f ticks (omega arith, inr refl)
