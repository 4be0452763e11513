-- ===== src/Presence/Tracker.antt =====
-- presence_hooks.js: ActivityTracker, one event at a time.
use elektrine.Base.{
  ℕ, ◌+◌, Bool, true, false, Option, none, some, List, [], ◌∷◌, ◌++◌, if◌then◌else◌, leb,
}

-- What the page tells the server.
pub data Push : Type 0 where
  auto_away_timeout : Push
  user_activity : Push

-- `awayTimeout` is the time at which the timer is due. `listening` is whether the listeners are
-- there, `connected` what `isHookConnected` finds, and `pushed` what was sent, in order.
pub record Tracker : Type 0 where
  pub is_away : Bool
  pub away_timeout : Option ℕ
  pub listening : Bool
  pub connected : Bool
  pub now : ℕ
  pub pushed : List Push

-- What happens to the page: an activity; the page is shown or hidden; time passes; the timer fires;
-- the server's two events; the connection comes or goes; the hook ends.
pub data Event : Type 0 where
  activity : Event
  visibility : (visible : Bool) → Event
  wait : ℕ → Event
  timeout : Event
  auto_away_set : (was_auto : Bool) → Event
  auto_away_cleared : Event
  connection : Bool → Event
  destroyed : Event

abbrev pub auto_away_time : ℕ
auto_away_time = 300000

abbrev pub safe_push_event : Push → Tracker → Tracker
safe_push_event p s = if s.connected then record s { pushed = s.pushed ++ p ∷ [] } else s

abbrev pub reset_away_timer : Tracker → Tracker
reset_away_timer s = record s { away_timeout = some (s.now + auto_away_time) }

abbrev pub back : Tracker → Tracker
back s = if s.is_away then safe_push_event user_activity (record s { is_away = false }) else s

unfoldable pub handle_activity : Tracker → Tracker
handle_activity s = back (reset_away_timer s)

abbrev pub handle_visibility_change : Bool → Tracker → Tracker
handle_visibility_change visible s = if visible then back (reset_away_timer s) else s

-- The callback of the timer.
abbrev pub away_now : Tracker → Tracker
away_now s =
    if s.is_away then s else safe_push_event auto_away_timeout (record s { is_away = true })

abbrev pub fire : Option ℕ → Tracker → Tracker
fire none s = s
fire (some due) s = if leb due s.now then away_now (record s { away_timeout = none }) else s

abbrev pub when_listening : (Tracker → Tracker) → Tracker → Tracker
when_listening f s = if s.listening then f s else s

unfoldable pub mounted : (now : ℕ) → Tracker
mounted now = record {
  is_away = false;
  away_timeout = some (now + auto_away_time);
  listening = true;
  connected = true;
  now = now;
  pushed = [];
}

unfoldable pub step : Event → Tracker → Tracker
unfolding handle_activity
step activity s = when_listening handle_activity s
step (visibility visible) s = when_listening (handle_visibility_change visible) s
step (wait n) s = record s { now = s.now + n }
step timeout s = fire s.away_timeout s
step (auto_away_set was_auto) s =
    when_listening (λ t. if was_auto then record t { is_away = true } else t) s
step auto_away_cleared s = when_listening (λ t. record t { is_away = false }) s
step (connection up) s = record s { connected = up }
step destroyed s = record s { listening = false; away_timeout = none }

unfoldable pub run : List Event → Tracker → Tracker
unfolding step
run [] s = s
run (e ∷ es) s = run es (step e s)
