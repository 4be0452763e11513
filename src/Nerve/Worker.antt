-- ===== src/Nerve/Worker.antt =====
-- background.js: the worker as a machine that takes one event after the other.
pub mod Expiry
pub mod Tabs
pub mod Senders
use elektrine.Base.{ℕ, ◌+◌, true, Option, none, some, List, [], ◌∷◌, leb, if◌then◌else◌}
use elektrine.Nerve.Types.{Env}
use elektrine.Nerve.Effects.{State}
use elektrine.Nerve.Urls.{Sender}
use elektrine.Nerve.Session.{clear_runtime_session_passphrase}
use elektrine.Nerve.Save.{cleanup_tab_state}
use elektrine.Nerve.Messages.{Message, handle_message}

-- Time passes with `wait` alone. The passphrase timer may fire late, or never; `restart` is the
-- browser stopping the worker and starting it again, which keeps `chrome.storage` only.
pub data Event : Type 0 where
  message : Message → Sender → Event
  tab_removed : ℕ → Event
  wait : ℕ → Event
  timeout restart : Event

-- The state in which the module's variables start.
unfoldable pub restarted : State → State
restarted s = record s { passphrase = ""; expires_at = 0; timer = none; pending = [] }

abbrev pub fire : Env → State → Option ℕ → State
fire env s none = s
fire env s (some due) = if leb due s.now then (clear_runtime_session_passphrase env true s).1 else s

unfoldable pub step : Env → State → Event → State
unfolding restarted
step env s (message m sender) = (handle_message env m sender s).1
step env s (tab_removed tab) = (cleanup_tab_state (some tab) s).1
step env s (wait n) = record s { now = s.now + n }
step env s timeout = fire env s s.timer
step env s restart = restarted s

unfoldable pub run : Env → State → List Event → State
run env s [] = s
run env s (e ∷ es) = run env (step env s e) es
