-- ===== src/Capture/Acts.antt =====
-- background.js: what a capture does to the outside, and how it ends (setActionBadge, and the
-- `catch` of the two captures). The calls of `chrome.action` are taken to succeed.
pub mod Keeps
use elektrine.Base.{
  String, Bool, true, false, ◌&&◌, List, [], ◌∷◌, ◌++◌, map, if◌then◌else◌, truthy, concat,
}
use elektrine.Base.Effects.{Result, ok, err, Does, pure, throw}
use elektrine.Nerve.Types.{Settings}
use elektrine.Nerve.Effects.{State}
use elektrine.Nerve.Storage.{get_settings}
use elektrine.Api.Types.{Json, Fetch}
use elektrine.Capture.Types.{Platform}
use elektrine.Capture.Source.{kairo_error_message}

-- What the worker does to the outside: it asks a remote file's server with HEAD or GET, sends a
-- request to Elektrine, writes to the console, and shows a badge, which a timer clears.
pub data Act : Type 0 where
  head_request download_request : (url : String) → Act
  server : Fetch → Act
  warning : String → Act
  badge_text badge_color : String → Act
  badge_cleared_later : Act

abbrev pub M : Type 0 → Type 0
M A = Does (List Act) A

abbrev pub act : Act → M (Unit {0})
act a acts = (ok tt, acts ++ a ∷ [])

abbrev pub require : Bool → String → M (Unit {0})
require true message = pure tt
require false message = throw message

abbrev pub sent : Result Json × List Fetch → M Json
sent (r, fetches) acts = (r, acts ++ map server fetches)

-- A call of lib/api.js.
abbrev pub call : Does (List Fetch) Json → M Json
call m = sent (m [])

abbrev pub connected : Settings → Bool
connected settings = truthy settings.server_url && truthy settings.api_token

abbrev pub not_connected : String
not_connected = "Connect your Elektrine account before capturing."

unfoldable pub settings_in : State → Result Settings
unfolding get_settings
settings_in s = (get_settings s).0

module _ (p : Platform) where
  abbrev pub badge_acts : String → String → List Act
  badge_acts label color =
      if p.has_badge
      then badge_text label
        ∷ ((if p.has_badge_color then badge_color color ∷ [] else []) ++ badge_cleared_later ∷ [])
      else []

  abbrev pub set_action_badge : String → String → M (Unit {0})
  set_action_badge label color acts = (ok tt, acts ++ badge_acts label color)

  abbrev pub reported : String → Result (Unit {0}) × List Act → List Act
  reported label (ok r, acts) = acts
  reported label (err e, acts) =
      acts ++ warning (concat label (concat " " (kairo_error_message e))) ∷ badge_acts "!" "#a56b68"
