-- ===== src/Voice/Machine.antt =====
-- voice_channel_hook.js: what happens to the hook, one event at a time.
use elektrine.Base.{
  ℕ, ◌+◌, String, Bool, true, false, not, Option, none, some, List, [], ◌∷◌, ◌++◌, if◌then◌else◌,
  ◌==◌, ◌||◌, ◌&&◌, ◌===◌, get_elem?, remove_at, keep_if, text_of, or_text, includes,
}
use elektrine.Voice.Types.{
  Presence, Diff, ice, Signal, Peer, ChannelState, joining, joined, infinity, Session, Join, Pushed,
  voice_left, voice_error, voice_joined, voice_rejoined, voice_mute_changed, set_muted, Task, Hook,
}
use elektrine.Voice.Peers.{change_object, close_peer, handle_presence_state, handle_presence_diff}
use elektrine.Voice.Signals.{push_signal, handle_signal, fulfilled, is_possible, rejected}

pub record MediaError : Type 0 where
  pub name : String
  pub message : String

-- `mapMediaError`, of an error that is there.
unfoldable pub map_media_error : MediaError → String
map_media_error e =
    let message = or_text e.message "Unable to access microphone." in
    if e.name === "NotAllowedError" || includes message "Permission denied"
    then "Microphone access denied. Please allow access in your browser settings and try again."
    else if e.name === "NotFoundError"
    then "No microphone found. Please connect one and try again."
    else if includes message "secure origin"
    then "Voice channels require HTTPS. Please use a secure connection."
    else message

-- The channel's events reach the hook while the channel is the session's.
pub data Event : Type 0 where
  voice_join : Join → Event
  voice_leave : Event
  voice_toggle_mute : Event
  destroyed : Event
  reconnected : Event
  media_granted : ℕ → Event
  media_denied : ℕ → MediaError → Event
  join_ok : Event
  join_error : Option String → Event
  join_timeout : Event
  presence_state : Presence → Event
  presence_diff : Diff → Event
  signaled : Signal → Event
  settle : ℕ → (fulfils : Bool) → Event
  candidate_found : (object user : ℕ) → String → Event
  track_added : (object : ℕ) → Event
  connection_lost : (object user : ℕ) → Event

abbrev pub push : Pushed → Hook → Hook
push m h = record h { pushed = h.pushed ++ m ∷ [] }

abbrev pub close_all : List (ℕ × ℕ) → Hook → Hook
close_all [] h = h
close_all ((user, n) ∷ peers) h =
    close_all peers (change_object n (λ p. record p { closed = true; has_audio = false }) h)

abbrev pub stop_stream : ℕ → List ℕ → List ℕ
stop_stream n streams = keep_if (λ m. not (m == n)) streams

abbrev pub teardown_of : Option Session → Hook → Hook
teardown_of none h = h
teardown_of (some s) h =
    close_all s.peers (record h { session = none; streams = stop_stream s.local_stream h.streams })

unfoldable pub teardown : Hook → Hook
teardown h = teardown_of h.session h

-- Up to the await of the microphone.
unfoldable pub join : Join → Hook → Hook
unfolding teardown
join j h = let t = teardown h in record t { requests = t.requests ++ j ∷ [] }

unfoldable pub with_stream : Join → Hook → Hook
with_stream j h = record h {
  streams = h.opened ∷ h.streams;
  opened = h.opened + 1;
  session = some (record {
    conversation_id = j.conversation_id;
    user_id = j.user_id;
    channel = joining;
    local_stream = h.opened;
    tracks_enabled = true;
    peers = [];
    my_joined_at = infinity;
    muted = false;
  });
}

abbrev pub without_request : ℕ → Hook → Hook
without_request i h = record h { requests = remove_at h.requests i }

abbrev pub granted_at : ℕ → Option Join → Hook → Hook
granted_at i none h = h
granted_at i (some j) h = with_stream j (without_request i h)

abbrev pub denied_at : ℕ → MediaError → Option Join → Hook → Hook
denied_at i e none h = h
denied_at i e (some j) h = push (voice_error (map_media_error e)) (without_request i h)

abbrev pub joined_of : Option Session → Hook → Hook
joined_of none h = h
joined_of (some s) h =
    push (voice_joined s.conversation_id)
      (record h { session = some (record s { channel = joined }) })

abbrev pub tell_muted : ChannelState → Bool → Hook → Hook
tell_muted joining muted h = h
tell_muted joined muted h = record h { sent = h.sent ++ set_muted muted ∷ [] }

abbrev pub toggle_of : Option Session → Hook → Hook
toggle_of none h = h
toggle_of (some s) h =
    let muted = not s.muted in
    push (voice_mute_changed muted) (
      tell_muted s.channel muted
        (record h { session = some (record s { muted = muted; tracks_enabled = not muted }) }))

unfoldable pub toggle_mute : Hook → Hook
toggle_mute h = toggle_of h.session h

abbrev pub rejoined_of : Option Session → Hook → Hook
rejoined_of none h = h
rejoined_of (some s) h = push (voice_rejoined s.conversation_id s.muted) h

abbrev pub settle_at : ℕ → Bool → Option Task → Hook → Hook
settle_at i fulfils none h = h
settle_at i fulfils (some t) h =
    let left = record h { tasks = remove_at h.tasks i } in
    if fulfils && is_possible t h then fulfilled t left else rejected t left

abbrev pub if_open : ℕ → (Hook → Hook) → Hook → Hook
if_open n f h = if (h.objects n).closed then h else f h

abbrev pub with_audio : Peer → Peer
with_audio p = record p { has_audio = true }

unfoldable pub step : (String → ℕ) → Event → Hook → Hook
unfolding join teardown with_stream toggle_mute map_media_error handle_presence_state
    handle_presence_diff handle_signal fulfilled rejected push_signal close_peer
step parse (voice_join j) h = join j h
step parse voice_leave h = push voice_left (teardown h)
step parse voice_toggle_mute h = toggle_mute h
step parse destroyed h = teardown h
step parse reconnected h = rejoined_of h.session h
step parse (media_granted i) h = granted_at i (get_elem? h.requests i) h
step parse (media_denied i e) h = denied_at i e (get_elem? h.requests i) h
step parse join_ok h = joined_of h.session h
step parse (join_error reason) h =
    push (voice_error (or_text (text_of reason) "join_failed")) (teardown h)
step parse join_timeout h = push (voice_error "Connection timed out") (teardown h)
step parse (presence_state state) h = handle_presence_state parse state h
step parse (presence_diff diff) h = handle_presence_diff parse diff h
step parse (signaled m) h = handle_signal m h
step parse (settle i fulfils) h = settle_at i fulfils (get_elem? h.tasks i) h
step parse (candidate_found n user c) h = if_open n (push_signal user (ice c)) h
step parse (track_added n) h = if_open n (change_object n with_audio) h
step parse (connection_lost n user) h = if_open n (close_peer user) h

unfoldable pub run : (String → ℕ) → List Event → Hook → Hook
unfolding step
run parse [] h = h
run parse (e ∷ es) h = run parse es (step parse e h)
