-- ===== src/Voice/Safety.antt =====
-- The page of a voice channel over all events (voice_channel_hook.js).
use elektrine.Base.{
  ℕ, ◌≡◌, refl, ap, String, Bool, not, Option, none, some, List, [], ◌∷◌, get_elem?, inl, inr,
  same_number, Bool-cases,
}
use elektrine.Voice.Types.{
  ice, ChannelState, joining, joined, Session, Join, Pushed, voice_left, voice_joined,
  voice_rejoined, voice_mute_changed, Hook,
}
use elektrine.Voice.Peers.{closed_object, change_object, close_peer}
use elektrine.Voice.Signals.{push_signal}
use elektrine.Voice.Machine.{
  Event, voice_join, voice_leave, voice_toggle_mute, destroyed, reconnected, media_granted,
  media_denied, join_ok, join_error, join_timeout, presence_state, presence_diff, signaled, settle,
  candidate_found, track_added, connection_lost, teardown, join, with_stream, toggle_mute, step,
}
use elektrine.Voice.Machine.{
  close_all, stop_stream, teardown_of, granted_at, denied_at, joined_of, tell_muted, toggle_of,
  rejoined_of, if_open, push, MediaError, with_audio,
}
use elektrine.Voice.Tidy.{
  Owned, IsTidy, change-IsTidy, session-IsTidy, close_peer-IsTidy, handle_presence_state-IsTidy,
  handle_presence_diff-IsTidy,
}
use elektrine.Voice.Tidy.Signals.{push_signal-IsTidy, handle_signal-IsTidy, settle_at-IsTidy}

close_all-IsTidy : (peers : List (ℕ × ℕ)) (h : Hook) → IsTidy h → IsTidy (close_all peers h)
close_all-IsTidy [] h tidy = tidy
close_all-IsTidy ((user, n) ∷ peers) h tidy =
    close_all-IsTidy peers (change_object n closed_object h)
      (change-IsTidy n closed_object h (λ f. f) tidy)

teardown_of-IsTidy :
    (o : Option Session) (h : Hook) → h.session ≡ o → IsTidy h → IsTidy (teardown_of o h)
teardown_of-IsTidy none h e tidy = tidy
teardown_of-IsTidy (some s) h e tidy =
    let owned : Owned (some s) h.streams = rw e at tidy.owned in
    close_all-IsTidy s.peers
      (record h { session = none; streams = stop_stream s.local_stream h.streams })
      (record { owned = rw (owned.0, same_number s.local_stream) refl; flushed = tidy.flushed })

teardown-IsTidy : (h : Hook) → IsTidy h → IsTidy (teardown h)
unfolding teardown
teardown-IsTidy h tidy = teardown_of-IsTidy h.session h refl tidy

push-IsTidy : (m : Pushed) (h : Hook) → IsTidy h → IsTidy (push m h)
push-IsTidy m h tidy = record { owned = tidy.owned; flushed = tidy.flushed }

tell_muted-IsTidy :
    (c : ChannelState) (muted : Bool) (h : Hook) → IsTidy h → IsTidy (tell_muted c muted h)
tell_muted-IsTidy joining muted h tidy = tidy
tell_muted-IsTidy joined muted h tidy = record { owned = tidy.owned; flushed = tidy.flushed }

toggle_of-IsTidy :
    (o : Option Session) (h : Hook) → h.session ≡ o → IsTidy h → IsTidy (toggle_of o h)
toggle_of-IsTidy none h e tidy = tidy
toggle_of-IsTidy (some s) h e tidy =
    let muted = not s.muted in
    let t = record s { muted = muted; tracks_enabled = not muted } in
    push-IsTidy (voice_mute_changed muted) _ (
      tell_muted-IsTidy s.channel muted (record h { session = some t })
        (session-IsTidy s t h e refl (λ f. refl) tidy))

joined_of-IsTidy :
    (o : Option Session) (h : Hook) → h.session ≡ o → IsTidy h → IsTidy (joined_of o h)
joined_of-IsTidy none h e tidy = tidy
joined_of-IsTidy (some s) h e tidy =
    push-IsTidy (voice_joined s.conversation_id) _
      (session-IsTidy s (record s { channel = joined }) h e refl (λ f. f) tidy)

rejoined_of-IsTidy : (o : Option Session) (h : Hook) → IsTidy h → IsTidy (rejoined_of o h)
rejoined_of-IsTidy none h tidy = tidy
rejoined_of-IsTidy (some s) h tidy = push-IsTidy (voice_rejoined s.conversation_id s.muted) h tidy

granted_at-IsTidy :
    (i : ℕ) (o : Option Join) (h : Hook) → h.session ≡ none → IsTidy h → IsTidy (granted_at i o h)
unfolding with_stream
granted_at-IsTidy i none h e tidy = tidy
granted_at-IsTidy i (some j) h e tidy =
    let owned : Owned none h.streams = rw e at tidy.owned in
    record { owned = (ap (λ ns. h.opened ∷ ns) owned, refl); flushed = tidy.flushed }

denied_at-IsTidy :
    (i : ℕ) (e : MediaError) (o : Option Join) (h : Hook) → IsTidy h → IsTidy (denied_at i e o h)
denied_at-IsTidy i e none h tidy = tidy
denied_at-IsTidy i e (some j) h tidy = record { owned = tidy.owned; flushed = tidy.flushed }

if_open-IsTidy :
    (n : ℕ) (f : Hook → Hook) (h : Hook) → IsTidy (f h) → IsTidy h → IsTidy (if_open n f h)
if_open-IsTidy n f h made tidy = elim (Bool-cases (h.objects n).closed) [
  | inl e ↦ rw e tidy
  | inr e ↦ rw e made
]

-- No microphone is granted while a session runs.
abbrev pub AsksAlone : Event → Hook → Type 0
AsksAlone (media_granted i) h = h.session ≡ none
AsksAlone _ h = Unit

-- While no microphone is granted during a session, every event keeps the page tidy: the microphone
-- that runs is the session's, and none runs without a session; it is on exactly if it is not muted;
-- and no candidate waits at a connection that has its remote description.
pub step-IsTidy :
    (parse : String → ℕ) (e : Event) (h : Hook) → AsksAlone e h → IsTidy h → IsTidy (step parse e h)
unfolding step join toggle_mute
step-IsTidy parse (voice_join j) h a tidy =
    let torn = teardown-IsTidy h tidy in record { owned = torn.owned; flushed = torn.flushed }
step-IsTidy parse voice_leave h a tidy =
    push-IsTidy voice_left (teardown h) (teardown-IsTidy h tidy)
step-IsTidy parse voice_toggle_mute h a tidy = toggle_of-IsTidy h.session h refl tidy
step-IsTidy parse destroyed h a tidy = teardown-IsTidy h tidy
step-IsTidy parse reconnected h a tidy = rejoined_of-IsTidy h.session h tidy
step-IsTidy parse (media_granted i) h a tidy = granted_at-IsTidy i (get_elem? h.requests i) h a tidy
step-IsTidy parse (media_denied i e) h a tidy = denied_at-IsTidy i e (get_elem? h.requests i) h tidy
step-IsTidy parse join_ok h a tidy = joined_of-IsTidy h.session h refl tidy
step-IsTidy parse (join_error reason) h a tidy = push-IsTidy _ (teardown h) (teardown-IsTidy h tidy)
step-IsTidy parse join_timeout h a tidy = push-IsTidy _ (teardown h) (teardown-IsTidy h tidy)
step-IsTidy parse (presence_state state) h a tidy = handle_presence_state-IsTidy parse state h tidy
step-IsTidy parse (presence_diff diff) h a tidy = handle_presence_diff-IsTidy parse diff h tidy
step-IsTidy parse (signaled m) h a tidy = handle_signal-IsTidy m h tidy
step-IsTidy parse (settle i fulfils) h a tidy =
    settle_at-IsTidy i fulfils (get_elem? h.tasks i) h tidy
step-IsTidy parse (candidate_found n user c) h a tidy =
    if_open-IsTidy n (push_signal user (ice c)) h (push_signal-IsTidy user (ice c) h tidy) tidy
step-IsTidy parse (track_added n) h a tidy =
    if_open-IsTidy n (change_object n with_audio) h (change-IsTidy n with_audio h (λ f. f) tidy)
      tidy
step-IsTidy parse (connection_lost n user) h a tidy =
    if_open-IsTidy n (close_peer user) h (close_peer-IsTidy user h tidy) tidy
