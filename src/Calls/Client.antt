-- ===== src/Calls/Client.antt =====
-- webrtc_client.js: the methods of `WebRTCClient`. Each runs to its next `await`, and leaves a task.
use elektrine.Base.{
  ℕ, ◌+◌, String, Bool, true, false, not, ◌&&◌, ◌||◌, Option, none, some, List, [], ◌∷◌, ◌++◌,
  if◌then◌else◌, leb, is_some, truthy, or_text, concat, ◌===◌, text_of,
}
use elektrine.Calls.Types.{
  Description, Payload, SignalName, peer_ready, offer, answer, ice_candidate, call_rejected,
  call_ended, call_missed, Sent, sent_offer, Signaling, have_local_offer, other, Caller,
  by_peer_ready, AfterMedia, take_offer, Task, media, held_media, create_offer, set_remote_answer,
  add_candidate, create_restart, Client,
}

abbrev pub max_ice_restart_attempts : ℕ
max_ice_restart_attempts = 2

abbrev is_true : Option Bool → Bool
is_true none = false
is_true (some b) = b

-- `this.channel && this.channel.state === "joined"`
abbrev pub is_joined : Client → Bool
is_joined c = is_true c.channel

abbrev pub await : Task → Client → Client
await t c = record c { tasks = c.tasks ++ t ∷ [] }

-- `pushSignal`
unfoldable pub push_signal : Sent → Client → Client
push_signal m c = if is_joined c then record c { sent = c.sent ++ m ∷ [] } else c

-- `cleanup`; the tracks of the stream are stopped and the peer connection is closed.
unfoldable pub cleanup : Client → Client
cleanup c = if c.cleanup_started then c else record c {
  cleanup_started = true;
  disposed = true;
  ice_restart_timer = false;
  network_handlers = false;
  local_stream = false;
  peer_connection = none;
  channel = none;
  remote_stream = false;
  pending_offer = none;
  ice_candidate_queue = [];
  remote_description_set = false;
  peer_ready = false;
  should_initiate_on_peer_ready = false;
  answer_in_progress = false;
  handled_signals = [];
}

unfoldable pub finish_call : String → Client → Client
unfolding cleanup
finish_call reason client =
    let c = cleanup client in
    if not c.call_ended_notified && c.on_call_ended
    then record c { call_ended_notified = true; ended = c.ended ++ or_text reason "ended" ∷ [] }
    else c

abbrev pub failure : String → String → String
failure message otherwise = concat "failed: " (or_text message otherwise)

-- `endCall` and `rejectCall`
unfoldable pub leave_call : Sent → Client → Client
unfolding push_signal cleanup
leave_call m c = cleanup (push_signal m c)

unfoldable pub create_peer_connection : Client → Client
create_peer_connection c =
    if is_some c.peer_connection
    then c
    else record c { peer_connection = some other; connection_established_notified = false }

unfoldable pub flush_pending_offer : Client → Client
unfolding push_signal
flush_pending_offer c = elim c.pending_offer [
  | none ↦ c
  | some d ↦
      if c.peer_ready && is_joined c
      then (let p = push_signal (sent_offer d) c in record p { pending_offer = none })
      else c
]

-- `initiateOffer`, up to `createOffer`
unfoldable pub initiate_offer : Caller → Client → Client
unfolding create_peer_connection
initiate_offer who c = await (create_offer who) (create_peer_connection c)

unfoldable pub schedule_ice_restart : Client → Client
unfolding finish_call
schedule_ice_restart c =
    if c.disposed
      || c.cleanup_started
      || not (is_some c.peer_connection)
      || not c.remote_description_set
    then c
    else if leb max_ice_restart_attempts c.ice_restart_attempts
    then finish_call "failed: ice_restart_exhausted" c
    else record c { ice_restart_timer = true }

-- `restartIce`, up to `createOffer`
unfoldable pub restart_ice : Client → Client
restart_ice c =
    if c.disposed || c.cleanup_started || not (is_some c.peer_connection) || not (is_joined c)
    then c
    else await create_restart (record c { ice_restart_attempts = c.ice_restart_attempts + 1 })

-- `${event}:…` of `ignoreSignal`
abbrev name_of : SignalName → String
name_of peer_ready = "peer_ready"
name_of offer = "offer"
name_of answer = "answer"
name_of ice_candidate = "ice_candidate"
name_of call_rejected = "call_rejected"
name_of call_ended = "call_ended"
name_of call_missed = "call_missed"

abbrev sdp_type : Option Description → String
sdp_type none = ""
sdp_type (some d) = d.type

abbrev and_then : String → String → String
and_then a b = concat a (concat ":" b)

unfoldable pub signal_key : SignalName → Payload → String
signal_key name p = and_then (name_of name) (
    and_then p.from_user_id (
      and_then p.from_client_session_id
        (and_then p.signal_id (and_then (sdp_type p.sdp) (text_of p.candidate)))))

contains : List String → String → Bool
contains [] k = false
contains (x ∷ xs) k = x === k || contains xs k

-- `ignoreSignal`, without what it remembers
unfoldable pub is_ignored : SignalName → Payload → Client → Bool
unfolding contains
is_ignored name p c =
    truthy p.from_client_session_id && p.from_client_session_id === c.client_session_id
    || contains c.handled_signals (signal_key name p)

abbrev pub remember : SignalName → Payload → Client → Client
remember name p c = record c { handled_signals = signal_key name p ∷ c.handled_signals }

-- `getUserMedia`
abbrev pub request_media : AfterMedia → Client → Client
request_media next c = if c.local_stream then await (held_media next) c else await (media next) c

abbrev pub handle_offer : Option Description → Client → Client
handle_offer none c = c
handle_offer (some d) c = if is_some d.sdp then request_media (take_offer d) c else c

abbrev is_have_local_offer : Option Signaling → Bool
is_have_local_offer (some have_local_offer) = true
is_have_local_offer (some other) = false
is_have_local_offer none = false

abbrev pub handle_answer : Option Description → Client → Client
handle_answer none c = c
handle_answer (some d) c =
    if c.answer_in_progress
      || c.remote_description_set
      || not (is_have_local_offer c.peer_connection)
    then c
    else await set_remote_answer (record c { answer_in_progress = true })

abbrev pub handle_ice_candidate : Option String → Client → Client
handle_ice_candidate none c = c
handle_ice_candidate (some text) c =
    if c.remote_description_set && is_some c.peer_connection
    then await add_candidate (record c { added = c.added ++ text ∷ [] })
    else record c { ice_candidate_queue = c.ice_candidate_queue ++ text ∷ [] }

-- The rest of the "peer_ready" handler: `initiateOffer` fails at an `await`, if at all.
abbrev pub on_peer_ready : Client → Client
on_peer_ready client =
    let c = record client { peer_ready = true } in
    if c.should_initiate_on_peer_ready && not (is_some c.pending_offer)
    then initiate_offer by_peer_ready c
    else flush_pending_offer c
